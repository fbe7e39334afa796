-- ===== src/Backend/Credentials.antt =====
-- The credentials that an enrollment hands out, and the session that they open.
use arxveil.Prelude.{
  ℕ, ◌≡◌, ◌≢◌, refl, sym, ap, subst, ◌∙◌, Bool, true, some, [], ◌∷◌, length, nat_eq, ◌==◌, ◌&&◌,
  eq_refl, arith,
}
use arxveil.Go.Text.{Bytes, trim_space}
use arxveil.Go.Text.Trim.{trim_space-fixed}
use arxveil.Go.Fault.{ok}
use arxveil.Go.Reader.{Reader}
use arxveil.Go.Sha256.{sum256}
use arxveil.Enrollment.{Input, EnrolledAgent, StoredEnrollment}
use arxveil.Enrollment.Validation.Accepted.{normal_form}
use arxveil.Enrollment.Service
use arxveil.Enrollment.Service.Laws
use arxveil.Presence.Authentication.{open_session_authentic}
use arxveil.Presence.{Session, open_session}
use arxveil.Postgres.{Server, World, autocommit}
use arxveil.Postgres.Schema.{AgentIdentity, Database, find_row, machine_of}
use arxveil.Postgres.Statements.{select_active_identity, is_active}
use arxveil.Postgres.EnrollmentStore
use arxveil.Postgres.EnrollmentStore.{enrollment_store}
use arxveil.Postgres.EnrollmentStore.Effects.{
  enroll_commits, enrolled_tables, new_machine, new_identity,
}
use arxveil.Postgres.PresenceStore.{
  presence_store, find_active_identity, start_session, identity_of,
}
use arxveil.Postgres.PresenceStore.Effects.{ReadsUuids}
use arxveil.Postgres.PresenceStore.Progress.{NoOutage, start_session_succeeds}

module _ (pg : Server) (up : NoOutage pg) (w : World) {agent_id : Bytes} {agent : ℕ}
    {i : AgentIdentity} where
  -- The lookup reads the committed tables and leaves them.
  find_active_identity_succeeds :
      pg.parse_uuid agent_id ≡ some agent
      → find_row (λ r. r.agent_id == agent && is_active r) w.committed.agent_identities ≡ some i
      → ((find_active_identity pg agent_id w).0 ≡ ok (some (identity_of pg i)))
        × ((find_active_identity pg agent_id w).1.committed ≡ w.committed)
  unfolding find_active_identity autocommit select_active_identity
  find_active_identity_succeeds parsed found = ground (arith, parsed, found, up w.event)

nonempty : (s : Bytes) → length s ≡ 43 → s ≢ []
nonempty [] h = absurd (omega arith)
nonempty (x ∷ s) h = λ e. cc

pair : {A B : Type 0} {a : A} (p : A × B) → p.0 ≡ a → p ≡ (a, p.1)
pair p e = ap (λ x. (x, p.1)) e

module _ (pg : Server) (input : StoredEnrollment) (n : ℕ) (db : Database) where
  enrolled_identity :
      find_row
        (λ r. r.agent_id == (new_identity pg input n).agent_id && is_active r)
        (enrolled_tables pg input n db).agent_identities
      ≡ some (new_identity pg input n)
  unfolding find_row
  enrolled_identity = rw (eq_refl (new_identity pg input n).agent_id)

  enrolled_machine :
      machine_of (new_machine pg input n).id (enrolled_tables pg input n db)
      ≡ some (new_machine pg input n)
  unfolding find_row
  enrolled_machine = rw (eq_refl (new_machine pg input n).id)

-- What the library promises of the UUIDs that the database writes.
abbrev pub WritesUuids : Server → (Bytes → Bool) → Type 0
WritesUuids pg is_uuid = (u : ℕ) → is_uuid (pg.show_uuid u) ≡ true

module _ (pg : Server) (is_uuid : Bytes → Bool) (up : NoOutage pg) (reads : ReadsUuids pg)
    (writes : WritesUuids pg is_uuid) where
  stored_identity_opens :
      (input : StoredEnrollment) (w : World) {machine_id agent_id : Bytes} (secret : Bytes)
      → (EnrollmentStore.enroll pg input w).0 ≡ ok (machine_id, agent_id)
      → input.credential_hash ≡ sum256 secret
      → trim_space secret ≢ []
      → (session : Session) × ((open_session is_uuid
            (presence_store pg)
            (record { agent_id = agent_id; secret = secret })
            (EnrollmentStore.enroll pg input w).1).0
          ≡ ok session)
        × (session.machine_id ≡ machine_id)
        × (session.agent_id ≡ agent_id)
  stored_identity_opens input w {machine_id} {agent_id} secret enrolled hash nonblank =
      let (tables, fresh, is_machine, is_agent) = enroll_commits pg input w (reads _) enrolled in
      let w' = (EnrollmentStore.enroll pg input w).1 in
      let identity = new_identity pg input w.event in
      let parsed : pg.parse_uuid agent_id ≡ some identity.agent_id =
        ap pg.parse_uuid is_agent ∙ reads _ in
      let held =
        ap
          (λ (db : Database).
            find_row (λ r. r.agent_id == identity.agent_id && is_active r) db.agent_identities)
          tables
        ∙ enrolled_identity pg input w.event w.committed in
      let (found, kept) = find_active_identity_succeeds pg up w' parsed held in
      let w'' = (find_active_identity pg agent_id w').1 in
      let there =
        ap (machine_of identity.machine_id) (kept ∙ tables)
        ∙ enrolled_machine pg input w.event w.committed in
      let started =
        start_session_succeeds pg up (pg.show_uuid identity.machine_id) w'' (reads _) there in
      (
        _,
        ap (λ p. p.0)
            (open_session_authentic is_uuid (presence_store pg) _ w'
              (record {
                well_formed = ap is_uuid is_agent ∙ writes _;
                nonblank = nonblank;
                same_hash = sym hash;
              })
              (pair (find_active_identity pg agent_id w') found)
              (pair (start_session pg (pg.show_uuid identity.machine_id) w'') started)),
        sym is_machine,
        sym is_agent,
      )

  -- Suppose that no request fails, that the driver reads back every UUID that it writes, and that
  -- the UUID library accepts these texts. When an enrollment succeeds, the agent ID and the secret
  -- that it returns open a session directly after it, for the machine and the agent that it
  -- returns.
  pub enrolled_agent_authenticates :
      (given : Input) (w : World) (r : Reader) (agent : EnrolledAgent)
      → (Service.enroll (enrollment_store pg) given (w, r)).0 ≡ ok agent
      → (session : Session) × ((open_session is_uuid
            (presence_store pg)
            (record { agent_id = agent.agent_id; secret = agent.secret })
            (Service.enroll (enrollment_store pg) given (w, r)).1.0).0
          ≡ ok session)
        × (session.machine_id ≡ agent.machine_id)
        × (session.agent_id ≡ agent.agent_id)
  enrolled_agent_authenticates given w r agent enrolled =
      let (acceptable, stored_ok, state, long, trimmed) =
        Laws.enroll-ok (enrollment_store pg) given w r agent enrolled in
      let (session, opens, machine, same) =
        stored_identity_opens (Service.stored (sum256 agent.secret) (normal_form given)) w
          agent.secret stored_ok refl
          (subst (λ t. t ≢ []) (sym (trim_space-fixed agent.secret trimmed))
            (nonempty agent.secret long)) in
      (
        session,
        subst
            (λ x.
              (open_session is_uuid (presence_store pg)
                (record { agent_id = agent.agent_id; secret = agent.secret }) x).0
              ≡ ok session)
            (sym state) opens,
        machine,
        same,
      )
