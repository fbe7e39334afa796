-- ===== src/Postgres/History/Distinct.antt =====
-- The IDs of two enrollments, with any calls of the stores in between.
use mathlib.Core.Option.{some-injective}
use arxveil.Prelude.{
  ℕ, ◌≡◌, ◌≢◌, refl, sym, ap, ◌∙◌, inl, inr, Bool, true, false, List, [], ◌∷◌, nat_eq, option_eq,
  ◌==◌, eq_refl, arith,
}
use arxveil.Go.Text.{Bytes}
use arxveil.Go.Fault.{ok}
use arxveil.Enrollment.{StoredEnrollment}
use arxveil.Presence.{Session}
use arxveil.Telemetry.{Sample}
use arxveil.Postgres.{Server, World}
use arxveil.Postgres.Schema.{Database, find_row}
use arxveil.Postgres.Schema.Integrity.{find_row-none}
use arxveil.Postgres.Statements.{is_some}
use arxveil.Postgres.EnrollmentStore.{enroll}
use arxveil.Postgres.EnrollmentStore.Effects.{
  enroll-effect, enroll_commits, enrolled_tables, new_machine, new_identity,
}
use arxveil.Postgres.PresenceStore.Effects.{
  start_session-effect, touch_session-effect, end_session-effect, started_tables, touched_tables,
  ended_tables, ReadsUuids, go_online, see_again, go_offline,
}
use arxveil.Postgres.PresenceStore.Consistency.{IsConsistent}
use arxveil.Postgres.TelemetryStore.Effects.{record_sample-effect, recorded_tables}
use arxveil.Postgres.History.{Call, enrolls, finds, starts, touches, ends, records, step, run}
use arxveil.Postgres.History.Invariant.{find_changes_nothing, step-IsConsistent}
use arxveil.Postgres.History.Connections.{
  unregistered, disconnected, connected, connection, Connection, View, view, becomes, ◌≗◌, Does,
  nothing, registers, connects, disconnects, Replays,
}
use arxveil.Postgres.History.Connections.Views.{view-enrolled}
use arxveil.Postgres.History.Connections.Refinement.{run_refines}

-- A machine that is registered stays so.
stays_at :
    (v u : View) (id j : ℕ) (c : Connection)
    → c ≢ unregistered
    → u ≗ becomes j c v
    → v id ≢ unregistered
    → u id ≢ unregistered
stays_at v u id j c known e h q = go (id == j) refl
  where
    go : (b : Bool) → (id == j) ≡ b → ⊥
    go true same = known (ground (arith, e id, q, same))
    go false differ = h (ground (arith, e id, q, differ))

module _ (pg : Server) (id : ℕ) where
  Does-registered :
      {v u : View} {c : Call} → Does pg v u c → v id ≢ unregistered → u id ≢ unregistered
  Does-registered (nothing e) h q = h (sym (e id) ∙ q)
  Does-registered {v} {u} (registers j fresh e) h q =
      stays_at v u id j disconnected (λ k. cc k) e h q
  Does-registered {v} {u} (connects j t parsed known e) h q =
      stays_at v u id j (connected t) (λ k. cc k) e h q
  Does-registered {v} {u} (disconnects j parsed known e) h q =
      stays_at v u id j disconnected (λ k. cc k) e h q

  Replays-registered :
      (cs : List Call) (v u : View) → Replays pg v cs u → v id ≢ unregistered → u id ≢ unregistered
  Replays-registered [] v u e h q = h (sym (e id) ∙ q)
  Replays-registered (c ∷ cs) v u (between, does, later) h q =
      Replays-registered cs between u later (Does-registered does h) q

-- An identity with this agent ID is there.
abbrev knows_agent : ℕ → Database → Bool
knows_agent a db = is_some (find_row (λ i. i.agent_id == a) db.agent_identities)

module _ (pg : Server) (a : ℕ) where
  -- No call of the presence and telemetry stores touches the identities.
  abbrev Keeps : Database → Database → Type 0
  Keeps db db' = knows_agent a db' ≡ knows_agent a db

  started-Keeps :
      (machine_id : Bytes) (n : ℕ) (db : Database) → Keeps db (started_tables pg machine_id n db)
  unfolding go_online
  started-Keeps machine_id n db = ground arith

  touched-Keeps : (s : Session) (n : ℕ) (db : Database) → Keeps db (touched_tables pg s n db)
  unfolding see_again
  touched-Keeps s n db = ground arith

  ended-Keeps : (s : Session) (n : ℕ) (db : Database) → Keeps db (ended_tables pg s n db)
  unfolding go_offline
  ended-Keeps s n db = ground arith

  recorded-Keeps : (s : Sample) (n : ℕ) (db : Database) → Keeps db (recorded_tables pg s n db)
  recorded-Keeps s n db = ground arith

  enrolled-knows :
      (input : StoredEnrollment) (n : ℕ) (db : Database)
      → knows_agent a db ≡ true
      → knows_agent a (enrolled_tables pg input n db) ≡ true
  unfolding find_row
  enrolled-knows input n db h = ground (arith, h)

  abbrev Knows : World → Type 0
  Knows w = knows_agent a w.committed ≡ true

  module _ (reads : ReadsUuids pg) where
    step-Knows : (w : World) (c : Call) → Knows w → Knows (step pg w c)
    unfolding step
    step-Knows w (enrolls input) h = elim (enroll-effect pg input w (reads _)) [
      | inl e ↦ ap (knows_agent a) e ∙ h
      | inr (e, _) ↦ ap (knows_agent a) e ∙ enrolled-knows input w.event w.committed h
    ]
    step-Knows w (finds agent_id) h = ap (knows_agent a) (find_changes_nothing pg agent_id w) ∙ h
    step-Knows w (starts machine_id) h = elim (start_session-effect pg machine_id w) [
      | inl e ↦ ap (knows_agent a) e ∙ h
      | inr e ↦ ap (knows_agent a) e ∙ started-Keeps machine_id w.event w.committed ∙ h
    ]
    step-Knows w (touches s) h = elim (touch_session-effect pg s w) [
      | inl e ↦ ap (knows_agent a) e ∙ h
      | inr e ↦ ap (knows_agent a) e ∙ touched-Keeps s w.event w.committed ∙ h
    ]
    step-Knows w (ends s) h = elim (end_session-effect pg s w reads) [
      | inl e ↦ ap (knows_agent a) e ∙ h
      | inr e ↦ ap (knows_agent a) e ∙ ended-Keeps s w.event w.committed ∙ h
    ]
    step-Knows w (records s) h = elim (record_sample-effect pg s w) [
      | inl e ↦ ap (knows_agent a) e ∙ h
      | inr e ↦ ap (knows_agent a) e ∙ recorded-Keeps s w.event w.committed ∙ h
    ]

    run-Knows : (w : World) (cs : List Call) → Knows w → Knows (run pg w cs)
    unfolding run
    run-Knows w [] h = h
    run-Knows w (c ∷ cs) h = run-Knows (step pg w c) cs (step-Knows w c h)

module _ (pg : Server) (reads : ReadsUuids pg) where
  show-injective : {a b : ℕ} → pg.show_uuid a ≡ pg.show_uuid b → a ≡ b
  show-injective {a} {b} q = some-injective _ _ (sym (reads a) ∙ ap pg.parse_uuid q ∙ reads b)

  module _ (w : World) (input : StoredEnrollment) {machine_id agent_id : Bytes}
      (enrolled : (enroll pg input w).0 ≡ ok (machine_id, agent_id)) where
    abbrev machine : ℕ
    machine = (new_machine pg input w.event).id

    abbrev agent : ℕ
    agent = (new_identity pg input w.event).agent_id

    machine_registered : view (enroll pg input w).1.committed machine ≢ unregistered
    machine_registered q =
        let (tables, _, _, _) = enroll_commits pg input w (reads _) enrolled in
        let there : view (enroll pg input w).1.committed machine ≡ disconnected =
          ap (λ db. view db machine) tables
          ∙ view-enrolled pg input w.event w.committed machine
          ∙ rw (eq_refl machine) refl in
        cc (there, q)

    agent_known : knows_agent agent (enroll pg input w).1.committed ≡ true
    unfolding find_row
    agent_known =
        let (tables, _, _, _) = enroll_commits pg input w (reads _) enrolled in
        ap (knows_agent agent) tables ∙ rw (eq_refl agent) refl

    not_registered_before : view w.committed machine ≡ unregistered
    not_registered_before =
        let (_, fresh, _, _) = enroll_commits pg input w (reads _) enrolled in ap connection fresh.0

    not_known_before : knows_agent agent w.committed ≡ false
    not_known_before =
        let (_, fresh, _, _) = enroll_commits pg input w (reads _) enrolled in
        ap is_some (
          find_row-none _ (λ i. i.agent_id == agent) w.committed.agent_identities
            (λ i q. ground (arith, q)) fresh.1)

    enrolled-IsConsistent : IsConsistent w.committed → IsConsistent (enroll pg input w).1.committed
    unfolding step
    enrolled-IsConsistent h = step-IsConsistent pg reads w (enrolls input) h

  -- Suppose that the driver reads back the UUIDs that it writes, and that the tables are
  -- consistent. When two enrollments succeed, with any calls of the stores in between and any
  -- failures of these, the second hands out another machine ID and another agent ID than the first.
  pub enrollments_differ :
      (w : World) (first second : StoredEnrollment) (between : List Call)
      {machine_id agent_id machine_id' agent_id' : Bytes}
      → IsConsistent w.committed
      → (enroll pg first w).0 ≡ ok (machine_id, agent_id)
      → (enroll pg second (run pg (enroll pg first w).1 between)).0 ≡ ok (machine_id', agent_id')
      → (machine_id ≢ machine_id') × (agent_id ≢ agent_id')
  enrollments_differ w first second between h e e' =
      let w' = (enroll pg first w).1 in
      let later = run pg w' between in
      let (_, _, m, a) = enroll_commits pg first w (reads _) e in
      let (_, _, m', a') = enroll_commits pg second later (reads _) e' in
      let replays = run_refines pg reads w' between (enrolled-IsConsistent w first e h) in
      let registered = Replays-registered pg _ between _ _ replays (machine_registered w first e) in
      let known = run-Knows pg _ reads w' between (agent_known w first e) in
      (
        λ q. registered (
            ap (view later.committed) (show-injective (sym m ∙ q ∙ m'))
            ∙ not_registered_before later second e'),
        λ q. cc (
          known,
          ap (λ k. knows_agent k later.committed) (show-injective (sym a ∙ q ∙ a')),
          not_known_before later second e',
        ),
      )
