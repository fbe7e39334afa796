-- ===== src/Backend/Journey.antt =====
-- An agent from its enrollment to the end of its first stream.
use arxveil.Prelude.{
  ℕ, ◌≡◌, refl, sym, ap, subst, ◌∙◌, Bool, Option, some, List, [], ◌∷◌, nat_eq, eq_refl, arith,
}
use arxveil.Go.Text.{Bytes}
use arxveil.Go.Fault.{Result, ok, err}
use arxveil.Go.Reader.{Reader}
use arxveil.Go.Sha256.{sum256}
use arxveil.Enrollment.{Input, EnrolledAgent, StoredEnrollment}
use arxveil.Enrollment.Service
use arxveil.Enrollment.Service.Laws
use arxveil.Enrollment.Validation.Accepted.{normal_form}
use arxveil.Presence.{Credentials, Session}
use arxveil.Presence
use arxveil.Postgres.{Server, World}
use arxveil.Postgres.PresenceStore.{presence_store}
use arxveil.Postgres.PresenceStore.Effects.{ReadsUuids}
use arxveil.Postgres.PresenceStore.Stale.{ReadsTimes}
use arxveil.Postgres.PresenceStore.Progress.{NoOutage}
use arxveil.Postgres.PresenceStore.Consistency.{IsConsistent}
use arxveil.Postgres.EnrollmentStore
use arxveil.Postgres.EnrollmentStore.{enrollment_store}
use arxveil.Postgres.EnrollmentStore.Effects.{enroll_commits, new_machine}
use arxveil.Postgres.History.{enrolls, step}
use arxveil.Postgres.History.Invariant.{step-IsConsistent}
use arxveil.Postgres.History.Connections.Views.{view-enrolled}
use arxveil.Postgres.History.Connections.{view, connection, unregistered, disconnected}
use arxveil.AgentGrpc
use arxveil.AgentGrpc.{Enroller, input_of}
use arxveil.AgentGrpc.Messages.{
  EnrollRequest, EnrollResponse, AgentMessage, authenticate, Timestamps,
}
use arxveil.AgentGrpc.Stream.{Received, message, stream_updates}
use arxveil.Backend.{State, enroller}
use arxveil.Backend.Credentials.{WritesUuids, enrolled_agent_authenticates}
use arxveil.Backend.Sharing.{sharing_tracker, sharing_recorder}
use arxveil.Backend.Sharing.Offline.{ended_stream_disconnects}

-- The first message of the agent, with what it was told at its enrollment.
abbrev pub introduces : EnrollResponse → Option AgentMessage
introduces response = some (record {
  payload = some (
      authenticate
        (some (record { agent_id = response.agent_id; agent_secret = response.agent_secret })));
})

abbrev pub credentials_of : EnrollResponse → Credentials
credentials_of response = record { agent_id = response.agent_id; secret = response.agent_secret }

-- The service has answered with this agent, and left this state.
abbrev Answers : {S : Type 0} → Enroller S → EnrollRequest → S → EnrollResponse → S → Type 0
Answers service request s response s' = service.enroll (input_of request) s ≡ (
  ok (record {
    machine_id = response.machine_id;
    agent_id = response.agent_id;
    secret = response.agent_secret;
  }),
  s',
)

answered :
    {S : Type 0} (service : Enroller S) (request : EnrollRequest) (s s' : S)
    {response : EnrollResponse}
    → AgentGrpc.enroll service (some request) s ≡ (ok response, s')
    → Answers service request s response s'
unfolding AgentGrpc.enroll
answered service request s s' {response} q = go (service.enroll (input_of request) s) refl
  where
    go :
        (p : Result EnrolledAgent × _)
        → service.enroll (input_of request) s ≡ p
        → Answers service request s response s'
    go (ok agent, t) e = ground (arith, e, q)
    go (err d, t) e = absurd (ground (arith, e, q))

module _ (pg : Server) where
  -- The machine of the response was not there before its enrollment, and is not connected after it.
  abbrev pub IsRegistered : World → World → EnrollResponse → ℕ → Type 0
  IsRegistered w w' response id =
      (pg.parse_uuid response.machine_id ≡ some id)
      × (view w.committed id ≡ unregistered)
      × (view w'.committed id ≡ disconnected)

  -- The credentials of the response open a session.
  abbrev pub Authenticates : (Bytes → Bool) → World → EnrollResponse → Type 0
  Authenticates is_uuid w response =
      (session : Session) × ((Presence.open_session is_uuid (presence_store pg)
          (credentials_of response) w).0
        ≡ ok session)

module _ (pg : Server) (is_uuid : Bytes → Bool) (up : NoOutage pg) (reads : ReadsUuids pg)
    (times_read : ReadsTimes pg) (writes : WritesUuids pg is_uuid) where
  module _ (request : EnrollRequest) (w w' : World) (r r' : Reader) (response : EnrollResponse)
      (enrolled : AgentGrpc.enroll (enroller pg) (some request) (w, r)
        ≡ (ok response, (w', r'))) where
    abbrev agent : EnrolledAgent
    agent = record {
      machine_id = response.machine_id;
      agent_id = response.agent_id;
      secret = response.agent_secret;
    }

    abbrev given : Input
    given = input_of request

    abbrev hashed : StoredEnrollment
    hashed = Service.stored (sum256 agent.secret) (normal_form given)

    service_answers : Service.enroll (enrollment_store pg) given (w, r) ≡ (ok agent, (w', r'))
    service_answers = answered (enroller pg) request (w, r) (w', r') enrolled

    result : (Service.enroll (enrollment_store pg) given (w, r)).0 ≡ ok agent
    result = ap (λ p. p.0) service_answers

    stores : (EnrollmentStore.enroll pg hashed w).0 ≡ ok (agent.machine_id, agent.agent_id)
    stores =
        let (_, taken, _, _, _) = Laws.enroll-ok (enrollment_store pg) given w r agent result in
        taken

    world_after : w' ≡ (EnrollmentStore.enroll pg hashed w).1
    world_after =
        let (_, _, kept, _, _) = Laws.enroll-ok (enrollment_store pg) given w r agent result in
        ap (λ p. p.1.0) (sym service_answers) ∙ kept

    abbrev id : ℕ
    id = (new_machine pg hashed w.event).id

    registered : IsRegistered pg w w' response id
    registered =
        let (tables, fresh, is_machine, is_agent) = enroll_commits pg hashed w (reads _) stores in
        (
          ap pg.parse_uuid is_machine ∙ reads _,
          ap connection fresh.0,
          ap (λ (u : World). view u.committed id) world_after
              ∙ ap (λ db. view db id) tables
              ∙ view-enrolled pg hashed w.event w.committed id
              ∙ rw (eq_refl id) refl,
        )

    stays-IsConsistent : IsConsistent w.committed → IsConsistent w'.committed
    unfolding step
    stays-IsConsistent h =
        subst (λ (u : World). IsConsistent u.committed) (sym world_after)
          (step-IsConsistent pg reads w (enrolls hashed) h)

    -- Suppose that no request fails, that the driver reads back the UUIDs and times that it gives
    -- out, that the UUID library accepts the database's UUIDs, and that the tables are consistent.
    -- When an agent has been enrolled, its machine is one that was not registered before and is not
    -- connected; the credentials of the response open a session; and a stream that begins with
    -- them, whatever messages follow and with no calls of others in between, leaves the machine
    -- disconnected.
    pub enrolled_agent_streams :
        (times : Timestamps) (reply : Result (Unit {0})) (rest : List Received)
        → IsConsistent w.committed
        → (id : ℕ) × IsRegistered pg w w' response id
          × Authenticates pg is_uuid w' response
          × (view
                (stream_updates
                  (sharing_tracker pg is_uuid)
                  (sharing_recorder pg is_uuid)
                  times
                  reply
                  (message (introduces response) ∷ rest)
                  ((w', r'), [])).1.0.0.committed
                id
              ≡ disconnected)
    enrolled_agent_streams times reply rest h =
        let (session, opens, machine, _) =
          enrolled_agent_authenticates pg is_uuid up reads writes given w r agent result in
        let opened_state =
          ((sharing_tracker pg is_uuid).open_session (credentials_of response) ((w', r'), [])).1 in
        let opened =
          subst
            (λ (p : Result EnrolledAgent × State).
              (Presence.open_session is_uuid (presence_store pg) (credentials_of response) p.1.0).0
              ≡ ok session)
            service_answers opens in
        (
          id,
          registered,
          (session, opened),
          ended_stream_disconnects pg is_uuid up reads times_read session
              (ap pg.parse_uuid machine ∙ registered.0) times reply (introduces response) rest
              (record { agent_id = response.agent_id; agent_secret = response.agent_secret }) w' r'
              [] opened_state (stays-IsConsistent h) tt refl (ap (λ a. (a, opened_state)) opened),
        )
