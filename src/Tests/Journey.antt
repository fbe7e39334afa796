-- ===== src/Tests/Journey.antt =====
-- An agent that enrolls and sends a heartbeat.
use arxveil.Prelude.{ℕ, ◌*◌, ◌/◌, ◌≡◌, refl, some, [], ◌∷◌, bytes_beq, arith}
use arxveil.Go.Text.{codes, trim_space}
use arxveil.Go.Fault.{ok, itoa}
use arxveil.Go.Reader.{read_full}
use arxveil.Go.Base64.{encode, symbol}
use arxveil.Enrollment.Service
use arxveil.Enrollment.Service.{random_credential}
use arxveil.Enrollment.Validation.{validate_input, required_metadata, normalize}
use arxveil.Postgres.{begin, commit}
use arxveil.Postgres.Schema.{find_row}
use arxveil.Postgres.Statements.{drop_spaces, insert_machine, insert_agent_identity}
use arxveil.Postgres.EnrollmentStore.{enroll}
use arxveil.Postgres.History.Invariant.{initial, IsConsistent-empty}
use arxveil.Postgres.History.Connections.{view, disconnected}
use arxveil.AgentGrpc
use arxveil.AgentGrpc.Messages.{EnrollResponse}
use arxveil.AgentGrpc.Stream.{message, stream_updates}
use arxveil.Backend.{State, enroller}
use arxveil.Backend.Journey.{introduces, IsRegistered, Authenticates, enrolled_agent_streams}
use arxveil.Backend.Sharing.{sharing_tracker, sharing_recorder}
use arxveil.Tests.Toy.{toy, sevens, times, anything}
use arxveil.Tests.Streams.{request, updates}

abbrev response : EnrollResponse
response = record {
  machine_id = 2 ∷ [];
  agent_id = 5 ∷ [];
  agent_secret = codes "BwcHBwcHBwcHBwcHBwcHBwcHBwcHBwcHBwcHBwcHBwc";
}

abbrev after_enrollment : State
after_enrollment = (AgentGrpc.enroll (enroller toy) (some request) (initial, sevens)).1

enrolls :
    AgentGrpc.enroll (enroller toy) (some request) (initial, sevens)
    ≡ (ok response, after_enrollment)
unfolding AgentGrpc.enroll Service.enroll random_credential read_full encode symbol validate_input
    required_metadata normalize trim_space itoa bytes_beq enroll begin commit insert_machine
    insert_agent_identity find_row drop_spaces
enrolls = refl

reads_back : (t : ℕ) → t * 1000 / 1000 ≡ t
reads_back t = omega arith

enrolled_agent_streams_example :
    (id : ℕ) × IsRegistered toy initial after_enrollment.0 response id
    × Authenticates toy anything after_enrollment.0 response
    × (view
          (stream_updates
            (sharing_tracker toy anything)
            (sharing_recorder toy anything)
            times
            (ok tt)
            (message (introduces response) ∷ updates)
            (after_enrollment, [])).1.0.0.committed
          id
        ≡ disconnected)
enrolled_agent_streams_example =
    enrolled_agent_streams toy anything (λ n. refl) (λ u. refl) reads_back (λ u. refl) request
      initial after_enrollment.0 sevens after_enrollment.1 response enrolls times (ok tt) updates
      IsConsistent-empty
