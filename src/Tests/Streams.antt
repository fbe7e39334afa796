-- ===== src/Tests/Streams.antt =====
-- Streams of an agent, and an enrollment with the session after it.
use arxveil.Prelude.{◌≡◌, refl, none, some, List, [], ◌∷◌, bytes_beq}
use arxveil.Prelude.Int.{pos}
use arxveil.Go.Text.{codes, trim_space}
use arxveil.Go.Fault.{ok, itoa}
use arxveil.Go.Reader.{read_full}
use arxveil.Go.Base64.{encode, symbol}
use arxveil.Go.Float64.{f42_5}
use arxveil.Enrollment.{EnrolledAgent}
use arxveil.Enrollment.Service
use arxveil.Enrollment.Service.{random_credential}
use arxveil.Enrollment.Validation.{validate_input, required_metadata, normalize}
use arxveil.Presence.{Session, open_session}
use arxveil.Postgres.{begin, commit}
use arxveil.Postgres.Schema.{find_row}
use arxveil.Postgres.Statements.{drop_spaces, insert_machine, insert_agent_identity}
use arxveil.Postgres.EnrollmentStore.{enroll, enrollment_store}
use arxveil.Postgres.PresenceStore.{presence_store}
use arxveil.AgentGrpc.Messages.{authenticate, heartbeat, telemetry}
use arxveil.AgentGrpc.Stream.{Received, message, stream_updates}
use arxveil.AgentGrpc.Stream.Watch.{watched_tracker, watched_recorder}
use arxveil.AgentGrpc.Stream.Calls.{Outcome, stream_updates_calls}
use arxveil.Prelude.{◌⊎◌}
use arxveil.AgentGrpc
use arxveil.AgentGrpc.Messages.{EnrollRequest}
use arxveil.Backend.{enroller}
use arxveil.Backend.Enrolling.{Refused, Answered, enroll_answers}
use arxveil.Backend.Credentials.{enrolled_agent_authenticates}
use arxveil.Tests.Toy.{toy, agent_input, sevens, world, tracker, recorder, times, anything}

abbrev pub updates : List Received
updates =
    message (some (record { payload = some (heartbeat (some (record { sent_at = none }))) }))
    ∷ message (
        some (record {
          payload = some (
              telemetry (
                some (record {
                  collected_at = some (record { seconds = pos 5; nanos = pos 0 });
                  cpu_usage_percent = f42_5;
                  memory_total_bytes = pos 16000;
                  memory_used_bytes = pos 8000;
                  disk_total_bytes = pos 1000000;
                  disk_used_bytes = pos 250000;
                  uptime_seconds = pos 3600;
                })));
        }))
    ∷ []

abbrev stream : List Received
stream =
    message (
      some (record {
        payload =
            some (authenticate (some (record { agent_id = codes "a"; agent_secret = codes "s" })));
      }))
    ∷ updates

stream_updates_calls_example : Outcome tracker recorder times (ok tt) updates (
    stream_updates
      (watched_tracker tracker)
      (watched_recorder recorder)
      times
      (ok tt)
      stream
      ([], 0))
stream_updates_calls_example = stream_updates_calls tracker recorder times (ok tt) stream 0

abbrev enrolled : EnrolledAgent
enrolled = record {
  machine_id = 22 ∷ [];
  agent_id = 25 ∷ [];
  secret = codes "BwcHBwcHBwcHBwcHBwcHBwcHBwcHBwcHBwcHBwcHBwc";
}

enrolls : (Service.enroll (enrollment_store toy) agent_input (world, sevens)).0 ≡ ok enrolled
unfolding Service.enroll random_credential read_full encode symbol validate_input required_metadata
    normalize trim_space itoa bytes_beq enroll begin commit insert_machine insert_agent_identity
    find_row drop_spaces
enrolls = refl

enrolled_agent_authenticates_example :
    (session : Session) × ((open_session anything
        (presence_store toy)
        (record { agent_id = 25 ∷ []; secret = enrolled.secret })
        (Service.enroll (enrollment_store toy) agent_input (world, sevens)).1.0).0
      ≡ ok session)
    × (session.machine_id ≡ 22 ∷ [])
    × (session.agent_id ≡ 25 ∷ [])
enrolled_agent_authenticates_example =
    enrolled_agent_authenticates toy anything (λ n. refl) (λ u. refl) (λ u. refl) agent_input world
      sevens enrolled enrolls

abbrev pub request : EnrollRequest
request = record {
  hostname = agent_input.hostname;
  operating_system = agent_input.operating_system;
  os_version = agent_input.os_version;
  architecture = agent_input.architecture;
  agent_version = agent_input.agent_version;
  capabilities = agent_input.capabilities;
}

enroll_answers_example :
    let out = AgentGrpc.enroll (enroller toy) (some request) (world, sevens) in
    Refused toy request (world, sevens) out ⊎ Answered toy request (world, sevens) out
enroll_answers_example = enroll_answers toy request world sevens (refl, tt)
