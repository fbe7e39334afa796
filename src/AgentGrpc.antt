-- ===== src/AgentGrpc.antt =====
-- server/internal/agentgrpc/server.go: the gRPC service of the agents, over the three services that it
-- calls. (The log lines are left out.)
pub mod Messages
pub mod Stream
use Messages.{EnrollRequest, EnrollResponse}
use arxveil.Prelude.{Bool, true, false, Option, none, some, if◌then◌else◌}
use arxveil.Go.Text.{Bytes}
use arxveil.Go.Fault.{Fault, invalid_input, status, invalid_argument, internal, is, Result, ok, err}
use arxveil.Go.Exec.{Exec, ◌>>=◌, pure, throw}
use arxveil.Enrollment.{Input, EnrolledAgent}
use arxveil.Presence.{Credentials, Session}
use arxveil.Telemetry.{Sample}

pub record Enroller (S : Type 0) : Type 0 where
  pub enroll : Input → Exec S EnrolledAgent

pub record PresenceTracker (S : Type 0) : Type 0 where
  pub open_session : Credentials → Exec S Session
  pub record_activity : Session → Exec S (Unit {0})
  pub close_session : Session → Exec S (Unit {0})

pub record TelemetryRecorder (S : Type 0) : Type 0 where
  pub record_sample : Sample → Exec S (Unit {0})

-- A call whose error is answered by another error.
abbrev pub map_err {ℓ} : {A : Type ℓ} → (Fault → Fault) → Result A → Result A
map_err f (ok a) = ok a
map_err f (err e) = err (f e)

abbrev pub on_error : {S A : Type 0} → (Fault → Fault) → Exec S A → Exec S A
on_error f m s = let (r, s') = m s in (map_err f r, s')

abbrev pub enroll_status : Fault → Fault
enroll_status e =
    if is e invalid_input
    then status invalid_argument "invalid enrollment request"
    else status internal "enrollment failed"

abbrev pub input_of : EnrollRequest → Input
input_of request = record {
  hostname = request.hostname;
  operating_system = request.operating_system;
  os_version = request.os_version;
  architecture = request.architecture;
  agent_version = request.agent_version;
  capabilities = request.capabilities;
}

-- `Enroll`; the request may be nil.
unfoldable pub enroll : {S : Type 0} → Enroller S → Option EnrollRequest → Exec S EnrollResponse
enroll enroller none = throw (status invalid_argument "enrollment request is required")
enroll enroller (some request) = do
  result ← on_error enroll_status (enroller.enroll (input_of request))
  pure (record {
    machine_id = result.machine_id;
    agent_id = result.agent_id;
    agent_secret = result.secret;
  })
