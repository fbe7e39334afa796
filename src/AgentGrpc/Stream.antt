-- ===== src/AgentGrpc/Stream.antt =====
-- `StreamUpdates` of server/internal/agentgrpc/server.go.
pub mod Watch
pub mod Noted
pub mod Trace
pub mod Calls
pub mod Contract
pub mod Answers
use arxveil.Prelude.{String, Bool, true, false, Option, none, some, List, [], ◌∷◌, if◌then◌else◌}
use arxveil.Go.Fault.{
  Fault, sentinel, eof, invalid_sample, unauthenticated, other, status, Code, invalid_argument,
  internal, is, Result, ok, err,
}
use arxveil.Go.Exec.{Exec, ◌>>=◌, ◌>>◌, lift, pure, throw}
use arxveil.Presence.{Credentials, Session}
use arxveil.Telemetry.{Sample}
use arxveil.AgentGrpc.{PresenceTracker, TelemetryRecorder, on_error}
use arxveil.AgentGrpc.Messages.{
  Timestamp, Timestamps, Authenticate, Telemetry, AgentMessage, get_authenticate, get_heartbeat,
  get_telemetry,
}

-- What the calls of `stream.Recv` return: a message, which may be nil, or an error. When there is no
-- more, the agent has closed its side, and `Recv` returns `io.EOF`.
pub data Received : Type 0 where
  message : Option AgentMessage → Received
  failed : Fault → Received

abbrev pub bad_request : String → Fault
bad_request = status invalid_argument

-- `telemetrySample`
abbrev sample_at : Session → Telemetry → Timestamps → Timestamp → Option Fault → Result Sample
sample_at session update times at (some e) = err e
sample_at session update times at none = ok (record {
  machine_id = session.machine_id;
  collected_at = times.as_time at;
  cpu_usage_percent = update.cpu_usage_percent;
  memory_total_bytes = update.memory_total_bytes;
  memory_used_bytes = update.memory_used_bytes;
  disk_total_bytes = update.disk_total_bytes;
  disk_used_bytes = update.disk_used_bytes;
  uptime_seconds = update.uptime_seconds;
})

unfoldable pub telemetry_sample : Timestamps → Session → Telemetry → Result Sample
telemetry_sample times session update = elim update.collected_at [
  | none ↦ err (other "telemetry collection time is required")
  | some at ↦ sample_at session update times at (times.check_valid at)
]

abbrev record_status : Fault → Fault
record_status e =
    if is e invalid_sample
    then bad_request "invalid telemetry update"
    else status internal "record telemetry update"

abbrev open_status : Fault → Fault
open_status e =
    if is e unauthenticated
    then status Code.unauthenticated "agent authentication failed"
    else status internal "authenticate agent stream"

-- `times` is the library's treatment of timestamps, and `reply` what `stream.SendAndClose` returns.
module _ {S : Type 0} (tracker : PresenceTracker S) (recorder : TelemetryRecorder S)
    (times : Timestamps) (reply : Result (Unit {0})) where
  -- The loop's state is the variable `closed`, and that of the services.
  abbrev on_services : {A : Type 0} → Exec S A → Exec (Bool × S) A
  on_services m (closed, s) = let (r, s') = m s in (r, (closed, s'))

  unfoldable pub close_once : Session → Exec (Bool × S) (Unit {0})
  close_once session (true, s) = (ok tt, (true, s))
  close_once session (false, s) = let (r, s') = tracker.close_session session s in (r, (true, s'))

  abbrev activity : Session → Exec S (Unit {0})
  activity session =
      on_error (λ _. status internal "record agent activity") (tracker.record_activity session)

  unfoldable pub handle_telemetry : Session → Telemetry → Exec S (Unit {0})
  handle_telemetry session update = do
    sample ←
        on_error (λ _. bad_request "invalid telemetry update")
          (lift (telemetry_sample times session update))
    on_error record_status (recorder.record_sample sample)
    activity session

  -- The `switch` on the message.
  unfoldable pub handle : Session → AgentMessage → Exec S (Unit {0})
  handle session m = elim (get_heartbeat (some m)) [
    | some _ ↦ activity session
    | none ↦ elim (get_authenticate (some m)) [
      | some _ ↦ throw (bad_request "agent stream is already authenticated")
      | none ↦ elim (get_telemetry (some m)) [
        | some update ↦ handle_telemetry session update
        | none ↦ throw (bad_request "stream message payload is required")
      ]
    ]
  ]

  -- At the end of the stream the session is closed, and the agent gets its answer.
  unfoldable pub finish : Session → Exec (Bool × S) (Unit {0})
  finish session = do
    on_error (λ _. status internal "close agent stream") (close_once session)
    lift reply

  unfoldable pub loop : Session → List Received → Exec (Bool × S) (Unit {0})
  loop session [] = finish session
  loop session (failed e ∷ rest) = if is e eof then finish session else throw e
  loop session (message none ∷ rest) = throw (bad_request "stream message payload is required")
  loop session (message (some m) ∷ rest) = on_services (handle session m) >>= λ _. loop session rest

  -- `defer func() { _ = closeSession() }()`
  unfoldable pub serve_session : Session → List Received → Exec S (Unit {0})
  serve_session session rest s =
      let (r, local) = loop session rest (false, s) in
      let (_, (_, s')) = close_once session local in (r, s')

  abbrev pub authenticated : Option Authenticate → List Received → Exec S (Unit {0})
  authenticated none rest = throw (bad_request "first stream message must authenticate the agent")
  authenticated (some a) rest = do
    session ←
        on_error open_status
          (tracker.open_session (record { agent_id = a.agent_id; secret = a.agent_secret }))
    serve_session session rest

  unfoldable pub stream_updates : List Received → Exec S (Unit {0})
  stream_updates [] = throw (bad_request "authenticate message is required")
  stream_updates (failed e ∷ rest) =
      if is e eof then throw (bad_request "authenticate message is required") else throw e
  stream_updates (message m ∷ rest) = authenticated (get_authenticate m) rest
