-- ===== src/AgentGrpc/Stream/Watch.antt =====
-- Watching the calls that `StreamUpdates` makes of the services: a tracker and a recorder that pass every
-- call on and note it, and the calls that a stream of messages asks for.
use arxveil.Prelude.{Option, some, List, [], ◌∷◌, ◌++◌}
use arxveil.Go.Fault.{Result, ok, err}
use arxveil.Presence.{Session}
use arxveil.Telemetry.{Sample}
use arxveil.AgentGrpc.{PresenceTracker, TelemetryRecorder}
use arxveil.AgentGrpc.Messages.{Timestamps, Payload, heartbeat, telemetry}
use arxveil.AgentGrpc.Stream.{Received, message, failed, telemetry_sample}

-- A session that was opened, and the calls of the services that were made.
pub data Event : Type 0 where
  opened : Session → Event
  active : Session → Event
  recorded : Sample → Event
  closed : Session → Event

abbrev pub Log : Type 0
Log = List Event

abbrev pub opened_event : Result Session → Log
opened_event (ok session) = opened session ∷ []
opened_event (err e) = []

module _ {S : Type 0} where
  abbrev pub watched_tracker : PresenceTracker S → PresenceTracker (Log × S)
  watched_tracker tracker = record {
    open_session =
        λ c (log, s). let (r, s') = tracker.open_session c s in (r, (log ++ opened_event r, s'));
    record_activity = λ session (log, s).
        let (r, s') = tracker.record_activity session s in (r, (log ++ (active session ∷ []), s'));
    close_session = λ session (log, s).
        let (r, s') = tracker.close_session session s in (r, (log ++ (closed session ∷ []), s'));
  }

  abbrev pub watched_recorder : TelemetryRecorder S → TelemetryRecorder (Log × S)
  watched_recorder recorder = record {
    record_sample = λ sample (log, s).
        let (r, s') = recorder.record_sample sample s in (r, (log ++ (recorded sample ∷ []), s'));
  }

-- The calls that a message asks for.
abbrev pub sample_events : Session → Result Sample → Log
sample_events session (ok sample) = recorded sample ∷ active session ∷ []
sample_events session (err e) = []

abbrev pub payload_events : Timestamps → Session → Option Payload → Log
payload_events times session (some (heartbeat (some h))) = active session ∷ []
payload_events times session (some (telemetry (some t))) =
    sample_events session (telemetry_sample times session t)
payload_events times session _ = []

abbrev pub message_events : Timestamps → Session → Received → Log
message_events times session (message (some m)) = payload_events times session m.payload
message_events times session _ = []

-- A stream ends at an error.
unfoldable pub stream_events : Timestamps → Session → List Received → Log
stream_events times session [] = []
stream_events times session (failed e ∷ rest) = []
stream_events times session (message m ∷ rest) =
    message_events times session (message m) ++ stream_events times session rest
