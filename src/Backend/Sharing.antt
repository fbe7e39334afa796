-- ===== src/Backend/Sharing.antt =====
-- One stream beside everything else that the server does: before each call that the stream makes of a service,
-- other streams and enrollments make any calls of the stores.
pub mod Ended
pub mod Foreign
pub mod Offline
pub mod Replaced
use arxveil.Prelude.{Bool, List, [], ◌∷◌}
use arxveil.Go.Text.{Bytes}
use arxveil.Go.Exec.{Exec}
use arxveil.Postgres.{Server}
use arxveil.Postgres.History.{Call, run}
use arxveil.AgentGrpc.{PresenceTracker, TelemetryRecorder}
use arxveil.Backend.{State, presence_tracker, telemetry_recorder}

-- The state, and what the others do before each of the next calls.
abbrev pub Shared : Type 0
Shared = State × List (List Call)

module _ (pg : Server) where
  abbrev pub others : List Call → State → State
  others calls (w, r) = (run pg w calls, r)

  abbrev pub sharing : {A : Type 0} → Exec State A → Exec Shared A
  sharing m (s, []) = let (a, s') = m s in (a, (s', []))
  sharing m (s, calls ∷ later) = let (a, s') = m (others calls s) in (a, (s', later))

  abbrev pub sharing_tracker : (Bytes → Bool) → PresenceTracker Shared
  sharing_tracker is_uuid = record {
    open_session = λ c. sharing ((presence_tracker pg is_uuid).open_session c);
    record_activity = λ s. sharing ((presence_tracker pg is_uuid).record_activity s);
    close_session = λ s. sharing ((presence_tracker pg is_uuid).close_session s);
  }

  abbrev pub sharing_recorder : (Bytes → Bool) → TelemetryRecorder Shared
  sharing_recorder is_uuid = record {
    record_sample = λ s. sharing ((telemetry_recorder pg is_uuid).record_sample s);
  }
