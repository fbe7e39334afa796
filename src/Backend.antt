-- ===== src/Backend.antt =====
-- The services over the database, put together as `newApplication` of
-- server/cmd/arxveil-server/application.go does.
pub mod Credentials
pub mod Enrolling
pub mod Sharing
pub mod Journey
pub mod Updates
use arxveil.Prelude.{Bool}
use arxveil.Go.Text.{Bytes}
use arxveil.Go.Exec.{Exec}
use arxveil.Go.Reader.{Reader}
use arxveil.Enrollment.Service
use arxveil.Presence
use arxveil.Telemetry
use arxveil.Postgres.{Server, World}
use arxveil.Postgres.EnrollmentStore.{enrollment_store}
use arxveil.Postgres.PresenceStore.{presence_store}
use arxveil.Postgres.TelemetryStore.{telemetry_store}
use arxveil.AgentGrpc.{Enroller, PresenceTracker, TelemetryRecorder}

-- The database, and the reader of random bytes.
abbrev pub State : Type 0
State = World × Reader

abbrev pub on_world : {A : Type 0} → Exec World A → Exec State A
on_world m (w, r) = let (a, w') = m w in (a, (w', r))

abbrev pub enroller : Server → Enroller State
enroller pg = record { enroll = Service.enroll (enrollment_store pg) }

module _ (pg : Server) (is_uuid : Bytes → Bool) where
  abbrev pub presence_tracker : PresenceTracker State
  presence_tracker = record {
    open_session = λ c. on_world (Presence.open_session is_uuid (presence_store pg) c);
    record_activity = λ s. on_world (Presence.record_activity (presence_store pg) s);
    close_session = λ s. on_world (Presence.close_session (presence_store pg) s);
  }

  abbrev pub telemetry_recorder : TelemetryRecorder State
  telemetry_recorder = record {
    record_sample = λ s. on_world (Telemetry.record_telemetry (telemetry_store pg) s);
  }
