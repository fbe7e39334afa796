-- ===== src/Postgres/History.antt =====
-- Histories of the database: the calls that all streams and enrollments make, in any interleaving. A
-- call of a store is one step, since its transaction holds the lock of the one machine that it is
-- about.
pub mod Invariant
pub mod Intact
pub mod Distinct
pub mod Connections
use arxveil.Prelude.{List, [], ◌∷◌}
use arxveil.Go.Text.{Bytes}
use arxveil.Enrollment.{StoredEnrollment}
use arxveil.Presence.{Session}
use arxveil.Telemetry.{Sample}
use arxveil.Postgres.{Server, World}
use arxveil.Postgres.EnrollmentStore
use arxveil.Postgres.PresenceStore
use arxveil.Postgres.TelemetryStore

pub data Call : Type 0 where
  enrolls : StoredEnrollment → Call
  finds : Bytes → Call
  starts : Bytes → Call
  touches : Session → Call
  ends : Session → Call
  records : Sample → Call

module _ (pg : Server) where
  unfoldable pub step : World → Call → World
  step w (enrolls input) = (EnrollmentStore.enroll pg input w).1
  step w (finds agent_id) = (PresenceStore.find_active_identity pg agent_id w).1
  step w (starts machine_id) = (PresenceStore.start_session pg machine_id w).1
  step w (touches session) = (PresenceStore.touch_session pg session w).1
  step w (ends session) = (PresenceStore.end_session pg session w).1
  step w (records sample) = (TelemetryStore.record_sample pg sample w).1

  unfoldable pub run : World → List Call → World
  run w [] = w
  run w (c ∷ cs) = run (step w c) cs
