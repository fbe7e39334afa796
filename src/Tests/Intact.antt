-- ===== src/Tests/Intact.antt =====
-- A history that stores a sample.
use arxveil.Prelude.{◌≡◌, refl, nat_eq, some, List, [], ◌∷◌}
use arxveil.Prelude.Int.{pos}
use arxveil.Postgres.{begin, commit, autocommit}
use arxveil.Postgres.Schema.{Machine, TelemetrySample, find_row, update_rows, machine_of}
use arxveil.Postgres.Schema.Integrity.{IsIntact, IsBounded}
use arxveil.Postgres.Statements.{insert_machine, insert_agent_identity, drop_spaces}
use arxveil.Postgres.EnrollmentStore.{enroll}
use arxveil.Postgres.TelemetryStore.{record_sample, insert_sample, sample_fits, upsert, sample_of}
use arxveil.Postgres.History.{Call, enrolls, records, step, run}
use arxveil.Postgres.History.Invariant.{initial}
use arxveil.Postgres.History.Intact.{run-IsIntact}
use arxveil.Postgres.History.Intact.Readings.{stored_sample_lem}
use arxveil.Tests.Toy.{toy, sample}
use arxveil.Tests.Database.{stored, calls}

abbrev reading_calls : List Call
reading_calls = enrolls stored ∷ records (record sample { machine_id = 2 ∷ [] }) ∷ []

run-IsIntact_example : IsIntact toy (run toy initial calls).committed
run-IsIntact_example = run-IsIntact toy calls (λ u. refl)

abbrev reading : TelemetrySample
reading = record {
  machine_id = 2;
  collected_at = 5;
  received_at = 8;
  cpu_usage_percent = 4250;
  memory_total_bytes = pos 16000;
  memory_used_bytes = pos 8000;
  disk_total_bytes = pos 1000000;
  disk_used_bytes = pos 250000;
  uptime_seconds = pos 3600;
}

finds_reading : sample_of 2 5 (run toy initial reading_calls).committed ≡ some reading
unfolding run step enroll begin commit autocommit insert_machine insert_agent_identity record_sample
    insert_sample sample_fits upsert find_row update_rows drop_spaces
finds_reading = refl

stored_sample_lem_example :
    IsBounded reading
    × ((m : Machine) × (machine_of 2 (run toy initial reading_calls).committed ≡ some m))
stored_sample_lem_example =
    stored_sample_lem toy reading_calls 2 5 reading (λ u. refl) finds_reading
