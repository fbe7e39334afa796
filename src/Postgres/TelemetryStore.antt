-- ===== src/Postgres/TelemetryStore.antt =====
-- server/internal/repository/postgres/telemetry_store.go, with the constraints of the table
-- `telemetry_samples`.
pub mod Effects
pub mod Upsert
use arxveil.Prelude.{
  ℕ, Bool, true, false, not, ◌&&◌, Option, none, some, List, [], ◌∷◌, nat_eq, ◌==◌, leb,
  if◌then◌else◌,
}
use arxveil.Prelude.Int.{ℤ, pos, ltb_ℤ}
use arxveil.Go.Fault.{other, Result, ok, err}
use arxveil.Go.Exec.{Exec, ◌>>=◌, ◌>>◌, pure, throw, fail_if, wrapping}
use arxveil.Telemetry.{Sample, Store}
use arxveil.Postgres.{Server, World, clock_timestamp, autocommit}
use arxveil.Postgres.Schema.{TelemetrySample, Database, find_row, update_rows}
use arxveil.Postgres.Statements.{
  read_tables, write_tables, transaction_time, or_else, is_some, machine_exists,
}

-- The CHECK constraints; percentages are in hundredths.
unfoldable pub sample_fits : TelemetrySample → Bool
sample_fits s =
    leb s.cpu_usage_percent 10000
    && (not (ltb_ℤ s.memory_total_bytes (pos 0))
        && (not (ltb_ℤ s.memory_used_bytes (pos 0))
            && not (ltb_ℤ s.memory_total_bytes s.memory_used_bytes)
            && (not (ltb_ℤ s.disk_total_bytes (pos 0))
                && (not (ltb_ℤ s.disk_used_bytes (pos 0))
                    && not (ltb_ℤ s.disk_total_bytes s.disk_used_bytes)
                    && not (ltb_ℤ s.uptime_seconds (pos 0))))))

-- The primary key.
abbrev pub has_key : ℕ → ℕ → TelemetrySample → Bool
has_key machine at s = s.machine_id == machine && s.collected_at == at

abbrev pub sample_of : ℕ → ℕ → Database → Option TelemetrySample
sample_of machine at db = find_row (has_key machine at) db.telemetry_samples

-- `ON CONFLICT (machine_id, collected_at) DO UPDATE`
abbrev pub merge : ℕ → TelemetrySample → TelemetrySample → TelemetrySample
merge received new old = record new {
  machine_id = old.machine_id;
  collected_at = old.collected_at;
  received_at = received;
}

unfoldable pub upsert : ℕ → TelemetrySample → List TelemetrySample → List TelemetrySample
upsert received new rows =
    let key = has_key new.machine_id new.collected_at in
    if is_some (find_row key rows) then update_rows key (merge received new) rows else new ∷ rows

module _ (pg : Server) where
  unfoldable pub insert_sample : Sample → Exec World (Unit {0})
  insert_sample s = do
    machine ← or_else (pg.parse_uuid s.machine_id) (other "invalid UUID")
    percent ← or_else (pg.numeric s.cpu_usage_percent) (other "numeric field overflow")
    now ← transaction_time
    received ← clock_timestamp pg
    db ← read_tables
    let row : TelemetrySample = record {
      machine_id = machine;
      collected_at = pg.encode_time s.collected_at;
      received_at = now;
      cpu_usage_percent = percent;
      memory_total_bytes = s.memory_total_bytes;
      memory_used_bytes = s.memory_used_bytes;
      disk_total_bytes = s.disk_total_bytes;
      disk_used_bytes = s.disk_used_bytes;
      uptime_seconds = s.uptime_seconds;
    }
    fail_if (not (sample_fits row)) (other "telemetry_samples: check violation")
    fail_if (not (machine_exists machine db)) (other "telemetry_samples: no such machine")
    write_tables λ d. record d { telemetry_samples = upsert received row d.telemetry_samples }

  unfoldable pub record_sample : Sample → Exec World (Unit {0})
  record_sample s = wrapping "upsert telemetry sample" (autocommit pg (insert_sample s))

  abbrev pub telemetry_store : Store World
  telemetry_store = record { record_sample = record_sample }
