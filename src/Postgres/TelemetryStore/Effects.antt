-- ===== src/Postgres/TelemetryStore/Effects.antt =====
-- What the recording of a sample does to the committed tables.
use arxveil.Prelude.{ℕ, suc, ◌≡◌, ◌⊎◌, none, some, true, nat_eq, arith}
use arxveil.Go.Fault.{ok}
use arxveil.Telemetry.{Sample}
use arxveil.Postgres.{Server, World, autocommit}
use arxveil.Postgres.Schema.{TelemetrySample, Database}
use arxveil.Postgres.TelemetryStore.{sample_fits, insert_sample, record_sample, upsert}
use arxveil.Postgres.Statements.{machine_exists}

-- The row of a sample, for a machine and a percentage, when the request has the number `n`.
abbrev pub new_row : Server → Sample → ℕ → ℕ → ℕ → TelemetrySample
new_row pg s n machine percent = record {
  machine_id = machine;
  collected_at = pg.encode_time s.collected_at;
  received_at = pg.now (suc n);
  cpu_usage_percent = percent;
  memory_total_bytes = s.memory_total_bytes;
  memory_used_bytes = s.memory_used_bytes;
  disk_total_bytes = s.disk_total_bytes;
  disk_used_bytes = s.disk_used_bytes;
  uptime_seconds = s.uptime_seconds;
}

abbrev pub put_sample : Server → Sample → ℕ → Database → ℕ → ℕ → Database
put_sample pg s n db machine percent = record db {
  telemetry_samples = upsert (pg.now (suc n)) (new_row pg s n machine percent) db.telemetry_samples;
}

abbrev pub recorded_tables : Server → Sample → ℕ → Database → Database
recorded_tables pg s n db = elim (pg.parse_uuid s.machine_id) [
  | none ↦ db
  | some machine ↦ elim (pg.numeric s.cpu_usage_percent) [
    | none ↦ db
    | some percent ↦ put_sample pg s n db machine percent
  ]
]

module _ (pg : Server) (s : Sample) (w : World) where
  pub record_sample-effect :
      let db = (record_sample pg s w).1.committed in
      (db ≡ w.committed) ⊎ (db ≡ recorded_tables pg s w.event w.committed)
  unfolding record_sample autocommit insert_sample
  record_sample-effect = ground arith

  pub record_sample-ok :
      {u : Unit {0}}
      → (record_sample pg s w).0 ≡ ok u
      → (record_sample pg s w).1.committed ≡ recorded_tables pg s w.event w.committed
  unfolding record_sample autocommit insert_sample
  record_sample-ok e = ground arith

  -- What is written meets the constraints of the table.
  pub record_sample-fits :
      {machine percent : ℕ}
      → pg.parse_uuid s.machine_id ≡ some machine
      → pg.numeric s.cpu_usage_percent ≡ some percent
      → ((record_sample pg s w).1.committed ≡ w.committed)
        ⊎ (((record_sample pg s w).1.committed
              ≡ put_sample pg s w.event w.committed machine percent)
            × (sample_fits (new_row pg s w.event machine percent) ≡ true)
            × (machine_exists machine w.committed ≡ true))
  unfolding record_sample autocommit insert_sample sample_fits
  record_sample-fits p q = ground (arith, p, q)
