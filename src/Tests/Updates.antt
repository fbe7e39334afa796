-- ===== src/Tests/Updates.antt =====
-- A telemetry update of the machine that is online.
use arxveil.Prelude.{ℕ, ◌≡◌, refl, ◌⊎◌, some, arith}
use arxveil.Prelude.Int.{pos}
use arxveil.Go.Fault.{ok, err}
use arxveil.Go.Float64.{f42_5}
use arxveil.Telemetry.{Sample}
use arxveil.Telemetry.Validity.{IsValidSample}
use arxveil.Postgres.Schema.{find_row, machine_of}
use arxveil.Postgres.TelemetryStore.{sample_of}
use arxveil.Postgres.TelemetryStore.Effects.{new_row}
use arxveil.AgentGrpc.Messages.{Telemetry}
use arxveil.AgentGrpc.Stream.{bad_request, telemetry_sample}
use arxveil.Backend.Updates.{handled, handle_telemetry_stores}
use arxveil.Tests.Toy.{toy, tables, machine, world, sevens, session, times, anything}

abbrev update : Telemetry
update = record {
  collected_at = some (record { seconds = pos 5; nanos = pos 0 });
  cpu_usage_percent = f42_5;
  memory_total_bytes = pos 16000;
  memory_used_bytes = pos 8000;
  disk_total_bytes = pos 1000000;
  disk_used_bytes = pos 250000;
  uptime_seconds = pos 3600;
}

abbrev its_sample : Sample
its_sample = record {
  machine_id = session.machine_id;
  collected_at = 5000000000;
  cpu_usage_percent = f42_5;
  memory_total_bytes = pos 16000;
  memory_used_bytes = pos 8000;
  disk_total_bytes = pos 1000000;
  disk_used_bytes = pos 250000;
  uptime_seconds = pos 3600;
}

converts : telemetry_sample times session update ≡ ok its_sample
unfolding telemetry_sample
converts = refl

online : machine_of 65 tables ≡ some machine
unfolding find_row
online = refl

handle_telemetry_stores_example :
    ((¬ IsValidSample its_sample)
      × (handled toy anything times (ok tt) session update world sevens
          ≡ (err (bad_request "invalid telemetry update"), (world, sevens))))
    ⊎ (IsValidSample its_sample
        × ((handled toy anything times (ok tt) session update world sevens).0 ≡ ok tt)
        × ((received : ℕ) × (sample_of 65 5000000
                (handled toy anything times (ok tt) session update world sevens).1.0.committed
              ≡ some (record (new_row toy its_sample 20 65 4250) { received_at = received }))))
handle_telemetry_stores_example =
    handle_telemetry_stores toy anything times (ok tt) session update world sevens (λ n. refl)
      converts refl online refl (omega arith)
