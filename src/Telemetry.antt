-- ===== src/Telemetry.antt =====
-- server/internal/telemetry/service.go: validation of a sample, and its recording in a store.
pub mod Validity
use arxveil.Prelude.{String, Bool, ◌||◌, [], text_eq, ◌==◌}
use arxveil.Prelude.Int.{ℤ, pos, ltb_ℤ}
use arxveil.Go.Text.{Bytes, trim_space}
use arxveil.Go.Fault.{Fault, sentinel, invalid_sample, wrap, Result, ok, err, ◌>>◌, ◌>>=◌, fail_if}
use arxveil.Go.Exec.{Exec, lift, wrapping}
use arxveil.Go.Exec
use arxveil.Go.Float64.{Float64, is_nan, is_inf, lt, f0, f100}
use arxveil.Go.Time.{Time, is_zero}

-- The `int64` fields are integers; their range plays no part, since they are only compared.
pub record Sample : Type 0 where
  pub machine_id : Bytes
  pub collected_at : Time
  pub cpu_usage_percent : Float64
  pub memory_total_bytes : ℤ
  pub memory_used_bytes : ℤ
  pub disk_total_bytes : ℤ
  pub disk_used_bytes : ℤ
  pub uptime_seconds : ℤ

pub record Store (S : Type 0) : Type 0 where
  pub record_sample : Sample → Exec S (Unit {0})

abbrev invalid : String → Fault
invalid message = wrap message (sentinel invalid_sample)

unfoldable pub validate_sample : Sample → Result (Unit {0})
validate_sample s = do
  fail_if (trim_space s.machine_id == []) (invalid "machine ID is required")
  fail_if (is_zero s.collected_at) (invalid "collected at is required")
  fail_if
      (is_nan s.cpu_usage_percent
        || is_inf s.cpu_usage_percent
        || lt s.cpu_usage_percent f0
        || lt f100 s.cpu_usage_percent)
      (invalid "CPU usage percent must be between zero and 100")
  fail_if (ltb_ℤ s.memory_total_bytes (pos 0)) (invalid "memory total bytes must not be negative")
  fail_if (ltb_ℤ s.memory_used_bytes (pos 0) || ltb_ℤ s.memory_total_bytes s.memory_used_bytes)
      (invalid "memory used bytes must be between zero and memory total bytes")
  fail_if (ltb_ℤ s.disk_total_bytes (pos 0)) (invalid "disk total bytes must not be negative")
  fail_if (ltb_ℤ s.disk_used_bytes (pos 0) || ltb_ℤ s.disk_total_bytes s.disk_used_bytes)
      (invalid "disk used bytes must be between zero and disk total bytes")
  fail_if (ltb_ℤ s.uptime_seconds (pos 0)) (invalid "uptime seconds must not be negative")
  ok tt

unfoldable pub record_telemetry : {S : Type 0} → Store S → Sample → Exec S (Unit {0})
record_telemetry store sample =
    Exec.◌>>◌ (lift (validate_sample sample))
      (wrapping "record telemetry sample" (store.record_sample sample))
