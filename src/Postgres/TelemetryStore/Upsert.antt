-- ===== src/Postgres/TelemetryStore/Upsert.antt =====
-- Looking a sample up after it was recorded.
use arxveil.Prelude.{
  ℕ, suc, ◌≤◌, ◌≡◌, refl, ap, ◌∙◌, inl, inr, Bool, true, false, ◌&&◌, some, Option-cases, List,
  nat_eq, ◌==◌, if◌then◌else◌, arith,
}
use arxveil.Go.Fault.{ok}
use arxveil.Telemetry.{Sample}
use arxveil.Telemetry.Validity.{IsValidSample}
use arxveil.Postgres.{Server, World, autocommit}
use arxveil.Postgres.Schema.{Machine, TelemetrySample, find_row, update_rows, machine_of}
use arxveil.Postgres.Schema.Rows.{map_some, find_row-update_rows, find_row-passes}
use arxveil.Postgres.PresenceStore.Progress.{NoOutage}
use arxveil.Postgres.TelemetryStore.{
  sample_fits, has_key, sample_of, merge, upsert, insert_sample, record_sample,
}
use arxveil.Postgres.TelemetryStore.Effects.{new_row, put_sample, recorded_tables, record_sample-ok}

module _ (received : ℕ) (new : TelemetrySample) where
  abbrev key : TelemetrySample → Bool
  key = has_key new.machine_id new.collected_at

  keeps_key :
      (m at : ℕ) (r : TelemetrySample) → has_key m at (merge received new r) ≡ has_key m at r
  keeps_key m at r = refl

  update_lem :
      (m at : ℕ) (rows : List TelemetrySample)
      → find_row (has_key m at) (update_rows key (merge received new) rows)
        ≡ map_some (λ r. if key r then merge received new r else r) (find_row (has_key m at) rows)
  update_lem m at rows =
      find_row-update_rows (has_key m at) key (merge received new) (keeps_key m at) rows

  -- The row that an upsert leaves: the new one, but for the time of its receipt.
  upsert_same :
      (rows : List TelemetrySample)
      → (at : ℕ) × (find_row key (upsert received new rows)
          ≡ some (record new { received_at = at }))
  unfolding upsert find_row
  upsert_same rows = elim (Option-cases (find_row key rows)) [
    | inl free ↦ (new.received_at, ground (arith, free))
    | inr (old, taken) ↦
        let fits = find_row-passes key rows taken in
        let look = update_lem new.machine_id new.collected_at rows in
        let same : merge received new old ≡ record new { received_at = received } =
          ground (arith, fits) in
        (received, ground (arith, taken, fits, look, same))
  ]

  upsert_other :
      (m at : ℕ) (rows : List TelemetrySample)
      → ((m == new.machine_id) && (at == new.collected_at)) ≡ false
      → find_row (has_key m at) (upsert received new rows) ≡ find_row (has_key m at) rows
  unfolding upsert find_row
  upsert_other m at rows h = elim (Option-cases (find_row (has_key m at) rows)) [
    | inl free ↦ ground (arith, h, free, update_lem m at rows)
    | inr (old, taken) ↦
        ground (arith, h, taken, find_row-passes (has_key m at) rows taken, update_lem m at rows)
  ]

valid-sample_fits :
    (pg : Server) (s : Sample) (n machine percent : ℕ)
    → IsValidSample s
    → percent ≤ 10000
    → sample_fits (new_row pg s n machine percent) ≡ true
unfolding sample_fits
valid-sample_fits pg s n machine percent v small =
    ground (arith, v.memory_used, v.memory_total, v.disk_used, v.disk_total, v.uptime)

module _ (pg : Server) (up : NoOutage pg) (s : Sample) (w : World) {id percent : ℕ} {m : Machine}
    (valid : IsValidSample s) (parsed : pg.parse_uuid s.machine_id ≡ some id)
    (found : machine_of id w.committed ≡ some m)
    (reads : pg.numeric s.cpu_usage_percent ≡ some percent) (small : percent ≤ 10000) where
  record_sample_succeeds : (record_sample pg s w).0 ≡ ok tt
  unfolding record_sample autocommit insert_sample
  record_sample_succeeds = ground (
    arith,
    parsed,
    found,
    reads,
    up w.event,
    valid-sample_fits pg s w.event id percent valid small,
  )

  -- Suppose that no request fails, that the machine of a valid sample exists, and that its CPU
  -- percentage is read as at most 100. Then recording it succeeds. Afterwards the row of its
  -- machine and time holds the sample, whether there was one or not, and the rows of other machines
  -- and times are as before.
  pub record_sample_keeps :
      ((record_sample pg s w).0 ≡ ok tt)
      × ((received : ℕ) × (sample_of id
              (pg.encode_time s.collected_at)
              (record_sample pg s w).1.committed
            ≡ some (record (new_row pg s w.event id percent) { received_at = received })))
      × ((other at : ℕ)
          → ((other == id) && (at == pg.encode_time s.collected_at)) ≡ false
          → sample_of other at (record_sample pg s w).1.committed ≡ sample_of other at w.committed)
  record_sample_keeps =
      let tables = record_sample-ok pg s w record_sample_succeeds in
      let put : recorded_tables pg s w.event w.committed
          ≡ put_sample pg s w.event w.committed id percent =
        rw (parsed, reads, recorded_tables) in
      let new = new_row pg s w.event id percent in
      let (received, same) = upsert_same (pg.now (suc w.event)) new w.committed.telemetry_samples in
      (
        record_sample_succeeds,
        (received, ap (sample_of id (pg.encode_time s.collected_at)) (tables ∙ put) ∙ same),
        λ other at differs.
            ap (sample_of other at) (tables ∙ put)
            ∙ upsert_other (pg.now (suc w.event)) new other at w.committed.telemetry_samples
                differs,
      )
