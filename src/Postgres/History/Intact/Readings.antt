-- ===== src/Postgres/History/Intact/Readings.antt =====
-- The samples that a lookup finds after any history.
use arxveil.Prelude.{
  ℕ, ◌≡◌, subst, Bool, true, false, some, List, [], ◌∷◌, All, nat_eq, ◌==◌, if◌then◌else◌, arith,
  Option-cases, inl, inr,
}
use arxveil.Postgres.{Server}
use arxveil.Postgres.Schema.{Machine, TelemetrySample, find_row, machine_of}
use arxveil.Postgres.Schema.Rows.{find_row-passes}
use arxveil.Postgres.Schema.Integrity.{is_machine, IsBounded}
use arxveil.Postgres.PresenceStore.Effects.{ReadsUuids}
use arxveil.Postgres.TelemetryStore.{has_key, sample_of}
use arxveil.Postgres.History.{Call, run}
use arxveil.Postgres.History.Invariant.{initial}
use arxveil.Postgres.History.Intact.{run-IsIntact}

find_row-All :
    {A : Type 0} (P : A → Type 0) (p : A → Bool) (rows : List A) {a : A}
    → All P rows
    → find_row p rows ≡ some a
    → P a
unfolding find_row
find_row-All P p [] h e = cc e
find_row-All P p (x ∷ rows) {a} h e = go (p x) e (find_row-All P p rows h.1)
  where
    go :
        (b : Bool)
        → (if b then some x else find_row p rows) ≡ some a
        → (find_row p rows ≡ some a → P a)
        → P a
    go true q later = subst P (cc q) h.0
    go false q later = later q

found_machine :
    (rows : List Machine) (id : ℕ)
    → is_machine rows id ≡ true
    → (m : Machine) × (find_row (λ m. m.id == id) rows ≡ some m)
found_machine rows id h = elim (Option-cases (find_row (λ (m : Machine). m.id == id) rows)) [
  | inl free ↦ absurd (ground (arith, free, h))
  | inr found ↦ found
]

-- Suppose the driver reads back every UUID that it writes. A sample that is found under a machine
-- and a time after any calls of the stores on empty tables, with any failures of their requests,
-- has at most 100 percent of CPU usage, used memory and disk between 0 and their totals, and an
-- uptime that is not negative; and the machine is registered.
pub stored_sample_lem :
    (pg : Server) (cs : List Call) (machine at : ℕ) (s : TelemetrySample)
    → ReadsUuids pg
    → sample_of machine at (run pg initial cs).committed ≡ some s
    → IsBounded s × ((m : Machine) × (machine_of machine (run pg initial cs).committed ≡ some m))
stored_sample_lem pg cs machine at s reads found =
    let h = run-IsIntact pg cs reads in
    let db = (run pg initial cs).committed in
    let key = find_row-passes (has_key machine at) db.telemetry_samples found in
    let belongs = find_row-All _ (has_key machine at) db.telemetry_samples h.samples_belong found in
    (
      find_row-All IsBounded (has_key machine at) db.telemetry_samples h.samples_fit found,
      found_machine db.machines machine
          (subst (λ k. is_machine db.machines k ≡ true) (ground (arith, key)) belongs),
    )
