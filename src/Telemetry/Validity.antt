-- ===== src/Telemetry/Validity.antt =====
-- Which samples `Record` passes on to the store, and what it does with the others.
use arxveil.Prelude.{
  ◌≤◌, ◌≡◌, ◌≢◌, List, ◌∷◌, sym, ◌∙◌, refl, ◌⊎◌, inl, inr, Bool, true, false, ◌||◌, [], text_eq,
  nat_eq, ◌==◌, ne→false, arith,
}
use arxveil.Prelude.Int.{ℤ, pos, ltb_ℤ, ◌≤ℤ◌}
use arxveil.Go.Text.{trim_space}
use arxveil.Go.Fault.{
  Fault, invalid_sample, is, wrap_result, Result, ok, err, OnErr, OnErr-eq, Guard, first_failure,
  AllPass, first_failure-ok, AllPass-first_failure, first_failure-OnErr,
}
use arxveil.Go.Float64.{Float64, is_nan, is_inf, lt, f0, f100, magnitude, is_negative}
use arxveil.Go.Time.{Time, is_zero}
use arxveil.Telemetry.{invalid, Sample, Store, validate_sample, record_telemetry}

-- A number from zero to 100: a zero of either sign, or a positive pattern up to that of 100. (The
-- patterns of positive numbers are ordered as the numbers; those of infinity and NaN are above.)
abbrev pub IsPercentage : Float64 → Type 0
IsPercentage f = (magnitude f ≡ 0) ⊎ ((is_negative f ≡ false) × (magnitude f ≤ f100))

abbrev outside : Float64 → Bool
outside f = is_nan f || is_inf f || lt f f0 || lt f100 f

outside-IsPercentage : (f : Float64) → outside f ≡ false → IsPercentage f
outside-IsPercentage f h = ground arith

IsPercentage-outside : (f : Float64) → IsPercentage f → outside f ≡ false
IsPercentage-outside f (inl zeros) = ground arith
IsPercentage-outside f (inr (sign, small)) = ground arith

pub record IsValidSample (s : Sample) : Type 0 where
  pub machine_id : trim_space s.machine_id ≢ []
  pub collected_at : s.collected_at ≢ 0
  pub cpu : IsPercentage s.cpu_usage_percent
  pub memory_used : pos 0 ≤ℤ s.memory_used_bytes
  pub memory_total : s.memory_used_bytes ≤ℤ s.memory_total_bytes
  pub disk_used : pos 0 ≤ℤ s.disk_used_bytes
  pub disk_total : s.disk_used_bytes ≤ℤ s.disk_total_bytes
  pub uptime : pos 0 ≤ℤ s.uptime_seconds

-- The numbers of a used and a total amount.
in_range :
    (used total : ℤ)
    → (ltb_ℤ used (pos 0) || ltb_ℤ total used) ≡ false
    → (pos 0 ≤ℤ used) × (used ≤ℤ total)
in_range used total h = ground arith

nonnegative : (n : ℤ) → ltb_ℤ n (pos 0) ≡ false → pos 0 ≤ℤ n
nonnegative n h = ground arith

not_zero : (t : Time) → is_zero t ≡ false → t ≢ 0
not_zero t h = ground arith

-- The guards of `validateSample`, in their order.
guards : Sample → List Guard
guards s =
    (trim_space s.machine_id == [], invalid "machine ID is required")
    ∷ (is_zero s.collected_at, invalid "collected at is required")
    ∷ (outside s.cpu_usage_percent, invalid "CPU usage percent must be between zero and 100")
    ∷ (ltb_ℤ s.memory_total_bytes (pos 0), invalid "memory total bytes must not be negative")
    ∷ (
      ltb_ℤ s.memory_used_bytes (pos 0) || ltb_ℤ s.memory_total_bytes s.memory_used_bytes,
      invalid "memory used bytes must be between zero and memory total bytes",
    )
    ∷ (ltb_ℤ s.disk_total_bytes (pos 0), invalid "disk total bytes must not be negative")
    ∷ (
      ltb_ℤ s.disk_used_bytes (pos 0) || ltb_ℤ s.disk_total_bytes s.disk_used_bytes,
      invalid "disk used bytes must be between zero and disk total bytes",
    )
    ∷ (ltb_ℤ s.uptime_seconds (pos 0), invalid "uptime seconds must not be negative")
    ∷ []

validate_sample-guards : (s : Sample) → validate_sample s ≡ first_failure (guards s)
unfolding validate_sample guards
validate_sample-guards s = refl

AllPass-IsValidSample : (s : Sample) → AllPass (guards s) → IsValidSample s
unfolding guards
AllPass-IsValidSample s
      (blank, (time, (cpu, (memory, (memory_used, (disk, (disk_used, (uptime, _)))))))) =
    record {
      machine_id = ground (arith, text_eq.beq_iff (trim_space s.machine_id) []);
      collected_at = not_zero s.collected_at time;
      cpu = outside-IsPercentage s.cpu_usage_percent cpu;
      memory_used = (in_range _ s.memory_total_bytes memory_used).0;
      memory_total = (in_range s.memory_used_bytes _ memory_used).1;
      disk_used = (in_range _ s.disk_total_bytes disk_used).0;
      disk_total = (in_range s.disk_used_bytes _ disk_used).1;
      uptime = nonnegative _ uptime;
    }

pub validate_sample-IsValidSample : (s : Sample) → validate_sample s ≡ ok tt → IsValidSample s
validate_sample-IsValidSample s e =
    AllPass-IsValidSample s (first_failure-ok (guards s) (sym (validate_sample-guards s) ∙ e))

negative_false : (n : ℤ) → pos 0 ≤ℤ n → ltb_ℤ n (pos 0) ≡ false
negative_false n h = ground arith

total_false : (used total : ℤ) → pos 0 ≤ℤ used → used ≤ℤ total → ltb_ℤ total (pos 0) ≡ false
total_false used total h k = ground arith

range_false :
    (used total : ℤ)
    → pos 0 ≤ℤ used
    → used ≤ℤ total
    → (ltb_ℤ used (pos 0) || ltb_ℤ total used) ≡ false
range_false used total h k = ground arith

IsValidSample-AllPass : (s : Sample) → IsValidSample s → AllPass (guards s)
unfolding guards
IsValidSample-AllPass s v = (
  ne→false _ [] v.machine_id,
  (
    ne→false _ 0 v.collected_at,
    (
      IsPercentage-outside s.cpu_usage_percent v.cpu,
      (
        total_false s.memory_used_bytes _ v.memory_used v.memory_total,
        (
          range_false s.memory_used_bytes _ v.memory_used v.memory_total,
          (
            total_false s.disk_used_bytes _ v.disk_used v.disk_total,
            (
              range_false s.disk_used_bytes _ v.disk_used v.disk_total,
              (negative_false s.uptime_seconds v.uptime, tt),
            ),
          ),
        ),
      ),
    ),
  ),
)

pub IsValidSample-validate_sample : (s : Sample) → IsValidSample s → validate_sample s ≡ ok tt
IsValidSample-validate_sample s v =
    validate_sample-guards s ∙ AllPass-first_failure (guards s) (IsValidSample-AllPass s v)

abbrev is_invalid : Fault → Bool
is_invalid e = is e invalid_sample

validate_sample-OnErr : (s : Sample) → OnErr is_invalid (validate_sample s)
unfolding guards
validate_sample-OnErr s = rw (validate_sample-guards s) (
    first_failure-OnErr is_invalid (guards s)
      (refl, (refl, (refl, (refl, (refl, (refl, (refl, (refl, tt)))))))))

-- `Record` passes a valid sample to the store as it is, wraps the store's error and leaves the
-- state as the store does. Any other sample is refused with `ErrInvalidSample`, and the store is
-- not called.
pub record_telemetry_lem :
    {S : Type 0} (store : Store S) (sample : Sample) (s : S)
    → (IsValidSample sample
        × (record_telemetry store sample s ≡ (
          wrap_result "record telemetry sample" (store.record_sample sample s).0,
          (store.record_sample sample s).1,
        )))
      ⊎ ((¬ IsValidSample sample)
          × ((e : Fault) × (record_telemetry store sample s ≡ (err e, s))
              × (is e invalid_sample ≡ true)))
unfolding record_telemetry
record_telemetry_lem store sample s = elim (ok-cases (validate_sample sample)) [
  | inl q ↦ inl (validate_sample-IsValidSample sample q, rw q)
  | inr (e, q) ↦ inr (
    λ v. cc (IsValidSample-validate_sample sample v),
    (e, rw q, OnErr-eq is_invalid _ e (validate_sample-OnErr sample) q),
  )
]
  where
    ok-cases : (r : Result (Unit {0})) → (r ≡ ok tt) ⊎ ((e : Fault) × (r ≡ err e))
    ok-cases (ok tt) = inl refl
    ok-cases (err e) = inr (e, refl)
