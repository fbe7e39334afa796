-- ===== src/Enrollment/Validation/Reference.antt =====
-- `validateInput` against a definition without its loop and its variables: a row of guards, and the normal form.
use Prim.Native.String.{◌++◌ as ◌<>◌}
use arxveil.Prelude.{
  ℕ, String, ◌≡◌, refl, ap, ◌∙◌, Bool, true, false, ◌||◌, not, List, [], ◌∷◌, ◌++◌, map, length,
  drop, ltb, all, All, text_eq, ◌==◌, eq_refl, contains, if◌then◌else◌, Bool-cases, inl, inr,
  ne→false, le→ltb_false, arith,
}
use arxveil.Go.Text.{Bytes, trim_space}
use arxveil.Go.Fault.{Fault, Result, ok, err, ◌>>=◌, ◌>>◌, fail_if, itoa, Guard, first_failure}
use arxveil.Enrollment.{Input, max_hostname, max_metadata_value, max_capabilities, max_capability}
use arxveil.Enrollment.Validation.{invalid, required_metadata, normalize, validate_input}
use arxveil.Enrollment.Validation.Capabilities.{
  dedup, Fits, normalize-Fits, normalize-total, normalize-dedup,
}
use arxveil.Enrollment.Validation.Accepted.{normal_form}

-- The trimmed text is empty or too long.
abbrev pub misfits : ℕ → Bytes → Bool
misfits maximum s = trim_space s == [] || ltb maximum (length (trim_space s))

abbrev pub misfit : String → ℕ → Fault
misfit name maximum = invalid (name <> " must be between 1 and " <> itoa maximum <> " characters")

abbrev pub guards : Input → List Guard
guards i =
    (misfits max_hostname i.hostname, misfit "hostname" max_hostname)
    ∷ (misfits max_metadata_value i.operating_system, misfit "operating system" max_metadata_value)
    ∷ (misfits max_metadata_value i.os_version, misfit "OS version" max_metadata_value)
    ∷ (misfits max_metadata_value i.architecture, misfit "architecture" max_metadata_value)
    ∷ (misfits max_metadata_value i.agent_version, misfit "agent version" max_metadata_value)
    ∷ (ltb max_capabilities (length i.capabilities), invalid "too many capabilities")
    ∷ (
      not (all (λ c. not (misfits max_capability c)) i.capabilities),
      misfit "capability" max_capability,
    )
    ∷ []

module _ {C : Type 0} (k : Result C) where
  guard_step :
      (b : Bool) (e : Fault) (gs : List Guard) (m : Result C)
      → m ≡ (first_failure gs >> k)
      → (fail_if b e >> m) ≡ (first_failure ((b, e) ∷ gs) >> k)
  guard_step true e gs m h = refl
  guard_step false e gs m h = h

  field_step :
      (name : String) (value : Bytes) (maximum : ℕ) (f : Bytes → Result C) (gs : List Guard)
      → f (trim_space value) ≡ (first_failure gs >> k)
      → (required_metadata name value maximum >>= f)
        ≡ (first_failure ((misfits maximum value, misfit name maximum) ∷ gs) >> k)
  unfolding required_metadata
  field_step name value maximum f gs h = go (misfits maximum value)
    where
      go :
          (b : Bool)
          → ((if b then err (misfit name maximum) else ok (trim_space value)) >>= f)
            ≡ (first_failure ((b, misfit name maximum) ∷ gs) >> k)
      go true = refl
      go false = h

same_error :
    {A : Type 0} (b d : Bool) (e' : Fault) (x y : Result A) {e : Fault}
    → (if b then err e' else if d then x else y) ≡ err e
    → (x ≡ err e → e ≡ e')
    → (y ≡ err e → e ≡ e')
    → e ≡ e'
same_error true d e' x y q hx hy = cc q
same_error false true e' x y q hx hy = hx q
same_error false false e' x y q hx hy = hy q

normalize-err :
    (cs seen out : List Bytes) {e : Fault}
    → normalize cs seen out ≡ err e
    → e ≡ misfit "capability" max_capability
unfolding normalize itoa
normalize-err [] seen out q = cc
normalize-err (c ∷ cs) seen out q =
    same_error (misfits max_capability c) (contains seen (trim_space c))
      (misfit "capability" max_capability) (normalize cs seen out)
      (normalize cs (trim_space c ∷ seen) (out ++ (trim_space c ∷ []))) q
      (normalize-err cs seen out)
      (normalize-err cs (trim_space c ∷ seen) (out ++ (trim_space c ∷ [])))

all-Fits :
    (cs : List Bytes)
    → all (λ c. not (misfits max_capability c)) cs ≡ true
    → All (Fits max_capability) cs
all-Fits [] h = tt
all-Fits (c ∷ cs) h = ground (arith, h, all-Fits cs, eq_refl (trim_space c))

Fits-all :
    (cs : List Bytes)
    → All (Fits max_capability) cs
    → all (λ c. not (misfits max_capability c)) cs ≡ true
Fits-all [] h = refl
Fits-all (c ∷ cs) h =
    rw (ne→false (trim_space c) [] h.0.0, le→ltb_false _ _ h.0.1) (Fits-all cs h.1)

abbrev all_fit : List Bytes → Bool
all_fit = all (λ c. not (misfits max_capability c))

-- The loop, as one test and one value.
normalize-eq :
    (cs : List Bytes)
    → normalize cs [] [] ≡ (
        fail_if (not (all_fit cs)) (misfit "capability" max_capability)
        >> ok (dedup (map trim_space cs)))
normalize-eq cs = elim (Bool-cases (all_fit cs)) [
  | inl fit ↦
      let (r, q) = normalize-total cs [] [] (all-Fits cs fit) in
      rw fit (q ∙ ap ok (normalize-dedup cs r q))
  | inr unfit ↦ rw unfit (go (normalize cs [] []) refl unfit)
]
  where
    go :
        (o : Result (List Bytes))
        → normalize cs [] [] ≡ o
        → all_fit cs ≡ false
        → o ≡ err (misfit "capability" max_capability)
    go (ok r) q unfit = cc (unfit, Fits-all cs (normalize-Fits cs [] [] r q))
    go (err e) q unfit = ap err (normalize-err cs [] [] q)

-- The last guard, and then the value.
last_step :
    {A C : Type 0} (b : Bool) (e : Fault) (a : A) (f : A → Result C) {m : Result A}
    → m ≡ (fail_if b e >> ok a)
    → (m >>= f) ≡ (first_failure ((b, e) ∷ []) >> f a)
last_step true e a f q = ap (λ m. m >>= f) q
last_step false e a f q = ap (λ m. m >>= f) q

-- Validation is a row of seven guards followed by the normal form of the input: the five fields in
-- their order, the number of capabilities, and whether all capabilities fit. The first guard that
-- fails decides the error, text included.
pub validate_input_eq :
    (i : Input) → validate_input i ≡ (first_failure (guards i) >> ok (normal_form i))
unfolding validate_input normal_form
validate_input_eq i =
    field_step (ok (normal_form i)) "hostname" i.hostname max_hostname _ (drop 1 (guards i)) (
      field_step (ok (normal_form i)) "operating system" i.operating_system max_metadata_value _
        (drop 2 (guards i))
        (field_step (ok (normal_form i)) "OS version" i.os_version max_metadata_value _
          (drop 3 (guards i))
          (field_step (ok (normal_form i)) "architecture" i.architecture max_metadata_value _
            (drop 4 (guards i))
            (field_step (ok (normal_form i)) "agent version" i.agent_version max_metadata_value _
              (drop 5 (guards i))
              (guard_step (ok (normal_form i)) (ltb max_capabilities (length i.capabilities))
                (invalid "too many capabilities") (drop 6 (guards i)) _
                (last_step _ _ _ _ (normalize-eq i.capabilities)))))))
