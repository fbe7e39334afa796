-- ===== src/Enrollment/Validation/Capabilities.antt =====
-- The loop of `validateInput` over the capabilities: it trims every name and keeps the first of equal
-- names.
use mathlib.Core.List.{append-nil, append_assoc}
use arxveil.Prelude.{
  ne→false, le→ltb_false, &&-false, eq_sym, ◌≢◌, ℕ, ◌≤◌, ◌≡◌, refl, ap, ◌∙◌, Bool, true, false,
  ◌&&◌, not, List, [], ◌∷◌, ◌++◌, map, length, length-select-le, select, select-select,
  select_congr, select_all, text_eq, ◌==◌, eq_refl, eq→path, contains, All, Bool-cases, inl, inr,
  arith,
}
use arxveil.Go.Text.{Bytes, trim_space}
use arxveil.Go.Fault.{ok, err, is, invalid_input, Fault}
use arxveil.Enrollment.{max_capability}
use arxveil.Enrollment.Validation.{normalize}

-- The specification: every name once, in the order of its first occurrence.
unfoldable pub dedup : List Bytes → List Bytes
dedup [] = []
dedup (x ∷ xs) = x ∷ select (λ y. not (y == x)) (dedup xs)

abbrev pub unseen : List Bytes → Bytes → Bool
unseen seen x = not (contains seen x)

-- Dropping what has been seen does not change if a seen name is dropped first.
select-unseen_seen :
    (seen : List Bytes) (t : Bytes) (xs : List Bytes)
    → contains seen t ≡ true
    → select (unseen seen) (select (λ y. not (y == t)) xs) ≡ select (unseen seen) xs
select-unseen_seen seen t xs h =
    select-select (unseen seen) (λ y. not (y == t)) xs ∙ select_congr _ _ (λ y. same y) xs
  where
    same : (y : Bytes) → (not (y == t) && unseen seen y) ≡ unseen seen y
    same y = elim (Bool-cases (y == t)) [ inl e ↦ rw (eq→path y t e, h, eq_refl t) | inr n ↦ rw n ]

select-unseen_new :
    (seen : List Bytes) (t : Bytes) (xs : List Bytes)
    → select (unseen seen) (select (λ y. not (y == t)) xs) ≡ select (unseen (t ∷ seen)) xs
select-unseen_new seen t xs =
    select-select (unseen seen) (λ y. not (y == t)) xs ∙ select_congr _ _ (λ y. same y) xs
  where
    same : (y : Bytes) → (not (y == t) && unseen seen y) ≡ unseen (t ∷ seen) y
    same y = ground arith

pub normalize-dedup_from :
    (cs seen out r : List Bytes)
    → normalize cs seen out ≡ ok r
    → r ≡ out ++ select (unseen seen) (dedup (map trim_space cs))
unfolding normalize dedup select
normalize-dedup_from [] seen out r e = rw append-nil (ground arith)
normalize-dedup_from (c ∷ cs) seen out r e =
    let t = trim_space c in
    let later = dedup (map trim_space cs) in
    ground (
      arith,
      normalize-dedup_from cs seen out r,
      normalize-dedup_from cs (t ∷ seen) (out ++ (t ∷ [])) r,
      select-unseen_seen seen t later,
      select-unseen_new seen t later,
      append_assoc out (t ∷ []) (select (unseen (t ∷ seen)) later),
    )

-- A name that is accepted: 1 to `maximum` bytes are left when it is trimmed.
abbrev pub Fits : ℕ → Bytes → Type 0
Fits maximum s = (trim_space s ≢ []) × (length (trim_space s) ≤ maximum)

-- The loop fails on a name that does not fit, and on nothing else.
pub normalize-Fits :
    (cs seen out r : List Bytes) → normalize cs seen out ≡ ok r → All (Fits max_capability) cs
unfolding normalize
normalize-Fits [] seen out r e = tt
normalize-Fits (c ∷ cs) seen out r e = ground (
  arith,
  eq_refl (trim_space c),
  normalize-Fits cs seen out r,
  normalize-Fits cs (trim_space c ∷ seen) (out ++ (trim_space c ∷ [])) r,
)

pub normalize-total :
    (cs seen out : List Bytes)
    → All (Fits max_capability) cs
    → (r : List Bytes) × (normalize cs seen out ≡ ok r)
unfolding normalize
normalize-total [] seen out h = (out, refl)
normalize-total (c ∷ cs) seen out h =
    let t = trim_space c in
    elim (Bool-cases (contains seen t)) [
      | inl old ↦
          let (r, e) = normalize-total cs seen out h.1 in
          (r, rw (ne→false t [] h.0.0, le→ltb_false _ _ h.0.1, old) e)
      | inr new ↦
          let (r, e) = normalize-total cs (t ∷ seen) (out ++ (t ∷ [])) h.1 in
          (r, rw (ne→false t [] h.0.0, le→ltb_false _ _ h.0.1, new) e)
    ]

pub normalize-is_invalid :
    (cs seen out : List Bytes) (e : Fault)
    → normalize cs seen out ≡ err e
    → is e invalid_input ≡ true
unfolding normalize
normalize-is_invalid [] seen out e h = cc
normalize-is_invalid (c ∷ cs) seen out e h = ground (
  arith,
  normalize-is_invalid cs seen out e,
  normalize-is_invalid cs (trim_space c ∷ seen) (out ++ (trim_space c ∷ [])) e,
)

-- No name occurs twice.
abbrev pub IsDistinct : List Bytes → Type 0
IsDistinct [] = Unit
IsDistinct (x ∷ xs) = (contains xs x ≡ false) × IsDistinct xs

contains-select :
    (p : Bytes → Bool) (x : Bytes) (xs : List Bytes)
    → contains (select p xs) x ≡ (contains xs x && p x)
unfolding select
contains-select p x [] = refl
contains-select p x (y ∷ ys) = elim (Bool-cases (x == y)) [
  | inl e ↦ let q = eq→path x y e in ground (arith, contains-select p x ys, q, ap p q)
  | inr n ↦ ground (arith, contains-select p x ys)
]

IsDistinct-select : (p : Bytes → Bool) (xs : List Bytes) → IsDistinct xs → IsDistinct (select p xs)
unfolding select
IsDistinct-select p [] h = tt
IsDistinct-select p (x ∷ xs) h = ground (arith, contains-select p x xs, IsDistinct-select p xs h.1)

pub dedup-IsDistinct : (xs : List Bytes) → IsDistinct (dedup xs)
unfolding dedup
dedup-IsDistinct [] = tt
dedup-IsDistinct (x ∷ xs) = (
  rw (contains-select, eq_refl x) (&&-false _),
  IsDistinct-select _ (dedup xs) (dedup-IsDistinct xs),
)

-- A list without repetitions is left as it is.
select_absent :
    (x : Bytes) (xs : List Bytes) → contains xs x ≡ false → select (λ y. not (y == x)) xs ≡ xs
unfolding select
select_absent x [] h = refl
select_absent x (y ∷ ys) h = ground (arith, select_absent x ys, eq_sym x y)

pub dedup-fixed : (xs : List Bytes) → IsDistinct xs → dedup xs ≡ xs
unfolding dedup
dedup-fixed [] h = refl
dedup-fixed (x ∷ xs) h = rw (dedup-fixed xs h.1, select_absent x xs h.0)

-- A name is in the result exactly when it is among the names.
pub contains-dedup : (x : Bytes) (xs : List Bytes) → contains (dedup xs) x ≡ contains xs x
unfolding dedup
contains-dedup x [] = refl
contains-dedup x (y ∷ ys) = rw (contains-select, contains-dedup x ys) (ground arith)

pub length-dedup-le : (xs : List Bytes) → length (dedup xs) ≤ length xs
unfolding dedup
length-dedup-le [] = omega arith
length-dedup-le (x ∷ xs) =
    omega (arith, length-select-le (λ y. not (y == x)) (dedup xs), length-dedup-le xs)

-- What an accepted list becomes.
pub normalize-dedup :
    (cs r : List Bytes) → normalize cs [] [] ≡ ok r → r ≡ dedup (map trim_space cs)
normalize-dedup cs r e =
    normalize-dedup_from cs [] [] r e ∙ select_all _ (λ x. refl) (dedup (map trim_space cs))
