-- ===== src/Prelude/Lists.antt =====
-- Lists measured by native numbers, under the library's names, and predicates on them.
use Prim.Native.Nat.{ℕ, zero, suc, ◌+◌, ◌≤◌, min}
use mathlib.Core.Path.{◌≡◌, refl}
use mathlib.Core.Bool.{Bool, true, false, ◌&&◌, ◌||◌}
use mathlib.Core.List.{List, [], ◌∷◌, ◌++◌, reverse, reverse-cons}
use native.Mathlib.Omega.{arith}
use arxveil.Prelude.Tests.{if◌then◌else◌}

module _ {ℓ} {A : Type ℓ} where
  abbrev pub length : List A → ℕ
  length [] = 0
  length (x ∷ xs) = suc (length xs)

  abbrev pub take : ℕ → List A → List A
  take zero xs = []
  take (suc n) [] = []
  take (suc n) (x ∷ xs) = x ∷ take n xs

  abbrev pub drop : ℕ → List A → List A
  drop zero xs = xs
  drop (suc n) [] = []
  drop (suc n) (x ∷ xs) = drop n xs

  abbrev pub replicate : ℕ → A → List A
  replicate zero a = []
  replicate (suc n) a = a ∷ replicate n a

  abbrev pub get_or : List A → ℕ → A → A
  get_or [] i d = d
  get_or (x ∷ xs) zero d = x
  get_or (x ∷ xs) (suc i) d = get_or xs i d

  pub length-append : (xs ys : List A) → length (xs ++ ys) ≡ length xs + length ys
  length-append [] ys = omega arith
  length-append (x ∷ xs) ys = omega (arith, length-append xs ys)

  -- Every element satisfies a test.
  abbrev pub all : (A → Bool) → List A → Bool
  all p [] = true
  all p (x ∷ xs) = p x && all p xs

  -- Some element satisfies a test.
  abbrev pub any : (A → Bool) → List A → Bool
  any p [] = false
  any p (x ∷ xs) = p x || any p xs

  -- The elements that satisfy a test, in order.
  unfoldable pub select : (A → Bool) → List A → List A
  select p [] = []
  select p (x ∷ xs) = let rest = select p xs in if p x then x ∷ rest else rest

module _ {ℓ κ} {A : Type ℓ} where
  -- A predicate by recursion computes to tuples, which the tactics read and build.
  abbrev pub All : (A → Type κ) → List A → Type κ
  All P [] = Unit
  All P (x ∷ xs) = P x × All P xs

module _ {ℓ} {A : Type ℓ} where
  pub length-reverse : (xs : List A) → length (reverse xs) ≡ length xs
  length-reverse [] = refl
  length-reverse (x ∷ xs) = rw (reverse-cons, length-append) (omega (arith, length-reverse xs))

  pub length-take : (n : ℕ) (xs : List A) → length (take n xs) ≡ min n (length xs)
  length-take zero xs = omega arith
  length-take (suc n) [] = omega arith
  length-take (suc n) (x ∷ xs) = omega (arith, length-take n xs)

-- Filtering twice, and by tests that agree.
module _ {ℓ} {A : Type ℓ} where
  pub select-select :
      (p q : A → Bool) (xs : List A) → select p (select q xs) ≡ select (λ x. q x && p x) xs
  unfolding select
  select-select p q [] = refl
  select-select p q (x ∷ xs) = ground (arith, select-select p q xs)

  pub select_congr :
      (p q : A → Bool) → ((x : A) → p x ≡ q x) → (xs : List A) → select p xs ≡ select q xs
  unfolding select
  select_congr p q h [] = refl
  select_congr p q h (x ∷ xs) = rw (h x, select_congr p q h xs)

  pub select_all : (p : A → Bool) → ((x : A) → p x ≡ true) → (xs : List A) → select p xs ≡ xs
  unfolding select
  select_all p h [] = refl
  select_all p h (x ∷ xs) = rw (h x, select_all p h xs)

  pub length-select-le : (p : A → Bool) (xs : List A) → length (select p xs) ≤ length xs
  unfolding select
  length-select-le p [] = omega arith
  length-select-le p (x ∷ xs) = ground (arith, length-select-le p xs)

module _ {ℓ κ} {A : Type ℓ} where
  pub All-select : (P : A → Type κ) (p : A → Bool) (xs : List A) → All P xs → All P (select p xs)
  unfolding select
  All-select P p [] h = tt
  All-select P p (x ∷ xs) h = ground (arith, All-select P p xs h.1)

module _ {ℓ κ} {A : Type ℓ} (P : A → Type κ) where
  pub All-append : (xs ys : List A) → All P xs → All P ys → All P (xs ++ ys)
  All-append [] ys h k = k
  All-append (x ∷ xs) ys h k = (h.0, All-append xs ys h.1 k)

  pub All-take : (n : ℕ) (xs : List A) → All P xs → All P (take n xs)
  All-take zero xs h = tt
  All-take (suc n) [] h = tt
  All-take (suc n) (x ∷ xs) h = (h.0, All-take n xs h.1)

  pub All-mono : (Q : A → Type κ) (xs : List A) → ((x : A) → P x → Q x) → All P xs → All Q xs
  All-mono Q [] f h = tt
  All-mono Q (x ∷ xs) f h = (f x h.0, All-mono Q xs f h.1)
