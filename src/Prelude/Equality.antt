-- ===== src/Prelude/Equality.antt =====
-- Go's `==` on the comparable types that the program compares: numbers, byte strings, options.
use Prim.Native.Nat.{ℕ}
use mathlib.Core.Path.{◌≡◌, refl}
use mathlib.Core.Logic.{◌↔◌, ◌≢◌}
use mathlib.Core.Bool.{Bool, true, false, ◌&&◌, ◌||◌}
use mathlib.Core.Option.{Option, none, some}
use mathlib.Core.List.{List, [], ◌∷◌}
use native.Mathlib.Omega.{arith}
use arxveil.Prelude.Tests.{nat_beq, nat_beq_iff, not_true→false}

pub record Eq {ℓ} (T : Type ℓ) : Type ℓ where
  pub beq : T → T → Bool
  pub beq_iff : (x y : T) → (beq x y ≡ true) ↔ (x ≡ y)

unfoldable pub bytes_beq : List ℕ → List ℕ → Bool
bytes_beq [] [] = true
bytes_beq [] (y ∷ ys) = false
bytes_beq (x ∷ xs) [] = false
bytes_beq (x ∷ xs) (y ∷ ys) = nat_beq x y && bytes_beq xs ys

pub bytes_beq_iff : (s t : List ℕ) → (bytes_beq s t ≡ true) ↔ (s ≡ t)
unfolding bytes_beq
bytes_beq_iff [] [] = (λ _. refl, λ _. refl)
bytes_beq_iff [] (y ∷ ys) = (λ h. cc, λ h. cc)
bytes_beq_iff (x ∷ xs) [] = (λ h. cc, λ h. cc)
bytes_beq_iff (x ∷ xs) (y ∷ ys) = ground (arith, bytes_beq_iff xs ys)

instance abbrev pub nat_eq : Eq ℕ
nat_eq = record { beq = nat_beq; beq_iff = nat_beq_iff }

infix 50 ◌==◌
abbrev pub ◌==◌ {ℓ} : {T : Type ℓ} → ⦃comparable : Eq T⦄ → T → T → Bool
◌==◌ ⦃comparable⦄ x y = comparable.beq x y

module _ {ℓ} {A : Type ℓ} ⦃e : Eq A⦄ where
  pub eq_refl : (a : A) → (a == a) ≡ true
  eq_refl a = (e.beq_iff a a).1 refl

  pub eq→path : (a b : A) → (a == b) ≡ true → a ≡ b
  eq→path a b = (e.beq_iff a b).0

  pub ne→false : (a b : A) → a ≢ b → (a == b) ≡ false
  ne→false a b n = not_true→false (a == b) (λ h. n (eq→path a b h))

  pub eq_sym : (a b : A) → (a == b) ≡ (b == a)
  eq_sym a b = ground (arith, e.beq_iff a b, e.beq_iff b a)

  abbrev pub contains : List A → A → Bool
  contains [] a = false
  contains (x ∷ xs) a = a == x || contains xs a

instance abbrev pub text_eq : Eq (List ℕ)
text_eq = record { beq = bytes_beq; beq_iff = bytes_beq_iff }

module _ {ℓ} {A : Type ℓ} ⦃e : Eq A⦄ where
  abbrev pub option_beq : Option A → Option A → Bool
  option_beq none none = true
  option_beq none (some b) = false
  option_beq (some a) none = false
  option_beq (some a) (some b) = a == b

  pub option_beq_iff : (a b : Option A) → (option_beq a b ≡ true) ↔ (a ≡ b)
  option_beq_iff none none = (λ _. refl, λ _. refl)
  option_beq_iff none (some b) = (λ h. cc, λ h. cc)
  option_beq_iff (some a) none = (λ h. cc, λ h. cc)
  option_beq_iff (some a) (some b) = ground (arith, e.beq_iff a b)

  instance abbrev pub option_eq : Eq (Option A)
  option_eq = record { beq = option_beq; beq_iff = option_beq_iff }
