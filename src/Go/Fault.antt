-- ===== src/Go/Fault.antt =====
-- Go errors, and functions that return a value or an error. (Go's interface `error` is the type
-- `Fault` here.)
use Prim.Native.String.{◌++◌ as ◌<>◌}
use arxveil.Prelude.{
  ℕ, zero, suc, ◌/◌, ◌%◌, String, ◌≡◌, refl, Bool, true, false, List, [], ◌∷◌, get_or, ltb, arith,
  if◌then◌else◌,
}

-- The error values that the code compares with `errors.Is`.
pub data Sentinel : Type 0 where
  invalid_input unauthenticated invalid_sample eof unexpected_eof no_rows server_closed : Sentinel

-- `codes.Code` of gRPC, as far as the server returns it.
pub data Code : Type 0 where
  invalid_argument unauthenticated internal : Code

pub data Fault : Type 0 where
  -- One of the error variables.
  sentinel : Sentinel → Fault
  -- `errors.New`, and every error of a library or of the operating system that wraps no sentinel.
  other : String → Fault
  -- `status.Error`
  status : Code → String → Fault
  -- `fmt.Errorf` with one `%w`: the text around it, and the error that it wraps.
  wrap : String → Fault → Fault

abbrev pub sentinel_beq : Sentinel → Sentinel → Bool
sentinel_beq invalid_input invalid_input = true
sentinel_beq unauthenticated unauthenticated = true
sentinel_beq invalid_sample invalid_sample = true
sentinel_beq eof eof = true
sentinel_beq unexpected_eof unexpected_eof = true
sentinel_beq no_rows no_rows = true
sentinel_beq server_closed server_closed = true
sentinel_beq _ _ = false

-- `errors.Is`, which follows the chain of wrapped errors.
abbrev pub is : Fault → Sentinel → Bool
is (sentinel s) t = sentinel_beq s t
is (other _) t = false
is (status _ _) t = false
is (wrap _ e) t = is e t

pub data Result {ℓ} (A : Type ℓ) : Type ℓ where
  ok : A → Result A
  err : Fault → Result A

-- `if err != nil { return err }` after a call.
infixl 5 ◌>>=◌ ◌>>◌
abbrev pub ◌>>=◌ {ℓ κ} : {A : Type ℓ} → {C : Type κ} → Result A → (A → Result C) → Result C
err fault >>= next = err fault
ok value >>= next = next value

abbrev pub ◌>>◌ {ℓ} : {C : Type ℓ} → Result (Unit {0}) → Result C → Result C
first >> second = first >>= λ done. second

-- Both calls of a successful chain have succeeded.
pub >>=-eq-ok {ℓ κ} :
    {A : Type ℓ} {C : Type κ} (call : Result A) (next : A → Result C) {c : C}
    → (call >>= next) ≡ ok c
    → (a : A) × (call ≡ ok a) × (next a ≡ ok c)
>>=-eq-ok (err fault) next q = cc
>>=-eq-ok (ok value) next q = (value, refl, q)

-- If the call fails, it fails with an error that satisfies the test.
abbrev pub OnErr {ℓ} : {A : Type ℓ} → (Fault → Bool) → Result A → Type 0
OnErr p (ok a) = Unit
OnErr p (err e) = p e ≡ true

pub OnErr-bind {ℓ κ} :
    {A : Type ℓ} {B : Type κ} (p : Fault → Bool) (m : Result A) (f : A → Result B)
    → OnErr p m
    → ((a : A) → OnErr p (f a))
    → OnErr p (m >>= f)
OnErr-bind p (ok a) f hm hf = hf a
OnErr-bind p (err e) f hm hf = hm

pub OnErr-eq {ℓ} :
    {A : Type ℓ} (p : Fault → Bool) (r : Result A) (e : Fault) → OnErr p r → r ≡ err e → p e ≡ true
OnErr-eq p (ok a) e h q = cc
OnErr-eq p (err d) e h q = ground arith

-- `if <test> { return ..., err }`
abbrev pub fail_if : Bool → Fault → Result (Unit {0})
fail_if true e = err e
fail_if false e = ok tt

-- `if err != nil { return ..., fmt.Errorf("<text>: %w", err) }`
abbrev pub wrap_result {ℓ} : {A : Type ℓ} → String → Result A → Result A
wrap_result text (ok a) = ok a
wrap_result text (err e) = err (wrap text e)

-- A row of guards, each with its error: all of them let through, or the first that does not decides.
abbrev pub Guard : Type 0
Guard = Bool × Fault

abbrev pub first_failure : List Guard → Result (Unit {0})
first_failure [] = ok tt
first_failure ((b, e) ∷ gs) = fail_if b e >> first_failure gs

abbrev pub AllPass : List Guard → Type 0
AllPass [] = Unit
AllPass ((b, e) ∷ gs) = (b ≡ false) × AllPass gs

abbrev pub AllFailAs : (Fault → Bool) → List Guard → Type 0
AllFailAs p [] = Unit
AllFailAs p ((b, e) ∷ gs) = (p e ≡ true) × AllFailAs p gs

pub first_failure-ok : (gs : List Guard) {u : Unit {0}} → first_failure gs ≡ ok u → AllPass gs
first_failure-ok [] h = tt
first_failure-ok ((true, e) ∷ gs) h = cc
first_failure-ok ((false, e) ∷ gs) h = (refl, first_failure-ok gs h)

pub AllPass-first_failure : (gs : List Guard) → AllPass gs → first_failure gs ≡ ok tt
AllPass-first_failure [] h = refl
AllPass-first_failure ((true, e) ∷ gs) h = cc (h.0)
AllPass-first_failure ((false, e) ∷ gs) h = AllPass-first_failure gs h.1

pub first_failure-OnErr :
    (p : Fault → Bool) (gs : List Guard) → AllFailAs p gs → OnErr p (first_failure gs)
first_failure-OnErr p [] h = tt
first_failure-OnErr p ((true, e) ∷ gs) h = h.0
first_failure-OnErr p ((false, e) ∷ gs) h = first_failure-OnErr p gs h.1

abbrev digit : ℕ → String
digit d = get_or ("0" ∷ "1" ∷ "2" ∷ "3" ∷ "4" ∷ "5" ∷ "6" ∷ "7" ∷ "8" ∷ "9" ∷ []) d ""

decimal : ℕ → ℕ → String → String
decimal zero n rest = rest
decimal (suc fuel) n rest =
    let more = decimal fuel (n / 10) (digit (n % 10) <> rest) in
    if ltb n 10 then digit n <> rest else more

-- `%d` of a number: its decimal digits are at most as many as the number plus one.
unfoldable pub itoa : ℕ → String
unfolding decimal
itoa n = decimal (suc n) n ""

itoa_example : itoa 255 ≡ "255"
unfolding itoa
itoa_example = refl
