-- ===== src/Go/Exec.antt =====
-- Methods that change state and may fail, as actions on the state.
use arxveil.Prelude.{String, ◌≡◌, refl, Bool, true, false}
use arxveil.Go.Fault.{Fault, Result, ok, err, wrap_result}

-- The state comes back beside an error too: what was written before it stays written.
abbrev pub Exec {ℓ κ} : Type ℓ → Type κ → Type (ℓ ⊔ κ)
Exec S A = S → Result A × S

abbrev pub after {ℓ κ μ} :
    {S : Type ℓ} {A : Type κ} {B : Type μ} → Result A × S → (A → Exec S B) → Result B × S
after (ok a, s) f = f a s
after (err e, s) f = (err e, s)

infixl 5 ◌>>=◌ ◌>>◌
abbrev pub ◌>>=◌ {ℓ κ μ} :
    {S : Type ℓ} {A : Type κ} {B : Type μ} → Exec S A → (A → Exec S B) → Exec S B
◌>>=◌ m f s = after (m s) f

abbrev pub ◌>>◌ {ℓ κ μ} : {S : Type ℓ} {A : Type κ} {B : Type μ} → Exec S A → Exec S B → Exec S B
m >> k = m >>= λ _. k

abbrev pub pure {ℓ κ} : {S : Type ℓ} {A : Type κ} → A → Exec S A
pure a s = (ok a, s)

abbrev pub throw {ℓ κ} : {S : Type ℓ} {A : Type κ} → Fault → Exec S A
throw e s = (err e, s)

-- A pure function that returns a value or an error, as a step of an action.
abbrev pub lift {ℓ κ} : {S : Type ℓ} {A : Type κ} → Result A → Exec S A
lift r s = (r, s)

-- `if <test> { return ..., err }`
abbrev pub fail_if {ℓ} : {S : Type ℓ} → Bool → Fault → Exec S (Unit {0})
fail_if true e s = (err e, s)
fail_if false e s = (ok tt, s)

-- A call whose error is returned inside `fmt.Errorf("<text>: %w", err)`.
abbrev pub wrapping {ℓ κ} : {S : Type ℓ} {A : Type κ} → String → Exec S A → Exec S A
wrapping text m s = let (r, s') = m s in (wrap_result text r, s')

-- Inversion of a successful chain.
pub after-ok {ℓ κ μ} :
    {S : Type ℓ} {A : Type κ} {B : Type μ} (p : Result A × S) (f : A → Exec S B) {b : B}
    → (after p f).0 ≡ ok b
    → (a : A) × (p.0 ≡ ok a) × ((f a p.1).0 ≡ ok b)
after-ok (ok a, s) f h = (a, refl, h)
after-ok (err e, s) f h = cc

pub wrap_result-ok {ℓ} :
    {A : Type ℓ} (text : String) (r : Result A) {a : A} → wrap_result text r ≡ ok a → r ≡ ok a
wrap_result-ok text (ok b) h = h
wrap_result-ok text (err e) h = cc
