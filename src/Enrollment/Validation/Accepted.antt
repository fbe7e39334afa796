-- ===== src/Enrollment/Validation/Accepted.antt =====
-- What `validateInput` accepts, what it makes of it, and that its result passes it unchanged.
use arxveil.Prelude.{
  ℕ, ◌≤◌, String, ◌≡◌, refl, ap, ◌∙◌, Bool, true, ◌⊎◌, inl, inr, List, [], map, length, ltb,
  le→ltb_false, text_eq, eq_refl, ne→false, All, arith,
}
use arxveil.Go.Text.{Bytes, trim_space}
use arxveil.Go.Fault.{
  Fault, Result, ok, err, is, invalid_input, fail_if, >>=-eq-ok, OnErr, OnErr-bind, OnErr-eq,
}
use arxveil.Enrollment.{Input, max_hostname, max_metadata_value, max_capabilities, max_capability}
use arxveil.Enrollment.Validation.{invalid, required_metadata, normalize, validate_input}
use arxveil.Enrollment.Validation.Capabilities.{
  Fits, dedup, normalize-Fits, normalize-total, normalize-dedup, normalize-is_invalid,
}

required_metadata-Fits :
    (name : String) (s : Bytes) (maximum : ℕ)
    → Fits maximum s
    → required_metadata name s maximum ≡ ok (trim_space s)
unfolding required_metadata
required_metadata-Fits name s maximum h = rw (ne→false _ [] h.0, le→ltb_false _ _ h.1)

required_metadata-ok :
    (name : String) (s : Bytes) (maximum : ℕ) (r : Bytes)
    → required_metadata name s maximum ≡ ok r
    → Fits maximum s × (r ≡ trim_space s)
unfolding required_metadata
required_metadata-ok name s maximum r e = ground (arith, eq_refl (trim_space s))

abbrev is_invalid : Fault → Bool
is_invalid e = is e invalid_input

required_metadata-OnErr :
    (name : String) (s : Bytes) (maximum : ℕ) → OnErr is_invalid (required_metadata name s maximum)
unfolding required_metadata
required_metadata-OnErr name s maximum = ground arith

normalize-OnErr : (cs : List Bytes) → OnErr is_invalid (normalize cs [] [])
normalize-OnErr cs = go (normalize cs [] []) refl
  where
    go : (r : Result (List Bytes)) → normalize cs [] [] ≡ r → OnErr is_invalid r
    go (ok a) q = tt
    go (err e) q = normalize-is_invalid cs [] [] e q

-- What an input has to satisfy: every field fits when it is trimmed, and there are at most 32 names.
pub record IsAcceptable (i : Input) : Type 0 where
  pub hostname : Fits max_hostname i.hostname
  pub operating_system : Fits max_metadata_value i.operating_system
  pub os_version : Fits max_metadata_value i.os_version
  pub architecture : Fits max_metadata_value i.architecture
  pub agent_version : Fits max_metadata_value i.agent_version
  pub count : length i.capabilities ≤ max_capabilities
  pub capabilities : All (Fits max_capability) i.capabilities

-- The input with every field trimmed, and every capability once.
unfoldable pub normal_form : Input → Input
normal_form i = record {
  hostname = trim_space i.hostname;
  operating_system = trim_space i.operating_system;
  os_version = trim_space i.os_version;
  architecture = trim_space i.architecture;
  agent_version = trim_space i.agent_version;
  capabilities = dedup (map trim_space i.capabilities);
}

normalize-normal :
    (cs : List Bytes)
    → All (Fits max_capability) cs
    → normalize cs [] [] ≡ ok (dedup (map trim_space cs))
normalize-normal cs h =
    let (r, e) = normalize-total cs [] [] h in e ∙ ap ok (normalize-dedup cs r e)

pub validate_input-normal_form :
    (i : Input) → IsAcceptable i → validate_input i ≡ ok (normal_form i)
unfolding validate_input normal_form
validate_input-normal_form i h = rw (
  required_metadata-Fits "hostname" _ _ h.hostname,
  required_metadata-Fits "operating system" _ _ h.operating_system,
  required_metadata-Fits "OS version" _ _ h.os_version,
  required_metadata-Fits "architecture" _ _ h.architecture,
  required_metadata-Fits "agent version" _ _ h.agent_version,
  le→ltb_false _ _ h.count,
  normalize-normal i.capabilities h.capabilities,
)

count_of_ok :
    (n : ℕ) {u : Unit {0}}
    → fail_if (ltb max_capabilities n) (invalid "too many capabilities") ≡ ok u
    → n ≤ max_capabilities
count_of_ok n e = ground arith

pub validate_input-IsAcceptable : (i j : Input) → validate_input i ≡ ok j → IsAcceptable i
unfolding validate_input
validate_input-IsAcceptable i j e =
    let (a, ea, e1) = >>=-eq-ok _ _ e in
    let (b, eb, e2) = >>=-eq-ok _ _ e1 in
    let (c, ec, e3) = >>=-eq-ok _ _ e2 in
    let (d, ed, e4) = >>=-eq-ok _ _ e3 in
    let (v, ev, e5) = >>=-eq-ok _ _ e4 in
    let (u, eu, e6) = >>=-eq-ok _ _ e5 in
    let (cs, ecs, e7) = >>=-eq-ok _ _ e6 in
    record {
      hostname = (required_metadata-ok _ _ _ a ea).0;
      operating_system = (required_metadata-ok _ _ _ b eb).0;
      os_version = (required_metadata-ok _ _ _ c ec).0;
      architecture = (required_metadata-ok _ _ _ d ed).0;
      agent_version = (required_metadata-ok _ _ _ v ev).0;
      count = count_of_ok _ eu;
      capabilities = normalize-Fits _ [] [] cs ecs;
    }

pub validate_input-OnErr : (i : Input) → OnErr is_invalid (validate_input i)
unfolding validate_input
validate_input-OnErr i = OnErr-bind _ _ _ (required_metadata-OnErr _ _ _) λ _.
    OnErr-bind _ _ _ (required_metadata-OnErr _ _ _) λ _.
      OnErr-bind _ _ _ (required_metadata-OnErr _ _ _) λ _.
        OnErr-bind _ _ _ (required_metadata-OnErr _ _ _) λ _.
          OnErr-bind _ _ _ (required_metadata-OnErr _ _ _)
            λ _. OnErr-bind _ _ _ (ground arith) λ _. OnErr-bind _ _ _ (normalize-OnErr _) λ _. tt

-- An input is accepted exactly when each trimmed field is nonempty and short enough and there are
-- at most 32 capabilities, each nonempty and short enough once trimmed. What is then returned is
-- the normal form: the fields trimmed, the capabilities trimmed and without repetitions. Every
-- refusal is an `ErrInvalidInput`.
pub validate_input_lem :
    (i : Input)
    → (IsAcceptable i × (validate_input i ≡ ok (normal_form i)))
      ⊎ ((¬ IsAcceptable i)
          × ((e : Fault) × (validate_input i ≡ err e) × (is e invalid_input ≡ true)))
validate_input_lem i = go (validate_input i) refl
  where
    go :
        (r : Result Input)
        → validate_input i ≡ r
        → (IsAcceptable i × (validate_input i ≡ ok (normal_form i)))
          ⊎ ((¬ IsAcceptable i)
              × ((e : Fault) × (validate_input i ≡ err e) × (is e invalid_input ≡ true)))
    go (ok j) q =
        let h = validate_input-IsAcceptable i j q in inl (h, validate_input-normal_form i h)
    go (err e) q = inr (
      λ h. cc (validate_input-normal_form i h),
      (e, q, OnErr-eq is_invalid (validate_input i) e (validate_input-OnErr i) q),
    )
