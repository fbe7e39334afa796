-- ===== src/Enrollment/Validation/Normal.antt =====
-- What `validateInput` returns is in normal form, and validation leaves it as it is.
use arxveil.Prelude.{
  ℕ, suc, ◌≤◌, ◌≡◌, ◌≢◌, refl, sym, ap, ◌∙◌, subst, List, [], ◌∷◌, map, length, All, All-select,
  text_eq, arith,
}
use arxveil.Go.Text.{Bytes, trim_space}
use arxveil.Go.Text.Trim.{IsTrimmed, trim_space-IsTrimmed, trim_space-fixed}
use arxveil.Go.Fault.{ok}
use arxveil.Enrollment.{Input, max_hostname, max_metadata_value, max_capabilities, max_capability}
use arxveil.Enrollment.Validation.{validate_input}
use arxveil.Enrollment.Validation.Capabilities.{
  Fits, dedup, dedup-IsDistinct, dedup-fixed, IsDistinct, length-dedup-le,
}
use arxveil.Enrollment.Validation.Accepted.{
  IsAcceptable, normal_form, validate_input-normal_form, validate_input-IsAcceptable,
}

-- A text without white space at its ends, of 1 to `maximum` bytes.
pub record IsName (maximum : ℕ) (s : Bytes) : Type 0 where
  pub trimmed : IsTrimmed s
  pub nonempty : s ≢ []
  pub short : length s ≤ maximum

pub record IsNormal (i : Input) : Type 0 where
  pub hostname : IsName max_hostname i.hostname
  pub operating_system : IsName max_metadata_value i.operating_system
  pub os_version : IsName max_metadata_value i.os_version
  pub architecture : IsName max_metadata_value i.architecture
  pub agent_version : IsName max_metadata_value i.agent_version
  pub count : length i.capabilities ≤ max_capabilities
  pub capabilities : All (IsName max_capability) i.capabilities
  pub distinct : IsDistinct i.capabilities

Fits-IsName : {m : ℕ} (s : Bytes) → Fits m s → IsName m (trim_space s)
Fits-IsName s h = record { trimmed = trim_space-IsTrimmed s; nonempty = h.0; short = h.1 }

IsName-Fits : {m : ℕ} {s : Bytes} → IsName m s → Fits m s
IsName-Fits {m} {s} h =
    subst (λ t. (t ≢ []) × (length t ≤ m)) (sym (trim_space-fixed s h.trimmed))
      (h.nonempty, h.short)

Fits-IsName-All : (m : ℕ) (cs : List Bytes) → All (Fits m) cs → All (IsName m) (map trim_space cs)
Fits-IsName-All m [] h = tt
Fits-IsName-All m (c ∷ cs) h = (Fits-IsName c h.0, Fits-IsName-All m cs h.1)

IsName-Fits-All : (m : ℕ) (cs : List Bytes) → All (IsName m) cs → All (Fits m) cs
IsName-Fits-All m [] h = tt
IsName-Fits-All m (c ∷ cs) h = (IsName-Fits h.0, IsName-Fits-All m cs h.1)

map-trim_space_fixed : (m : ℕ) (cs : List Bytes) → All (IsName m) cs → map trim_space cs ≡ cs
map-trim_space_fixed m [] h = refl
map-trim_space_fixed m (c ∷ cs) h =
    cc (trim_space-fixed c h.0.trimmed, map-trim_space_fixed m cs h.1)

All-dedup : (m : ℕ) (xs : List Bytes) → All (IsName m) xs → All (IsName m) (dedup xs)
unfolding dedup
All-dedup m [] h = tt
All-dedup m (x ∷ xs) h = (h.0, All-select _ _ (dedup xs) (All-dedup m xs h.1))

length-map_trim : (cs : List Bytes) → length (map trim_space cs) ≡ length cs
length-map_trim [] = refl
length-map_trim (c ∷ cs) = ap suc (length-map_trim cs)

normal_form-IsNormal : (i : Input) → IsAcceptable i → IsNormal (normal_form i)
unfolding normal_form
normal_form-IsNormal i h = record {
  hostname = Fits-IsName _ h.hostname;
  operating_system = Fits-IsName _ h.operating_system;
  os_version = Fits-IsName _ h.os_version;
  architecture = Fits-IsName _ h.architecture;
  agent_version = Fits-IsName _ h.agent_version;
  count =
      let names = map trim_space i.capabilities in
      omega (arith, h.count, length-dedup-le names, length-map_trim i.capabilities);
  capabilities = All-dedup _ _ (Fits-IsName-All _ i.capabilities h.capabilities);
  distinct = dedup-IsDistinct _;
}

pub IsNormal-IsAcceptable : (i : Input) → IsNormal i → IsAcceptable i
IsNormal-IsAcceptable i n = record {
  hostname = IsName-Fits n.hostname;
  operating_system = IsName-Fits n.operating_system;
  os_version = IsName-Fits n.os_version;
  architecture = IsName-Fits n.architecture;
  agent_version = IsName-Fits n.agent_version;
  count = n.count;
  capabilities = IsName-Fits-All _ i.capabilities n.capabilities;
}

normal_form-fixed : (i : Input) → IsNormal i → normal_form i ≡ i
unfolding normal_form
normal_form-fixed i n = rw (
  trim_space-fixed i.hostname n.hostname.trimmed,
  trim_space-fixed i.operating_system n.operating_system.trimmed,
  trim_space-fixed i.os_version n.os_version.trimmed,
  trim_space-fixed i.architecture n.architecture.trimmed,
  trim_space-fixed i.agent_version n.agent_version.trimmed,
  map-trim_space_fixed _ i.capabilities n.capabilities,
  dedup-fixed i.capabilities n.distinct,
)

pub validate_input-fixed : (i : Input) → IsNormal i → validate_input i ≡ ok i
validate_input-fixed i n =
    validate_input-normal_form i (IsNormal-IsAcceptable i n) ∙ ap ok (normal_form-fixed i n)

pub ok-injective {ℓ} : {A : Type ℓ} (a b : A) → ok a ≡ ok b → a ≡ b
ok-injective a b e = cc

pub validate_input-IsNormal : (i j : Input) → validate_input i ≡ ok j → IsNormal j
validate_input-IsNormal i j e =
    let h = validate_input-IsAcceptable i j e in
    subst IsNormal (ok-injective _ _ (sym (validate_input-normal_form i h) ∙ e))
      (normal_form-IsNormal i h)

-- When validation returns an input, its fields are trimmed, of 1 to 255 bytes, its capabilities are
-- at most 32 distinct trimmed names of 1 to 64 bytes, and validating it again returns it unchanged.
pub validate_input-validate_input :
    (i j : Input) → validate_input i ≡ ok j → IsNormal j × (validate_input j ≡ ok j)
validate_input-validate_input i j e =
    let n = validate_input-IsNormal i j e in (n, validate_input-fixed j n)
