-- ===== src/Enrollment/Validation.antt =====
-- `validateInput` and `requiredMetadata` of server/internal/enrollment/service.go.
pub mod Capabilities
pub mod Accepted
pub mod Normal
pub mod Reference
use Prim.Native.String.{◌++◌ as ◌<>◌}
use arxveil.Prelude.{
  ℕ, String, Bool, true, false, ◌||◌, List, [], ◌∷◌, ◌++◌, length, ltb, text_eq, ◌==◌, contains,
  if◌then◌else◌,
}
use arxveil.Go.Text.{Bytes, trim_space}
use arxveil.Go.Fault.{
  Fault, sentinel, invalid_input, wrap, Result, ok, err, ◌>>=◌, ◌>>◌, fail_if, itoa,
}
use arxveil.Enrollment.{Input, max_hostname, max_metadata_value, max_capabilities, max_capability}

abbrev pub invalid : String → Fault
invalid message = wrap message (sentinel invalid_input)

unfoldable pub required_metadata : String → Bytes → ℕ → Result Bytes
required_metadata name value maximum =
    let trimmed = trim_space value in
    if trimmed == [] || ltb maximum (length trimmed)
    then err (invalid (name <> " must be between 1 and " <> itoa maximum <> " characters"))
    else ok trimmed

-- The loop over the capabilities, with the set `seen` and the slice `capabilities`.
unfoldable pub normalize : List Bytes → List Bytes → List Bytes → Result (List Bytes)
normalize [] seen capabilities = ok capabilities
normalize (c ∷ rest) seen capabilities =
    let capability = trim_space c in
    let skipped = normalize rest seen capabilities in
    let added = normalize rest (capability ∷ seen) (capabilities ++ (capability ∷ [])) in
    if capability == [] || ltb max_capability (length capability)
    then err (invalid ("capability must be between 1 and " <> itoa max_capability <> " characters"))
    else if contains seen capability
    then skipped
    else added

unfoldable pub validate_input : Input → Result Input
validate_input input = do
  hostname ← required_metadata "hostname" input.hostname max_hostname
  operating_system ← required_metadata "operating system" input.operating_system max_metadata_value
  os_version ← required_metadata "OS version" input.os_version max_metadata_value
  architecture ← required_metadata "architecture" input.architecture max_metadata_value
  agent_version ← required_metadata "agent version" input.agent_version max_metadata_value
  fail_if (ltb max_capabilities (length input.capabilities)) (invalid "too many capabilities")
  capabilities ← normalize input.capabilities [] []
  ok (record {
    hostname = hostname;
    operating_system = operating_system;
    os_version = os_version;
    architecture = architecture;
    agent_version = agent_version;
    capabilities = capabilities;
  })
