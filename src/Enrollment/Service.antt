-- ===== src/Enrollment/Service.antt =====
-- `Service` of server/internal/enrollment/service.go: its state is that of the store, and the reader
-- of random bytes.
pub mod Laws
pub mod Secret
use arxveil.Prelude.{ℕ, List}
use arxveil.Go.Text.{Bytes}
use arxveil.Go.Fault.{Result, ok, err}
use arxveil.Go.Exec.{Exec, ◌>>=◌, lift, pure, wrapping}
use arxveil.Go.Reader.{Reader, read_full}
use arxveil.Go.Base64.{encode}
use arxveil.Go.Sha256.{sum256}
use arxveil.Enrollment.{Input, EnrolledAgent, StoredEnrollment, Store, credential_bytes}
use arxveil.Enrollment.Validation.{validate_input}

unfoldable pub random_credential : Exec Reader Bytes
random_credential = do bytes ← read_full credential_bytes; pure (encode bytes)

abbrev on_store : {S A : Type 0} → Exec S A → Exec (S × Reader) A
on_store m (s, r) = let (a, s') = m s in (a, (s', r))

abbrev on_random : {S A : Type 0} → Exec Reader A → Exec (S × Reader) A
on_random m (s, r) = let (a, r') = m r in (a, (s, r'))

-- What is stored of a validated input, with the hash of the secret.
abbrev pub stored : Bytes → Input → StoredEnrollment
stored credential_hash input = record {
  credential_hash = credential_hash;
  hostname = input.hostname;
  operating_system = input.operating_system;
  os_version = input.os_version;
  architecture = input.architecture;
  agent_version = input.agent_version;
  capabilities = input.capabilities;
}

unfoldable pub enroll : {S : Type 0} → Store S → Input → Exec (S × Reader) EnrolledAgent
enroll store given = do
  input ← lift (validate_input given)
  secret ← wrapping "generate agent credential" (on_random random_credential)
  ids ← on_store (store.enroll (stored (sum256 secret) input))
  pure (record { machine_id = ids.0; agent_id = ids.1; secret = secret })
