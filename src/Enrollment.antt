-- ===== src/Enrollment.antt =====
-- server/internal/enrollment/service.go: validation of what an agent says of itself, its secret, and
-- the enrollment in a store.
pub mod Validation
pub mod Service
use arxveil.Prelude.{ℕ, List}
use arxveil.Go.Text.{Bytes}
use arxveil.Go.Exec.{Exec}

abbrev pub credential_bytes : ℕ
credential_bytes = 32

abbrev pub max_hostname : ℕ
max_hostname = 255

abbrev pub max_metadata_value : ℕ
max_metadata_value = 255

abbrev pub max_capabilities : ℕ
max_capabilities = 32

abbrev pub max_capability : ℕ
max_capability = 64

pub record Input : Type 0 where
  pub hostname : Bytes
  pub operating_system : Bytes
  pub os_version : Bytes
  pub architecture : Bytes
  pub agent_version : Bytes
  pub capabilities : List Bytes

pub record EnrolledAgent : Type 0 where
  pub machine_id : Bytes
  pub agent_id : Bytes
  pub secret : Bytes

pub record StoredEnrollment : Type 0 where
  pub credential_hash : Bytes
  pub hostname : Bytes
  pub operating_system : Bytes
  pub os_version : Bytes
  pub architecture : Bytes
  pub agent_version : Bytes
  pub capabilities : List Bytes

-- The interface `Store`: the machine ID and the agent ID of the new enrollment.
pub record Store (S : Type 0) : Type 0 where
  pub enroll : StoredEnrollment → Exec S (Bytes × Bytes)
