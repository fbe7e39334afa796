-- ===== src/Tests/Enrollments.antt =====
-- An enrollment that the database takes.
use arxveil.Prelude.{◌≤◌, ◌≡◌, ◌≢◌, refl, [], ◌∷◌, length, arith, bytes_beq, nat_eq}
use arxveil.Go.Text.{Bytes, codes, trim_space}
use arxveil.Go.Fault.{ok, itoa}
use arxveil.Enrollment.{Input}
use arxveil.Enrollment.Validation.{validate_input, required_metadata, normalize}
use arxveil.Enrollment.Validation.Normal.{IsNormal, validate_input-IsNormal}
use arxveil.Enrollment.Service.{stored}
use arxveil.Postgres.Schema.{find_row}
use arxveil.Postgres.EnrollmentStore.{enroll}
use arxveil.Postgres.EnrollmentStore.Effects.{enrolled_tables}
use arxveil.Postgres.EnrollmentStore.Progress.{CountsCharacters, FreeIds, enroll_stores}
use arxveil.Tests.Toy.{toy, agent_input, tables, world}

abbrev normal_input : Input
normal_input = record {
  hostname = codes "agent-01";
  operating_system = codes "linux";
  os_version = codes "6.12";
  architecture = codes "amd64";
  agent_version = codes "0.1.0";
  capabilities = codes "telemetry" ∷ [];
}

normal_input-IsNormal : IsNormal normal_input
unfolding validate_input required_metadata normalize trim_space itoa bytes_beq
normal_input-IsNormal = validate_input-IsNormal agent_input normal_input refl

counts_bytes : CountsCharacters toy
counts_bytes s = (omega arith, some_characters s)
  where
    some_characters : (t : Bytes) → t ≢ [] → 1 ≤ length t
    some_characters [] n = absurd (n refl)
    some_characters (x ∷ t) n = omega arith

free_ids : FreeIds toy (stored (codes "h") normal_input) world
unfolding find_row
free_ids = (refl, refl, refl)

enroll_stores_example :
    ((enroll toy (stored (codes "h") normal_input) world).0 ≡ ok (22 ∷ [], 25 ∷ []))
    × ((enroll toy (stored (codes "h") normal_input) world).1.committed
        ≡ enrolled_tables toy (stored (codes "h") normal_input) 20 tables)
enroll_stores_example =
    enroll_stores toy (λ n. refl) counts_bytes (λ u. refl) normal_input (codes "h") world
      normal_input-IsNormal (refl, refl, refl, refl, refl, refl) free_ids
