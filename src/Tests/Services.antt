-- ===== src/Tests/Services.antt =====
-- The three services.
use arxveil.Prelude.{ℕ, ◌≡◌, refl, ◌⊎◌, true, Option, none, some, List, [], ◌∷◌, length, bytes_beq}
use arxveil.Go.Text.{Bytes, codes, trim_space}
use arxveil.Go.Fault.{
  Fault, sentinel, unauthenticated, invalid_input, invalid_sample, is, wrap_result, ok, err, itoa,
}
use arxveil.Go.Reader.{read_full}
use arxveil.Go.Base64.{encode, symbol}
use arxveil.Go.Sha256.{sum256}
use arxveil.Enrollment.{Input, EnrolledAgent, StoredEnrollment, Store}
use arxveil.Enrollment.Validation.{validate_input, required_metadata, normalize}
use arxveil.Enrollment.Validation.Accepted.{IsAcceptable, normal_form, validate_input_lem}
use arxveil.Enrollment.Validation.Normal.{IsNormal, validate_input-validate_input}
use arxveil.Enrollment.Service.{enroll, random_credential}
use arxveil.Enrollment.Service.Secret.{ReadsBytes, random_credential_lem}
use arxveil.Enrollment.{credential_bytes}
use arxveil.Go.Base64.Decode.{decode}
use arxveil.Prelude.{arith}
use arxveil.Presence.{Credentials, Identity, Session, open_session}
use arxveil.Presence
use arxveil.Presence.Authentication.{IsAuthentic, open_session-ok, open_session_refused}
use arxveil.Telemetry.{Sample, record_telemetry}
use arxveil.Telemetry
use arxveil.Telemetry.Validity.{IsValidSample, record_telemetry_lem}
use arxveil.Tests.Toy.{agent_input, sevens, sample, credentials, anything}

-- TestEnrollHashesCredentialAndNormalizesMetadata
abbrev normal_input : Input
normal_input = record {
  hostname = codes "agent-01";
  operating_system = codes "linux";
  os_version = codes "6.12";
  architecture = codes "amd64";
  agent_version = codes "0.1.0";
  capabilities = codes "telemetry" ∷ [];
}

normalizes : validate_input agent_input ≡ ok normal_input
unfolding validate_input required_metadata normalize trim_space itoa bytes_beq
normalizes = refl

abbrev enrolling : Store (List StoredEnrollment)
enrolling = record { enroll = λ e log. (ok (codes "machine-id", codes "agent-id"), e ∷ log) }

abbrev secret : Bytes
secret = codes "BwcHBwcHBwcHBwcHBwcHBwcHBwcHBwcHBwcHBwcHBwc"

abbrev enrolled : EnrolledAgent
enrolled = record { machine_id = codes "machine-id"; agent_id = codes "agent-id"; secret = secret }

validate_input_lem_example :
    (IsAcceptable agent_input × (validate_input agent_input ≡ ok (normal_form agent_input)))
    ⊎ ((¬ IsAcceptable agent_input)
        × ((e : Fault) × (validate_input agent_input ≡ err e) × (is e invalid_input ≡ true)))
validate_input_lem_example = validate_input_lem agent_input

validate_input-validate_input_example :
    IsNormal normal_input × (validate_input normal_input ≡ ok normal_input)
validate_input-validate_input_example =
    validate_input-validate_input agent_input normal_input normalizes

-- A presence store that holds one identity.
abbrev identity : Identity
identity = record {
  machine_id = codes "m";
  agent_id = codes "a";
  credential_hash = sum256 (codes "secret");
}

abbrev holding : Option Identity → Presence.Store ℕ
holding found = record {
  find_active_identity = λ a n. (ok found, n);
  start_session = λ m n. (ok 7, n);
  touch_session = λ s n. (ok tt, n);
  end_session = λ s n. (ok tt, n);
}

abbrev opened : Session
opened = record { machine_id = codes "m"; agent_id = codes "a"; connected_at = 7 }

opens : (open_session anything (holding (some identity)) credentials 0).0 ≡ ok opened
unfolding open_session sum256 trim_space bytes_beq
opens = refl

open_session-ok_example :
    (i : Identity) × (((holding (some identity)).find_active_identity (codes "a") 0).0
      ≡ ok (some i))
    × IsAuthentic anything credentials i
    × (opened.machine_id ≡ i.machine_id)
    × (opened.agent_id ≡ i.agent_id)
    × (((holding (some identity)).start_session i.machine_id 0).0 ≡ ok 7)
open_session-ok_example = open_session-ok anything (holding (some identity)) credentials 0 opens

open_session_refused_example :
    (t : ℕ) × (open_session anything (holding none) credentials 0
      ≡ (err (sentinel unauthenticated), t))
    × ((t ≡ 0) ⊎ (t ≡ 0))
open_session_refused_example =
    open_session_refused anything (holding none) credentials 0 refl (λ i e. cc)

abbrev keeping : Telemetry.Store (List Sample)
keeping = record { record_sample = λ s log. (ok tt, s ∷ log) }

record_telemetry_lem_example :
    (IsValidSample sample
      × (record_telemetry keeping sample [] ≡ (
        wrap_result "record telemetry sample" (keeping.record_sample sample []).0,
        (keeping.record_sample sample []).1,
      )))
    ⊎ ((¬ IsValidSample sample)
        × ((e : Fault) × (record_telemetry keeping sample [] ≡ (err e, []))
            × (is e invalid_sample ≡ true)))
record_telemetry_lem_example = record_telemetry_lem keeping sample []

sevens-ReadsBytes : ReadsBytes sevens
sevens-ReadsBytes = ground arith

reads_secret : (random_credential sevens).0 ≡ ok secret
unfolding random_credential read_full encode symbol
reads_secret = refl

random_credential_lem_example :
    ((read_full credential_bytes sevens).0 ≡ ok (decode secret)) × (length (decode secret) ≡ 32)
random_credential_lem_example = random_credential_lem sevens secret sevens-ReadsBytes reads_secret
