-- ===== src/Enrollment/Service/Secret.antt =====
-- `randomCredential` of server/internal/enrollment/service.go, and the decoding of a secret.
use arxveil.Prelude.{◌<◌, ◌≡◌, sym, ap, ◌∙◌, length, All}
use arxveil.Go.Text.{Bytes}
use arxveil.Go.Fault.{ok}
use arxveil.Go.Exec.{pure, after-ok}
use arxveil.Go.Reader.{Reader, read_full, length-read_full, read_full-All}
use arxveil.Go.Base64.{encode}
use arxveil.Go.Base64.Decode.{IsBytes, decode, decode-encode}
use arxveil.Enrollment.{credential_bytes}
use arxveil.Enrollment.Validation.Normal.{ok-injective}
use arxveil.Enrollment.Service.{random_credential}

-- What the reader makes available are bytes.
abbrev pub ReadsBytes : Reader → Type 0
ReadsBytes = All (λ c. IsBytes c.bytes)

-- When a secret was made from a reader of bytes, its decoding is what was read from the reader,
-- which are 32 bytes.
pub random_credential_lem :
    (r : Reader) (secret : Bytes)
    → ReadsBytes r
    → (random_credential r).0 ≡ ok secret
    → ((read_full credential_bytes r).0 ≡ ok (decode secret)) × (length (decode secret) ≡ 32)
unfolding random_credential
random_credential_lem r secret h e =
    let (bytes, got, encoded) = after-ok (read_full credential_bytes r) (λ b. pure (encode b)) e in
    let same : decode secret ≡ bytes =
      ap decode (sym (ok-injective _ _ encoded))
      ∙ decode-encode bytes (read_full-All (λ b. b < 256) credential_bytes r bytes h got) in
    (got ∙ ap ok (sym same), ap length same ∙ length-read_full credential_bytes r bytes got)
