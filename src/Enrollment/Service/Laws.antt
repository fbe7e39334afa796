-- ===== src/Enrollment/Service/Laws.antt =====
-- What `Enroll` of server/internal/enrollment/service.go stores and returns, for every store.
use arxveil.Prelude.{true, subst, ◌≡◌, ap, length, inl, inr, arith}
use arxveil.Go.Text.{Bytes}
use arxveil.Go.Fault.{Fault, ok, err, is, invalid_input}
use arxveil.Go.Exec.{pure, after-ok}
use arxveil.Go.Reader.{Reader, read_full, length-read_full}
use arxveil.Go.Base64.{encode}
use arxveil.Go.Base64.Decode.{length-encode}
use arxveil.Go.Base64.Plain.{encode-IsTrimmed}
use arxveil.Go.Text.Trim.{IsTrimmed}
use arxveil.Go.Sha256.{sum256}
use arxveil.Enrollment.{Input, EnrolledAgent, Store, credential_bytes}
use arxveil.Enrollment.Validation.Accepted.{
  IsAcceptable, normal_form, validate_input_lem, validate_input-normal_form,
}
use arxveil.Enrollment.Validation.Normal.{ok-injective}
use arxveil.Enrollment.Service.{stored, enroll, random_credential}

length-random_credential :
    (r : Reader) (secret : Bytes) → (random_credential r).0 ≡ ok secret → length secret ≡ 43
unfolding random_credential
length-random_credential r secret e =
    let (bytes, got, encoded) = after-ok (read_full credential_bytes r) (λ b. pure (encode b)) e in
    let same : encode bytes ≡ secret = ok-injective _ _ encoded in
    omega
      (arith, length-encode bytes, length-read_full credential_bytes r bytes got, ap length same)

random_credential-IsTrimmed :
    (r : Reader) (secret : Bytes) → (random_credential r).0 ≡ ok secret → IsTrimmed secret
unfolding random_credential
random_credential-IsTrimmed r secret e =
    let (bytes, got, encoded) = after-ok (read_full credential_bytes r) (λ b. pure (encode b)) e in
    subst IsTrimmed (ok-injective _ _ encoded) (encode-IsTrimmed bytes)

-- A refused input costs no random bytes and does not reach the store.
pub enroll_refused :
    {S : Type 0} (store : Store S) (i : Input) (s : S) (r : Reader)
    → ¬ IsAcceptable i
    → (e : Fault) × (enroll store i (s, r) ≡ (err e, (s, r))) × (is e invalid_input ≡ true)
unfolding enroll
enroll_refused store i s r refused = elim (validate_input_lem i) [
  | inl (h, q) ↦ absurd (refused h)
  | inr (n, (e, q, invalid)) ↦ (e, rw q, invalid)
]

pub enroll-ok :
    {S : Type 0} (store : Store S) (i : Input) (s : S) (r : Reader) (agent : EnrolledAgent)
    → (enroll store i (s, r)).0 ≡ ok agent
    → IsAcceptable i
      × ((store.enroll (stored (sum256 agent.secret) (normal_form i)) s).0
          ≡ ok (agent.machine_id, agent.agent_id))
      × ((enroll store i (s, r)).1.0
          ≡ (store.enroll (stored (sum256 agent.secret) (normal_form i)) s).1)
      × (length agent.secret ≡ 43)
      × IsTrimmed agent.secret
unfolding enroll
enroll-ok store i s r agent e = elim (validate_input_lem i) [
  | inl (h, q) ↦ ground (
    arith,
    h,
    q,
    length-random_credential r agent.secret,
    random_credential-IsTrimmed r agent.secret,
  )
  | inr (n, (f, q, invalid)) ↦ absurd (ground (arith, q))
]

-- An acceptable input, a secret from the reader and a store that takes the enrollment: the agent gets
-- its two IDs and the secret, and the store has seen the normal form and the hash of the secret.
pub enroll_accepted :
    {S : Type 0} (store : Store S) (i : Input) (s s' : S) (r r' : Reader)
    (secret machine_id agent_id : Bytes)
    → IsAcceptable i
    → random_credential r ≡ (ok secret, r')
    → store.enroll (stored (sum256 secret) (normal_form i)) s ≡ (ok (machine_id, agent_id), s')
    → enroll store i (s, r)
      ≡ (ok (record { machine_id = machine_id; agent_id = agent_id; secret = secret }), (s', r'))
unfolding enroll
enroll_accepted store i s s' r r' secret machine_id agent_id h random stores =
    rw (validate_input-normal_form i h, random, stores)
