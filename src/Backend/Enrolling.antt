-- ===== src/Backend/Enrolling.antt =====
-- What an agent is told when it asks to be enrolled.
use arxveil.Prelude.{◌≡◌, refl, ap, ◌⊎◌, inl, inr, false, some, arith}
use arxveil.Go.Text.{Bytes}
use arxveil.Go.Fault.{Fault, is, invalid_input, status, invalid_argument, internal, Result, ok, err}
use arxveil.Go.Reader.{Reader, read_full, NeverFaultsWith, read_full_fault}
use arxveil.Go.Sha256.{sum256}
use arxveil.Enrollment.{Input, EnrolledAgent, StoredEnrollment, credential_bytes}
use arxveil.Enrollment.Validation.{validate_input}
use arxveil.Enrollment.Validation.Accepted.{IsAcceptable, normal_form, validate_input_lem}
use arxveil.Enrollment.Service
use arxveil.Enrollment.Service.{random_credential}
use arxveil.Enrollment.Service.Laws.{enroll_refused}
use arxveil.Postgres.{Server, World, begin, commit}
use arxveil.Postgres.Statements.{insert_machine, insert_agent_identity}
use arxveil.Postgres.EnrollmentStore
use arxveil.Postgres.EnrollmentStore.{enrollment_store}
use arxveil.AgentGrpc
use arxveil.AgentGrpc.{input_of, enroll_status}
use arxveil.AgentGrpc.Messages.{EnrollRequest, EnrollResponse}
use arxveil.Backend.{State, enroller}

abbrev response : EnrolledAgent → EnrollResponse
response agent = record {
  machine_id = agent.machine_id;
  agent_id = agent.agent_id;
  agent_secret = agent.secret;
}

module _ (pg : Server) where
  -- No error of the store is taken for a fault of the agent.
  store_error :
      (input : StoredEnrollment) (w : World) {e : Fault}
      → (EnrollmentStore.enroll pg input w).0 ≡ err e
      → is e invalid_input ≡ false
  unfolding EnrollmentStore.enroll begin commit insert_machine insert_agent_identity
  store_error input w q = ground (arith, q)

  random_error :
      (r : Reader) {e : Fault}
      → NeverFaultsWith invalid_input r
      → (random_credential r).0 ≡ err e
      → is e invalid_input ≡ false
  unfolding random_credential
  random_error r {e} h q = go (read_full credential_bytes r).0 refl
    where
      go : (o : Result Bytes) → (read_full credential_bytes r).0 ≡ o → is e invalid_input ≡ false
      go (ok bytes) k = absurd (ground (arith, k, q))
      go (err f) k =
          read_full_fault invalid_input refl refl credential_bytes r {e = e} h
            (ground (arith, k, q))

  service_error :
      (given : Input) (w : World) (r : Reader) {e : Fault}
      → NeverFaultsWith invalid_input r
      → validate_input given ≡ ok (normal_form given)
      → (Service.enroll (enrollment_store pg) given (w, r)).0 ≡ err e
      → is e invalid_input ≡ false
  unfolding Service.enroll
  service_error given w r {e} honest valid q = go (random_credential r).0 refl
    where
      go : (o : Result Bytes) → (random_credential r).0 ≡ o → is e invalid_input ≡ false
      go (err f) k = ground (arith, valid, q, k, random_error r {e = f} honest k)
      go (ok secret) k =
          store_error (Service.stored (sum256 secret) (normal_form given)) w {e = e}
            (ground (arith, valid, q, k))

  -- The input is not acceptable, and nothing was done.
  abbrev pub Refused : EnrollRequest → State → Result EnrollResponse × State → Type 0
  Refused request s out =
      (¬ IsAcceptable (input_of request))
      × (out ≡ (err (status invalid_argument "invalid enrollment request"), s))

  -- The agent learns the result of the service, or, if the service failed, that there was an internal
  -- error. The state is that after the service.
  abbrev pub Answered : EnrollRequest → State → Result EnrollResponse × State → Type 0
  Answered request s out =
      IsAcceptable (input_of request)
      × (((agent : EnrolledAgent) × ((enroller pg).enroll (input_of request) s ≡ (ok agent, out.1))
            × (out.0 ≡ ok (response agent)))
          ⊎ ((e : Fault) × ((enroller pg).enroll (input_of request) s ≡ (err e, out.1))
              × (out.0 ≡ err (status internal "enrollment failed"))))

  -- Suppose no error of the random reader is an `ErrInvalidInput`. Whatever requests to the
  -- database fail: an agent whose input is not acceptable gets `InvalidArgument`, and neither the
  -- database nor the reader is touched. For any other agent the service is called once; if it
  -- succeeds, the agent gets the IDs and the secret that it returns, and if it fails, `Internal`,
  -- and the state is that which the service leaves.
  pub enroll_answers :
      (request : EnrollRequest) (w : World) (r : Reader)
      → NeverFaultsWith invalid_input r
      → let out = AgentGrpc.enroll (enroller pg) (some request) (w, r) in
        Refused request (w, r) out ⊎ Answered request (w, r) out
  unfolding AgentGrpc.enroll
  enroll_answers request w r honest = elim (validate_input_lem (input_of request)) [
    | inr (refused, _) ↦
        let (e, same, invalid) =
          enroll_refused (enrollment_store pg) (input_of request) w r refused in
        inl (refused, rw (same, invalid))
    | inl (good, valid) ↦ inr (good, go ((enroller pg).enroll (input_of request) (w, r)) refl valid)
  ]
    where
      go :
          (p : Result EnrolledAgent × State)
          → (enroller pg).enroll (input_of request) (w, r) ≡ p
          → validate_input (input_of request) ≡ ok (normal_form (input_of request))
          → ((agent : EnrolledAgent) × ((enroller pg).enroll (input_of request) (w, r)
                ≡ (ok agent, (AgentGrpc.enroll (enroller pg) (some request) (w, r)).1))
              × ((AgentGrpc.enroll (enroller pg) (some request) (w, r)).0 ≡ ok (response agent)))
            ⊎ ((e : Fault) × ((enroller pg).enroll (input_of request) (w, r)
                  ≡ (err e, (AgentGrpc.enroll (enroller pg) (some request) (w, r)).1))
                × ((AgentGrpc.enroll (enroller pg) (some request) (w, r)).0
                    ≡ err (status internal "enrollment failed")))
      go (ok agent, s) q valid = inl (agent, rw q, rw q)
      go (err e, s) q valid =
          let other = service_error (input_of request) w r honest valid (ap (λ p. p.0) q) in
          inr (e, rw q, rw (q, other))
