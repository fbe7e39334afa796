-- ===== src/AgentGrpc/Stream/Answers.antt =====
-- The errors that an agent can get from `StreamUpdates`.
use arxveil.Prelude.{
  ◌≡◌, refl, subst, ◌⊎◌, inl, inr, Bool, true, false, Option, none, some, List, [], ◌∷◌,
  if◌then◌else◌, All,
}
use arxveil.Go.Fault.{
  Fault, eof, invalid_sample, unauthenticated, status, Code, internal, is, Result, ok, err,
}
use arxveil.Go.Exec.{Exec, after, throw}
use arxveil.Presence.{Credentials, Session}
use arxveil.AgentGrpc.{PresenceTracker, TelemetryRecorder, on_error, map_err}
use arxveil.AgentGrpc.Messages.{
  Payload, authenticate, heartbeat, telemetry, Timestamps, AgentMessage, get_authenticate,
  Authenticate, Telemetry,
}
use arxveil.AgentGrpc.Stream.{
  Received, message, failed, bad_request, telemetry_sample, close_once, handle_telemetry, handle,
  finish, loop, authenticated, serve_session, stream_updates,
}

-- The errors that the service itself makes.
abbrev pub own_errors : List Fault
own_errors =
    bad_request "authenticate message is required"
    ∷ bad_request "first stream message must authenticate the agent"
    ∷ bad_request "agent stream is already authenticated"
    ∷ bad_request "stream message payload is required"
    ∷ bad_request "invalid telemetry update"
    ∷ status Code.unauthenticated "agent authentication failed"
    ∷ status internal "authenticate agent stream"
    ∷ status internal "record agent activity"
    ∷ status internal "record telemetry update"
    ∷ status internal "close agent stream"
    ∷ []

abbrev pub Among : Fault → List Fault → Type 0
Among e [] = ⊥
Among e (x ∷ xs) = (e ≡ x) ⊎ Among e xs

-- `Recv` returns this error at some time.
abbrev pub Breaks : Fault → List Received → Type 0
Breaks e [] = ⊥
Breaks e (failed d ∷ rest) = (e ≡ d) ⊎ Breaks e rest
Breaks e (message m ∷ rest) = Breaks e rest

abbrev pub IsAnswer : List Received → Result (Unit {0}) → Fault → Type 0
IsAnswer received reply e = Among e own_errors ⊎ Breaks e received ⊎ (reply ≡ err e)

abbrev Only {ℓ} : {A : Type ℓ} → (Fault → Type 0) → Result A → Type 0
Only P (ok a) = Unit
Only P (err e) = P e

Only-after :
    {S A B : Type 0} (P : Fault → Type 0) (p : Result A × S) (f : A → Exec S B)
    → Only P p.0
    → ((a : A) (s : S) → Only P (f a s).0)
    → Only P (after p f).0
Only-after P (ok a, s) f h k = k a s
Only-after P (err e, s) f h k = h

Only-map_err :
    {A : Type 0} (P : Fault → Type 0) (f : Fault → Fault) (r : Result A)
    → ((e : Fault) → P (f e))
    → Only P (map_err f r)
Only-map_err P f (ok a) h = tt
Only-map_err P f (err e) h = h e

Only-eq : {A : Type 0} (P : Fault → Type 0) {r : Result A} {e : Fault} → Only P r → r ≡ err e → P e
Only-eq P h q = subst (Only P) q h

either_of : (P : Fault → Type 0) (b : Bool) (x y : Fault) → P x → P y → P (if b then x else y)
either_of P true x y hx hy = hx
either_of P false x y hx hy = hy

All-Among : (P : Fault → Type 0) (xs : List Fault) → ((e : Fault) → Among e xs → P e) → All P xs
All-Among P [] f = tt
All-Among P (x ∷ xs) f = (f x (inl refl), All-Among P xs (λ e h. f e (inr h)))

module _ {S : Type 0} (tracker : PresenceTracker S) (recorder : TelemetryRecorder S)
    (times : Timestamps) (reply : Result (Unit {0})) where
  module _ (P : Fault → Type 0) (own : All P own_errors)
      (unsent : (e : Fault) → reply ≡ err e → P e) where
    at_end :
        (session : Session) (local : Bool × S)
        → Only P (finish tracker recorder times reply session local).0
    unfolding finish
    at_end session local =
        Only-after P
          (on_error (λ _. status internal "close agent stream")
            (close_once tracker recorder times reply session) local)
          _
          (Only-map_err P _ (close_once tracker recorder times reply session local).0
            (λ e. own.1.1.1.1.1.1.1.1.1.0))
          (λ a s. replied reply refl)
      where
        replied : (r : Result (Unit {0})) → reply ≡ r → Only P r
        replied (ok u) q = tt
        replied (err e) q = unsent e q

    active :
        (session : Session) (s : S)
        → Only P
            (on_error
              (λ _. status internal "record agent activity")
              (tracker.record_activity session)
              s).0
    active session s =
        Only-map_err P _ (tracker.record_activity session s).0 (λ e. own.1.1.1.1.1.1.1.0)

    on_telemetry :
        (session : Session) (update : Telemetry) (s : S)
        → Only P (handle_telemetry tracker recorder times reply session update s).0
    unfolding handle_telemetry
    on_telemetry session update s =
        Only-after P
          (
            map_err (λ _. bad_request "invalid telemetry update")
                (telemetry_sample times session update),
            s,
          )
          _ (Only-map_err P _ (telemetry_sample times session update) (λ e. own.1.1.1.1.0))
          λ sample s'.
            Only-after P (on_error _ (recorder.record_sample sample) s') _
              (Only-map_err P _ (recorder.record_sample sample s').0
                (λ e. either_of P (is e invalid_sample) _ _ own.1.1.1.1.0 own.1.1.1.1.1.1.1.1.0))
              (λ u s''. active session s'')

    on_message :
        (session : Session) (m : AgentMessage) (s : S)
        → Only P (handle tracker recorder times reply session m s).0
    unfolding handle
    on_message session m s = go m.payload
      where
        go :
            (p : Option Payload)
            → Only P (handle tracker recorder times reply session (record { payload = p }) s).0
        go none = own.1.1.1.0
        go (some (heartbeat (some h))) = active session s
        go (some (heartbeat none)) = own.1.1.1.0
        go (some (authenticate (some a))) = own.1.1.0
        go (some (authenticate none)) = own.1.1.1.0
        go (some (telemetry (some update))) = on_telemetry session update s
        go (some (telemetry none)) = own.1.1.1.0

    in_loop :
        (session : Session) (rest : List Received) (local : Bool × S)
        → ((e : Fault) → Breaks e rest → P e)
        → Only P (loop tracker recorder times reply session rest local).0
    unfolding loop
    in_loop session [] local broken = at_end session local
    in_loop session (failed e ∷ rest) local broken = go (is e eof)
      where
        go :
            (b : Bool)
            → Only P ((if b then finish tracker recorder times reply session else throw e) local).0
        go true = at_end session local
        go false = broken e (inl refl)
    in_loop session (message none ∷ rest) local broken = own.1.1.1.0
    in_loop session (message (some m) ∷ rest) (closed, s) broken =
        Only-after P
          (let (r, s') = handle tracker recorder times reply session m s in (r, (closed, s'))) _
          (on_message session m s) (λ u local. in_loop session rest local broken)

    in_stream :
        (received : List Received) (s : S)
        → ((e : Fault) → Breaks e received → P e)
        → Only P (stream_updates tracker recorder times reply received s).0
    unfolding stream_updates serve_session
    in_stream [] s broken = own.0
    in_stream (failed e ∷ rest) s broken = go (is e eof)
      where
        go :
            (b : Bool)
            → Only {A = Unit {0}} P
                ((if b then throw (bad_request "authenticate message is required") else throw e)
                  s).0
        go true = own.0
        go false = broken e (inl refl)
    in_stream (message m ∷ rest) s broken = go (get_authenticate m)
      where
        go :
            (a : Option Authenticate)
            → Only P (authenticated tracker recorder times reply a rest s).0
        go none = own.1.0
        go (some a) =
            let credentials : Credentials = record {
              agent_id = a.agent_id;
              secret = a.agent_secret;
            } in
            Only-after P (on_error _ (tracker.open_session credentials) s) _
              (Only-map_err P _ (tracker.open_session credentials s).0
                (λ e. either_of P (is e unauthenticated) _ _ own.1.1.1.1.1.0 own.1.1.1.1.1.1.0))
              (λ session s'. in_loop session rest (Bool.false, s') broken)

  -- Whatever the services answer, an error that `StreamUpdates` returns is one of ten statuses with
  -- fixed texts, an error that `Recv` returned, or the error of `SendAndClose`.
  pub stream_updates_answers :
      (received : List Received) (s : S) (e : Fault)
      → (stream_updates tracker recorder times reply received s).0 ≡ err e
      → IsAnswer received reply e
  stream_updates_answers received s e q =
      let P = IsAnswer received reply in
      Only-eq P
        (in_stream P (All-Among P own_errors (λ d h. inl h)) (λ d h. inr (inr h)) received s
          (λ d h. inr (inl h)))
        q
