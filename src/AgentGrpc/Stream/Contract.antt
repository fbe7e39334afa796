-- ===== src/AgentGrpc/Stream/Contract.antt =====
-- What `StreamUpdates` makes of the state of the services, from what each of their calls does.
use arxveil.Prelude.{
  ◌≡◌, refl, subst, inl, inr, Bool-cases, Bool, true, false, Option, none, some, List, [], ◌∷◌,
}
use arxveil.Go.Fault.{eof, is, Result, ok, err}
use arxveil.Presence.{Session}
use arxveil.Telemetry.{Sample}
use arxveil.AgentGrpc.{PresenceTracker, TelemetryRecorder}
use arxveil.AgentGrpc.Messages.{
  Timestamps, Telemetry, Payload, authenticate, heartbeat, telemetry, Authenticate, AgentMessage,
  get_authenticate,
}
use arxveil.AgentGrpc.Stream.{
  Received, message, failed, telemetry_sample, close_once, handle_telemetry, handle, finish, loop,
  serve_session, authenticated, stream_updates,
}

-- `Holds` is kept by the calls of an open session, and its end turns it into `Ended`.
module _ {S : Type 0} (tracker : PresenceTracker S) (recorder : TelemetryRecorder S)
    (times : Timestamps) (reply : Result (Unit {0})) (session : Session) (Holds Ended : S → Type 0)
    (active : (s : S) → Holds s → Holds (tracker.record_activity session s).1)
    (records : (sample : Sample) (s : S) → Holds s → Holds (recorder.record_sample sample s).1)
    (closes : (s : S) → Holds s → Ended (tracker.close_session session s).1) where
  telemetry-Holds :
      (t : Telemetry) (s : S)
      → Holds s
      → Holds (handle_telemetry tracker recorder times reply session t s).1
  unfolding handle_telemetry
  telemetry-Holds t s h = go (telemetry_sample times session t) refl
    where
      recorded :
          (sample : Sample) (p : Result (Unit {0}) × S)
          → telemetry_sample times session t ≡ ok sample
          → recorder.record_sample sample s ≡ p
          → Holds (handle_telemetry tracker recorder times reply session t s).1
      recorded sample (ok u, s') q e =
          rw (q, handle_telemetry)
            (rw e
              (active s' (subst (λ (x : Result (Unit {0}) × S). Holds x.1) e (records sample s h))))
      recorded sample (err f, s') q e =
          rw (q, handle_telemetry)
            (rw e (subst (λ (x : Result (Unit {0}) × S). Holds x.1) e (records sample s h)))

      go :
          (r : Result Sample)
          → telemetry_sample times session t ≡ r
          → Holds (handle_telemetry tracker recorder times reply session t s).1
      go (err e) q = rw (q, handle_telemetry) h
      go (ok sample) q = recorded sample (recorder.record_sample sample s) q refl

  handle-Holds :
      (p : Option Payload) (s : S)
      → Holds s
      → Holds (handle tracker recorder times reply session (record { payload = p }) s).1
  unfolding handle
  handle-Holds none s h = h
  handle-Holds (some (authenticate none)) s h = h
  handle-Holds (some (authenticate (some a))) s h = h
  handle-Holds (some (heartbeat none)) s h = h
  handle-Holds (some (heartbeat (some b))) s h = active s h
  handle-Holds (some (telemetry none)) s h = h
  handle-Holds (some (telemetry (some t))) s h = telemetry-Holds t s h

  -- By the variable `closed`.
  abbrev Stands : Bool × S → Type 0
  Stands (true, s) = Ended s
  Stands (false, s) = Holds s

  finish-Stands :
      (s : S) → Holds s → Stands (finish tracker recorder times reply session (false, s)).1
  unfolding finish close_once
  finish-Stands s h = go (tracker.close_session session s) refl
    where
      go :
          (p : Result (Unit {0}) × S)
          → tracker.close_session session s ≡ p
          → Stands (finish tracker recorder times reply session (false, s)).1
      go (ok u, s') e =
          rw (e, finish, close_once)
            (subst (λ (x : Result (Unit {0}) × S). Ended x.1) e (closes s h))
      go (err f, s') e =
          rw (e, finish, close_once)
            (subst (λ (x : Result (Unit {0}) × S). Ended x.1) e (closes s h))

  loop-Stands :
      (rest : List Received) (s : S)
      → Holds s
      → Stands (loop tracker recorder times reply session rest (false, s)).1
  unfolding loop
  loop-Stands [] s h = finish-Stands s h
  loop-Stands (failed e ∷ rest) s h = elim (Bool-cases (is e eof)) [
    | inl ends ↦ rw (ends, loop) (finish-Stands s h)
    | inr fails ↦ rw (fails, loop) h
  ]
  loop-Stands (message none ∷ rest) s h = h
  loop-Stands (message (some m) ∷ rest) s h =
      go (handle tracker recorder times reply session m s) refl (handle-Holds m.payload s h)
        (loop-Stands rest)
    where
      go :
          (p : Result (Unit {0}) × S)
          → handle tracker recorder times reply session m s ≡ p
          → Holds (handle tracker recorder times reply session m s).1
          → ((s' : S)
              → Holds s'
              → Stands (loop tracker recorder times reply session rest (false, s')).1)
          → Stands
              (loop tracker recorder times reply session (message (some m) ∷ rest) (false, s)).1
      go (ok u, s') e k later =
          rw (e, loop) (later s' (subst (λ (x : Result (Unit {0}) × S). Holds x.1) e k))
      go (err f, s') e k later = rw (e, loop) (subst (λ (x : Result (Unit {0}) × S). Holds x.1) e k)

  pub serve_session-Ended :
      (rest : List Received) (s : S)
      → Holds s
      → Ended (serve_session tracker recorder times reply session rest s).1
  unfolding serve_session close_once
  serve_session-Ended rest s h =
      go (loop tracker recorder times reply session rest (false, s)) refl (loop-Stands rest s h)
    where
      go :
          (p : Result (Unit {0}) × (Bool × S))
          → loop tracker recorder times reply session rest (false, s) ≡ p
          → Stands (loop tracker recorder times reply session rest (false, s)).1
          → Ended (serve_session tracker recorder times reply session rest s).1
      go (r, (true, s')) e k =
          rw (e, serve_session) (subst (λ (x : Result (Unit {0}) × (Bool × S)). Stands x.1) e k)
      go (r, (false, s')) e k =
          rw (e, serve_session)
            (closes s' (subst (λ (x : Result (Unit {0}) × (Bool × S)). Stands x.1) e k))

  -- A stream whose first message opens the session leaves its end behind, on every path.
  pub stream_updates-Ended :
      (m : Option AgentMessage) (rest : List Received) (a : Authenticate) (s s' : S)
      → get_authenticate m ≡ some a
      → tracker.open_session (record { agent_id = a.agent_id; secret = a.agent_secret }) s
        ≡ (ok session, s')
      → Holds s'
      → Ended (stream_updates tracker recorder times reply (message m ∷ rest) s).1
  unfolding stream_updates
  stream_updates-Ended m rest a s s' first opens h =
      rw (first, opens, stream_updates, authenticated) (serve_session-Ended rest s' h)
