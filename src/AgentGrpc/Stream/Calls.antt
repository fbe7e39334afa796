-- ===== src/AgentGrpc/Stream/Calls.antt =====
-- The calls that `StreamUpdates` makes of the services, on every path through it.
use arxveil.Prelude.{
  ◌≡◌, ◌≢◌, refl, ◌⊎◌, inl, inr, Bool-cases, Option, none, some, List, [], ◌∷◌, ◌++◌,
}
use arxveil.Go.Fault.{eof, is, Result, ok, err}
use arxveil.Presence.{Session}
use arxveil.AgentGrpc.{PresenceTracker, TelemetryRecorder}
use arxveil.AgentGrpc.Messages.{Timestamps, Authenticate, get_authenticate}
use arxveil.AgentGrpc.Stream.{Received, message, failed, stream_updates, authenticated}
use arxveil.AgentGrpc.Stream.Watch.{
  opened, closed, Log, watched_tracker, watched_recorder, stream_events,
}
use arxveil.AgentGrpc.Stream.Trace.{serve_session-Served}

abbrev pub rest_of : List Received → List Received
rest_of [] = []
rest_of (_ ∷ rest) = rest

module _ {S : Type 0} (tracker : PresenceTracker S) (recorder : TelemetryRecorder S)
    (times : Timestamps) (reply : Result (Unit {0})) where
  -- Nothing was called, and the stream failed.
  abbrev pub Untouched : Result (Unit {0}) × (Log × S) → Type 0
  Untouched out = (out.0 ≢ ok tt) × (out.1.0 ≡ [])

  -- A session was opened first and closed last. In between stand the calls that the messages after the first
  -- ask for: all of them, if the stream succeeds, and otherwise a beginning.
  abbrev pub OneSession : List Received → Result (Unit {0}) × (Log × S) → Type 0
  OneSession rest out =
      (session : Session) × (pre : Log) × (post : Log) × (out.1.0
        ≡ opened session ∷ (pre ++ (closed session ∷ [])))
      × (pre ++ post ≡ stream_events times session rest)
      × (out.0 ≡ ok tt → post ≡ [])

  abbrev pub Outcome : List Received → Result (Unit {0}) × (Log × S) → Type 0
  Outcome rest out = Untouched out ⊎ OneSession rest out

  authenticated-Outcome :
      (a : Option Authenticate) (rest : List Received) (s : S)
      → Outcome rest (
          authenticated
            (watched_tracker tracker)
            (watched_recorder recorder)
            times
            reply
            a
            rest
            ([], s))
  authenticated-Outcome none rest s = inl (λ h. cc, refl)
  authenticated-Outcome (some a) rest s =
      go (tracker.open_session (record { agent_id = a.agent_id; secret = a.agent_secret }) s) refl
    where
      go :
          (p : Result Session × S)
          → tracker.open_session (record { agent_id = a.agent_id; secret = a.agent_secret }) s ≡ p
          → Outcome rest (
              authenticated
                (watched_tracker tracker)
                (watched_recorder recorder)
                times
                reply
                (some a)
                rest
                ([], s))
      go (err e, s') q = rw (q, authenticated) (inl (λ h. cc, refl))
      go (ok session, s') q =
          rw (q, authenticated)
            (let (pre, post, e1, e2, h) =
                serve_session-Served tracker recorder times reply session rest (opened session ∷ [])
                  s' in
              inr (session, pre, post, e1, e2, h))

-- On every path through `StreamUpdates`, for every tracker, recorder and stream of messages, one of
-- two things happens. Either the stream fails, no session was opened, and no activity, sample or
-- end of a session is passed on. Or one session is opened, before every other call, and its end is
-- passed on once, after every other call. The calls in between are then a beginning of those that
-- the messages after the first ask for, and all of these if the stream succeeds.
pub stream_updates_calls :
    {S : Type 0} (tracker : PresenceTracker S) (recorder : TelemetryRecorder S) (times : Timestamps)
    (reply : Result (Unit {0})) (stream : List Received) (s : S)
    → Outcome tracker recorder times reply (rest_of stream) (
        stream_updates
          (watched_tracker tracker)
          (watched_recorder recorder)
          times
          reply
          stream
          ([], s))
unfolding stream_updates
stream_updates_calls tracker recorder times reply [] s = inl (λ h. cc, refl)
stream_updates_calls tracker recorder times reply (failed e ∷ rest) s =
    elim (Bool-cases (is e eof)) [
      | inl ends ↦ rw (ends, stream_updates) (inl (λ h. cc, refl))
      | inr fails ↦ rw (fails, stream_updates) (inl (λ h. cc, refl))
    ]
stream_updates_calls tracker recorder times reply (message m ∷ rest) s =
    authenticated-Outcome tracker recorder times reply (get_authenticate m) rest s
