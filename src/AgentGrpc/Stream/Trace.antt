-- ===== src/AgentGrpc/Stream/Trace.antt =====
-- The calls that the loop of `StreamUpdates` makes, against those that its messages ask for.
use mathlib.Core.List.{append-nil, append_assoc}
use arxveil.Prelude.{
  ◌≡◌, refl, sym, ap, ◌∙◌, inl, inr, Bool-cases, Bool, true, false, none, some, List, [], ◌∷◌, ◌++◌,
  arith,
}
use arxveil.Go.Fault.{Fault, eof, is, Result, ok, err}
use arxveil.Go.Exec.{Exec, after}
use arxveil.Presence.{Session}
use arxveil.AgentGrpc.{PresenceTracker, TelemetryRecorder}
use arxveil.AgentGrpc.Messages.{Timestamps}
use arxveil.AgentGrpc.Stream.Watch.{closed, Log, watched_tracker, watched_recorder, stream_events}
use arxveil.AgentGrpc.Stream.{
  Received, message, failed, close_once, handle, finish, loop, serve_session,
}
use arxveil.AgentGrpc.Stream.Noted.{Noted, handle-Noted}

module _ {S : Type 0} (tracker : PresenceTracker S) (recorder : TelemetryRecorder S)
    (times : Timestamps) (reply : Result (Unit {0})) (session : Session) where
  -- What the loop makes of the log, by its variable `closed`.
  abbrev closing : Bool → Log
  closing true = closed session ∷ []
  closing false = []

  LoopNoted : Log → Log → Result (Unit {0}) → Bool → Log → Type 0
  LoopNoted events before r is_closed after =
      (pre post : Log) × (after ≡ (before ++ pre) ++ closing is_closed)
      × (pre ++ post ≡ events)
      × (r ≡ ok tt → (post ≡ []) × (is_closed ≡ true))

  Looped : Log → Log → Result (Unit {0}) × (Bool × (Log × S)) → Type 0
  unfolding LoopNoted
  Looped events before out = LoopNoted events before out.0 out.1.0 out.1.1.0

  finish-Looped :
      (log : Log) (s : S)
      → Looped [] log (
          finish
            (watched_tracker tracker)
            (watched_recorder recorder)
            times
            reply
            session
            (false, (log, s)))
  unfolding Looped finish close_once
  finish-Looped log s =
      ([], [], ground (arith, append-nil log), refl, λ h. (refl, ground (arith, h)))

  stopped-Looped :
      (events log : Log) (e : Fault) (s : S) → Looped events log (err e, (false, (log, s)))
  unfolding Looped
  stopped-Looped events log e s = ([], events, sym (append-nil _ ∙ append-nil log), refl, λ h. cc)

  -- A message, and the rest of the loop if it was handled.
  extend :
      (events more log : Log) (f : Exec (Bool × (Log × S)) (Unit {0}))
      (out : Result (Unit {0}) × (Log × S))
      → Noted events log out.0 out.1.0
      → ((log' : Log) (s' : S) → Looped more log' (f (false, (log', s'))))
      → Looped (events ++ more) log (after (out.0, (false, out.1)) (λ _. f))
  unfolding Noted Looped
  extend events more log f (err e, (log', s')) (pre, post, e1, e2, h) ih = (
    pre,
    post ++ more,
    e1 ∙ sym (append-nil _),
    sym (append_assoc pre post more) ∙ ap (λ l. l ++ more) e2,
    λ q. cc,
  )
  extend events more log f (ok u, (log', s')) (pre, post, e1, e2, h) ih =
      let (pre', post', e1', e2', h') = ih log' s' in
      let all : pre ≡ events = sym (append-nil pre) ∙ ap (λ l. pre ++ l) (sym (h refl)) ∙ e2 in
      (
        pre ++ pre',
        post',
        e1'
            ∙ ap (λ l. l ++ closing (f (false, (log', s'))).1.0)
                (ap (λ l. l ++ pre') e1 ∙ append_assoc log pre pre'),
        append_assoc pre pre' post' ∙ ap (λ l. pre ++ l) e2' ∙ ap (λ l. l ++ more) all,
        h',
      )

  loop-Looped :
      (rest : List Received) (log : Log) (s : S)
      → Looped (stream_events times session rest) log (
          loop
            (watched_tracker tracker)
            (watched_recorder recorder)
            times
            reply
            session
            rest
            (false, (log, s)))
  unfolding loop stream_events
  loop-Looped [] log s = finish-Looped log s
  loop-Looped (failed e ∷ rest) log s = elim (Bool-cases (is e eof)) [
    | inl ends ↦ rw (ends, loop) (finish-Looped log s)
    | inr fails ↦ rw (fails, loop) (stopped-Looped [] log e s)
  ]
  loop-Looped (message none ∷ rest) log s = stopped-Looped _ log _ s
  loop-Looped (message (some m) ∷ rest) log s =
      extend _ _ log _
        (handle (watched_tracker tracker) (watched_recorder recorder) times reply session m
          (log, s))
        (handle-Noted tracker recorder times reply session log s m.payload) (loop-Looped rest)

  abbrev pub Served : Log → Log → Result (Unit {0}) → Log → Type 0
  Served events before r after =
      (pre post : Log) × (after ≡ before ++ (pre ++ (closed session ∷ [])))
      × (pre ++ post ≡ events)
      × (r ≡ ok tt → post ≡ [])

  -- The deferred close.
  close_after :
      (events log : Log) (r : Result (Unit {0})) (is_closed : Bool) (log' : Log) (s' : S)
      → LoopNoted events log r is_closed log'
      → Served events log r
          (close_once
            (watched_tracker tracker)
            (watched_recorder recorder)
            times
            reply
            session
            (is_closed, (log', s'))).1.1.0
  unfolding close_once LoopNoted
  close_after events log r true log' s' (pre, post, e1, e2, h) =
      (pre, post, e1 ∙ append_assoc log pre (closed session ∷ []), e2, λ q. (h q).0)
  close_after events log r false log' s' (pre, post, e1, e2, h) = (
    pre,
    post,
    ap (λ l. l ++ (closed session ∷ [])) (e1 ∙ append-nil (log ++ pre))
        ∙ append_assoc log pre (closed session ∷ []),
    e2,
    λ q. (h q).0,
  )

  pub serve_session-Served :
      (rest : List Received) (log : Log) (s : S)
      → let out =
          serve_session
            (watched_tracker tracker)
            (watched_recorder recorder)
            times
            reply
            session
            rest
            (log, s) in
        Served (stream_events times session rest) log out.0 out.1.0
  unfolding serve_session
  serve_session-Served rest log s =
      let out =
        loop (watched_tracker tracker) (watched_recorder recorder) times reply session rest
          (false, (log, s)) in
      close_after (stream_events times session rest) log out.0 out.1.0 out.1.1.0 out.1.1.1
        (unfold Looped in loop-Looped rest log s)
