-- ===== src/AgentGrpc/Stream/Noted.antt =====
-- The calls that one message of `StreamUpdates` makes, against those that it asks for.
use mathlib.Core.List.{append-nil, append_assoc}
use arxveil.Prelude.{◌≡◌, refl, sym, Option, none, some, [], ◌∷◌, ◌++◌, arith}
use arxveil.Go.Fault.{Fault, Result, ok, err}
use arxveil.Go.Exec.{after}
use arxveil.Presence.{Session}
use arxveil.Telemetry.{Sample}
use arxveil.AgentGrpc.{PresenceTracker, TelemetryRecorder}
use arxveil.AgentGrpc.Messages.{Timestamps, Telemetry, Payload, authenticate, heartbeat, telemetry}
use arxveil.AgentGrpc.Stream.Watch.{
  Event, active, recorded, Log, watched_tracker, watched_recorder, sample_events, payload_events,
}
use arxveil.AgentGrpc.Stream.{telemetry_sample, handle_telemetry, handle}

-- What one message makes of the log: the calls that it asks for, up to the first that fails.
unfoldable pub Noted : Log → Log → Result (Unit {0}) → Log → Type 0
Noted events before r after =
    (pre post : Log) × (after ≡ before ++ pre) × (pre ++ post ≡ events) × (r ≡ ok tt → post ≡ [])

no_call : (log : Log) (e : Fault) → Noted [] log (err e) log
unfolding Noted
no_call log e = ([], [], sym (append-nil log), refl, λ h. refl)

one_call : (log : Log) (e : Event) (r : Result (Unit {0})) → Noted (e ∷ []) log r (log ++ (e ∷ []))
unfolding Noted
one_call log e r = (e ∷ [], [], refl, refl, λ h. refl)

module _ {S : Type 0} (tracker : PresenceTracker S) (recorder : TelemetryRecorder S)
    (times : Timestamps) (reply : Result (Unit {0})) (session : Session) where
  abbrev done : Sample → Result (Unit {0}) → Log
  done sample (ok _) = recorded sample ∷ active session ∷ []
  done sample (err e) = recorded sample ∷ []

  abbrev skipped : Result (Unit {0}) → Log
  skipped (ok _) = []
  skipped (err e) = active session ∷ []

  module _ (log : Log) (s : S) where
    telemetry-Noted :
        (t : Telemetry) (r : Result Sample)
        → telemetry_sample times session t ≡ r
        → let out =
            handle_telemetry
              (watched_tracker tracker)
              (watched_recorder recorder)
              times
              reply
              session
              t
              (log, s) in
          Noted (sample_events session r) log out.0 out.1.0
    unfolding handle_telemetry Noted
    telemetry-Noted t (err e) q = rw (q, handle_telemetry) (no_call log _)
    telemetry-Noted t (ok sample) q =
        let r = (recorder.record_sample sample s).0 in
        (
          done sample r,
          skipped r,
          ground (arith, q, append_assoc log (recorded sample ∷ []) (active session ∷ [])),
          ground arith,
          λ h. ground (arith, q, h),
        )

    pub handle-Noted :
        (p : Option Payload)
        → let out =
            handle
              (watched_tracker tracker)
              (watched_recorder recorder)
              times
              reply
              session
              (record { payload = p })
              (log, s) in
          Noted (payload_events times session p) log out.0 out.1.0
    unfolding handle
    handle-Noted none = no_call log _
    handle-Noted (some (authenticate none)) = no_call log _
    handle-Noted (some (authenticate (some a))) = no_call log _
    handle-Noted (some (heartbeat none)) = no_call log _
    handle-Noted (some (heartbeat (some h))) = one_call log _ _
    handle-Noted (some (telemetry none)) = no_call log _
    handle-Noted (some (telemetry (some t))) =
        telemetry-Noted t (telemetry_sample times session t) refl
