-- ===== src/Application/Explained.antt =====
-- What every state of `serve` says of its past, step by step.
use mathlib.Core.Option.{some-injective}
use arxveil.Prelude.{
  All-append, ◌≡◌, refl, subst, ◌⊎◌, inl, inr, Bool, true, false, Bool-cases, Option, none, some,
  List, [], ◌∷◌, All, length, ltb, if◌then◌else◌, arith,
}
use arxveil.Go.Fault.{Fault, server_closed, is, wrap}
use arxveil.Application.{
  Phase, selecting, shutting_down, stopping, forcing, returned, State, serve_result, send, capacity,
  Action, http_returns, grpc_returns, http_shutdown_returns, http_report, grpc_report, http_done,
  grpc_done, receive, take_signal_in, take_error_in, http_shutdown_in, stops_in, deadline_in,
  stops_forced_in,
}

-- `Reported` are the errors that the servers have reported, and `ShutdownError` those with which the
-- shutdown of the HTTP server has failed.
module _ (Reported ShutdownError : Fault → Type 0) where
  -- Why the servers are shut down: the signal, or the error of a server.
  abbrev pub IsReason : Bool → Option Fault → Type 0
  IsReason signalled none = signalled ≡ true
  IsReason signalled (some e) = Reported e

  abbrev pub IsResult : Bool → Bool → Bool → Option Fault → Type 0
  IsResult signalled http_down grpc_down result =
      ((reason : Option Fault) × (result ≡ serve_result reason)
        × IsReason signalled reason
        × (http_down ≡ true)
        × (grpc_down ≡ true))
      ⊎ ((e : Fault) × (result ≡ some (wrap "shut down HTTP server" e))
          × ShutdownError e
          × (http_down ≡ false)
          × (grpc_down ≡ false))

  abbrev BothUp : Bool → Bool → Type 0
  BothUp http_down grpc_down = (http_down ≡ false) × (grpc_down ≡ false)

  abbrev pub IsPhase : Bool → Bool → Bool → Phase → Type 0
  IsPhase signalled http_down grpc_down selecting = BothUp http_down grpc_down
  IsPhase signalled http_down grpc_down (shutting_down reason) =
      IsReason signalled reason × BothUp http_down grpc_down
  IsPhase signalled http_down grpc_down (stopping reason) =
      IsReason signalled reason × (http_down ≡ true)
  IsPhase signalled http_down grpc_down (forcing reason) =
      IsReason signalled reason × (http_down ≡ true)
  IsPhase signalled http_down grpc_down (returned result) =
      IsResult signalled http_down grpc_down result

  abbrev pub IsPhaseOf : State → Phase → Type 0
  IsPhaseOf s phase = IsPhase s.signalled s.http_down s.grpc_down phase

  abbrev pub IsExplained : State → Type 0
  IsExplained s = IsPhaseOf s s.phase × All Reported s.server_errors

  abbrev pub Explained : Option State → Type 0
  Explained none = Unit
  Explained (some s) = IsExplained s

  All-send :
      (es channel : List Fault) {channel' : List Fault}
      → All Reported es
      → All Reported channel
      → send es channel ≡ some channel'
      → All Reported channel'
  All-send [] channel h k q = subst (All Reported) (some-injective _ _ q) k
  All-send (e ∷ es) channel {channel'} h k q = elim (Bool-cases (ltb (length channel) capacity)) [
    | inl free ↦
        subst (All Reported) (some-injective _ _ (ground (arith, free, q)))
          (All-append Reported channel (e ∷ es) k h)
    | inr full ↦ absurd (ground (arith, full, q))
  ]

  -- What a server or the shutdown returns is one of these errors.
  abbrev pub IsCovered : Action → Type 0
  IsCovered (http_returns (some e)) = is e server_closed ≡ false → Reported (wrap "serve HTTP" e)
  IsCovered (grpc_returns (some e)) = Reported (wrap "serve gRPC" e)
  IsCovered (http_shutdown_returns (some e)) = ShutdownError e
  IsCovered _ = Unit

  All-http_report : (e : Option Fault) → IsCovered (http_returns e) → All Reported (http_report e)
  All-http_report none c = tt
  All-http_report (some e) c = go (is e server_closed) refl
    where
      go :
          (b : Bool)
          → is e server_closed ≡ b
          → All Reported (if b then [] else wrap "serve HTTP" e ∷ [])
      go true q = tt
      go false q = (c q, tt)

  All-grpc_report : (e : Option Fault) → IsCovered (grpc_returns e) → All Reported (grpc_report e)
  All-grpc_report none c = tt
  All-grpc_report (some e) c = (c, tt)

  pub signal-phase :
      (signalled http_down grpc_down : Bool) (p : Phase)
      → IsPhase signalled http_down grpc_down p
      → IsPhase true http_down grpc_down p
  signal-phase a b c selecting h = h
  signal-phase a b c (shutting_down none) h = (refl, h.1)
  signal-phase a b c (shutting_down (some e)) h = h
  signal-phase a b c (stopping none) h = (refl, h.1)
  signal-phase a b c (stopping (some e)) h = h
  signal-phase a b c (forcing none) h = (refl, h.1)
  signal-phase a b c (forcing (some e)) h = h
  signal-phase a b c (returned o) (inl (none, e, k, d, g)) = inl (none, e, refl, d, g)
  signal-phase a b c (returned o) (inl (some e, k, l, d, g)) = inl (some e, k, l, d, g)
  signal-phase a b c (returned o) (inr k) = inr k

  module _ (s : State) (reports : All Reported s.server_errors) where
    pub take_signal-Explained : (p : Phase) → IsPhaseOf s p → Explained (take_signal_in s p)
    take_signal-Explained selecting h = go s.signalled refl
      where
        go :
            (b : Bool)
            → s.signalled ≡ b
            → Explained (if b then some (record s { phase = shutting_down none }) else none)
        go true e = ((e, h), reports)
        go false e = tt
    take_signal-Explained (shutting_down _) h = tt
    take_signal-Explained (stopping _) h = tt
    take_signal-Explained (forcing _) h = tt
    take_signal-Explained (returned _) h = tt

    receive-Explained :
        (es : List Fault)
        → All Reported es
        → BothUp s.http_down s.grpc_down
        → Explained (receive s es)
    receive-Explained [] k h = tt
    receive-Explained (e ∷ es) k h = ((k.0, h), k.1)

    pub take_error-Explained : (p : Phase) → IsPhaseOf s p → Explained (take_error_in s p)
    take_error-Explained selecting h = receive-Explained s.server_errors reports h
    take_error-Explained (shutting_down _) h = tt
    take_error-Explained (stopping _) h = tt
    take_error-Explained (forcing _) h = tt
    take_error-Explained (returned _) h = tt

    pub http_shutdown-Explained :
        (answer : Option Fault)
        → IsCovered (http_shutdown_returns answer)
        → (p : Phase) → IsPhaseOf s p
        → Explained (http_shutdown_in s answer p)
    http_shutdown-Explained none c (shutting_down reason) h = ((h.0, refl), reports)
    http_shutdown-Explained (some e) c (shutting_down reason) h =
        (inr (e, refl, c, h.1.0, h.1.1), reports)
    http_shutdown-Explained answer c selecting h = tt
    http_shutdown-Explained answer c (stopping _) h = tt
    http_shutdown-Explained answer c (forcing _) h = tt
    http_shutdown-Explained answer c (returned _) h = tt

    pub stops-Explained : (p : Phase) → IsPhaseOf s p → Explained (stops_in s p)
    stops-Explained (stopping reason) h = (inl (reason, refl, h.0, h.1, refl), reports)
    stops-Explained selecting h = tt
    stops-Explained (shutting_down _) h = tt
    stops-Explained (forcing _) h = tt
    stops-Explained (returned _) h = tt

    pub deadline-Explained : (p : Phase) → IsPhaseOf s p → Explained (deadline_in s p)
    deadline-Explained (stopping reason) h = (h, reports)
    deadline-Explained selecting h = tt
    deadline-Explained (shutting_down _) h = tt
    deadline-Explained (forcing _) h = tt
    deadline-Explained (returned _) h = tt

    pub stops_forced-Explained : (p : Phase) → IsPhaseOf s p → Explained (stops_forced_in s p)
    stops_forced-Explained (forcing reason) h = (inl (reason, refl, h.0, h.1, refl), reports)
    stops_forced-Explained selecting h = tt
    stops_forced-Explained (shutting_down _) h = tt
    stops_forced-Explained (stopping _) h = tt
    stops_forced-Explained (returned _) h = tt

    pub http_done-Explained :
        (e : Option Fault) (o : Option (List Fault))
        → IsCovered (http_returns e)
        → send (http_report e) s.server_errors ≡ o
        → IsPhaseOf s s.phase
        → Explained (http_done s o)
    http_done-Explained e none c q h = tt
    http_done-Explained e (some channel) c q h =
        (h, All-send (http_report e) s.server_errors (All-http_report e c) reports q)

    pub grpc_done-Explained :
        (e : Option Fault) (o : Option (List Fault))
        → IsCovered (grpc_returns e)
        → send (grpc_report e) s.server_errors ≡ o
        → IsPhaseOf s s.phase
        → Explained (grpc_done s o)
    grpc_done-Explained e none c q h = tt
    grpc_done-Explained e (some channel) c q h =
        (h, All-send (grpc_report e) s.server_errors (All-grpc_report e c) reports q)
