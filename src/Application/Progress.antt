-- ===== src/Application/Progress.antt =====
-- That `serve` goes on by itself once it has a reason to shut down.
use arxveil.Prelude.{◌≡◌, ◌⊎◌, Bool, true, false, not, ◌||◌, Option, some, List, [], ◌∷◌}
use arxveil.Go.Fault.{Fault, server_closed, is}
use arxveil.Application.{
  Phase, selecting, returned, State, Action, signal, http_returns, grpc_returns, perform,
}

-- The signal, or the return of a server with an error that is to be reported.
abbrev pub wakes : Action → Bool
wakes signal = true
wakes (http_returns (some e)) = not (is e server_closed)
wakes (grpc_returns (some e)) = true
wakes _ = false

-- The steps that `serve` and what it has called take: no signal, and no return of a server.
abbrev pub is_own : Action → Bool
is_own signal = false
is_own (http_returns e) = false
is_own (grpc_returns e) = false
is_own _ = true

abbrev selects : Phase → Bool
selects selecting = true
selects _ = false

abbrev is_filled : List Fault → Bool
is_filled [] = false
is_filled (e ∷ es) = true

-- A case of the `select` is ready, or one was taken.
abbrev is_awake : State → Bool
is_awake s = not (selects s.phase) || s.signalled || is_filled s.server_errors

-- `serve` has returned, or it has a step of its own to take.
abbrev pub GoesOn : State → Type 0
GoesOn s =
    ((result : Option Fault) × (s.phase ≡ returned result))
    ⊎ ((a : Action) × (t : State) × (is_own a ≡ true) × (perform a s ≡ some t))
