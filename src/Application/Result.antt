-- ===== src/Application/Result.antt =====
-- What the result of `serve` says.
use mathlib.Core.List.{Memᴰ}
use arxveil.Prelude.{
  ◌≡◌, refl, subst, ◌⊎◌, inl, inr, Bool, true, false, Option, none, some, List, [], ◌∷◌, All,
  if◌then◌else◌,
}
use arxveil.Go.Fault.{Fault, server_closed, is, wrap}
use arxveil.Application.{
  returned, State, started, Action, signal, http_returns, grpc_returns, take_signal, take_error,
  http_shutdown_returns, grpc_stops, deadline_passes, grpc_stops_forced, perform, serve, continue,
}
use arxveil.Application.Explained.{
  IsResult, IsPhase, IsExplained, Explained, IsCovered, signal-phase, take_signal-Explained,
  take_error-Explained, http_shutdown-Explained, stops-Explained, deadline-Explained,
  stops_forced-Explained, http_done-Explained, grpc_done-Explained,
}

module _ (Reported ShutdownError : Fault → Type 0) where
  abbrev IsFine : State → Type 0
  IsFine s = IsExplained Reported ShutdownError s

  abbrev Fine : Option State → Type 0
  Fine o = Explained Reported ShutdownError o

  unless_Fine : (b : Bool) (o : Option State) → Fine o → Fine (if b then o else none)
  unless_Fine true o h = h
  unless_Fine false o h = tt

  if_not_Fine : (b : Bool) (o : Option State) → Fine o → Fine (if b then none else o)
  if_not_Fine true o h = tt
  if_not_Fine false o h = h

  perform-Fine :
      (a : Action) (s : State) → IsCovered Reported ShutdownError a → IsFine s → Fine (perform a s)
  unfolding perform
  perform-Fine signal s c (h, r) =
      if_not_Fine s.signalled _ (signal-phase Reported ShutdownError _ _ _ s.phase h, r)
  perform-Fine (http_returns e) s c (h, r) =
      unless_Fine s.http_serves _ (http_done-Explained Reported ShutdownError s r e _ c refl h)
  perform-Fine (grpc_returns e) s c (h, r) =
      unless_Fine s.grpc_serves _ (grpc_done-Explained Reported ShutdownError s r e _ c refl h)
  perform-Fine take_signal s c (h, r) = take_signal-Explained Reported ShutdownError s r s.phase h
  perform-Fine take_error s c (h, r) = take_error-Explained Reported ShutdownError s r s.phase h
  perform-Fine (http_shutdown_returns e) s c (h, r) =
      http_shutdown-Explained Reported ShutdownError s r e c s.phase h
  perform-Fine grpc_stops s c (h, r) = stops-Explained Reported ShutdownError s r s.phase h
  perform-Fine deadline_passes s c (h, r) = deadline-Explained Reported ShutdownError s r s.phase h
  perform-Fine grpc_stops_forced s c (h, r) =
      stops_forced-Explained Reported ShutdownError s r s.phase h

  serve-IsFine :
      (actions : List Action) (s s' : State)
      → All (IsCovered Reported ShutdownError) actions
      → IsFine s
      → serve actions s ≡ some s'
      → IsFine s'
  unfolding serve
  serve-IsFine [] s s' c h q = subst Fine q h
  serve-IsFine (a ∷ actions) s s' (c, cs) h q =
      go (perform a s) (perform-Fine a s c h) q (λ t u. serve-IsFine actions t u cs)
    where
      go :
          (o : Option State)
          → Fine o
          → continue o (serve actions) ≡ some s'
          → ((t u : State) → IsFine t → serve actions t ≡ some u → IsFine u)
          → IsFine s'
      go none k e later = cc
      go (some t) k e later = later t s' k e

-- A report of an error that a server has returned during the actions.
abbrev pub IsReport : List Action → Fault → Type 0
IsReport actions e =
    (d : Fault) × (((e ≡ wrap "serve HTTP" d)
        × (is d server_closed ≡ false)
        × Memᴰ (http_returns (some d)) actions)
      ⊎ ((e ≡ wrap "serve gRPC" d) × Memᴰ (grpc_returns (some d)) actions))

abbrev pub IsShutdownError : List Action → Fault → Type 0
IsShutdownError actions e = Memᴰ (http_shutdown_returns (some e)) actions

-- What the end of the actions says of them.
abbrev pub IsResultOf : List Action → State → Option Fault → Type 0
IsResultOf actions s result =
    IsResult (IsReport actions) (IsShutdownError actions) s.signalled s.http_down s.grpc_down result

action_IsCovered :
    (actions : List Action) (a : Action)
    → Memᴰ a actions
    → IsCovered (IsReport actions) (IsShutdownError actions) a
action_IsCovered actions (http_returns (some e)) m = λ reported. (e, inl (refl, reported, m))
action_IsCovered actions (grpc_returns (some e)) m = (e, inr (refl, m))
action_IsCovered actions (http_shutdown_returns (some e)) m = m
action_IsCovered actions (http_returns none) m = tt
action_IsCovered actions (grpc_returns none) m = tt
action_IsCovered actions (http_shutdown_returns none) m = tt
action_IsCovered actions signal m = tt
action_IsCovered actions take_signal m = tt
action_IsCovered actions take_error m = tt
action_IsCovered actions grpc_stops m = tt
action_IsCovered actions deadline_passes m = tt
action_IsCovered actions grpc_stops_forced m = tt

All-Memᴰ :
    (P : Action → Type 0) (actions : List Action)
    → ((a : Action) → Memᴰ a actions → P a)
    → All P actions
All-Memᴰ P [] f = tt
All-Memᴰ P (a ∷ actions) f = (f a (Memᴰ.head refl), All-Memᴰ P actions (λ b m. f b (Memᴰ.tail m)))

-- When `serve` has returned, then either both servers are down, the HTTP server shut down and the
-- gRPC server stopped, and the result is nil after the signal, or is "serve application" around
-- "serve HTTP" or "serve gRPC" around an error that this server has returned during the run, for
-- the HTTP server another than `http.ErrServerClosed`; or the shutdown of the HTTP server has
-- returned an error during the run, the result is "shut down HTTP server" around it, and the gRPC
-- server has not been stopped.
pub serve_result_lem :
    (actions : List Action) (s : State) (result : Option Fault)
    → serve actions started ≡ some s
    → s.phase ≡ returned result
    → IsResultOf actions s result
serve_result_lem actions s result q e =
    let covered = All-Memᴰ _ actions (action_IsCovered actions) in
    subst (IsPhase (IsReport actions) (IsShutdownError actions) s.signalled s.http_down s.grpc_down)
      e
      (serve-IsFine (IsReport actions) (IsShutdownError actions) actions started s covered
        ((refl, refl), tt) q).0
