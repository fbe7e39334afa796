-- ===== src/Application/Shutdown.antt =====
-- What holds of `serve` whatever happens: it does not take part in a deadlock, it ends, and its result says
-- what happened.
use arxveil.Prelude.{
  ℕ, suc, ◌+◌, ◌≤◌, ◌≡◌, ◌≢◌, refl, Bool, true, false, Option, none, some, List, [], ◌∷◌, length,
  length-append, if◌then◌else◌, arith,
}
use arxveil.Go.Fault.{Fault}
use arxveil.Application.{
  Phase, selecting, shutting_down, stopping, forcing, returned, State, started, Action, signal,
  http_returns, grpc_returns, take_signal, take_error, http_shutdown_returns, grpc_stops,
  deadline_passes, grpc_stops_forced, perform, serve, continue, send, http_report, grpc_report,
}

abbrev one_if : Bool → ℕ
one_if true = 1
one_if false = 0

abbrev pub rank : Phase → ℕ
rank selecting = 4
rank (shutting_down _) = 3
rank (stopping _) = 2
rank (forcing _) = 1
rank (returned _) = 0

-- How many actions are still to come, at most.
abbrev pub remaining : State → ℕ
remaining s =
    one_if s.http_serves + one_if s.grpc_serves + rank s.phase + (if s.signalled then 0 else 1)

-- The goroutines that still serve have their place in the channel.
abbrev HasRoom : State → Type 0
HasRoom s = length s.server_errors + one_if s.http_serves + one_if s.grpc_serves ≤ 2

perform-remaining :
    (a : Action) (s s' : State) → perform a s ≡ some s' → suc (remaining s') ≤ remaining s
unfolding perform
perform-remaining signal s s' q = ground (arith, q)
perform-remaining (http_returns e) s s' q = ground (arith, q)
perform-remaining (grpc_returns e) s s' q = ground (arith, q)
perform-remaining take_signal s s' q = ground (arith, q)
perform-remaining take_error s s' q = ground (arith, q)
perform-remaining (http_shutdown_returns e) s s' q = ground (arith, q)
perform-remaining grpc_stops s s' q = ground (arith, q)
perform-remaining deadline_passes s s' q = ground (arith, q)
perform-remaining grpc_stops_forced s s' q = ground (arith, q)

http_report-short : (e : Option Fault) → length (http_report e) ≤ 1
http_report-short none = omega arith
http_report-short (some e) = ground arith

grpc_report-short : (e : Option Fault) → length (grpc_report e) ≤ 1
grpc_report-short none = omega arith
grpc_report-short (some e) = omega arith

length-send :
    (es channel : List Fault) {channel' : List Fault}
    → length es ≤ 1
    → send es channel ≡ some channel'
    → length channel' ≤ length channel + 1
length-send [] channel h q = ground (arith, q)
length-send (e ∷ es) channel h q = ground (arith, h, q, length-append channel (e ∷ es))

perform-HasRoom : (a : Action) (s s' : State) → HasRoom s → perform a s ≡ some s' → HasRoom s'
unfolding perform
perform-HasRoom signal s s' h q = ground (arith, h, q)
perform-HasRoom (http_returns e) s s' h q = ground (
  arith,
  h,
  q,
  length-send (http_report e) s.server_errors {channel' = s'.server_errors} (http_report-short e),
)
perform-HasRoom (grpc_returns e) s s' h q = ground (
  arith,
  h,
  q,
  length-send (grpc_report e) s.server_errors {channel' = s'.server_errors} (grpc_report-short e),
)
perform-HasRoom take_signal s s' h q = ground (arith, h, q)
perform-HasRoom take_error s s' h q = ground (arith, h, q)
perform-HasRoom (http_shutdown_returns e) s s' h q = ground (arith, h, q)
perform-HasRoom grpc_stops s s' h q = ground (arith, h, q)
perform-HasRoom deadline_passes s s' h q = ground (arith, h, q)
perform-HasRoom grpc_stops_forced s s' h q = ground (arith, h, q)

-- Each action brings the end nearer: no run has more than seven.
serve-remaining :
    (actions : List Action) (s s' : State)
    → serve actions s ≡ some s'
    → length actions + remaining s' ≤ remaining s
unfolding serve
serve-remaining [] s s' q = ground (arith, q)
serve-remaining (a ∷ actions) s s' q = go (perform a s) refl q (λ t. serve-remaining actions t s')
  where
    go :
        (o : Option State)
        → perform a s ≡ o
        → continue o (serve actions) ≡ some s'
        → ((t : State) → serve actions t ≡ some s' → length actions + remaining s' ≤ remaining t)
        → suc (length actions) + remaining s' ≤ remaining s
    go none e k later = cc
    go (some t) e k later = omega (arith, perform-remaining a s t e, later t k)

serve-HasRoom :
    (actions : List Action) (s s' : State) → HasRoom s → serve actions s ≡ some s' → HasRoom s'
unfolding serve
serve-HasRoom [] s s' h q = ground (arith, h, q)
serve-HasRoom (a ∷ actions) s s' h q = go (perform a s) refl q (λ t. serve-HasRoom actions t s')
  where
    go :
        (o : Option State)
        → perform a s ≡ o
        → continue o (serve actions) ≡ some s'
        → ((t : State) → HasRoom t → serve actions t ≡ some s' → HasRoom s')
        → HasRoom s'
    go none e k later = cc
    go (some t) e k later = later t (perform-HasRoom a s t h e) k

-- A goroutine that still serves can report any error: its send does not block.
abbrev pub SendsFreely : State → Type 0
SendsFreely s =
    ((e : Fault) → s.http_serves ≡ true → perform (http_returns (some e)) s ≢ none)
    × ((e : Fault) → s.grpc_serves ≡ true → perform (grpc_returns (some e)) s ≢ none)

HasRoom-SendsFreely : (s : State) → HasRoom s → SendsFreely s
unfolding perform
HasRoom-SendsFreely s h =
    (λ e serves. ground (arith, h, serves), λ e serves. ground (arith, h, serves))

stuck_phase :
    (s : State) (p : Phase)
    → s.phase ≡ p
    → ((a : Action) → perform a s ≡ none)
    → (result : Option Fault) × (p ≡ returned result)
unfolding perform
stuck_phase s selecting e stuck = absurd (ground (arith, e, stuck signal, stuck take_signal))
stuck_phase s (shutting_down reason) e stuck =
    absurd (ground (arith, e, stuck (http_shutdown_returns none)))
stuck_phase s (stopping reason) e stuck = absurd (ground (arith, e, stuck grpc_stops))
stuck_phase s (forcing reason) e stuck = absurd (ground (arith, e, stuck grpc_stops_forced))
stuck_phase s (returned result) e stuck = (result, refl)

-- Whatever the signal, the servers and the clock do, and in whatever order: at most seven actions
-- happen in all, a goroutine that still serves can always report an error without blocking, and
-- when nothing more can happen, `serve` has returned.
pub serve_ends :
    (actions : List Action) (s : State)
    → serve actions started ≡ some s
    → (length actions ≤ 7)
      × SendsFreely s
      × (((a : Action) → perform a s ≡ none)
          → (result : Option Fault) × (s.phase ≡ returned result))
serve_ends actions s q = (
  omega (arith, serve-remaining actions started s q),
  HasRoom-SendsFreely s (serve-HasRoom actions started s (omega arith) q),
  stuck_phase s s.phase refl,
)
