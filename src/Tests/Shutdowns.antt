-- ===== src/Tests/Shutdowns.antt =====
-- A server that a signal stops, and one that fails.
use arxveil.Prelude.{◌≤◌, ◌≡◌, refl, true, false, Option, none, some, List, [], ◌∷◌, length}
use arxveil.Go.Fault.{Fault, other, wrap}
use arxveil.Application.{
  stopping, returned, State, started, Action, signal, grpc_returns, take_error,
  http_shutdown_returns, deadline_passes, grpc_stops_forced, perform, serve,
}
use arxveil.Application.Shutdown.{SendsFreely, serve_ends}
use arxveil.Application.Result.{IsResultOf, serve_result_lem}

-- The gRPC server fails while the signal arrives, and does not stop before the deadline.
abbrev failing : List Action
failing =
    signal
    ∷ grpc_returns (some (other "accept"))
    ∷ take_error
    ∷ http_shutdown_returns none
    ∷ deadline_passes
    ∷ grpc_stops_forced
    ∷ []

abbrev failure : Option Fault
failure = some (wrap "serve application" (wrap "serve gRPC" (other "accept")))

abbrev failed : State
failed = record {
  phase = returned failure;
  http_serves = true;
  grpc_serves = false;
  server_errors = [];
  signalled = true;
  http_down = true;
  grpc_down = true;
}

fails : serve failing started ≡ some failed
unfolding serve perform
fails = refl

serve_ends_example :
    (length failing ≤ 7)
    × SendsFreely failed
    × (((a : Action) → perform a failed ≡ none)
        → (result : Option Fault) × (returned failure ≡ returned result))
serve_ends_example = serve_ends failing failed fails

serve_result_lem_example : IsResultOf failing failed failure
serve_result_lem_example = serve_result_lem failing failed failure fails refl

-- The gRPC server fails, and no signal arrives.
abbrev failing_alone : List Action
failing_alone = grpc_returns (some (other "accept")) ∷ []

abbrev coming_down : List Action
coming_down = take_error ∷ http_shutdown_returns none ∷ []

abbrev broken : State
broken = record started {
  grpc_serves = false;
  server_errors = wrap "serve gRPC" (other "accept") ∷ [];
}

abbrev halfway : State
halfway = record broken {
  phase = stopping (some (wrap "serve gRPC" (other "accept")));
  server_errors = [];
  http_down = true;
}
