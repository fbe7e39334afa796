-- ===== src/Application.antt =====
-- `serve` and `shutdown` of server/cmd/arxveil-server/application.go: the two servers run in goroutines of
-- their own, and report their errors on a channel. What the goroutines, the servers and the clock
-- do is a sequence of actions, in any order.
pub mod Shutdown
pub mod Explained
pub mod Progress
pub mod Result
use arxveil.Prelude.{
  ℕ, suc, Bool, true, false, Option, none, some, List, [], ◌∷◌, ◌++◌, length, ltb, if◌then◌else◌,
}
use arxveil.Go.Fault.{Fault, server_closed, is, wrap}

-- Where `serve` stands: in its `select`; in `httpServer.Shutdown`; in `gracefulStopGRPC`, before and after the
-- deadline; and after its return. The option is the error that the `select` has received.
pub data Phase : Type 0 where
  selecting : Phase
  shutting_down stopping forcing : Option Fault → Phase
  returned : Option Fault → Phase

pub record State : Type 0 where
  pub phase : Phase
  -- The goroutines that have not yet returned.
  pub http_serves : Bool
  pub grpc_serves : Bool
  -- What is in the channel.
  pub server_errors : List Fault
  -- The context is done.
  pub signalled : Bool
  -- The HTTP server was shut down, and the gRPC server stopped.
  pub http_down : Bool
  pub grpc_down : Bool

abbrev pub started : State
started = record {
  phase = selecting;
  http_serves = true;
  grpc_serves = true;
  server_errors = [];
  signalled = false;
  http_down = false;
  grpc_down = false;
}

pub data Action : Type 0 where
  -- The signal arrives.
  signal : Action
  -- `ListenAndServe` or `Serve` returns, with an error or nil.
  http_returns grpc_returns : Option Fault → Action
  -- The `select` takes one of its cases.
  take_signal take_error : Action
  -- `httpServer.Shutdown` returns, with an error or nil.
  http_shutdown_returns : Option Fault → Action
  -- `GracefulStop` is done, the deadline passes, and `GracefulStop` is done after `Stop`.
  grpc_stops deadline_passes grpc_stops_forced : Action

-- `serveHTTP`
abbrev pub http_report : Option Fault → List Fault
http_report none = []
http_report (some e) = if is e server_closed then [] else wrap "serve HTTP" e ∷ []

-- `serveGRPC`
abbrev pub grpc_report : Option Fault → List Fault
grpc_report none = []
grpc_report (some e) = wrap "serve gRPC" e ∷ []

-- A send blocks while the channel is full.
abbrev pub capacity : ℕ
capacity = 2

abbrev pub send : List Fault → List Fault → Option (List Fault)
send [] channel = some channel
send (e ∷ es) channel = if ltb (length channel) capacity then some (channel ++ (e ∷ es)) else none

-- What `serve` returns after a clean shutdown.
abbrev pub serve_result : Option Fault → Option Fault
serve_result none = none
serve_result (some e) = some (wrap "serve application" e)

abbrev pub http_done : State → Option (List Fault) → Option State
http_done s none = none
http_done s (some channel) = some (record s { http_serves = false; server_errors = channel })

abbrev pub grpc_done : State → Option (List Fault) → Option State
grpc_done s none = none
grpc_done s (some channel) = some (record s { grpc_serves = false; server_errors = channel })

abbrev pub receive : State → List Fault → Option State
receive s [] = none
receive s (e ∷ channel) =
    some (record s { phase = shutting_down (some e); server_errors = channel })

-- `shutdown`
abbrev pub after_http : State → Option Fault → Option Fault → State
after_http s received none = record s { phase = stopping received; http_down = true }
after_http s received (some e) = record s {
  phase = returned (some (wrap "shut down HTTP server" e));
}

abbrev pub stopped : State → Option Fault → State
stopped s received = record s { phase = returned (serve_result received); grpc_down = true }

abbrev pub take_signal_in : State → Phase → Option State
take_signal_in s selecting =
    if s.signalled then some (record s { phase = shutting_down none }) else none
take_signal_in s _ = none

abbrev pub take_error_in : State → Phase → Option State
take_error_in s selecting = receive s s.server_errors
take_error_in s _ = none

abbrev pub http_shutdown_in : State → Option Fault → Phase → Option State
http_shutdown_in s answer (shutting_down received) = some (after_http s received answer)
http_shutdown_in s answer _ = none

abbrev pub stops_in : State → Phase → Option State
stops_in s (stopping received) = some (stopped s received)
stops_in s _ = none

abbrev pub deadline_in : State → Phase → Option State
deadline_in s (stopping received) = some (record s { phase = forcing received })
deadline_in s _ = none

abbrev pub stops_forced_in : State → Phase → Option State
stops_forced_in s (forcing received) = some (stopped s received)
stops_forced_in s _ = none

-- One action, if it can happen.
unfoldable pub perform : Action → State → Option State
perform signal s = if s.signalled then none else some (record s { signalled = true })
perform (http_returns e) s =
    if s.http_serves then http_done s (send (http_report e) s.server_errors) else none
perform (grpc_returns e) s =
    if s.grpc_serves then grpc_done s (send (grpc_report e) s.server_errors) else none
perform take_signal s = take_signal_in s s.phase
perform take_error s = take_error_in s s.phase
perform (http_shutdown_returns e) s = http_shutdown_in s e s.phase
perform grpc_stops s = stops_in s s.phase
perform deadline_passes s = deadline_in s s.phase
perform grpc_stops_forced s = stops_forced_in s s.phase

abbrev pub continue : Option State → (State → Option State) → Option State
continue none f = none
continue (some s) f = f s

unfoldable pub serve : List Action → State → Option State
serve [] s = some s
serve (a ∷ actions) s = continue (perform a s) (serve actions)
