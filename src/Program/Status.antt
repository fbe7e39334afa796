-- ===== src/Program/Status.antt =====
-- The exit status of server/cmd/arxveil-server/main.go.
use arxveil.Prelude.{◌≡◌, refl, inl, inr, true, Option, none, some, List}
use arxveil.Go.Fault.{Result, ok, err}
use arxveil.Config.{Config, Environment, load}
use arxveil.Application.{returned, State, Action, started, serve}
use arxveil.Application.Result.{IsResultOf}
use arxveil.Program.{Application, Platform, run, main, exit_status}
use arxveil.Program.Exit.{Opened, Ending, bad_url, no_pool, no_listener, came_down, run-Ending}

-- Both servers have come down after the signal.
abbrev pub CleanShutdown : List Action → Type 0
CleanShutdown actions =
    (s : State) × (serve actions started ≡ some s)
    × (s.phase ≡ returned none)
    × (s.signalled ≡ true)
    × (s.http_down ≡ true)
    × (s.grpc_down ≡ true)

result_none :
    (actions : List Action) (s : State)
    → IsResultOf actions s none
    → (s.signalled ≡ true) × (s.http_down ≡ true) × (s.grpc_down ≡ true)
result_none actions s (inl (none, h, signal, http, grpc)) = (signal, http, grpc)
result_none actions s (inl (some e, h, k, l, m)) = cc h
result_none actions s (inr (e, h, k, l, m)) = cc h

module _ {W PoolConfig Pool Listener : Type 0} (os : Platform W PoolConfig Pool Listener) where
  Ending-ok :
      (cfg : Config) (w : W) (r : Result (Unit {0}))
      → Ending os cfg w r
      → r ≡ ok tt
      → (v : W) × (application : Application Listener) × Opened os cfg w v application
        × CleanShutdown (os.happens application v).0
  Ending-ok cfg w r (bad_url h) q = cc q
  Ending-ok cfg w r (no_pool h k) q = cc q
  Ending-ok cfg w r (no_listener h k l) q = cc q
  Ending-ok cfg w r (came_down v application s {result = none} opened e h k) q =
      let (signal, http, grpc) = result_none (os.happens application v).0 s k in
      (v, application, opened, (s, e, h, signal, http, grpc))
  Ending-ok cfg w r (came_down v application s {result = some d} opened e h k) q = cc q

  exit_status-zero :
      (o : Option (Result (Unit {0}) × W))
      → exit_status os o ≡ some 0
      → (w' : W) × (o ≡ some (ok tt, w'))
  exit_status-zero none q = cc q
  exit_status-zero (some (ok _, w')) q = (w', refl)
  exit_status-zero (some (err e, w')) q = cc q

  -- If the process exits with status 0, then the pool was opened with the URL, and after it the
  -- listener on the gRPC address, of the configuration that the environment gives, the HTTP server
  -- has its address, and while the application served, the signal arrived and both servers came
  -- down.
  pub main_exits_zero :
      (env : Environment) (w : W)
      → main os env w ≡ some 0
      → (v : W) × (application : Application Listener) × Opened os (load env) w v application
        × CleanShutdown (os.happens application v).0
  unfolding main
  main_exits_zero env w q =
      let (w', e) = exit_status-zero (run os (load env) w) q in
      Ending-ok (load env) w (ok tt) (run-Ending os (load env) w w' (ok tt) e) refl
