-- ===== src/Tests/Programs.antt =====
-- A run of the server program that a signal ends, and requests to its HTTP server.
use arxveil.Prelude.{
  ℕ, suc, ◌-◌, ◌≡◌, refl, Bool, true, none, some, List, [], ◌∷◌, ◌==◌, nat_eq, bytes_beq,
  if◌then◌else◌,
}
use arxveil.Go.Text.{Bytes, codes}
use arxveil.Go.Fault.{other, wrap, Result, ok, err}
use arxveil.Config.{Environment, load, env_or_default}
use arxveil.Health.{Pinger}
use arxveil.HttpApi.Routing.{Engine, FindsStatic, first_match, Answered, answer, router_lem}
use arxveil.Application.{
  returned, State, started, Action, signal, grpc_returns, take_signal, http_shutdown_returns,
  grpc_stops, http_returns, perform, serve,
}
use arxveil.Program.{
  Application, Platform, run, main, open_database_pool, new_application, serve_application,
}
use arxveil.Program.Exit.{Opened, Ending, run-Ending}
use arxveil.Program.Status.{CleanShutdown, main_exits_zero}
use arxveil.Program.Pools.{CountsPools, run_closes}
use arxveil.Tests.Toy.{toy}

-- The ping fails for the third time.
abbrev database : Pinger ℕ
database = record { ping = λ timeout n. (if n == 2 then err (other "closed") else ok tt, suc n) }

abbrev gin : Engine ℕ
gin = record { find = first_match; otherwise = λ method path. record { code = 404; status = [] } }

gin-FindsStatic : FindsStatic gin
gin-FindsStatic rs static method path = refl

router_lem_example :
    (answer gin gin-FindsStatic database (codes "GET") (codes "/health/live") 2
      ≡ (record { code = 200; status = codes "ok" }, 2))
    × (Answered
          (err (other "closed"))
          (answer gin gin-FindsStatic database (codes "GET") (codes "/health/ready") 2).0
        × ((answer gin gin-FindsStatic database (codes "GET") (codes "/health/ready") 2).1 ≡ 3))
    × ((answer gin gin-FindsStatic database (codes "GET") (codes "/health/ready") 2).1 ≡ 3)
unfolding bytes_beq
router_lem_example = router_lem gin gin-FindsStatic database (codes "GET") (codes "/health/ready") 2

abbrev stopping : List Action
stopping =
    signal
    ∷ take_signal
    ∷ http_returns none
    ∷ http_shutdown_returns none
    ∷ grpc_returns none
    ∷ grpc_stops
    ∷ []

abbrev stopped : State
stopped = record {
  phase = returned none;
  http_serves = Bool.false;
  grpc_serves = Bool.false;
  server_errors = [];
  signalled = true;
  http_down = true;
  grpc_down = true;
}

stops : serve stopping started ≡ some stopped
unfolding serve perform
stops = refl

-- The state is the number of open pools.
abbrev platform : Platform ℕ Bytes (Unit {0}) Bytes
platform = record {
  parse_config = λ url. ok url;
  new_with_config = λ c n. (ok tt, suc n);
  close = λ pool n. n - 1;
  listen = λ address n. (ok address, n);
  database = λ pool. toy;
  pinger = λ pool. record { ping = λ timeout s. (ok tt, s) };
  is_uuid = λ s. true;
  happens = λ application n. (stopping, n);
}

abbrev nothing_set : Environment
nothing_set key = none

exits_zero : main platform nothing_set 0 ≡ some 0
unfolding main run open_database_pool new_application serve_application load env_or_default serve
    perform
exits_zero = refl

main_exits_zero_example :
    (v : ℕ) × (application : Application Bytes) × Opened platform (load nothing_set) 0 v application
    × CleanShutdown stopping
main_exits_zero_example = main_exits_zero platform nothing_set 0 exits_zero

-- The address is in use.
abbrev in_use : Platform ℕ Bytes (Unit {0}) Bytes
in_use = record platform { listen = λ address n. (err (other "address already in use"), n) }

abbrev refusal : Result (Unit {0})
refusal = err (wrap "listen for gRPC" (other "address already in use"))

fails : run in_use (load nothing_set) 3 ≡ some (refusal, 3)
unfolding run open_database_pool new_application
fails = refl

run-Ending_example : Ending in_use (load nothing_set) 3 refusal
run-Ending_example = run-Ending in_use (load nothing_set) 3 3 refusal fails

abbrev open_pools : ℕ → ℕ
open_pools n = n

in_use-CountsPools : CountsPools in_use open_pools
in_use-CountsPools = record {
  created = λ c w. refl;
  closed = λ pool w. refl;
  listened = λ address w. refl;
  happened = λ application w. refl;
}

run_closes_example : open_pools 3 ≡ open_pools 3
run_closes_example =
    run_closes in_use open_pools in_use-CountsPools (load nothing_set) 3 3 refusal fails
