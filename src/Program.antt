-- ===== src/Program.antt =====
-- server/cmd/arxveil-server: `main`, `run` and `openDatabasePool` of main.go, and `newApplication` of application.go.
pub mod Exit
pub mod Status
pub mod Pools
use arxveil.Prelude.{ℕ, Bool, Option, none, some, List}
use arxveil.Go.Text.{Bytes}
use arxveil.Go.Fault.{Fault, Result, ok, err}
use arxveil.Go.Exec.{Exec, ◌>>=◌, pure, lift, wrapping}
use arxveil.Config.{Config, Environment, load}
use arxveil.Health.{Pinger}
use arxveil.HttpApi.{Route, new_router}
use arxveil.Postgres
use arxveil.AgentGrpc.{Enroller, PresenceTracker, TelemetryRecorder}
use arxveil.Backend.{State, enroller, presence_tracker, telemetry_recorder}
use arxveil.Application.{Phase, returned, State as ServeState, Action, started, serve}

-- What `agentgrpc.NewServer` is given.
pub record AgentService : Type 0 where
  pub enrollments : Enroller State
  pub presences : PresenceTracker State
  pub telemetry : TelemetryRecorder State

pub record HttpServer : Type 0 where
  pub address : Bytes
  pub handler : List (Route State)
  -- In nanoseconds.
  pub read_header_timeout : ℕ

pub record Application (Listener : Type 0) : Type 0 where
  pub http_server : HttpServer
  pub grpc_server : AgentService
  pub grpc_listener : Listener
  pub http_address : Bytes
  pub grpc_address : Bytes

-- The packages pgxpool and net, and what happens while the application serves, as actions on the state `W` of
-- the operating system.
pub record Platform (W PoolConfig Pool Listener : Type 0) : Type 0 where
  pub parse_config : Bytes → Result PoolConfig
  pub new_with_config : PoolConfig → Exec W Pool
  pub close : Pool → W → W
  pub listen : Bytes → Exec W Listener
  -- The database behind a pool, and `pool.Ping`.
  pub database : Pool → Postgres.Server
  pub pinger : Pool → Pinger State
  pub is_uuid : Bytes → Bool
  pub happens : Application Listener → W → List Action × W

-- An `error` that is nil or not.
abbrev pub result_of : Option Fault → Result (Unit {0})
result_of none = ok tt
result_of (some e) = err e

module _ {W PoolConfig Pool Listener : Type 0} (os : Platform W PoolConfig Pool Listener) where
  unfoldable pub open_database_pool : Bytes → Exec W Pool
  open_database_pool database_url =
      wrapping "parse database configuration" (lift (os.parse_config database_url))
      >>= λ pool_config. wrapping "create database pool" (os.new_with_config pool_config)

  abbrev pub assembled : Config → Pool → Listener → Application Listener
  assembled cfg pool listener = record {
    http_server = record {
      address = cfg.server_address;
      handler = new_router (os.pinger pool);
      read_header_timeout = 5000000000;
    };
    grpc_server = record {
      enrollments = enroller (os.database pool);
      presences = presence_tracker (os.database pool) os.is_uuid;
      telemetry = telemetry_recorder (os.database pool) os.is_uuid;
    };
    grpc_listener = listener;
    http_address = cfg.server_address;
    grpc_address = cfg.grpc_address;
  }

  unfoldable pub new_application : Config → Pool → Exec W (Application Listener)
  new_application cfg pool = wrapping "listen for gRPC" (os.listen cfg.grpc_address) >>= λ listener.
      pure (assembled cfg pool listener)

  -- What `application.serve` has returned after the actions, if it has.
  abbrev pub result_in : Phase → Option (Result (Unit {0}))
  result_in (returned result) = some (result_of result)
  result_in _ = none

  abbrev pub served : Option ServeState → Option (Result (Unit {0}))
  served none = none
  served (some s) = result_in s.phase

  abbrev pub beside : {A : Type 0} → W → Option A → Option (A × W)
  beside w none = none
  beside w (some a) = some (a, w)

  unfoldable pub serve_application : Application Listener → W → Option (Result (Unit {0}) × W)
  serve_application application w =
      let (actions, w') = os.happens application w in beside w' (served (serve actions started))

  -- `defer pool.Close()`
  abbrev pub deferring_close :
      Pool → Option (Result (Unit {0}) × W) → Option (Result (Unit {0}) × W)
  deferring_close pool none = none
  deferring_close pool (some (r, w)) = some (r, os.close pool w)

  abbrev pub serving : Result (Application Listener) × W → Option (Result (Unit {0}) × W)
  serving (err e, w) = some (err e, w)
  serving (ok application, w) = serve_application application w

  abbrev pub with_pool : Config → Result Pool × W → Option (Result (Unit {0}) × W)
  with_pool cfg (err e, w) = some (err e, w)
  with_pool cfg (ok pool, w) = deferring_close pool (serving (new_application cfg pool w))

  -- What `run` returns, if it does, and the state afterwards.
  unfoldable pub run : Config → W → Option (Result (Unit {0}) × W)
  run cfg w = with_pool cfg (open_database_pool cfg.database_url w)

  -- `main`: the exit status of the process.
  abbrev pub exit_status : Option (Result (Unit {0}) × W) → Option ℕ
  exit_status none = none
  exit_status (some (ok _, w)) = some 0
  exit_status (some (err _, w)) = some 1

  unfoldable pub main : Environment → W → Option ℕ
  main env w = exit_status (run (load env) w)
