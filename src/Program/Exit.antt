-- ===== src/Program/Exit.antt =====
-- How the process of server/cmd/arxveil-server/main.go ends.
use arxveil.Prelude.{◌≡◌, refl, subst, String, Option, none, some}
use arxveil.Go.Fault.{Fault, wrap, Result, ok, err, wrap_result}
use arxveil.Go.Exec.{Exec, after, pure, wrapping}
use arxveil.Config.{Config}
use arxveil.Application.{Phase, returned, State, started, serve}
use arxveil.Application.Result.{IsResultOf, serve_result_lem}
use arxveil.Program.{
  Application, Platform, assembled, open_database_pool, new_application, serve_application, serving,
  with_pool, deferring_close, run, result_in, served, beside, result_of,
}

abbrev wrapped {ℓ κ μ} :
    {S : Type ℓ} {A : Type κ} {B : Type μ} → String → Result A × S → (A → Exec S B) → Result B × S
wrapped text (r, s) f = after (wrap_result text r, s) f

some_injective {ℓ} : {A : Type ℓ} {a b : A} → some a ≡ some b → a ≡ b
some_injective q = cc q

module _ {W PoolConfig Pool Listener : Type 0} (os : Platform W PoolConfig Pool Listener) where
  -- The pool and then the listener of the configuration have been opened, and the application serves on them.
  abbrev pub Opened : Config → W → W → Application Listener → Type 0
  Opened cfg w w' application =
      (c : PoolConfig) × (pool : Pool) × (u : W) × (os.parse_config cfg.database_url ≡ ok c)
      × (os.new_with_config c w ≡ (ok pool, u))
      × (os.listen cfg.grpc_address u ≡ (ok application.grpc_listener, w'))
      × (application.http_server.address ≡ cfg.server_address)

  -- How `run` can end, with its result.
  pub data Ending (cfg : Config) (w : W) : Result (Unit {0}) → Type 0 where
    bad_url :
        {e : Fault}
        → os.parse_config cfg.database_url ≡ err e
        → Ending cfg w (err (wrap "parse database configuration" e))
    no_pool :
        {c : PoolConfig} {e : Fault} {u : W}
        → os.parse_config cfg.database_url ≡ ok c
        → os.new_with_config c w ≡ (err e, u)
        → Ending cfg w (err (wrap "create database pool" e))
    no_listener :
        {c : PoolConfig} {pool : Pool} {e : Fault} {u v : W}
        → os.parse_config cfg.database_url ≡ ok c
        → os.new_with_config c w ≡ (ok pool, u)
        → os.listen cfg.grpc_address u ≡ (err e, v)
        → Ending cfg w (err (wrap "listen for gRPC" e))
    came_down :
        (v : W) (application : Application Listener) (s : State) {result : Option Fault}
        → Opened cfg w v application
        → serve (os.happens application v).0 started ≡ some s
        → s.phase ≡ returned result
        → IsResultOf (os.happens application v).0 s result
        → Ending cfg w (result_of result)

  serving-Ending :
      (cfg : Config) (w v w'' w' : W) (application : Application Listener) (pool : Pool)
      (r : Result (Unit {0}))
      → Opened cfg w v application
      → (o : Option State) → serve (os.happens application v).0 started ≡ o
      → deferring_close os pool (beside os w'' (served os o)) ≡ some (r, w')
      → Ending cfg w r
  serving-Ending cfg w v w'' w' application pool r opened none e q = cc
  serving-Ending cfg w v w'' w' application pool r opened (some s) e q = in_phase s.phase refl q
    where
      in_phase :
          (phase : Phase)
          → s.phase ≡ phase
          → deferring_close os pool (beside os w'' (result_in os phase)) ≡ some (r, w')
          → Ending cfg w r
      in_phase (returned result) h q' =
          subst (λ o. Ending cfg w o.0) (some_injective q')
            (came_down v application s opened e h
              (serve_result_lem (os.happens application v).0 s result e h))
      in_phase _ h q' = cc

  listening-Ending :
      (cfg : Config) (w u w' : W) (c : PoolConfig) (pool : Pool) (r : Result (Unit {0}))
      → os.parse_config cfg.database_url ≡ ok c
      → os.new_with_config c w ≡ (ok pool, u)
      → (listened : Result Listener × W) → os.listen cfg.grpc_address u ≡ listened
      → deferring_close os pool
          (serving os (wrapped "listen for gRPC" listened (λ l. pure (assembled os cfg pool l))))
        ≡ some (r, w')
      → Ending cfg w r
  unfolding serve_application
  listening-Ending cfg w u w' c pool r hc hp (err e, v) hl q =
      subst (λ o. Ending cfg w o.0) (some_injective q) (no_listener hc hp hl)
  listening-Ending cfg w u w' c pool r hc hp (ok listener, v) hl q =
      serving-Ending cfg w v _ w' (assembled os cfg pool listener) pool r
        (c, pool, u, hc, hp, hl, refl) _ refl q

  pool-Ending :
      (cfg : Config) (w w' : W) (c : PoolConfig) (r : Result (Unit {0}))
      → os.parse_config cfg.database_url ≡ ok c
      → (opened : Result Pool × W) → os.new_with_config c w ≡ opened
      → with_pool os cfg (wrap_result "create database pool" opened.0, opened.1) ≡ some (r, w')
      → Ending cfg w r
  unfolding new_application
  pool-Ending cfg w w' c r hc (err e, u) hp q =
      subst (λ o. Ending cfg w o.0) (some_injective q) (no_pool hc hp)
  pool-Ending cfg w w' c r hc (ok pool, u) hp q =
      listening-Ending cfg w u w' c pool r hc hp (os.listen cfg.grpc_address u) refl q

  -- When `run` has returned, its result is the wrapped error of the first stage that failed, which
  -- is the parsing of the URL, the pool or the listener, with the stages before it successful on
  -- the configured URL and address; or the application has served on them, and the result is that
  -- of `serve`, with what it says of the signal and the servers.
  pub run-Ending :
      (cfg : Config) (w w' : W) (r : Result (Unit {0}))
      → run os cfg w ≡ some (r, w')
      → Ending cfg w r
  unfolding run open_database_pool
  run-Ending cfg w w' r q = parsed (os.parse_config cfg.database_url) refl q
    where
      parsed :
          (p : Result PoolConfig)
          → os.parse_config cfg.database_url ≡ p
          → with_pool os cfg (
              wrapped "parse database configuration"
                (p, w)
                (λ c. wrapping "create database pool" (os.new_with_config c)))
            ≡ some (r, w')
          → Ending cfg w r
      parsed (err e) hc q' = subst (λ o. Ending cfg w o.0) (some_injective q') (bad_url hc)
      parsed (ok c) hc q' = pool-Ending cfg w w' c r hc (os.new_with_config c w) refl q'
