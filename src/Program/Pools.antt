-- ===== src/Program/Pools.antt =====
-- How many pools are open before and after `run` of server/cmd/arxveil-server/main.go.
use arxveil.Prelude.{ℕ, suc, ◌-◌, ◌≡◌, refl, subst, ◌∙◌, Option, none, some, arith}
use arxveil.Go.Text.{Bytes}
use arxveil.Go.Fault.{Result, ok, err, wrap_result}
use arxveil.Go.Exec.{after, pure, wrapping}
use arxveil.Config.{Config}
use arxveil.Program.{
  Application, Platform, assembled, open_database_pool, new_application, serve_application, serving,
  with_pool, deferring_close, run, beside,
}

module _ {W PoolConfig Pool Listener : Type 0} (os : Platform W PoolConfig Pool Listener)
    (pools : W → ℕ) where
  abbrev Opens : ℕ → Result Pool × W → Type 0
  Opens n (ok pool, w) = pools w ≡ suc n
  Opens n (err e, w) = pools w ≡ n

  -- `pools` counts the pools that are open: a pool that was created is one of them until it is closed, and
  -- nothing else Opens or closes a pool.
  pub record CountsPools : Type 0 where
    pub created : (c : PoolConfig) (w : W) → Opens (pools w) (os.new_with_config c w)
    pub closed : (pool : Pool) (w : W) → pools (os.close pool w) ≡ pools w - 1
    pub listened : (address : Bytes) (w : W) → pools (os.listen address w).1 ≡ pools w
    pub happened :
        (application : Application Listener) (w : W) → pools (os.happens application w).1 ≡ pools w

  abbrev Leaves : ℕ → Option (Result (Unit {0}) × W) → Type 0
  Leaves n none = Unit
  Leaves n (some (r, w)) = pools w ≡ n

  Leaves-eq :
      (n : ℕ) (o : Option (Result (Unit {0}) × W)) {r : Result (Unit {0})} {w : W}
      → Leaves n o
      → o ≡ some (r, w)
      → pools w ≡ n
  Leaves-eq n o h q = subst (Leaves n) q h

  module _ (counts : CountsPools) where
    beside-Leaves : (w : W) (o : Option (Result (Unit {0}))) → Leaves (pools w) (beside os w o)
    beside-Leaves w none = tt
    beside-Leaves w (some r) = refl

    serving-Leaves : (a : Result (Application Listener) × W) → Leaves (pools a.1) (serving os a)
    unfolding serve_application
    serving-Leaves (err e, w) = refl
    serving-Leaves (ok application, w) =
        subst (λ n. Leaves n (serving os (ok application, w))) (counts.happened application w)
          (beside-Leaves (os.happens application w).1 _)

    close-Leaves :
        (n : ℕ) (pool : Pool) (o : Option (Result (Unit {0}) × W))
        → Leaves (suc n) o
        → Leaves n (deferring_close os pool o)
    close-Leaves n pool none h = tt
    close-Leaves n pool (some (r, w)) h = omega (arith, h, counts.closed pool w)

    listening-Leaves :
        (cfg : Config) (pool : Pool) (listened : Result Listener × W)
        → Leaves (pools listened.1) (
            serving os (
              after
                (wrap_result "listen for gRPC" listened.0, listened.1)
                (λ l. pure (assembled os cfg pool l))))
    listening-Leaves cfg pool (ok l, w) = serving-Leaves (ok (assembled os cfg pool l), w)
    listening-Leaves cfg pool (err e, w) = refl

    with_pool-Leaves :
        (cfg : Config) (n : ℕ) (opened : Result Pool × W)
        → Opens n opened
        → Leaves n (with_pool os cfg (wrap_result "create database pool" opened.0, opened.1))
    unfolding new_application
    with_pool-Leaves cfg n (err e, w) h = h
    with_pool-Leaves cfg n (ok pool, w) h = close-Leaves n pool _ (
        subst (λ m. Leaves m (serving os (new_application os cfg pool w)))
          (counts.listened cfg.grpc_address w ∙ h)
          (listening-Leaves cfg pool (os.listen cfg.grpc_address w)))

    -- Suppose that a pool counts as open from its creation until it is closed, and that nothing
    -- else opens or closes a pool. When `run` has returned, successfully or with an error, as many
    -- pools are open as before.
    pub run_closes :
        (cfg : Config) (w w' : W) (r : Result (Unit {0}))
        → run os cfg w ≡ some (r, w')
        → pools w' ≡ pools w
    unfolding run open_database_pool
    run_closes cfg w w' r = Leaves-eq (pools w) _ (parsed (os.parse_config cfg.database_url))
      where
        parsed :
            (p : Result PoolConfig)
            → Leaves (pools w) (
                with_pool os cfg (
                  after
                    (wrap_result "parse database configuration" p, w)
                    (λ c. wrapping "create database pool" (os.new_with_config c))))
        parsed (err e) = refl
        parsed (ok c) = with_pool-Leaves cfg (pools w) (os.new_with_config c w) (counts.created c w)
