-- ===== src/Postgres.antt =====
-- The database that server/internal/repository/postgres works on: what it is asked of PostgreSQL and of
-- the driver pgx, the state of the connection, requests that can fail, and transactions.
pub mod Schema
pub mod Statements
pub mod EnrollmentStore
pub mod PresenceStore
pub mod TelemetryStore
pub mod History
use Schema.{Database}
use arxveil.Prelude.{ℕ, suc, ◌≡◌, Bool, String, Option, none, some}
use arxveil.Go.Text.{Bytes}
use arxveil.Go.Fault.{other, Result, ok, err}
use arxveil.Go.Exec.{Exec}
use arxveil.Go.Float64.{Float64}
use arxveil.Go.Time.{Time}

-- What can go wrong with a request: it is not carried out (no connection, a cancelled context), or it
-- is carried out and the answer is lost. The error that the driver then returns wraps none of the
-- sentinels that the program looks for.
pub data Outage : Type 0 where
  refused : String → Outage
  answer_lost : String → Outage

-- PostgreSQL and pgx, which are not part of the repository. `now`, `random_uuid` and `outage` are
-- what the environment does at each event; events are numbered.
pub record Server : Type 0 where
  -- A text that the server's encoding accepts, and its length in characters.
  pub accepts_text : Bytes → Bool
  pub char_length : Bytes → ℕ
  -- A UUID is a number of 128 bits; pgx reads and writes its text form.
  pub parse_uuid : Bytes → Option ℕ
  pub show_uuid : ℕ → Bytes
  -- NUMERIC(5, 2), in hundredths.
  pub numeric : Float64 → Option ℕ
  -- TIMESTAMPTZ, in microseconds from the zero time.
  pub encode_time : Time → ℕ
  pub decode_time : ℕ → Time
  pub now : ℕ → ℕ
  pub random_uuid : ℕ → ℕ
  pub outage : ℕ → Option Outage

-- The committed tables, those that the open transaction sees, the number of the next event, and the
-- time at which the open transaction started.
pub record World : Type 0 where
  pub committed : Database
  pub working : Database
  pub event : ℕ
  pub started : ℕ

abbrev pub next_event : World → World
next_event w = record w { event = suc w.event }

abbrev answer_of : {A : Type 0} → Option Outage → Result A → Result A
answer_of none r = r
answer_of (some (refused e)) r = err (other e)
answer_of (some (answer_lost e)) r = err (other e)

abbrev world_of : Option Outage → World → World → World
world_of none w w' = w'
world_of (some (refused e)) w w' = w
world_of (some (answer_lost e)) w w' = w'

module _ (pg : Server) where
  -- One round trip to the server.
  abbrev pub request : {A : Type 0} → Exec World A → Exec World A
  request m w =
      let o = pg.outage w.event in
      let (r, w') = m (next_event w) in (answer_of o r, world_of o (next_event w) w')

  -- `clock_timestamp()`
  abbrev pub clock_timestamp : Exec World ℕ
  clock_timestamp w = (ok (pg.now w.event), next_event w)

  -- `gen_random_uuid()`
  abbrev pub gen_random_uuid : Exec World ℕ
  gen_random_uuid w = (ok (pg.random_uuid w.event), next_event w)

  -- `pool.BeginTx`
  unfoldable pub begin : Exec World (Unit {0})
  begin = request λ w. (ok tt, record w { working = w.committed; started = pg.now w.event })

  -- `transaction.Commit`
  unfoldable pub commit : Exec World (Unit {0})
  commit = request λ w. (ok tt, record w { committed = w.working })

  -- A statement outside a transaction is a transaction of its own.
  abbrev settle : {A : Type 0} → Result A × World → Result A × World
  settle (ok a, w) = (ok a, record w { committed = w.working })
  settle (err e, w) = (err e, record w { working = w.committed })

  unfoldable pub autocommit : {A : Type 0} → Exec World A → Exec World A
  autocommit m =
      request λ w. settle (m (record w { working = w.committed; started = pg.now w.event }))

-- `defer transaction.Rollback(ctx)`: whatever has not been committed is forgotten.
abbrev pub deferring_rollback : {A : Type 0} → Exec World A → Exec World A
deferring_rollback m w = let (r, w') = m w in (r, record w' { working = w'.committed })
