-- ===== src/Health.antt =====
-- server/internal/health/handler.go. A response is its status code and the text of the field `status` of its
-- JSON body.
use arxveil.Prelude.{ℕ}
use arxveil.Go.Text.{Bytes, codes}
use arxveil.Go.Fault.{Result, ok, err}
use arxveil.Go.Exec.{Exec}

-- `Ping`, under a context that ends after so many nanoseconds.
pub record Pinger (S : Type 0) : Type 0 where
  pub ping : ℕ → Exec S (Unit {0})

pub record Handler (S : Type 0) : Type 0 where
  pub database : Pinger S
  pub timeout : ℕ

pub record Response : Type 0 where
  pub code : ℕ
  pub status : Bytes

-- What a handler does with a request: the response, and the state afterwards.
abbrev pub Handling : Type 0 → Type 0
Handling S = S → Response × S

module _ {S : Type 0} (h : Handler S) where
  unfoldable pub live : Handling S
  live s = (record { code = 200; status = codes "ok" }, s)

  abbrev pub readiness : Result (Unit {0}) × S → Response × S
  readiness (err e, s) = (record { code = 503; status = codes "unavailable" }, s)
  readiness (ok _, s) = (record { code = 200; status = codes "ready" }, s)

  unfoldable pub ready : Handling S
  ready s = readiness (h.database.ping h.timeout s)
