-- ===== src/HttpApi.antt =====
-- server/internal/httpapi/router.go: the routes that are registered. How the library gin finds the route of a
-- request is an argument.
pub mod Routing
use arxveil.Prelude.{ℕ, List, [], ◌∷◌}
use arxveil.Go.Text.{Bytes, codes}
use arxveil.Health.{Pinger, Handler, Handling, live, ready}

pub record Route (S : Type 0) : Type 0 where
  pub method : Bytes
  pub path : Bytes
  pub handle : Handling S

-- `2 * time.Second`, in nanoseconds.
abbrev pub ready_timeout : ℕ
ready_timeout = 2000000000

unfoldable pub new_router : {S : Type 0} → Pinger S → List (Route S)
new_router database =
    let handler : Handler _ = record { database = database; timeout = ready_timeout } in
    record { method = codes "GET"; path = codes "/health/live"; handle = live handler }
    ∷ record { method = codes "GET"; path = codes "/health/ready"; handle = ready handler }
    ∷ []
