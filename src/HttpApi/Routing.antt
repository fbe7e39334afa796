-- ===== src/HttpApi/Routing.antt =====
-- What the HTTP server of server/internal/httpapi/router.go answers, with gin as an argument: gin finds the route
-- of a request, and answers by itself where there is none.
use arxveil.Prelude.{
  ◌≡◌, refl, Bool, true, false, ◌&&◌, Option, none, some, List, [], ◌∷◌, nat_eq, text_eq, ◌==◌, ap,
  subst, sym, ◌∙◌, &&-true, eq→path, if◌then◌else◌, contains, bytes_beq,
}
use arxveil.Go.Text.{Bytes, codes}
use arxveil.Go.Fault.{Result, ok, err}
use arxveil.Health.{Pinger, Handler, Response, Handling, live, readiness, ready}
use arxveil.HttpApi.{Route, ready_timeout, new_router}

-- gin: the route of a method and a path, and the answer where there is none.
pub record Engine (S : Type 0) : Type 0 where
  pub find : List (Route S) → Bytes → Bytes → Option (Route S)
  pub otherwise : Bytes → Bytes → Response

abbrev matches : {S : Type 0} → Bytes → Bytes → Route S → Bool
matches method path r = method == r.method && path == r.path

abbrev pub first_match : {S : Type 0} → List (Route S) → Bytes → Bytes → Option (Route S)
first_match [] method path = none
first_match (r ∷ rs) method path =
    let rest = first_match rs method path in if matches method path r then some r else rest

-- The paths have neither `:` nor `*`, so each matches itself only.
abbrev AreStatic : {S : Type 0} → List (Route S) → Type 0
AreStatic [] = Unit
AreStatic (r ∷ rs) = (contains r.path 58 ≡ false) × (contains r.path 42 ≡ false) × AreStatic rs

abbrev pub FindsStatic : {S : Type 0} → Engine S → Type 0
FindsStatic {S} gin =
    (rs : List (Route S))
    → AreStatic rs
    → (method path : Bytes) → gin.find rs method path ≡ first_match rs method path

abbrev handling : {S : Type 0} → Option (Route S) → Response → Handling S
handling none response s = (response, s)
handling (some r) response s = r.handle s

-- One request to the HTTP server.
abbrev pub request : {S : Type 0} → Engine S → List (Route S) → Bytes → Bytes → Handling S
request gin rs method path = handling (gin.find rs method path) (gin.otherwise method path)

abbrev pub Answered : Result (Unit {0}) → Response → Type 0
Answered (ok _) response = response ≡ record { code = 200; status = codes "ready" }
Answered (err _) response = response ≡ record { code = 503; status = codes "unavailable" }

readiness-Answered :
    {S : Type 0} (h : Handler S) (pinged : Result (Unit {0}) × S)
    → Answered pinged.0 (readiness h pinged).0 × ((readiness h pinged).1 ≡ pinged.1)
readiness-Answered h (ok _, s) = (refl, refl)
readiness-Answered h (err _, s) = (refl, refl)

state_after :
    {S : Type 0} (is_live is_ready : Bool) (l r : Route S) (response : Response) (s : S)
    → (is_live ≡ true → is_ready ≡ false)
    → (l.handle s).1 ≡ s
    → (handling (if is_live then some l else if is_ready then some r else none) response s).1
      ≡ (if is_ready then (r.handle s).1 else s)
state_after true true l r response s q h = cc (q refl)
state_after true false l r response s q h = h
state_after false true l r response s q h = refl
state_after false false l r response s q h = refl

abbrev pub is_ready_request : Bytes → Bytes → Bool
is_ready_request method path = method == codes "GET" && path == codes "/health/ready"

not_both :
    (method path : Bytes)
    → (method == codes "GET" && path == codes "/health/live") ≡ true
    → is_ready_request method path ≡ false
unfolding bytes_beq
not_both method path h =
    let (hm, hp) = &&-true _ _ h in
    subst (λ m. is_ready_request m path ≡ false) (sym (eq→path method (codes "GET") hm))
      (subst (λ p. is_ready_request (codes "GET") p ≡ false)
        (sym (eq→path path (codes "/health/live") hp)) refl)

module _ {S : Type 0} (gin : Engine S) (static : FindsStatic gin) (database : Pinger S) where
  abbrev pub answer : Bytes → Bytes → Handling S
  answer = request gin (new_router database)

  finds :
      (method path : Bytes)
      → gin.find (new_router database) method path ≡ first_match (new_router database) method path
  unfolding new_router bytes_beq
  finds = static (new_router database) (refl, refl, (refl, refl, tt))

  answer-eq :
      (method path : Bytes)
      → answer method path
        ≡ handling (first_match (new_router database) method path) (gin.otherwise method path)
  answer-eq method path = ap (λ r. handling r (gin.otherwise method path)) (finds method path)

  -- Suppose that gin finds the routes of static paths. Then GET /health/live answers 200 with "ok".
  -- GET /health/ready answers 200 with "ready" if the ping succeeds and 503 with "unavailable" if
  -- it fails, and leaves the state that the ping leaves; and every other request leaves the state
  -- as it is.
  pub router_lem :
      (method path : Bytes) (s : S)
      → (answer (codes "GET") (codes "/health/live") s
          ≡ (record { code = 200; status = codes "ok" }, s))
        × (let (response, s') = answer (codes "GET") (codes "/health/ready") s in
            let (pinged, t) = database.ping ready_timeout s in Answered pinged response × (s' ≡ t))
        × ((answer method path s).1
            ≡ (if is_ready_request method path then (database.ping ready_timeout s).1 else s))
  unfolding new_router live ready bytes_beq
  router_lem method path s = (
    ap (λ f. f s) (answer-eq (codes "GET") (codes "/health/live")),
    subst
        (λ f.
          Answered (database.ping ready_timeout s).0 (f s).0
          × ((f s).1 ≡ (database.ping ready_timeout s).1))
        (sym (answer-eq (codes "GET") (codes "/health/ready")))
        (readiness-Answered (record { database = database; timeout = ready_timeout })
          (database.ping ready_timeout s)),
    subst
        (λ f.
          (f s).1 ≡ (if is_ready_request method path then (database.ping ready_timeout s).1 else s))
        (sym (answer-eq method path))
        (state_after _ (is_ready_request method path) _ _ _ s (not_both method path) refl
          ∙ ap (λ t. if is_ready_request method path then t else s)
              (readiness-Answered (record { database = database; timeout = ready_timeout })
                (database.ping ready_timeout s)).1),
  )
