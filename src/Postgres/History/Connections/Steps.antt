-- ===== src/Postgres/History/Connections/Steps.antt =====
-- What the calls of the stores do to the connections of the machines.
use arxveil.Prelude.{ℕ, suc, ◌≡◌, refl, ap, ◌∙◌, Option, none, some, nat_eq, option_eq, arith}
use arxveil.Go.Text.{Bytes}
use arxveil.Presence.{Session}
use arxveil.Telemetry.{Sample}
use arxveil.Postgres.{Server}
use arxveil.Postgres.Schema.{Machine, Database, find_row, machine_of}
use arxveil.Postgres.Schema.Rows.{UniqueIds, find_row_unique}
use arxveil.Postgres.PresenceStore.Effects.{
  started_tables, touched_tables, ended_tables, go_online, see_again, go_offline, is_current,
}
use arxveil.Postgres.TelemetryStore.Effects.{recorded_tables, put_sample}
use arxveil.Postgres.History.{Call, starts, touches, ends, records}
use arxveil.Postgres.History.Connections.{view, Does, nothing, connects, disconnects}
use arxveil.Postgres.History.Connections.Views.{
  view-go_online, view-see_again, view-go_offline, view_of_current,
}

module _ (pg : Server) (before after : Database) where
  pub same_tables : {c : Call} → after ≡ before → Does pg (view before) (view after) c
  same_tables e = nothing (λ j. ap (λ db. view db j) e)

module _ (pg : Server) (db : Database) where
  pub Does-starts :
      (machine_id : Bytes) (n : ℕ) {after : Database}
      → after ≡ started_tables pg machine_id n db
      → Does pg (view db) (view after) (starts machine_id)
  unfolding go_online
  Does-starts machine_id n {after} e = go (pg.parse_uuid machine_id) refl
    where
      known :
          (id : ℕ)
          → pg.parse_uuid machine_id ≡ some id
          → (o : Option Machine) → machine_of id db ≡ o
          → Does pg (view db) (view after) (starts machine_id)
      known id p none q = same_tables pg db after (e ∙ rw (p, q, started_tables, go_online))
      known id p (some m) q =
          let moved : after
              ≡ go_online id (pg.now (suc (suc n))) (pg.now (suc (suc (suc n))))
                  (pg.now (suc (suc (suc (suc n))))) (pg.now (suc n)) db =
            e ∙ rw (p, started_tables) in
          connects id (pg.now (suc (suc n))) p (ground (arith, q))
            (λ j. ap (λ d. view d j) moved ∙ view-go_online id db _ _ _ _ q j)

      go :
          (o : Option ℕ)
          → pg.parse_uuid machine_id ≡ o
          → Does pg (view db) (view after) (starts machine_id)
      go none p = same_tables pg db after (e ∙ rw (p, started_tables))
      go (some id) p = known id p (machine_of id db) refl

  pub Does-touches :
      (s : Session) (n : ℕ) {after : Database}
      → after ≡ touched_tables pg s n db
      → Does pg (view db) (view after) (touches s)
  Does-touches s n {after} e = go (pg.parse_uuid s.machine_id) refl
    where
      go :
          (o : Option ℕ)
          → pg.parse_uuid s.machine_id ≡ o
          → Does pg (view db) (view after) (touches s)
      go none p = same_tables pg db after (e ∙ rw (p, touched_tables))
      go (some id) p =
          let moved : after
              ≡ see_again id (pg.encode_time s.connected_at) (pg.now (suc n)) (pg.now (suc (suc n)))
                  db =
            e ∙ rw (p, touched_tables) in
          nothing (λ j. ap (λ d. view d j) moved ∙ view-see_again id db _ _ _ j)

  pub Does-ends :
      (s : Session) (n : ℕ) {after : Database}
      → UniqueIds db.machines
      → after ≡ ended_tables pg s n db
      → Does pg (view db) (view after) (ends s)
  unfolding go_offline
  Does-ends s n {after} unique e = go (pg.parse_uuid s.machine_id) refl
    where
      current :
          (id : ℕ)
          → pg.parse_uuid s.machine_id ≡ some id
          → (o : Option Machine)
          → find_row (is_current id (pg.encode_time s.connected_at)) db.machines ≡ o
          → Does pg (view db) (view after) (ends s)
      current id p none q = same_tables pg db after (e ∙ rw (p, q, ended_tables, go_offline))
      current id p (some m) q =
          let (found, passes) =
            find_row_unique id (is_current id (pg.encode_time s.connected_at)) db.machines
              (λ r h. ground arith) unique q in
          let moved : after
              ≡ go_offline id (pg.encode_time s.connected_at) (pg.now (suc (suc n)))
                  (pg.now (suc (suc (suc n)))) (pg.now (suc n)) db =
            e ∙ rw (p, ended_tables) in
          disconnects id p (view_of_current id db _ found passes)
            (λ j. ap (λ d. view d j) moved ∙ view-go_offline id db _ _ _ _ found passes q j)

      go : (o : Option ℕ) → pg.parse_uuid s.machine_id ≡ o → Does pg (view db) (view after) (ends s)
      go none p = same_tables pg db after (e ∙ rw (p, ended_tables))
      go (some id) p =
          current id p (find_row (is_current id (pg.encode_time s.connected_at)) db.machines) refl

  pub Does-records :
      (s : Sample) (n : ℕ) {after : Database}
      → after ≡ recorded_tables pg s n db
      → Does pg (view db) (view after) (records s)
  Does-records s n {after} e =
      go (pg.parse_uuid s.machine_id) (pg.numeric s.cpu_usage_percent) refl refl
    where
      go :
          (o p : Option ℕ)
          → pg.parse_uuid s.machine_id ≡ o
          → pg.numeric s.cpu_usage_percent ≡ p
          → Does pg (view db) (view after) (records s)
      go none p q r = same_tables pg db after (e ∙ rw (q, recorded_tables))
      go (some id) none q r = same_tables pg db after (e ∙ rw (q, r, recorded_tables))
      go (some id) (some percent) q r =
          let moved : after ≡ put_sample pg s n db id percent = e ∙ rw (q, r, recorded_tables) in
          nothing (λ j. ap (λ d. view d j) moved)
