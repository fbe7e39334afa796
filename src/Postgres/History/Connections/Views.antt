-- ===== src/Postgres/History/Connections/Views.antt =====
-- What the updates of the tables do to the connections of the machines.
use arxveil.Prelude.{
  ℕ, ◌≡◌, refl, Bool, true, Option, none, some, List, nat_eq, option_eq, if◌then◌else◌, arith,
}
use arxveil.Enrollment.{StoredEnrollment}
use arxveil.Postgres.{Server}
use arxveil.Postgres.Schema.{Machine, Database, find_row, update_rows, machine_of}
use arxveil.Postgres.Schema.Rows.{find_machine, find_machine-update_rows, find_machine-id}
use arxveil.Postgres.EnrollmentStore.Effects.{enrolled_tables, new_machine}
use arxveil.Postgres.PresenceStore.Effects.{
  go_online, see_again, go_offline, has_id, has_connection, is_current, came_online, was_seen,
  went_offline,
}
use arxveil.Postgres.History.Connections.{
  unregistered, disconnected, connected, connection, view, becomes, ◌≗◌,
}

-- The connection of a machine after an update of rows that keeps the IDs.
module _ (p : Machine → Bool) (f : Machine → Machine) (keeps_id : (m : Machine) → (f m).id ≡ m.id)
    (j : ℕ) (rows : List Machine) where
  connection-none :
      find_machine j rows ≡ none → connection (find_machine j (update_rows p f rows)) ≡ unregistered
  connection-none q = rw (find_machine-update_rows p f keeps_id j rows, q)

  connection-some :
      {m : Machine}
      → find_machine j rows ≡ some m
      → (connection (find_machine j (update_rows p f rows))
          ≡ (if p m then connection (some (f m)) else connection (some m)))
        × (m.id ≡ j)
  connection-some {m} q = (
    rw (find_machine-update_rows p f keeps_id j rows, q) (ground arith),
    find_machine-id j rows q,
  )

module _ (id : ℕ) (db : Database) where
  pub view-go_online :
      {m : Machine} (c s u a : ℕ)
      → machine_of id db ≡ some m
      → view (go_online id c s u a db) ≗ becomes id (connected c) (view db)
  unfolding go_online
  view-go_online c s u a found j = go (find_machine j db.machines) refl
    where
      go :
          (o : Option Machine)
          → find_machine j db.machines ≡ o
          → view (go_online id c s u a db) j ≡ becomes id (connected c) (view db) j
      go none q = ground (
        arith,
        found,
        q,
        connection-none (has_id id) (came_online c s u) (λ r. refl) j db.machines q,
      )
      go (some m) q = ground (
        arith,
        found,
        q,
        connection-some (has_id id) (came_online c s u) (λ r. refl) j db.machines q,
      )

  pub view-see_again : (since s u : ℕ) → view (see_again id since s u db) ≗ view db
  unfolding see_again
  view-see_again since s u j = go (find_machine j db.machines) refl
    where
      go :
          (o : Option Machine)
          → find_machine j db.machines ≡ o
          → view (see_again id since s u db) j ≡ view db j
      go none q = ground (
        arith,
        q,
        connection-none (has_connection id since) (was_seen s u) (λ r. refl) j db.machines q,
      )
      go (some m) q = ground (
        arith,
        q,
        connection-some (has_connection id since) (was_seen s u) (λ r. refl) j db.machines q,
      )

  pub view-go_offline :
      {m : Machine} (since d u a : ℕ)
      → machine_of id db ≡ some m
      → is_current id since m ≡ true
      → find_row (is_current id since) db.machines ≡ some m
      → view (go_offline id since d u a db) ≗ becomes id disconnected (view db)
  unfolding go_offline
  view-go_offline since d u a found current first j = go (find_machine j db.machines) refl
    where
      go :
          (o : Option Machine)
          → find_machine j db.machines ≡ o
          → view (go_offline id since d u a db) j ≡ becomes id disconnected (view db) j
      go none q = ground (
        arith,
        found,
        current,
        first,
        q,
        connection-none (is_current id since) (went_offline d u) (λ r. refl) j db.machines q,
      )
      go (some m) q = ground (
        arith,
        found,
        current,
        first,
        q,
        connection-some (is_current id since) (went_offline d u) (λ r. refl) j db.machines q,
      )

  pub view_of_current :
      {m : Machine} (since : ℕ)
      → machine_of id db ≡ some m
      → is_current id since m ≡ true
      → view db id ≡ connected since
  view_of_current {m} since found current = go m.last_connected_at refl
    where
      go : (o : Option ℕ) → m.last_connected_at ≡ o → view db id ≡ connected since
      go none e = ground (arith, found, current, e)
      go (some t) e = ground (arith, found, current, e)

pub view-enrolled :
    (pg : Server) (input : StoredEnrollment) (n : ℕ) (db : Database)
    → view (enrolled_tables pg input n db)
      ≗ becomes (new_machine pg input n).id disconnected (view db)
unfolding find_row
view-enrolled pg input n db j = ground arith
