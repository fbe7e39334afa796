-- ===== src/Postgres/History/Intact/Updates.antt =====
-- The constraints of the tables, and what one call of a store does to the tables.
use arxveil.Prelude.{
  All-mono, ℕ, ◌≡◌, refl, Bool, true, false, ◌||◌, Option, none, some, List, ◌∷◌, All, nat_eq,
  option_eq, ◌==◌, if◌then◌else◌, arith,
}
use arxveil.Enrollment.{StoredEnrollment}
use arxveil.Telemetry.{Sample}
use arxveil.Postgres.{Server}
use arxveil.Postgres.Schema.{
  Machine, PresenceEvent, Database, find_row, update_rows, machine_of, is_online,
}
use arxveil.Postgres.Schema.Rows.{UniqueIds, UniqueIds-update_rows}
use arxveil.Postgres.Schema.Integrity.{
  IsIntact, IsBounded, IsDescribed, is_machine, Grows, Grows-update_rows, Grows-insert,
  All-update_rows, find_row-none, find_row-is_machine, no_identity, UniqueKeys-upsert, All-upsert,
}
use arxveil.Postgres.EnrollmentStore.Effects.{enrolled_tables, new_machine, new_identity}
use arxveil.Postgres.PresenceStore.Effects.{
  go_online, see_again, go_offline, has_id, has_connection, is_current, came_online, was_seen,
  went_offline,
}
use arxveil.Postgres.TelemetryStore.Effects.{put_sample, new_row}

module _ (pg : Server) where
  -- The machines change, none vanishes, and all still meet their constraints.
  with_machines :
      (db : Database) (rows : List Machine)
      → Grows db.machines rows
      → All (IsDescribed pg) rows
      → UniqueIds rows
      → IsIntact pg db
      → IsIntact pg (record db { machines = rows })
  with_machines db rows g fit unique h = record {
    machines_fit = fit;
    samples_fit = h.samples_fit;
    machine_ids = unique;
    keys = h.keys;
    agents = h.agents;
    identities_belong = All-mono _ _ db.agent_identities (λ i. g i.machine_id) h.identities_belong;
    events_belong = All-mono _ _ db.machine_presence_events (λ e. g e.machine_id) h.events_belong;
    samples_belong = All-mono _ _ db.telemetry_samples (λ s. g s.machine_id) h.samples_belong;
  }

  with_event :
      (db : Database) (e : PresenceEvent)
      → is_machine db.machines e.machine_id ≡ true
      → IsIntact pg db
      → IsIntact pg (record db { machine_presence_events = e ∷ db.machine_presence_events })
  with_event db e known h = record {
    machines_fit = h.machines_fit;
    samples_fit = h.samples_fit;
    machine_ids = h.machine_ids;
    keys = h.keys;
    agents = h.agents;
    identities_belong = h.identities_belong;
    events_belong = (known, h.events_belong);
    samples_belong = h.samples_belong;
  }

  updated :
      (db : Database) (p : Machine → Bool) (f : Machine → Machine)
      → ((m : Machine) → (f m).id ≡ m.id)
      → ((m : Machine) → IsDescribed pg m → IsDescribed pg (f m))
      → IsIntact pg db
      → IsIntact pg (record db { machines = update_rows p f db.machines })
  updated db p f same_id same_fit h =
      with_machines db _ (Grows-update_rows p f db.machines same_id)
        (All-update_rows (IsDescribed pg) p f db.machines same_fit h.machines_fit)
        (UniqueIds-update_rows p f same_id db.machines h.machine_ids) h

  module _ (id a b c d : ℕ) (db : Database) (h : IsIntact pg db) where
    pub go_online-IsIntact : IsIntact pg (go_online id a b c d db)
    unfolding go_online
    go_online-IsIntact = go (machine_of id db) refl
      where
        event :
            (m : Machine) (was_up : Bool)
            → machine_of id db ≡ some m
            → let moved = record db {
              machines = update_rows (has_id id) (came_online a b c) db.machines;
            } in
              IsIntact pg (record moved {
                machine_presence_events =
                    if was_up
                    then db.machine_presence_events
                    else record { machine_id = id; online = true; occurred_at = d }
                      ∷ db.machine_presence_events;
              })
        event m true e = updated db (has_id id) (came_online a b c) (λ r. refl) (λ r k. k) h
        event m false e =
            with_event _ (record { machine_id = id; online = true; occurred_at = d })
              (Grows-update_rows (has_id id) (came_online a b c) db.machines (λ r. refl) id
                (ground (arith, e)))
              (updated db (has_id id) (came_online a b c) (λ r. refl) (λ r k. k) h)

        go : (o : Option Machine) → machine_of id db ≡ o → IsIntact pg (go_online id a b c d db)
        go none e = rw (e, go_online) h
        go (some m) e = rw (e, go_online) (event m (is_online m.status) e)

    pub see_again-IsIntact : IsIntact pg (see_again id a b c db)
    unfolding see_again
    see_again-IsIntact = updated db (has_connection id a) (was_seen b c) (λ r. refl) (λ r k. k) h

    pub go_offline-IsIntact : IsIntact pg (go_offline id a b c d db)
    unfolding go_offline
    go_offline-IsIntact = go (find_row (is_current id a) db.machines) refl
      where
        go :
            (o : Option Machine)
            → find_row (is_current id a) db.machines ≡ o
            → IsIntact pg (go_offline id a b c d db)
        go none e = rw (e, go_offline) h
        go (some m) e =
            rw (e, go_offline)
              (with_event _ (record { machine_id = id; online = false; occurred_at = d })
                (Grows-update_rows (is_current id a) (went_offline b c) db.machines (λ r. refl) id
                  (find_row-is_machine id (is_current id a) db.machines (λ r q. ground arith) e))
                (updated db (is_current id a) (went_offline b c) (λ r. refl) (λ r k. k) h))

  pub put_sample-IsIntact :
      (s : Sample) (n machine percent : ℕ) (db : Database)
      → IsBounded (new_row pg s n machine percent)
      → is_machine db.machines machine ≡ true
      → IsIntact pg db
      → IsIntact pg (put_sample pg s n db machine percent)
  put_sample-IsIntact s n machine percent db fits known h =
      let new = new_row pg s n machine percent in
      record {
        machines_fit = h.machines_fit;
        samples_fit =
            All-upsert _ new IsBounded db.telemetry_samples fits (λ r k. fits) h.samples_fit;
        machine_ids = h.machine_ids;
        keys = UniqueKeys-upsert _ new db.telemetry_samples h.keys;
        agents = h.agents;
        identities_belong = h.identities_belong;
        events_belong = h.events_belong;
        samples_belong = All-upsert _ new _ db.telemetry_samples known (λ r k. k) h.samples_belong;
      }

  pub enrolled-IsIntact :
      (input : StoredEnrollment) (n : ℕ) (db : Database)
      → IsDescribed pg (new_machine pg input n)
      → machine_of (new_machine pg input n).id db ≡ none
      → find_row
          (λ i.
            i.id == (new_identity pg input n).id
            || i.agent_id == (new_identity pg input n).agent_id)
          db.agent_identities
        ≡ none
      → IsIntact pg db
      → IsIntact pg (enrolled_tables pg input n db)
  unfolding find_row
  enrolled-IsIntact input n db fits fresh unused h =
      let machine = new_machine pg input n in
      let grown =
        with_machines db (machine ∷ db.machines) (Grows-insert machine db.machines)
          (fits, h.machines_fit) (fresh, h.machine_ids) h in
      record {
        machines_fit = grown.machines_fit;
        samples_fit = grown.samples_fit;
        machine_ids = grown.machine_ids;
        keys = grown.keys;
        agents = (
          find_row-none _ _ db.agent_identities (λ i q. ground (arith, q)) unused,
          find_row-none _ _ db.agent_identities (λ i q. ground (arith, q)) unused,
          no_identity db.machines machine.id db.agent_identities (ground (arith, fresh))
              h.identities_belong,
          h.agents,
        );
        identities_belong = (ground arith, grown.identities_belong);
        events_belong = grown.events_belong;
        samples_belong = grown.samples_belong;
      }
