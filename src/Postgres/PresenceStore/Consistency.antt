-- ===== src/Postgres/PresenceStore/Consistency.antt =====
-- The status of a machine and its presence events tell one story: the events of each machine alternate
-- between online and offline, and the machine is online exactly when its last event says so.
use arxveil.Prelude.{
  ℕ, ◌≡◌, refl, Bool, true, false, not, Option, none, some, List, [], ◌∷◌, nat_eq, option_eq, ◌==◌,
  if◌then◌else◌, arith,
}
use arxveil.Postgres.Schema.{
  is_online, Machine, PresenceEvent, Database, find_row, update_rows, machine_of,
}
use arxveil.Postgres.Schema.Rows.{
  find_machine, UniqueIds, find_machine-update_rows, UniqueIds-update_rows, find_row_unique,
  find_machine-id,
}
use arxveil.Postgres.PresenceStore.Effects.{
  go_online, see_again, go_offline, has_id, has_connection, is_current, came_online, was_seen,
  went_offline,
}

abbrev pub online_row : Option Machine → Bool
online_row none = false
online_row (some m) = is_online m.status

-- The machine exists and is online.
abbrev pub is_up : ℕ → List Machine → Bool
is_up id rows = online_row (find_machine id rows)

-- What the newest event of a machine says; false if it has none.
unfoldable pub last_event : ℕ → List PresenceEvent → Bool
last_event id [] = false
last_event id (e ∷ es) = if e.machine_id == id then e.online else last_event id es

abbrev pub Alternates : List PresenceEvent → Type 0
Alternates [] = Unit
Alternates (e ∷ es) = (e.online ≡ not (last_event e.machine_id es)) × Alternates es

pub record IsConsistent (db : Database) : Type 0 where
  pub unique : UniqueIds db.machines
  pub agrees : (id : ℕ) → is_up id db.machines ≡ last_event id db.machine_presence_events
  pub alternates : Alternates db.machine_presence_events

-- Who is up after an update of rows.
module _ (p : Machine → Bool) (f : Machine → Machine) (keeps_id : (m : Machine) → (f m).id ≡ m.id)
    (j : ℕ) (rows : List Machine) where
  is_up-update_rows-none : find_machine j rows ≡ none → is_up j (update_rows p f rows) ≡ false
  is_up-update_rows-none q = rw (find_machine-update_rows p f keeps_id j rows, q)

  is_up-update_rows-some :
      {r : Machine}
      → find_machine j rows ≡ some r
      → (is_up j (update_rows p f rows)
          ≡ (if p r then is_online (f r).status else is_online r.status))
        × (r.id ≡ j)
  is_up-update_rows-some {r} q = (
    rw (find_machine-update_rows p f keeps_id j rows, q) (ground arith),
    find_machine-id j rows q,
  )

module _ (id a b c d : ℕ) (db : Database) (h : IsConsistent db) where
  pub go_online-IsConsistent : IsConsistent (go_online id a b c d db)
  unfolding go_online last_event
  go_online-IsConsistent = go (machine_of id db) refl
    where
      agree :
          {m : Machine}
          → find_machine id db.machines ≡ some m
          → (j : ℕ) (o : Option Machine) → find_machine j db.machines ≡ o
          → is_up j (update_rows (has_id id) (came_online a b c) db.machines)
            ≡ last_event j (
                if is_online m.status
                then db.machine_presence_events
                else (record { machine_id = id; online = true; occurred_at = d }
                    ∷ db.machine_presence_events))
      agree e j none q = ground (
        arith,
        e,
        q,
        is_up-update_rows-none (has_id id) (came_online a b c) (λ r. refl) j db.machines q,
        h.agrees j,
        h.agrees id,
      )
      agree e j (some r) q = ground (
        arith,
        e,
        q,
        is_up-update_rows-some (has_id id) (came_online a b c) (λ r. refl) j db.machines q,
        h.agrees j,
        h.agrees id,
      )

      go : (o : Option Machine) → machine_of id db ≡ o → IsConsistent (go_online id a b c d db)
      go none e = rw (e, go_online) h
      go (some m) e =
          rw (e, go_online)
            (record {
              unique =
                  UniqueIds-update_rows (has_id id) (came_online a b c) (λ r. refl) db.machines
                    h.unique;
              agrees = λ j. agree e j (find_machine j db.machines) refl;
              alternates = ground (arith, e, h.agrees id, h.alternates);
            })

  pub see_again-IsConsistent : IsConsistent (see_again id a b c db)
  unfolding see_again
  see_again-IsConsistent = record {
    unique =
        UniqueIds-update_rows (has_connection id a) (was_seen b c) (λ r. refl) db.machines h.unique;
    agrees = λ j. agree j (find_machine j db.machines) refl;
    alternates = h.alternates;
  }
    where
      agree :
          (j : ℕ) (o : Option Machine)
          → find_machine j db.machines ≡ o
          → is_up j (see_again id a b c db).machines ≡ last_event j db.machine_presence_events
      agree j none q = ground (
        arith,
        q,
        is_up-update_rows-none (has_connection id a) (was_seen b c) (λ r. refl) j db.machines q,
        h.agrees j,
      )
      agree j (some r) q = ground (
        arith,
        q,
        is_up-update_rows-some (has_connection id a) (was_seen b c) (λ r. refl) j db.machines q,
        h.agrees j,
      )

  pub go_offline-IsConsistent : IsConsistent (go_offline id a b c d db)
  unfolding go_offline last_event
  go_offline-IsConsistent = go (find_row (is_current id a) db.machines) refl
    where
      agree :
          {m : Machine}
          → find_machine id db.machines ≡ some m
          → is_current id a m ≡ true
          → (j : ℕ) (o : Option Machine) → find_machine j db.machines ≡ o
          → is_up j (update_rows (is_current id a) (went_offline b c) db.machines)
            ≡ last_event j (
                record { machine_id = id; online = false; occurred_at = d }
                ∷ db.machine_presence_events)
      agree e t j none q = ground (
        arith,
        e,
        q,
        is_up-update_rows-none (is_current id a) (went_offline b c) (λ r. refl) j db.machines q,
        h.agrees j,
        h.agrees id,
      )
      agree e t j (some r) q = ground (
        arith,
        e,
        t,
        q,
        is_up-update_rows-some (is_current id a) (went_offline b c) (λ r. refl) j db.machines q,
        h.agrees j,
        h.agrees id,
      )

      go :
          (o : Option Machine)
          → find_row (is_current id a) db.machines ≡ o
          → IsConsistent (go_offline id a b c d db)
      go none e = rw (e, go_offline) h
      go (some m) e =
          let (found, current) =
            find_row_unique id (is_current id a) db.machines (λ r q. ground arith) h.unique e in
          rw (e, go_offline)
            (record {
              unique =
                  UniqueIds-update_rows (is_current id a) (went_offline b c) (λ r. refl) db.machines
                    h.unique;
              agrees = λ j. agree found current j (find_machine j db.machines) refl;
              alternates = ground (arith, found, current, h.agrees id, h.alternates);
            })
