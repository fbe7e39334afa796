-- ===== src/Postgres/PresenceStore/Effects.antt =====
-- What one call of the presence store does to the committed tables. Every failure, at whatever request
-- it strikes, leaves them unchanged, or has the whole effect (where only the answer to the commit
-- is lost).
use arxveil.Prelude.{
  ℕ, suc, ◌≡◌, refl, ◌⊎◌, Bool, true, false, Option, none, some, List, [], ◌∷◌, nat_eq, option_eq,
  ◌==◌, ◌&&◌, if◌then◌else◌, arith,
}
use arxveil.Go.Text.{Bytes}
use arxveil.Go.Fault.{ok}
use arxveil.Go.Time.{Time}
use arxveil.Presence.{Session}
use arxveil.Postgres.{Server, World, begin, commit, autocommit}
use arxveil.Postgres.Schema.{
  Status, is_online, Machine, Database, find_row, update_rows, machine_of,
}
use arxveil.Postgres.Statements.{mark_online, insert_presence_event, touch_machine, mark_offline}
use arxveil.Postgres.PresenceStore.{start_session, touch_session, end_session}

abbrev pub has_id : ℕ → Machine → Bool
has_id id r = r.id == id

-- The last connection of the machine was made at this time.
abbrev pub has_connection : ℕ → ℕ → Machine → Bool
has_connection id since r = r.id == id && option_eq.beq r.last_connected_at (some since)

abbrev pub is_current : ℕ → ℕ → Machine → Bool
is_current id since r = has_connection id since r && is_online r.status

abbrev pub came_online : ℕ → ℕ → ℕ → Machine → Machine
came_online connected seen updated r = record r {
  status = Status.online;
  last_connected_at = some connected;
  last_seen_at = some seen;
  updated_at = updated;
}

abbrev pub was_seen : ℕ → ℕ → Machine → Machine
was_seen seen updated r = record r { last_seen_at = some seen; updated_at = updated }

abbrev pub went_offline : ℕ → ℕ → Machine → Machine
went_offline at updated r = record r {
  status = Status.offline;
  last_disconnected_at = some at;
  updated_at = updated;
}

-- A machine comes online: its row, and an event unless it was online before.
unfoldable pub go_online : ℕ → ℕ → ℕ → ℕ → ℕ → Database → Database
go_online id connected seen updated at db = elim (machine_of id db) [
  | none ↦ db
  | some m ↦ record db {
    machines = update_rows (has_id id) (came_online connected seen updated) db.machines;
    machine_presence_events =
        if is_online m.status
        then db.machine_presence_events
        else record { machine_id = id; online = true; occurred_at = at }
          ∷ db.machine_presence_events;
  }
]

-- The tables after a session start whose first request has the number `n`.
abbrev pub started_tables : Server → Bytes → ℕ → Database → Database
started_tables pg machine_id n db = elim (pg.parse_uuid machine_id) [
  | none ↦ db
  | some id ↦
      go_online id (pg.now (suc (suc n))) (pg.now (suc (suc (suc n))))
        (pg.now (suc (suc (suc (suc n))))) (pg.now (suc n)) db
]

pub start_session-effect :
    (pg : Server) (machine_id : Bytes) (w : World)
    → let db = (start_session pg machine_id w).1.committed in
      (db ≡ w.committed) ⊎ (db ≡ started_tables pg machine_id w.event w.committed)
unfolding start_session begin commit mark_online insert_presence_event go_online
start_session-effect pg machine_id w = ground arith

-- A session that starts has made its machine online, since the time that it returns.
pub start_session-ok :
    (pg : Server) (machine_id : Bytes) (w : World) (t : Time)
    → (start_session pg machine_id w).0 ≡ ok t
    → ((start_session pg machine_id w).1.committed
        ≡ started_tables pg machine_id w.event w.committed)
      × (t ≡ pg.decode_time (pg.now (suc (suc w.event))))
unfolding start_session begin commit mark_online insert_presence_event go_online
start_session-ok pg machine_id w t e = ground arith

-- Only the session of a machine that exists starts.
pub start_session_found :
    (pg : Server) (machine_id : Bytes) (w : World) (t : Time) {id : ℕ}
    → (start_session pg machine_id w).0 ≡ ok t
    → pg.parse_uuid machine_id ≡ some id
    → (m : Machine) × (machine_of id w.committed ≡ some m)
unfolding start_session begin commit mark_online insert_presence_event
start_session_found pg machine_id w t {id} e p = go (machine_of id w.committed) refl
  where
    go :
        (o : Option Machine)
        → machine_of id w.committed ≡ o
        → (m : Machine) × (machine_of id w.committed ≡ some m)
    go none q = absurd (ground (arith, e, p, q))
    go (some m) q = (m, q)

-- The connection of a session is seen again.
unfoldable pub see_again : ℕ → ℕ → ℕ → ℕ → Database → Database
see_again id since seen updated db = record db {
  machines = update_rows (has_connection id since) (was_seen seen updated) db.machines;
}

abbrev pub touched_tables : Server → Session → ℕ → Database → Database
touched_tables pg s n db = elim (pg.parse_uuid s.machine_id) [
  | none ↦ db
  | some id ↦
      see_again id (pg.encode_time s.connected_at) (pg.now (suc n)) (pg.now (suc (suc n))) db
]

pub touch_session-effect :
    (pg : Server) (s : Session) (w : World)
    → let db = (touch_session pg s w).1.committed in
      (db ≡ w.committed) ⊎ (db ≡ touched_tables pg s w.event w.committed)
unfolding touch_session autocommit touch_machine see_again
touch_session-effect pg s w = ground arith

-- The machine goes offline if the connection is its last one and it is online.
unfoldable pub go_offline : ℕ → ℕ → ℕ → ℕ → ℕ → Database → Database
go_offline id since disconnected updated at db = elim (find_row (is_current id since) db.machines) [
  | none ↦ db
  | some m ↦ record db {
    machines = update_rows (is_current id since) (went_offline disconnected updated) db.machines;
    machine_presence_events =
        record { machine_id = id; online = false; occurred_at = at } ∷ db.machine_presence_events;
  }
]

abbrev pub ended_tables : Server → Session → ℕ → Database → Database
ended_tables pg s n db = elim (pg.parse_uuid s.machine_id) [
  | none ↦ db
  | some id ↦
      go_offline id (pg.encode_time s.connected_at) (pg.now (suc (suc n)))
        (pg.now (suc (suc (suc n)))) (pg.now (suc n)) db
]

abbrev id_or : ℕ → Option Machine → ℕ
id_or d none = d
id_or d (some m) = m.id

found_id :
    (id since : ℕ) (rows : List Machine) → id_or id (find_row (is_current id since) rows) ≡ id
unfolding find_row
found_id id since [] = refl
found_id id since (m ∷ rows) = ground (arith, found_id id since rows)

-- pgx reads back the UUIDs that it writes.
abbrev pub ReadsUuids : Server → Type 0
ReadsUuids pg = (u : ℕ) → pg.parse_uuid (pg.show_uuid u) ≡ some u

pub end_session-effect :
    (pg : Server) (s : Session) (w : World)
    → ReadsUuids pg
    → let db = (end_session pg s w).1.committed in
      (db ≡ w.committed) ⊎ (db ≡ ended_tables pg s w.event w.committed)
unfolding end_session begin commit mark_offline insert_presence_event go_offline
end_session-effect pg s w reads = go (pg.parse_uuid s.machine_id) refl
  where
    go :
        (o : Option ℕ)
        → pg.parse_uuid s.machine_id ≡ o
        → let db = (end_session pg s w).1.committed in
          (db ≡ w.committed) ⊎ (db ≡ ended_tables pg s w.event w.committed)
    go none e = ground (arith, e)
    go (some id) e =
        found (find_row (is_current id (pg.encode_time s.connected_at)) w.committed.machines) refl
      where
        found :
            (o : Option Machine)
            → find_row (is_current id (pg.encode_time s.connected_at)) w.committed.machines ≡ o
            → let db = (end_session pg s w).1.committed in
              (db ≡ w.committed) ⊎ (db ≡ ended_tables pg s w.event w.committed)
        found none q = ground (arith, e, q)
        found (some m) q = ground (
          arith,
          e,
          q,
          reads m.id,
          found_id id (pg.encode_time s.connected_at) w.committed.machines,
        )
