-- ===== src/Postgres/PresenceStore/Stale.antt =====
-- A session after a newer one has replaced it.
use mathlib.Core.Option.{some-injective}
use arxveil.Prelude.{
  ℕ, suc, ◌≡◌, ◌≢◌, refl, sym, ap, ◌∙◌, ◌⊎◌, inl, inr, false, some, nat_eq, option_eq, ne→false,
  eq_refl, arith,
}
use arxveil.Go.Fault.{ok}
use arxveil.Go.Time.{Time}
use arxveil.Presence.{Session}
use arxveil.Postgres.{Server, World}
use arxveil.Postgres.Schema.{Machine, Database, machine_of}
use arxveil.Postgres.Schema.Rows.{
  UniqueIds, update_rows_failing, find_row_failing, UniqueIds-update_rows, find_machine-update_rows,
  find_machine-id,
}
use arxveil.Postgres.PresenceStore.{start_session, touch_session, end_session}
use arxveil.Postgres.PresenceStore.Effects.{
  has_connection, is_current, was_seen, see_again, go_offline, go_online, has_id, came_online,
  started_tables, start_session-ok, touched_tables, ended_tables, touch_session-effect,
  end_session-effect, ReadsUuids,
}

module _ (id since : ℕ) (db : Database) {m : Machine} (u : UniqueIds db.machines)
    (found : machine_of id db ≡ some m) (replaced : m.last_connected_at ≢ some since) where
  not_connected : has_connection id since m ≡ false
  not_connected = ground (arith, ne→false m.last_connected_at (some since) replaced)

  see_again_stale : (a b : ℕ) → see_again id since a b db ≡ db
  unfolding see_again
  see_again_stale a b = rw (
      update_rows_failing id (has_connection id since) (λ r h. ground arith) (was_seen a b)
        db.machines u found not_connected)

  go_offline_stale : (a b c : ℕ) → go_offline id since a b c db ≡ db
  unfolding go_offline
  go_offline_stale a b c = rw (
    find_row_failing id (is_current id since) (λ r h. ground arith) db.machines u found
        (ground (arith, not_connected)),
    go_offline,
  )

same_either : {A : Type 0} {x y z : A} → (x ≡ y) ⊎ (x ≡ z) → z ≡ y → x ≡ y
same_either (inl e) h = e
same_either (inr e) h = e ∙ h

-- Suppose the driver reads back the UUIDs that it writes, and machine IDs are unique. When the last
-- connection of a session's machine was made at another time than the session's, neither a
-- heartbeat nor the end of the session changes the committed tables, whatever their requests meet.
pub stale_session_changes_nothing :
    (pg : Server) (s : Session) (w : World) (id : ℕ) (m : Machine)
    → ReadsUuids pg
    → UniqueIds w.committed.machines
    → pg.parse_uuid s.machine_id ≡ some id
    → machine_of id w.committed ≡ some m
    → m.last_connected_at ≢ some (pg.encode_time s.connected_at)
    → ((touch_session pg s w).1.committed ≡ w.committed)
      × ((end_session pg s w).1.committed ≡ w.committed)
stale_session_changes_nothing pg s w id m reads u parsed found replaced = (
  same_either (touch_session-effect pg s w) (
      rw (parsed, touched_tables)
        (see_again_stale id (pg.encode_time s.connected_at) w.committed u found replaced _ _)),
  same_either (end_session-effect pg s w reads) (
      rw (parsed, ended_tables)
        (go_offline_stale id (pg.encode_time s.connected_at) w.committed u found replaced _ _ _)),
)

-- The server reads back the times that it gives out.
abbrev pub ReadsTimes : Server → Type 0
ReadsTimes pg = (t : ℕ) → pg.encode_time (pg.decode_time t) ≡ t

-- Suppose the driver reads back the UUIDs and times that it gives out, and machine IDs are unique.
-- When the machine of a session has connected anew, at a time that is stored differently from the
-- session's, then neither a heartbeat nor the end of the old session changes the committed tables,
-- whatever their requests meet.
pub replaced_session_changes_nothing :
    (pg : Server) (w : World) (id : ℕ) (m : Machine) (t : Time) (old : Session)
    → ReadsUuids pg
    → ReadsTimes pg
    → UniqueIds w.committed.machines
    → pg.parse_uuid old.machine_id ≡ some id
    → machine_of id w.committed ≡ some m
    → (start_session pg old.machine_id w).0 ≡ ok t
    → pg.encode_time old.connected_at ≢ pg.encode_time t
    → let w' = (start_session pg old.machine_id w).1 in
      ((touch_session pg old w').1.committed ≡ w'.committed)
      × ((end_session pg old w').1.committed ≡ w'.committed)
unfolding go_online
replaced_session_changes_nothing pg w id m t old reads times u parsed found started other =
    let (tables, time) = start_session-ok pg old.machine_id w t started in
    let connected = pg.now (suc (suc w.event)) in
    let seen = pg.now (suc (suc (suc w.event))) in
    let updated = pg.now (suc (suc (suc (suc w.event)))) in
    stale_session_changes_nothing pg old (start_session pg old.machine_id w).1 id
      (came_online connected seen updated m) reads
      (rw (tables, started_tables, parsed, go_online, found)
        (UniqueIds-update_rows (has_id id) (came_online connected seen updated) (λ r. refl)
          w.committed.machines u))
      parsed
      (rw (tables, started_tables, parsed, go_online, found)
        (rw (
          find_machine-update_rows (has_id id) (came_online connected seen updated) (λ r. refl) id
              w.committed.machines,
          found,
          find_machine-id id w.committed.machines found,
          eq_refl id,
        )))
      (λ e. other (sym (ap pg.encode_time time ∙ times connected ∙ some-injective _ _ e)))
