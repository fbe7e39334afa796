-- ===== src/Postgres/PresenceStore/Progress.antt =====
-- The presence store without failures.
use arxveil.Prelude.{ℕ, suc, ◌≡◌, refl, true, none, some, nat_eq, option_eq, ◌==◌, eq_refl, arith}
use arxveil.Go.Text.{Bytes}
use arxveil.Go.Fault.{ok}
use arxveil.Presence.{Session}
use arxveil.Postgres.{Server, World, begin, commit}
use arxveil.Postgres.Schema.{Machine, find_row, update_rows, machine_of}
use arxveil.Postgres.Schema.Rows.{find_row_passing, find_machine-update_rows, find_machine-id}
use arxveil.Postgres.Statements.{mark_online, insert_presence_event, mark_offline}
use arxveil.Postgres.PresenceStore.{start_session, end_session}
use arxveil.Postgres.PresenceStore.Effects.{
  has_id, is_current, came_online, went_offline, go_online, started_tables, ReadsUuids,
  start_session-ok,
}

-- Every request is carried out and answered.
abbrev pub NoOutage : Server → Type 0
NoOutage pg = (n : ℕ) → pg.outage n ≡ none

module _ (pg : Server) (up : NoOutage pg) (machine_id : Bytes) (w : World) {id : ℕ} {m : Machine}
    (parsed : pg.parse_uuid machine_id ≡ some id) (found : machine_of id w.committed ≡ some m) where
  still_there :
      (a b c : ℕ)
      → find_row
          (λ r. r.id == id)
          (update_rows (λ r. r.id == id) (came_online a b c) w.committed.machines)
        ≡ some (came_online a b c m)
  still_there a b c = rw (
    find_machine-update_rows (has_id id) (came_online a b c) (λ r. refl) id w.committed.machines,
    found,
    find_machine-id id w.committed.machines found,
    eq_refl id,
  )

  pub start_session_succeeds :
      (start_session pg machine_id w).0 ≡ ok (pg.decode_time (pg.now (suc (suc w.event))))
  unfolding start_session begin commit mark_online insert_presence_event
  start_session_succeeds = ground (
    arith,
    parsed,
    found,
    up w.event,
    up (suc w.event),
    up (suc (suc (suc (suc (suc w.event))))),
    up (suc (suc (suc (suc (suc (suc w.event)))))),
    still_there (pg.now (suc (suc w.event))) (pg.now (suc (suc (suc w.event))))
        (pg.now (suc (suc (suc (suc w.event))))),
  )

  -- Suppose that no request fails and that the machine exists. Then its session starts and carries
  -- the time at which the database has marked it online, and the committed row of the machine is
  -- online, with this time as the one of its last connection.
  pub start_session_connects :
      ((start_session pg machine_id w).0 ≡ ok (pg.decode_time (pg.now (suc (suc w.event)))))
      × (machine_of id (start_session pg machine_id w).1.committed
          ≡ some (
              came_online
                (pg.now (suc (suc w.event)))
                (pg.now (suc (suc (suc w.event))))
                (pg.now (suc (suc (suc (suc w.event)))))
                m))
  unfolding go_online
  start_session_connects = (
    start_session_succeeds,
    rw
        (
          (start_session-ok pg machine_id w _ start_session_succeeds).0,
          started_tables,
          parsed,
          go_online,
          found,
        )
        (still_there _ _ _),
  )

module _ (pg : Server) (up : NoOutage pg) (reads : ReadsUuids pg) (s : Session) (w : World) {id : ℕ}
    {m : Machine} (parsed : pg.parse_uuid s.machine_id ≡ some id)
    (found : machine_of id w.committed ≡ some m)
    (current : is_current id (pg.encode_time s.connected_at) m ≡ true) where
  left :
      (a b : ℕ)
      → find_row
          (λ r. r.id == id)
          (update_rows
            (is_current id (pg.encode_time s.connected_at))
            (went_offline a b)
            w.committed.machines)
        ≡ some (went_offline a b m)
  left a b = rw (
    find_machine-update_rows (is_current id (pg.encode_time s.connected_at)) (went_offline a b)
        (λ r. refl) id w.committed.machines,
    found,
    current,
  )

  -- Suppose that no request fails, that the driver reads back the UUIDs that it writes, and that
  -- the machine of the session exists, is online and was last connected at the session's time. Then
  -- the end of the session succeeds, and the committed row of the machine is offline.
  pub end_session_disconnects :
      ((end_session pg s w).0 ≡ ok tt)
      × (machine_of id (end_session pg s w).1.committed
          ≡ some (went_offline (pg.now (suc (suc w.event))) (pg.now (suc (suc (suc w.event)))) m))
  unfolding end_session begin commit mark_offline insert_presence_event
  end_session_disconnects = ground (
    arith,
    parsed,
    found,
    current,
    reads m.id,
    find_machine-id id w.committed.machines found,
    find_row_passing id (is_current id (pg.encode_time s.connected_at)) (λ r h. ground arith)
        w.committed.machines found current,
    up w.event,
    up (suc w.event),
    up (suc (suc (suc (suc w.event)))),
    up (suc (suc (suc (suc (suc w.event))))),
    left (pg.now (suc (suc w.event))) (pg.now (suc (suc (suc w.event)))),
  )
