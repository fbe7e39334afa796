-- ===== src/Backend/Sharing/Offline.antt =====
-- The machine after its stream, when the others leave its connection alone.
use arxveil.Prelude.{
  ℕ, suc, ◌≡◌, sym, ap, subst, ◌∙◌, Bool, Option, some, List, [], ◌∷◌, All, nat_eq, eq_refl,
}
use arxveil.Go.Text.{Bytes}
use arxveil.Go.Fault.{Result, ok}
use arxveil.Go.Reader.{Reader}
use arxveil.Presence.{Credentials, Session}
use arxveil.Presence
use arxveil.Postgres.{Server, World}
use arxveil.Postgres.PresenceStore.{start_session, end_session, presence_store}
use arxveil.Postgres.PresenceStore.Stale.{ReadsTimes}
use arxveil.Backend.Sharing.{Shared, sharing_tracker, sharing_recorder}
use arxveil.Backend.Sharing.Ended.{connected_current, open_session-IsConsistent}
use arxveil.Postgres.PresenceStore.Effects.{
  ReadsUuids, go_online, started_tables, start_session-ok, start_session_found,
}
use arxveil.Presence.Authentication.{open_session_starts}
use arxveil.AgentGrpc.Messages.{Timestamps, Authenticate, AgentMessage, get_authenticate}
use arxveil.AgentGrpc.Stream.{Received, message, stream_updates}
use arxveil.AgentGrpc.Stream.Contract.{stream_updates-Ended}
use arxveil.Postgres.PresenceStore.Progress.{NoOutage, end_session_disconnects}
use arxveil.Postgres.PresenceStore.Consistency.{IsConsistent}
use arxveil.Postgres.History.{Call, touches, step, run}
use arxveil.Postgres.History.Invariant.{run-IsConsistent_from}
use arxveil.Postgres.History.Connections.{view, connection, disconnected, connected}
use arxveil.Postgres.History.Connections.Views.{view-go_online}
use arxveil.Backend.Sharing.Foreign.{
  Standing, sharing-Standing, record_telemetry-Connected, Foreign, Connected, step-Connected,
  run-Connected,
}

module _ (pg : Server) (is_uuid : Bytes → Bool) (up : NoOutage pg) (reads : ReadsUuids pg)
    (times_read : ReadsTimes pg) (session : Session) {id : ℕ}
    (parsed : pg.parse_uuid session.machine_id ≡ some id) where
  abbrev since : ℕ
  since = pg.encode_time session.connected_at

  abbrev Offline : Shared → Type 0
  Offline ((w, r), later) = view w.committed id ≡ disconnected

  close_offline :
      (w : World)
      → Connected pg id since w
      → view (end_session pg session w).1.committed id ≡ disconnected
  close_offline w (h, k) =
      let (m, found, current) = connected_current id since w.committed k in
      ap connection (end_session_disconnects pg up reads session w parsed found current).1

  close-Offline :
      (s : Shared)
      → Standing pg id since s
      → Offline ((sharing_tracker pg is_uuid).close_session session s).1
  unfolding Presence.close_session
  close-Offline ((w, r), []) (h, f) = close_offline w h
  close-Offline ((w, r), calls ∷ later) (h, f) =
      close_offline (run pg w calls) (run-Connected pg reads id since w calls f.0 h)

  activity-Connected :
      (w : World)
      → Connected pg id since w
      → Connected pg id since (Presence.record_activity (presence_store pg) session w).1
  unfolding Presence.record_activity step
  activity-Connected w h = step-Connected pg reads id since w (touches session) tt h

  -- A session that starts connects its machine since the session's time.
  start-connected :
      (w : World)
      → (start_session pg session.machine_id w).0 ≡ ok session.connected_at
      → view (start_session pg session.machine_id w).1.committed id ≡ connected since
  start-connected w started =
      let (tables, time) = start_session-ok pg session.machine_id w session.connected_at started in
      let (m, found) =
        start_session_found pg session.machine_id w session.connected_at started parsed in
      let moved : (start_session pg session.machine_id w).1.committed
          ≡ go_online id (pg.now (suc (suc w.event))) (pg.now (suc (suc (suc w.event))))
              (pg.now (suc (suc (suc (suc w.event))))) (pg.now (suc w.event)) w.committed =
        tables ∙ rw (parsed, started_tables) in
      ap (λ db. view db id) moved
      ∙ view-go_online id w.committed _ _ _ _ found id
      ∙ rw (eq_refl id) (ap connected (sym (ap pg.encode_time time ∙ times_read _)))

  open_session-Connected :
      (c : Credentials) (w : World)
      → IsConsistent w.committed
      → (Presence.open_session is_uuid (presence_store pg) c w).0 ≡ ok session
      → Connected pg id since (Presence.open_session is_uuid (presence_store pg) c w).1
  open_session-Connected c w h opened =
      let (between, started, state) = open_session_starts is_uuid (presence_store pg) c w opened in
      (
        open_session-IsConsistent pg is_uuid reads c w h,
        ap (λ (u : World). view u.committed id) state ∙ start-connected between started,
      )

  open-Stands :
      (c : Credentials) (w : World) (r : Reader) (later : List (List Call))
      → IsConsistent w.committed
      → All (All (Foreign pg id)) later
      → ((sharing_tracker pg is_uuid).open_session c ((w, r), later)).0 ≡ ok session
      → Standing pg id since ((sharing_tracker pg is_uuid).open_session c ((w, r), later)).1
  open-Stands c w r [] h f opened = (open_session-Connected c w h opened, tt)
  open-Stands c w r (calls ∷ later) h f opened = (
    open_session-Connected c (run pg w calls) (run-IsConsistent_from pg reads w calls h) opened,
    f.1,
  )

  -- Suppose that no request fails, that the driver reads back the UUIDs and times that it gives
  -- out, and that the tables are consistent. When a stream's first message opens a session, and the
  -- calls that others make before each of its calls neither start nor end a session of its machine,
  -- the machine is disconnected after the stream, on every path.
  pub ended_stream_disconnects :
      (times : Timestamps) (reply : Result (Unit {0})) (m : Option AgentMessage)
      (rest : List Received) (a : Authenticate) (w : World) (r : Reader) (others : List (List Call))
      (s : Shared)
      → IsConsistent w.committed
      → All (All (Foreign pg id)) others
      → get_authenticate m ≡ some a
      → (sharing_tracker pg is_uuid).open_session
          (record { agent_id = a.agent_id; secret = a.agent_secret })
          ((w, r), others)
        ≡ (ok session, s)
      → view
          (stream_updates
            (sharing_tracker pg is_uuid)
            (sharing_recorder pg is_uuid)
            times
            reply
            (message m ∷ rest)
            ((w, r), others)).1.0.0.committed
          id
        ≡ disconnected
  ended_stream_disconnects times reply m rest a w r others s h foreign first opens =
      stream_updates-Ended (sharing_tracker pg is_uuid) (sharing_recorder pg is_uuid) times reply
        session (Standing pg id since) Offline
        (sharing-Standing pg reads id since _ (λ w r. activity-Connected w))
        (λ sample.
          sharing-Standing pg reads id since _
            (λ w r. record_telemetry-Connected pg reads id since sample w))
        close-Offline m rest a ((w, r), others) s first opens
        (subst (λ (p : Result Session × Shared). Standing pg id since p.1) opens
          (open-Stands _ w r others h foreign (ap (λ (p : Result Session × Shared). p.0) opens)))
