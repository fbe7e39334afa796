-- ===== src/Backend/Sharing/Ended.antt =====
-- The connection that a stream leaves behind.
use arxveil.Prelude.{
  ℕ, ◌≡◌, ◌≢◌, refl, sym, ap, subst, ◌∙◌, inl, inr, Bool, true, Option, none, some, List, [], ◌∷◌,
  nat_eq, option_eq, eq_refl, arith,
}
use arxveil.Go.Text.{Bytes}
use arxveil.Go.Fault.{Result, ok}
use arxveil.Go.Reader.{Reader}
use arxveil.Presence.{Credentials, Session}
use arxveil.Presence
use arxveil.Presence.Authentication.{open_session_keeps}
use arxveil.Postgres.PresenceStore.{presence_store}
use arxveil.Telemetry.{Sample, record_telemetry}
use arxveil.Telemetry.Validity.{record_telemetry_lem}
use arxveil.Postgres.TelemetryStore.{telemetry_store}
use arxveil.Postgres.{Server, World}
use arxveil.Postgres.Schema.{Machine, Database, find_row, machine_of}
use arxveil.Postgres.Schema.Rows.{UniqueIds, find_row_unique, find_row_passing, find_machine-id}
use arxveil.Postgres.PresenceStore.{end_session}
use arxveil.Postgres.PresenceStore.Effects.{
  ReadsUuids, is_current, end_session-effect, ended_tables, go_offline,
}
use arxveil.Postgres.PresenceStore.Progress.{NoOutage, end_session_disconnects}
use arxveil.Postgres.PresenceStore.Consistency.{IsConsistent}
use arxveil.Postgres.History.{Call, finds, starts, touches, records, step, run}
use arxveil.Postgres.History.Invariant.{step-IsConsistent, run-IsConsistent_from}
use arxveil.Postgres.History.Connections.{connected, connection, view}
use arxveil.AgentGrpc.Messages.{Timestamps, Authenticate, AgentMessage, get_authenticate}
use arxveil.AgentGrpc.Stream.{Received, message, stream_updates}
use arxveil.AgentGrpc.Stream.Contract.{stream_updates-Ended}
use arxveil.Backend.Sharing.{Shared, sharing_tracker, sharing_recorder}

-- A machine with this connection passes the guard of `EndSession`.
pub connected_current :
    (id since : ℕ) (db : Database)
    → view db id ≡ connected since
    → (m : Machine) × (machine_of id db ≡ some m) × (is_current id since m ≡ true)
connected_current id since db h = go (machine_of id db) refl
  where
    since_of :
        (m : Machine) (o : Option ℕ)
        → machine_of id db ≡ some m
        → m.last_connected_at ≡ o
        → (m : Machine) × (machine_of id db ≡ some m) × (is_current id since m ≡ true)
    since_of m none q e = absurd (ground (arith, h, q, e))
    since_of m (some t) q e =
        (m, q, ground (arith, h, q, e, find_machine-id id db.machines q, eq_refl id))

    go :
        (o : Option Machine)
        → machine_of id db ≡ o
        → (m : Machine) × (machine_of id db ≡ some m) × (is_current id since m ≡ true)
    go none q = absurd (ground (arith, h, q))
    go (some m) q = since_of m m.last_connected_at q refl

module _ (pg : Server) (up : NoOutage pg) (reads : ReadsUuids pg) (session : Session) {id : ℕ}
    (parsed : pg.parse_uuid session.machine_id ≡ some id) where
  abbrev since : ℕ
  since = pg.encode_time session.connected_at

  end_session_leaves :
      (w : World)
      → UniqueIds w.committed.machines
      → view (end_session pg session w).1.committed id ≢ connected since
  unfolding go_offline
  end_session_leaves w u = go (find_row (is_current id since) w.committed.machines) refl
    where
      implies : (m : Machine) → is_current id since m ≡ true → m.id ≡ id
      implies m q = ground arith

      go :
          (o : Option Machine)
          → find_row (is_current id since) w.committed.machines ≡ o
          → view (end_session pg session w).1.committed id ≢ connected since
      go none q stays =
          let same : (end_session pg session w).1.committed ≡ w.committed =
            elim (end_session-effect pg session w reads) [
              | inl e ↦ e
              | inr e ↦ e ∙ rw (parsed, q, ended_tables, go_offline)
            ] in
          let (m, found, current) =
            connected_current id since w.committed (sym (ap (λ db. view db id) same) ∙ stays) in
          cc (
            q,
            find_row_passing id (is_current id since) implies w.committed.machines found current,
          )
      go (some m) q stays =
          let (found, current) =
            find_row_unique id (is_current id since) w.committed.machines implies u q in
          cc (
            stays,
            ap connection (end_session_disconnects pg up reads session w parsed found current).1,
          )

  -- What a stream keeps: the tables are consistent.
  abbrev Sound : Shared → Type 0
  Sound ((w, r), later) = IsConsistent w.committed

  abbrev LeftBehind : Shared → Type 0
  LeftBehind ((w, r), later) = view w.committed id ≢ connected since

module _ (pg : Server) (is_uuid : Bytes → Bool) (reads : ReadsUuids pg) where
  abbrev KeepsSound : {A : Type 0} → (Shared → Result A × Shared) → Type 0
  KeepsSound m =
      (w : World) (r : Reader) (later : List (List Call))
      → IsConsistent w.committed
      → IsConsistent (m ((w, r), later)).1.0.0.committed

  others-IsConsistent :
      (w : World) (calls : List Call)
      → IsConsistent w.committed
      → IsConsistent (run pg w calls).committed
  others-IsConsistent = run-IsConsistent_from pg reads

  record_activity-KeepsSound :
      (session : Session) → KeepsSound ((sharing_tracker pg is_uuid).record_activity session)
  unfolding Presence.record_activity step
  record_activity-KeepsSound session w r [] h = step-IsConsistent pg reads w (touches session) h
  record_activity-KeepsSound session w r (calls ∷ later) h =
      step-IsConsistent pg reads (run pg w calls) (touches session) (others-IsConsistent w calls h)

  record_telemetry-IsConsistent :
      (sample : Sample) (w : World)
      → IsConsistent w.committed
      → IsConsistent (record_telemetry (telemetry_store pg) sample w).1.committed
  unfolding step
  record_telemetry-IsConsistent sample w h =
      elim (record_telemetry_lem (telemetry_store pg) sample w) [
        | inl (valid, e) ↦
            subst (λ (p : Result (Unit {0}) × World). IsConsistent p.1.committed) (sym e)
              (step-IsConsistent pg reads w (records sample) h)
        | inr (invalid, (f, e, _)) ↦
            subst (λ (p : Result (Unit {0}) × World). IsConsistent p.1.committed) (sym e) h
      ]

  record_sample-KeepsSound :
      (sample : Sample) → KeepsSound ((sharing_recorder pg is_uuid).record_sample sample)
  record_sample-KeepsSound sample w r [] h = record_telemetry-IsConsistent sample w h
  record_sample-KeepsSound sample w r (calls ∷ later) h =
      record_telemetry-IsConsistent sample (run pg w calls) (others-IsConsistent w calls h)

  pub open_session-IsConsistent :
      (c : Credentials) (w : World)
      → IsConsistent w.committed
      → IsConsistent (Presence.open_session is_uuid (presence_store pg) c w).1.committed
  unfolding step
  open_session-IsConsistent c w h =
      open_session_keeps is_uuid (presence_store pg) c w (λ (u : World). IsConsistent u.committed)
        (λ u. step-IsConsistent pg reads u (finds c.agent_id))
        (λ machine_id u. step-IsConsistent pg reads u (starts machine_id)) h

  open_session-KeepsSound :
      (c : Credentials) → KeepsSound ((sharing_tracker pg is_uuid).open_session c)
  open_session-KeepsSound c w r [] h = open_session-IsConsistent c w h
  open_session-KeepsSound c w r (calls ∷ later) h =
      open_session-IsConsistent c (run pg w calls) (others-IsConsistent w calls h)

  module _ (up : NoOutage pg) (session : Session) {id : ℕ}
      (parsed : pg.parse_uuid session.machine_id ≡ some id) where
    close_session-LeftBehind :
        (s : Shared)
        → Sound pg up reads session parsed s
        → LeftBehind pg up reads session parsed
            ((sharing_tracker pg is_uuid).close_session session s).1
    unfolding Presence.close_session
    close_session-LeftBehind ((w, r), []) h =
        end_session_leaves pg up reads session parsed w h.unique
    close_session-LeftBehind ((w, r), calls ∷ later) h =
        end_session_leaves pg up reads session parsed (run pg w calls)
          (others-IsConsistent w calls h).unique

    -- Suppose that no request fails, that the driver reads back the UUIDs that it writes, and that
    -- the tables are consistent. A stream whose first message opens a session then leaves its
    -- machine, on every path and whatever calls of the stores others make before each of its calls,
    -- without the connection that the session has made.
    pub ended_stream_leaves_no_connection :
        (times : Timestamps) (reply : Result (Unit {0})) (m : Option AgentMessage)
        (rest : List Received) (a : Authenticate) (w : World) (r : Reader)
        (others : List (List Call)) (s : Shared)
        → IsConsistent w.committed
        → get_authenticate m ≡ some a
        → (sharing_tracker pg is_uuid).open_session
            (record { agent_id = a.agent_id; secret = a.agent_secret })
            ((w, r), others)
          ≡ (ok session, s)
        → view
            (stream_updates
              (sharing_tracker pg is_uuid)
              (sharing_recorder pg is_uuid)
              times
              reply
              (message m ∷ rest)
              ((w, r), others)).1.0.0.committed
            id
          ≢ connected (pg.encode_time session.connected_at)
    ended_stream_leaves_no_connection times reply m rest a w r others s h first opens =
        stream_updates-Ended (sharing_tracker pg is_uuid) (sharing_recorder pg is_uuid) times reply
          session (Sound pg up reads session parsed) (LeftBehind pg up reads session parsed)
          (λ ((u, q), later). record_activity-KeepsSound session u q later)
          (λ sample ((u, q), later). record_sample-KeepsSound sample u q later)
          close_session-LeftBehind m rest a ((w, r), others) s first opens
          (subst (λ (p : Result Session × Shared). IsConsistent p.1.0.0.committed) opens
            (open_session-KeepsSound _ w r others h))
