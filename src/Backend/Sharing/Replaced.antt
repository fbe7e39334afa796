-- ===== src/Backend/Sharing/Replaced.antt =====
-- The rest of a stream whose machine has connected anew.
use arxveil.Prelude.{ℕ, ◌≡◌, ◌≢◌, sym, ap, ◌∙◌, Bool, List, All, nat_eq}
use arxveil.Go.Text.{Bytes}
use arxveil.Go.Fault.{Result}
use arxveil.Go.Reader.{Reader}
use arxveil.Presence.{Session}
use arxveil.Presence
use arxveil.Postgres.{Server, World}
use arxveil.Postgres.PresenceStore.Effects.{ReadsUuids}
use arxveil.Postgres.PresenceStore.Consistency.{IsConsistent}
use arxveil.Postgres.History.{Call, ends, touches, step}
use arxveil.Postgres.History.Invariant.{step-IsConsistent}
use arxveil.Postgres.History.Connections.{
  View, view, disconnected, connected, Does, nothing, disconnects,
}
use arxveil.Postgres.History.Connections.Refinement.{step-Does}
use arxveil.AgentGrpc.Messages.{Timestamps}
use arxveil.AgentGrpc.Stream.{Received, serve_session}
use arxveil.AgentGrpc.Stream.Contract.{serve_session-Ended}
use arxveil.Postgres.PresenceStore.{presence_store}
use arxveil.Backend.Sharing.{sharing_tracker, sharing_recorder}
use arxveil.Backend.Sharing.Foreign.{
  Foreign, Connected, Standing, sharing-Standing, step-Connected, record_telemetry-Connected,
  elsewhere,
}

connected-injective : {a b : ℕ} → connected a ≡ connected b → a ≡ b
connected-injective q = cc q

-- The end of a session does nothing to a connection that another session began.
Does-replaced :
    (pg : Server) (id : ℕ) {v u : View} {session : Session} {t : ℕ}
    → Does pg v u (ends session)
    → t ≢ pg.encode_time session.connected_at
    → v id ≡ connected t
    → u id ≡ connected t
Does-replaced pg id (nothing e) n h = e id ∙ h
Does-replaced pg id {v} {u} (disconnects j parsed known e) n h =
    elsewhere pg id v u j disconnected
      (λ same. n (connected-injective (sym h ∙ ap v (sym same) ∙ known))) e
    ∙ h

module _ (pg : Server) (is_uuid : Bytes → Bool) (reads : ReadsUuids pg) (session : Session)
    (id t : ℕ) (newer : t ≢ pg.encode_time session.connected_at) where
  close-Connected :
      (w : World)
      → Connected pg id t w
      → Connected pg id t (Presence.close_session (presence_store pg) session w).1
  unfolding Presence.close_session step
  close-Connected w (h, k) = (
    step-IsConsistent pg reads w (ends session) h,
    Does-replaced pg id (step-Does pg reads w (ends session) h.unique) newer k,
  )

  activity-Connected :
      (w : World)
      → Connected pg id t w
      → Connected pg id t (Presence.record_activity (presence_store pg) session w).1
  unfolding Presence.record_activity step
  activity-Connected w h = step-Connected pg reads id t w (touches session) tt h

  -- Suppose that the driver reads back the UUIDs that it writes, that the tables are consistent,
  -- and that a machine is connected since another time than that of a session. The rest of the
  -- session's stream then leaves the machine connected since that time, on every path, whatever
  -- requests fail, as long as the calls that others make before each of its calls neither start nor
  -- end a session of the machine.
  pub replaced_stream_keeps_connection :
      (times : Timestamps) (reply : Result (Unit {0})) (rest : List Received) (w : World)
      (r : Reader) (others : List (List Call))
      → IsConsistent w.committed
      → view w.committed id ≡ connected t
      → All (All (Foreign pg id)) others
      → view
          (serve_session
            (sharing_tracker pg is_uuid)
            (sharing_recorder pg is_uuid)
            times
            reply
            session
            rest
            ((w, r), others)).1.0.0.committed
          id
        ≡ connected t
  replaced_stream_keeps_connection times reply rest w r others h k foreign =
      let Stands = Standing pg id t in
      (serve_session-Ended (sharing_tracker pg is_uuid) (sharing_recorder pg is_uuid) times reply
        session Stands Stands (sharing-Standing pg reads id t _ (λ w r. activity-Connected w))
        (λ sample.
          sharing-Standing pg reads id t _
            (λ w r. record_telemetry-Connected pg reads id t sample w))
        (sharing-Standing pg reads id t _ (λ w r. close-Connected w)) rest ((w, r), others)
        ((h, k), foreign)).0.1
