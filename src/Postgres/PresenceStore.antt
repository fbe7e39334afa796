-- ===== src/Postgres/PresenceStore.antt =====
-- server/internal/repository/postgres/presence_store.go
pub mod Effects
pub mod Stale
pub mod Progress
pub mod Consistency
use arxveil.Prelude.{Bool, true, false, not, Option, none, some, if◌then◌else◌}
use arxveil.Go.Text.{Bytes}
use arxveil.Go.Fault.{Fault, no_rows, other, is, wrap, Result, ok, err}
use arxveil.Go.Exec.{Exec, ◌>>=◌, ◌>>◌, lift, pure, throw, wrapping}
use arxveil.Go.Time.{Time}
use arxveil.Presence.{Identity, Session, Store}
use arxveil.Postgres.{Server, World, request, begin, commit, autocommit, deferring_rollback}
use arxveil.Postgres.Schema.{Status, is_online, AgentIdentity}
use arxveil.Postgres.Statements.{
  select_active_identity, mark_online, insert_presence_event, touch_machine, mark_offline,
}

-- `Scan` on the one row that is asked for: `pgx.ErrNoRows` is told apart from other errors.
abbrev pub row_of : {A : Type 0} → Result A → Result (Option A)
row_of (ok a) = ok (some a)
row_of (err e) = if is e no_rows then ok none else err e

abbrev pub row : {A : Type 0} → Exec World A → Exec World (Option A)
row m w = let (r, w') = m w in (row_of r, w')

module _ (pg : Server) where
  abbrev pub identity_of : AgentIdentity → Identity
  identity_of i = record {
    machine_id = pg.show_uuid i.machine_id;
    agent_id = pg.show_uuid i.agent_id;
    credential_hash = i.credential_hash;
  }

  abbrev found : Option AgentIdentity → Option Identity
  found none = none
  found (some i) = some (identity_of i)

  unfoldable pub find_active_identity : Bytes → Exec World (Option Identity)
  find_active_identity agent_id = do
    identity ←
        wrapping "query active agent identity"
          (row (autocommit pg (select_active_identity pg agent_id)))
    pure (found identity)

  -- The event that is recorded if the machine was not online before.
  abbrev record_online_event : Bytes → Bool → Exec World (Unit {0})
  record_online_event machine_id true = pure tt
  record_online_event machine_id false =
      wrapping "record machine online event" (request pg (insert_presence_event pg machine_id true))

  abbrev connected : Bytes → Option (Time × Status) → Exec World Time
  connected machine_id none = throw (other "start presence session: machine not found")
  connected machine_id (some (connected_at, previous_status)) = do
    record_online_event machine_id (is_online previous_status)
    wrapping "commit presence session transaction" (commit pg)
    pure connected_at

  unfoldable pub start_session : Bytes → Exec World Time
  start_session machine_id = do
    wrapping "begin presence session transaction" (begin pg)
    deferring_rollback do
      updated ← wrapping "mark machine online" (row (request pg (mark_online pg machine_id)))
      connected machine_id updated

  unfoldable pub touch_session : Session → Exec World (Unit {0})
  touch_session session =
      wrapping "update machine heartbeat"
        (autocommit pg (touch_machine pg session.machine_id session.connected_at))

  abbrev disconnected : Option Bytes → Exec World (Unit {0})
  disconnected none = wrapping "commit unchanged presence session" (commit pg)
  disconnected (some machine_id) = do
    wrapping "record machine offline event" (request pg (insert_presence_event pg machine_id false))
    wrapping "commit end presence session transaction" (commit pg)

  unfoldable pub end_session : Session → Exec World (Unit {0})
  end_session session = do
    wrapping "begin end presence session transaction" (begin pg)
    deferring_rollback do
      updated ←
          wrapping "mark machine offline"
            (row (request pg (mark_offline pg session.machine_id session.connected_at)))
      disconnected updated

  abbrev pub presence_store : Store World
  presence_store = record {
    find_active_identity = find_active_identity;
    start_session = start_session;
    touch_session = touch_session;
    end_session = end_session;
  }
