-- ===== src/Postgres/Statements.antt =====
-- The SQL statements of server/internal/repository/postgres, on the tables that the transaction sees,
-- with the constraints of server/migrations/000001_create_v1_machine_schema.up.sql.
use arxveil.Prelude.{
  ℕ, Bool, true, false, not, ◌&&◌, ◌||◌, Option, none, some, List, [], ◌∷◌, all, reverse, nat_eq,
  option_eq, ◌==◌, leb, if◌then◌else◌,
}
use arxveil.Go.Text.{Bytes}
use arxveil.Go.Fault.{Fault, sentinel, no_rows, other, ok}
use arxveil.Go.Exec.{Exec, ◌>>=◌, ◌>>◌, pure, throw, fail_if}
use arxveil.Go.Time.{Time}
use arxveil.Postgres.{Server, World, clock_timestamp, gen_random_uuid}
use arxveil.Postgres.Schema.{
  Status, online, offline, unknown, is_online, Machine, AgentIdentity, Database, find_row,
  update_rows, machine_of,
}

abbrev pub read_tables : Exec World Database
read_tables w = (ok w.working, w)

abbrev pub write_tables : (Database → Database) → Exec World (Unit {0})
write_tables f w = (ok tt, record w { working = f w.working })

-- `now()`, the time at which the transaction started.
abbrev pub transaction_time : Exec World ℕ
transaction_time w = (ok w.started, w)

abbrev pub or_else : {A : Type 0} → Option A → Fault → Exec World A
or_else none e = throw e
or_else (some a) e = pure a

abbrev pub is_some : {A : Type 0} → Option A → Bool
is_some none = false
is_some (some _) = true

unfoldable pub drop_spaces : Bytes → Bytes
drop_spaces [] = []
drop_spaces (x ∷ xs) = let rest = drop_spaces xs in if x == 32 then rest else x ∷ xs

-- `trim(s)`, which removes spaces only.
abbrev pub trim : Bytes → Bytes
trim s = reverse (drop_spaces (reverse (drop_spaces s)))

abbrev pub machine_exists : ℕ → Database → Bool
machine_exists id db = is_some (machine_of id db)

abbrev pub is_active : AgentIdentity → Bool
is_active i = option_eq.beq i.revoked_at none

module _ (pg : Server) where
  -- The CHECK constraints of `machines`.
  abbrev pub name_fits : Bytes → Bool
  name_fits s =
      pg.accepts_text s && (leb 1 (pg.char_length (trim s)) && leb (pg.char_length (trim s)) 255)

  abbrev pub text_fits : Bytes → Bool
  text_fits s = pg.accepts_text s && leb 1 (pg.char_length (trim s))

  abbrev pub machine_fits : Machine → Bool
  machine_fits m =
      name_fits m.name
      && (name_fits m.hostname
          && (text_fits m.operating_system
              && (text_fits m.os_version
                  && (text_fits m.architecture && text_fits m.agent_version))))

  unfoldable pub insert_machine : Bytes → Bytes → Bytes → Bytes → Bytes → Bytes → Exec World Bytes
  insert_machine name hostname operating_system os_version architecture agent_version = do
    id ← gen_random_uuid pg
    now ← transaction_time
    db ← read_tables
    let row : Machine = record {
      id = id;
      name = name;
      hostname = hostname;
      operating_system = operating_system;
      os_version = os_version;
      architecture = architecture;
      agent_version = agent_version;
      status = unknown;
      registered_at = now;
      last_seen_at = none;
      last_connected_at = none;
      last_disconnected_at = none;
      updated_at = now;
    }
    fail_if (not (machine_fits row)) (other "machines: check violation")
    fail_if (machine_exists id db) (other "machines: duplicate key")
    write_tables (λ d. record d { machines = row ∷ d.machines })
    pure (pg.show_uuid id)

  unfoldable pub insert_agent_identity : Bytes → Bytes → List Bytes → Exec World Bytes
  insert_agent_identity machine_id credential_hash capabilities = do
    machine ← or_else (pg.parse_uuid machine_id) (other "invalid UUID")
    id ← gen_random_uuid pg
    agent_id ← gen_random_uuid pg
    now ← transaction_time
    db ← read_tables
    fail_if (not (all pg.accepts_text capabilities)) (other "invalid JSON text")
    fail_if (not (machine_exists machine db)) (other "agent_identities: no such machine")
    fail_if (is_some (find_row (λ i. i.id == id || i.agent_id == agent_id) db.agent_identities))
        (other "agent_identities: duplicate key")
    fail_if (is_some (find_row (λ i. i.machine_id == machine && is_active i) db.agent_identities))
        (other "agent_identities: the machine has an active identity")
    write_tables λ d. record d {
      agent_identities =
          record {
            id = id;
            machine_id = machine;
            agent_id = agent_id;
            credential_hash = credential_hash;
            capabilities = capabilities;
            created_at = now;
            revoked_at = none;
          }
          ∷ d.agent_identities;
    }
    pure (pg.show_uuid agent_id)

  -- The identity with this agent ID that has not been revoked.
  unfoldable pub select_active_identity : Bytes → Exec World AgentIdentity
  select_active_identity agent_id = do
    agent ← or_else (pg.parse_uuid agent_id) (other "invalid UUID")
    db ← read_tables
    or_else (find_row (λ i. i.agent_id == agent && is_active i) db.agent_identities)
        (sentinel no_rows)

  abbrev pub connect : ℕ → ℕ → ℕ → Machine → Machine
  connect connected seen updated m = record m {
    status = online;
    last_connected_at = some connected;
    last_seen_at = some seen;
    updated_at = updated;
  }

  -- The new connection time, and the status before the update.
  unfoldable pub mark_online : Bytes → Exec World (Time × Status)
  mark_online machine_id = do
    id ← or_else (pg.parse_uuid machine_id) (other "invalid UUID")
    db ← read_tables
    machine ← or_else (machine_of id db) (sentinel no_rows)
    connected ← clock_timestamp pg
    seen ← clock_timestamp pg
    updated ← clock_timestamp pg
    write_tables λ d. record d {
      machines = update_rows (λ m. m.id == id) (connect connected seen updated) d.machines;
    }
    pure (pg.decode_time connected, machine.status)

  unfoldable pub insert_presence_event : Bytes → Bool → Exec World (Unit {0})
  insert_presence_event machine_id is_up = do
    id ← or_else (pg.parse_uuid machine_id) (other "invalid UUID")
    now ← transaction_time
    db ← read_tables
    fail_if (not (machine_exists id db)) (other "machine_presence_events: no such machine")
    write_tables λ d. record d {
      machine_presence_events =
          record { machine_id = id; online = is_up; occurred_at = now } ∷ d.machine_presence_events;
    }

  -- The machine's connection is the one that was made at this time.
  abbrev pub connected_since : ℕ → ℕ → Machine → Bool
  connected_since id at m = m.id == id && option_eq.beq m.last_connected_at (some at)

  abbrev pub see : ℕ → ℕ → Machine → Machine
  see seen updated m = record m { last_seen_at = some seen; updated_at = updated }

  unfoldable pub touch_machine : Bytes → Time → Exec World (Unit {0})
  touch_machine machine_id connected_at = do
    id ← or_else (pg.parse_uuid machine_id) (other "invalid UUID")
    seen ← clock_timestamp pg
    updated ← clock_timestamp pg
    write_tables λ d. record d {
      machines =
          update_rows (connected_since id (pg.encode_time connected_at)) (see seen updated)
            d.machines;
    }

  abbrev pub disconnect : ℕ → ℕ → Machine → Machine
  disconnect at updated m = record m {
    status = offline;
    last_disconnected_at = some at;
    updated_at = updated;
  }

  unfoldable pub mark_offline : Bytes → Time → Exec World Bytes
  mark_offline machine_id connected_at = do
    id ← or_else (pg.parse_uuid machine_id) (other "invalid UUID")
    db ← read_tables
    let matches =
        λ (m : Machine). connected_since id (pg.encode_time connected_at) m && is_online m.status
    machine ← or_else (find_row matches db.machines) (sentinel no_rows)
    at ← clock_timestamp pg
    updated ← clock_timestamp pg
    write_tables λ d. record d { machines = update_rows matches (disconnect at updated) d.machines }
    pure (pg.show_uuid machine.id)
