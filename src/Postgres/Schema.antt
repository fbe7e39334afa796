-- ===== src/Postgres/Schema.antt =====
-- The tables of server/migrations/000001_create_v1_machine_schema.up.sql, as far as the server uses
-- them. A table is the list of its rows. The JSONB array of capabilities is the list of its texts.
pub mod Rows
pub mod Integrity
use arxveil.Prelude.{
  ℕ, Bool, true, false, Option, none, some, List, [], ◌∷◌, nat_eq, ◌==◌, if◌then◌else◌, ◌&&◌,
}
use arxveil.Prelude.Int.{ℤ}
use arxveil.Go.Text.{Bytes}

pub data Status : Type 0 where
  online offline degraded unknown : Status

abbrev pub is_online : Status → Bool
is_online online = true
is_online _ = false

pub record Machine : Type 0 where
  pub id : ℕ
  pub name : Bytes
  pub hostname : Bytes
  pub operating_system : Bytes
  pub os_version : Bytes
  pub architecture : Bytes
  pub agent_version : Bytes
  pub status : Status
  pub registered_at : ℕ
  pub last_seen_at : Option ℕ
  pub last_connected_at : Option ℕ
  pub last_disconnected_at : Option ℕ
  pub updated_at : ℕ

pub record AgentIdentity : Type 0 where
  pub id : ℕ
  pub machine_id : ℕ
  pub agent_id : ℕ
  pub credential_hash : Bytes
  pub capabilities : List Bytes
  pub created_at : ℕ
  pub revoked_at : Option ℕ

-- `machine_presence_events`, whose status is 'online' or 'offline'.
pub record PresenceEvent : Type 0 where
  pub machine_id : ℕ
  pub online : Bool
  pub occurred_at : ℕ

pub record TelemetrySample : Type 0 where
  pub machine_id : ℕ
  pub collected_at : ℕ
  pub received_at : ℕ
  pub cpu_usage_percent : ℕ
  pub memory_total_bytes : ℤ
  pub memory_used_bytes : ℤ
  pub disk_total_bytes : ℤ
  pub disk_used_bytes : ℤ
  pub uptime_seconds : ℤ

-- The newest presence event stands first.
pub record Database : Type 0 where
  pub machines : List Machine
  pub agent_identities : List AgentIdentity
  pub machine_presence_events : List PresenceEvent
  pub telemetry_samples : List TelemetrySample

module _ {A : Type 0} where
  -- The first row that passes a test.
  unfoldable pub find_row : (A → Bool) → List A → Option A
  find_row p [] = none
  find_row p (x ∷ xs) = if p x then some x else find_row p xs

  -- `UPDATE`: the rows that pass a test are replaced.
  unfoldable pub update_rows : (A → Bool) → (A → A) → List A → List A
  update_rows p f [] = []
  update_rows p f (x ∷ xs) = (if p x then f x else x) ∷ update_rows p f xs

abbrev pub machine_of : ℕ → Database → Option Machine
machine_of id db = find_row (λ m. m.id == id) db.machines
