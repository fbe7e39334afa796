-- ===== src/AgentGrpc/Messages.antt =====
-- The messages of server/internal/gen/agent/v1/agent.pb.go (generated from proto/agent/v1/agent.proto), with
-- the getters that the service calls. A pointer to a message is an option.
use arxveil.Prelude.{Option, none, some, List}
use arxveil.Prelude.Int.{ℤ}
use arxveil.Go.Text.{Bytes}
use arxveil.Go.Fault.{Fault}
use arxveil.Go.Float64.{Float64}
use arxveil.Go.Time.{Time}

pub record EnrollRequest : Type 0 where
  pub hostname : Bytes
  pub operating_system : Bytes
  pub os_version : Bytes
  pub architecture : Bytes
  pub agent_version : Bytes
  pub capabilities : List Bytes

pub record EnrollResponse : Type 0 where
  pub machine_id : Bytes
  pub agent_id : Bytes
  pub agent_secret : Bytes

-- `timestamppb.Timestamp`, which the repository does not define, and the two functions on it that the
-- service calls: `CheckValid`, whose nil error is `none`, and `AsTime`.
pub record Timestamp : Type 0 where
  pub seconds : ℤ
  pub nanos : ℤ

pub record Timestamps : Type 0 where
  pub check_valid : Timestamp → Option Fault
  pub as_time : Timestamp → Time

pub record Authenticate : Type 0 where
  pub agent_id : Bytes
  pub agent_secret : Bytes

pub record Heartbeat : Type 0 where
  pub sent_at : Option Timestamp

pub record Telemetry : Type 0 where
  pub collected_at : Option Timestamp
  pub cpu_usage_percent : Float64
  pub memory_total_bytes : ℤ
  pub memory_used_bytes : ℤ
  pub disk_total_bytes : ℤ
  pub disk_used_bytes : ℤ
  pub uptime_seconds : ℤ

-- The wrapper types of the `oneof`.
pub data Payload : Type 0 where
  authenticate : Option Authenticate → Payload
  heartbeat : Option Heartbeat → Payload
  telemetry : Option Telemetry → Payload

pub record AgentMessage : Type 0 where
  pub payload : Option Payload

abbrev authenticate_in : Option Payload → Option Authenticate
authenticate_in (some (authenticate a)) = a
authenticate_in _ = none

abbrev heartbeat_in : Option Payload → Option Heartbeat
heartbeat_in (some (heartbeat h)) = h
heartbeat_in _ = none

abbrev telemetry_in : Option Payload → Option Telemetry
telemetry_in (some (telemetry t)) = t
telemetry_in _ = none

-- The getters; that of a nil message is nil.
abbrev pub get_authenticate : Option AgentMessage → Option Authenticate
get_authenticate none = none
get_authenticate (some m) = authenticate_in m.payload

abbrev pub get_heartbeat : Option AgentMessage → Option Heartbeat
get_heartbeat none = none
get_heartbeat (some m) = heartbeat_in m.payload

abbrev pub get_telemetry : Option AgentMessage → Option Telemetry
get_telemetry none = none
get_telemetry (some m) = telemetry_in m.payload
