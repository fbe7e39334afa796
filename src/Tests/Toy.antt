-- ===== src/Tests/Toy.antt =====
-- A small database server, and data for the tests.
use arxveil.Prelude.{
  ℕ, suc, ◌*◌, ◌/◌, Bool, true, Option, none, some, [], ◌∷◌, length, replicate, leb, if◌then◌else◌,
}
use arxveil.Prelude.Int.{pos, pos_part}
use arxveil.Go.Text.{Bytes, codes}
use arxveil.Go.Fault.{ok}
use arxveil.Go.Exec.{Exec}
use arxveil.Go.Reader.{Reader}
use arxveil.Go.Float64.{f42_5, f100}
use arxveil.Enrollment.{Input}
use arxveil.Presence.{Credentials, Session}
use arxveil.Telemetry.{Sample}
use arxveil.Postgres.{Server, World}
use arxveil.Postgres.Schema.{Status, Machine, Database}
use arxveil.AgentGrpc.{PresenceTracker, TelemetryRecorder}
use arxveil.AgentGrpc.Messages.{Timestamps}

-- A UUID is written as one character, and nothing fails. The clock ticks once for each event.
abbrev pub parse_one : Bytes → Option ℕ
parse_one [] = none
parse_one (u ∷ []) = some u
parse_one (u ∷ _ ∷ _) = none

abbrev pub toy : Server
toy = record {
  accepts_text = λ s. true;
  char_length = λ s. length s;
  parse_uuid = parse_one;
  show_uuid = λ u. u ∷ [];
  numeric = λ f. if leb f f100 then some 4250 else none;
  encode_time = λ t. t / 1000;
  decode_time = λ t. t * 1000;
  now = λ n. n;
  random_uuid = λ n. n;
  outage = λ n. none;
}

abbrev pub agent_input : Input
agent_input = record {
  hostname = codes " agent-01 ";
  operating_system = codes "linux";
  os_version = codes "6.12";
  architecture = codes "amd64";
  agent_version = codes "0.1.0\n";
  capabilities = codes "telemetry" ∷ codes " telemetry " ∷ [];
}

abbrev pub sevens : Reader
sevens = record { bytes = replicate 40 7; fault = none } ∷ []

-- The only machine of the database, which is online since event 4.
abbrev pub machine : Machine
machine = record {
  id = 65;
  name = codes "agent-01";
  hostname = codes "agent-01";
  operating_system = codes "linux";
  os_version = codes "6.12";
  architecture = codes "amd64";
  agent_version = codes "0.1.0";
  status = Status.online;
  registered_at = 1;
  last_seen_at = some 5;
  last_connected_at = some 4;
  last_disconnected_at = none;
  updated_at = 6;
}

abbrev pub tables : Database
tables = record {
  machines = machine ∷ [];
  agent_identities = [];
  machine_presence_events = record { machine_id = 65; online = true; occurred_at = 4 } ∷ [];
  telemetry_samples = [];
}

abbrev pub world : World
world = record { committed = tables; working = tables; event = 20; started = 4 }

abbrev pub session : Session
session = record { machine_id = 65 ∷ []; agent_id = codes "a"; connected_at = 4000 }

abbrev pub sample : Sample
sample = record {
  machine_id = 65 ∷ [];
  collected_at = 5000;
  cpu_usage_percent = f42_5;
  memory_total_bytes = pos 16000;
  memory_used_bytes = pos 8000;
  disk_total_bytes = pos 1000000;
  disk_used_bytes = pos 250000;
  uptime_seconds = pos 3600;
}

-- Services that count the calls, and fail never.
abbrev counting : {A : Type 0} → A → Exec ℕ A
counting a n = (ok a, suc n)

abbrev pub tracker : PresenceTracker ℕ
tracker = record {
  open_session = λ c. counting session;
  record_activity = λ s. counting tt;
  close_session = λ s. counting tt;
}

abbrev pub recorder : TelemetryRecorder ℕ
recorder = record { record_sample = λ s. counting tt }

abbrev pub times : Timestamps
times = record { check_valid = λ t. none; as_time = λ t. pos_part t.seconds * 1000000000 }

abbrev pub credentials : Credentials
credentials = record { agent_id = codes "a"; secret = codes "secret" }

abbrev pub anything : Bytes → Bool
anything s = true
