-- ===== src/Postgres/History/Connections.antt =====
-- What the stores promise about the connections of machines: the machine's row, its events and its times
-- forgotten, a machine is connected since a time, disconnected, or not registered.
pub mod Views
pub mod Steps
pub mod Refinement
use arxveil.Prelude.{
  ℕ, ◌≡◌, ◌≢◌, Bool, true, false, Option, none, some, List, [], ◌∷◌, nat_eq, ◌==◌, if◌then◌else◌,
}
use arxveil.Go.Text.{Bytes}
use arxveil.Enrollment.{StoredEnrollment}
use arxveil.Presence.{Session}
use arxveil.Postgres.{Server}
use arxveil.Postgres.Schema.{Machine, Database, is_online, machine_of}
use arxveil.Postgres.History.{Call, enrolls, finds, starts, touches, ends, records}

pub data Connection : Type 0 where
  unregistered disconnected : Connection
  connected : ℕ → Connection

abbrev pub connection_since : Option ℕ → Connection
connection_since none = disconnected
connection_since (some t) = connected t

abbrev pub connection : Option Machine → Connection
connection none = unregistered
connection (some m) =
    if is_online m.status then connection_since m.last_connected_at else disconnected

-- The connections of all machines.
abbrev pub View : Type 0
View = ℕ → Connection

abbrev pub view : Database → View
view db id = connection (machine_of id db)

abbrev pub becomes : ℕ → Connection → View → View
becomes id c v j = if j == id then c else v j

infix 4 ◌≗◌
abbrev pub ◌≗◌ : View → View → Type 0
v ≗ u = (id : ℕ) → v id ≡ u id

module _ (pg : Server) where
  -- What a call may do. A call that is not carried out does nothing, and a lookup, a heartbeat or a sample
  -- never does. A session that starts connects its machine, whatever connection there was. The end
  -- of a session disconnects the machine only from the connection that the session began.
  pub data Does (v u : View) : Call → Type 0 where
    nothing : {c : Call} → u ≗ v → Does v u c
    registers :
        {input : StoredEnrollment} (id : ℕ)
        → v id ≡ unregistered
        → u ≗ becomes id disconnected v
        → Does v u (enrolls input)
    connects :
        {machine_id : Bytes} (id t : ℕ)
        → pg.parse_uuid machine_id ≡ some id
        → v id ≢ unregistered
        → u ≗ becomes id (connected t) v
        → Does v u (starts machine_id)
    disconnects :
        {session : Session} (id : ℕ)
        → pg.parse_uuid session.machine_id ≡ some id
        → v id ≡ connected (pg.encode_time session.connected_at)
        → u ≗ becomes id disconnected v
        → Does v u (ends session)

  -- Calls one after the other.
  abbrev pub Replays : View → List Call → View → Type 0
  Replays v [] u = u ≗ v
  Replays v (c ∷ cs) u = (between : View) × Does v between c × Replays between cs u
