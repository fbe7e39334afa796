-- ===== src/Tests/Sharing.antt =====
-- A stream between calls of others.
use mathlib.Core.Option.{some-injective}
use arxveil.Prelude.{
  ℕ, ◌*◌, ◌/◌, ◌≡◌, ◌≢◌, refl, none, some, List, [], ◌∷◌, All, nat_eq, arith, bytes_beq,
}
use arxveil.Go.Text.{codes, trim_space}
use arxveil.Go.Fault.{ok}
use arxveil.Go.Sha256.{sum256}
use arxveil.Presence.{Session, open_session}
use arxveil.Postgres.{World, begin, commit, autocommit}
use arxveil.Postgres.Schema.{find_row, update_rows}
use arxveil.Postgres.Statements.{select_active_identity, mark_online, insert_presence_event}
use arxveil.Postgres.PresenceStore.{find_active_identity, start_session}
use arxveil.Postgres.PresenceStore.Consistency.{IsConsistent, last_event}
use arxveil.Postgres.History.{Call, finds, starts, touches, ends, step, run}
use arxveil.Postgres.History.Invariant.{initial, IsConsistent-empty}
use arxveil.Postgres.History.Connections.{view, connected, disconnected, Replays}
use arxveil.Postgres.History.Connections.Refinement.{run_refines}
use arxveil.AgentGrpc.Messages.{Authenticate, authenticate, heartbeat}
use arxveil.AgentGrpc.Stream.{Received, message, stream_updates}
use arxveil.Backend.Sharing.{Shared, sharing_tracker, sharing_recorder}
use arxveil.Backend.Sharing.Ended.{ended_stream_leaves_no_connection}
use arxveil.Backend.Sharing.Offline.{ended_stream_disconnects}
use arxveil.Backend.Sharing.Foreign.{Foreign}
use arxveil.Backend.Sharing.Replaced.{replaced_stream_keeps_connection}
use arxveil.AgentGrpc.Stream.{serve_session}
use arxveil.Tests.Toy.{machine, toy, tables, world, sevens, times, anything, session}

abbrev calls : List Call
calls = starts (65 ∷ []) ∷ finds (97 ∷ []) ∷ touches session ∷ ends session ∷ []

run_refines_example :
    Replays toy (view initial.committed) calls (view (run toy initial calls).committed)
run_refines_example = run_refines toy (λ u. refl) initial calls IsConsistent-empty

abbrev with_identity : World
with_identity = record world {
  committed = record tables {
    agent_identities =
        record {
          id = 1;
          machine_id = 65;
          agent_id = 97;
          credential_hash = sum256 (codes "s");
          capabilities = [];
          created_at = 1;
          revoked_at = none;
        }
        ∷ [];
  };
}

with_identity-IsConsistent : IsConsistent with_identity.committed
unfolding last_event find_row
with_identity-IsConsistent = record {
  unique = (refl, tt);
  agrees = λ id. ground arith;
  alternates = (refl, tt);
}

abbrev first : Authenticate
first = record { agent_id = codes "a"; agent_secret = codes "s" }

abbrev rest : List Received
rest =
    message (some (record { payload = some (heartbeat (some (record { sent_at = none }))) })) ∷ []

-- Another machine is asked for before the session is opened, and before it ends.
abbrev others : List (List Call)
others = (starts (66 ∷ []) ∷ []) ∷ [] ∷ (finds (98 ∷ []) ∷ []) ∷ []

abbrev now_open : Session
now_open = record { machine_id = 65 ∷ []; agent_id = 97 ∷ []; connected_at = 25000 }

abbrev opened : Shared
opened =
    ((sharing_tracker toy anything).open_session
      (record { agent_id = codes "a"; secret = codes "s" }) ((with_identity, sevens), others)).1

opens :
    (sharing_tracker toy anything).open_session
      (record { agent_id = codes "a"; secret = codes "s" })
      ((with_identity, sevens), others)
    ≡ (ok now_open, opened)
unfolding run step open_session find_active_identity start_session begin commit autocommit
    select_active_identity mark_online insert_presence_event find_row update_rows sum256 trim_space
    bytes_beq
opens = refl

read_time : (t : ℕ) → t * 1000 / 1000 ≡ t
read_time t = omega arith

other_machines : All (All (Foreign toy 65)) others
other_machines = (((λ e. omega (arith, some-injective _ _ e)), tt), (tt, ((tt, tt), tt)))

ended_stream_leaves_no_connection_example :
    view
      (stream_updates
        (sharing_tracker toy anything)
        (sharing_recorder toy anything)
        times
        (ok tt)
        (message (some (record { payload = some (authenticate (some first)) })) ∷ rest)
        ((with_identity, sevens), others)).1.0.0.committed
      65
    ≢ connected 25
ended_stream_leaves_no_connection_example =
    ended_stream_leaves_no_connection toy anything (λ u. refl) (λ n. refl) now_open refl times
      (ok tt) (some (record { payload = some (authenticate (some first)) })) rest first
      with_identity sevens others opened with_identity-IsConsistent refl opens

ended_stream_disconnects_example :
    view
      (stream_updates
        (sharing_tracker toy anything)
        (sharing_recorder toy anything)
        times
        (ok tt)
        (message (some (record { payload = some (authenticate (some first)) })) ∷ rest)
        ((with_identity, sevens), others)).1.0.0.committed
      65
    ≡ disconnected
ended_stream_disconnects_example =
    ended_stream_disconnects toy anything (λ n. refl) (λ u. refl) read_time now_open refl times
      (ok tt) (some (record { payload = some (authenticate (some first)) })) rest first
      with_identity sevens others opened with_identity-IsConsistent other_machines refl opens

-- The machine has connected again since the session began.
abbrev reconnected : World
reconnected = record world {
  committed = record tables { machines = record machine { last_connected_at = some 7 } ∷ [] };
}

reconnected-IsConsistent : IsConsistent reconnected.committed
unfolding last_event find_row
reconnected-IsConsistent = record {
  unique = (refl, tt);
  agrees = λ id. ground arith;
  alternates = (refl, tt);
}

since_seven : view reconnected.committed 65 ≡ connected 7
unfolding find_row
since_seven = refl

replaced_stream_keeps_connection_example :
    view
      (serve_session
        (sharing_tracker toy anything)
        (sharing_recorder toy anything)
        times
        (ok tt)
        session
        rest
        ((reconnected, sevens), others)).1.0.0.committed
      65
    ≡ connected 7
replaced_stream_keeps_connection_example =
    replaced_stream_keeps_connection toy anything (λ u. refl) session 65 7 (λ e. omega (arith, e))
      times (ok tt) rest reconnected sevens others reconnected-IsConsistent since_seven
      other_machines
