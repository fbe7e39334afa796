-- ===== src/Presence.antt =====
-- server/internal/presence/service.go: authentication of an agent, and its presence session.
pub mod Authentication
use arxveil.Prelude.{Bool, true, false, not, Option, none, some, [], text_eq, ◌==◌, if◌then◌else◌}
use arxveil.Go.Text.{Bytes, trim_space}
use arxveil.Go.Fault.{Fault, sentinel, unauthenticated, Result, ok, err}
use arxveil.Go.Exec.{Exec, ◌>>=◌, ◌>>◌, pure, throw, fail_if, wrapping}
use arxveil.Go.Sha256.{sum256}
use arxveil.Go.Time.{Time}

pub record Credentials : Type 0 where
  pub agent_id : Bytes
  pub secret : Bytes

pub record Identity : Type 0 where
  pub machine_id : Bytes
  pub agent_id : Bytes
  pub credential_hash : Bytes

pub record Session : Type 0 where
  pub machine_id : Bytes
  pub agent_id : Bytes
  pub connected_at : Time

-- The interface `Store`. An identity that is not found is `none`.
pub record Store (S : Type 0) : Type 0 where
  pub find_active_identity : Bytes → Exec S (Option Identity)
  pub start_session : Bytes → Exec S Time
  pub touch_session : Session → Exec S (Unit {0})
  pub end_session : Session → Exec S (Unit {0})

abbrev require : {S : Type 0} → Option Identity → Exec S Identity
require none = throw (sentinel unauthenticated)
require (some identity) = pure identity

-- `uuid.Validate` of github.com/google/uuid is a parameter. `hmac.Equal` compares the bytes.
module _ {S : Type 0} (is_uuid : Bytes → Bool) (store : Store S) where
  unfoldable pub open_session : Credentials → Exec S Session
  open_session credentials = do
    fail_if (not (is_uuid credentials.agent_id)) (sentinel unauthenticated)
    fail_if (trim_space credentials.secret == []) (sentinel unauthenticated)
    found ← wrapping "find active identity" (store.find_active_identity credentials.agent_id)
    identity ← require found
    fail_if (not (sum256 credentials.secret == identity.credential_hash)) (sentinel unauthenticated)
    connection_time ← wrapping "start presence session" (store.start_session identity.machine_id)
    pure (record {
      machine_id = identity.machine_id;
      agent_id = identity.agent_id;
      connected_at = connection_time;
    })

module _ {S : Type 0} (store : Store S) where
  unfoldable pub record_activity : Session → Exec S (Unit {0})
  record_activity session = wrapping "record agent activity" (store.touch_session session)

  unfoldable pub close_session : Session → Exec S (Unit {0})
  close_session session = wrapping "end presence session" (store.end_session session)
