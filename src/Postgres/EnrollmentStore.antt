-- ===== src/Postgres/EnrollmentStore.antt =====
-- server/internal/repository/postgres/enrollment_store.go
pub mod Effects
pub mod Progress
use arxveil.Prelude.{ℕ}
use arxveil.Go.Text.{Bytes}
use arxveil.Go.Exec.{Exec, ◌>>=◌, ◌>>◌, pure, wrapping}
use arxveil.Enrollment.{StoredEnrollment, Store}
use arxveil.Postgres.{Server, World, request, begin, commit, deferring_rollback}
use arxveil.Postgres.Statements.{insert_machine, insert_agent_identity}

module _ (pg : Server) where
  -- Encoding a list of texts as JSON does not fail, so the error path of `json.Marshal` is not there.
  unfoldable pub enroll : StoredEnrollment → Exec World (Bytes × Bytes)
  enroll input = do
    wrapping "begin enrollment transaction" (begin pg)
    deferring_rollback do
      machine_id ← wrapping "create machine" (
          request pg (
            insert_machine pg input.hostname input.hostname input.operating_system input.os_version
              input.architecture input.agent_version))
      agent_id ← wrapping "create agent identity" (
          request pg (insert_agent_identity pg machine_id input.credential_hash input.capabilities))
      wrapping "commit enrollment transaction" (commit pg)
      pure (machine_id, agent_id)

  abbrev pub enrollment_store : Store World
  enrollment_store = record { enroll = enroll }
