-- ===== src/Postgres/EnrollmentStore/Effects.antt =====
-- What an enrollment does to the committed tables: both rows are there, or neither.
use arxveil.Prelude.{ℕ, suc, ◌≡◌, ◌⊎◌, true, none, some, ◌∷◌, nat_eq, option_eq, ◌==◌, ◌||◌, arith}
use arxveil.Go.Text.{Bytes}
use arxveil.Go.Fault.{ok}
use arxveil.Enrollment.{StoredEnrollment}
use arxveil.Postgres.{Server, World, begin, commit}
use arxveil.Postgres.Schema.{Status, Machine, AgentIdentity, Database, find_row, machine_of}
use arxveil.Postgres.Statements.{insert_machine, insert_agent_identity, machine_fits}
use arxveil.Postgres.EnrollmentStore.{enroll}

-- The rows of an enrollment whose first request has the number `n`.
module _ (pg : Server) (input : StoredEnrollment) (n : ℕ) where
  abbrev pub new_machine : Machine
  new_machine = record {
    id = pg.random_uuid (suc (suc n));
    name = input.hostname;
    hostname = input.hostname;
    operating_system = input.operating_system;
    os_version = input.os_version;
    architecture = input.architecture;
    agent_version = input.agent_version;
    status = Status.unknown;
    registered_at = pg.now (suc n);
    last_seen_at = none;
    last_connected_at = none;
    last_disconnected_at = none;
    updated_at = pg.now (suc n);
  }

  abbrev pub new_identity : AgentIdentity
  new_identity = record {
    id = pg.random_uuid (suc (suc (suc (suc n))));
    machine_id = pg.random_uuid (suc (suc n));
    agent_id = pg.random_uuid (suc (suc (suc (suc (suc n)))));
    credential_hash = input.credential_hash;
    capabilities = input.capabilities;
    created_at = pg.now (suc n);
    revoked_at = none;
  }

  abbrev pub enrolled_tables : Database → Database
  enrolled_tables db = record db {
    machines = new_machine ∷ db.machines;
    agent_identities = new_identity ∷ db.agent_identities;
  }

module _ (pg : Server) (input : StoredEnrollment) (w : World)
    (reads : pg.parse_uuid (pg.show_uuid (new_machine pg input w.event).id)
      ≡ some (new_machine pg input w.event).id) where
  -- The IDs were not in use, and the machine has no other active identity.
  abbrev pub Fresh : Type 0
  Fresh =
      (machine_of (new_machine pg input w.event).id w.committed ≡ none)
      × (find_row
            (λ i.
              i.id == (new_identity pg input w.event).id
              || i.agent_id == (new_identity pg input w.event).agent_id)
            w.committed.agent_identities
          ≡ none)

  -- Suppose the driver reads back the UUID of the new machine. Whatever requests fail, an
  -- enrollment either leaves the committed tables as they were, or adds both the machine and its
  -- agent identity to them, whose IDs were not in use before.
  pub enroll-effect :
      let db = (enroll pg input w).1.committed in
      (db ≡ w.committed) ⊎ ((db ≡ enrolled_tables pg input w.event w.committed) × Fresh)
  unfolding enroll begin commit insert_machine insert_agent_identity
  enroll-effect = ground arith

  -- When an enrollment returns IDs, both rows are committed, and the IDs are those of the rows.
  pub enroll_commits :
      {machine_id agent_id : Bytes}
      → (enroll pg input w).0 ≡ ok (machine_id, agent_id)
      → ((enroll pg input w).1.committed ≡ enrolled_tables pg input w.event w.committed)
        × Fresh
        × (machine_id ≡ pg.show_uuid (new_machine pg input w.event).id)
        × (agent_id ≡ pg.show_uuid (new_identity pg input w.event).agent_id)
  unfolding enroll begin commit insert_machine insert_agent_identity
  enroll_commits e = ground arith

  -- The row of the machine meets the constraints of the table.
  pub enroll-fits :
      let db = (enroll pg input w).1.committed in
      (db ≡ w.committed)
      ⊎ ((db ≡ enrolled_tables pg input w.event w.committed)
          × (machine_fits pg (new_machine pg input w.event) ≡ true))
  unfolding enroll begin commit insert_machine insert_agent_identity
  enroll-fits = ground arith
