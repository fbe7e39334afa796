-- ===== src/Postgres/History/Invariant.antt =====
-- What holds after any history, whatever requests fail in it.
use arxveil.Prelude.{
  ℕ, ◌≡◌, refl, sym, subst, ◌⊎◌, inl, inr, Option, none, some, List, [], ◌∷◌, nat_eq, option_eq,
  arith,
}
use arxveil.Go.Text.{Bytes}
use arxveil.Enrollment.{StoredEnrollment}
use arxveil.Presence.{Session}
use arxveil.Telemetry.{Sample}
use arxveil.Postgres.{Server, World, autocommit}
use arxveil.Postgres.Schema.{Database, find_row, machine_of}
use arxveil.Postgres.Statements.{select_active_identity}
use arxveil.Postgres.EnrollmentStore.Effects.{enroll-effect, enrolled_tables, new_machine}
use arxveil.Postgres.PresenceStore.{find_active_identity}
use arxveil.Postgres.PresenceStore.Effects.{
  start_session-effect, touch_session-effect, end_session-effect, started_tables, touched_tables,
  ended_tables, ReadsUuids,
}
use arxveil.Postgres.PresenceStore.Consistency.{
  last_event, IsConsistent, go_online-IsConsistent, see_again-IsConsistent, go_offline-IsConsistent,
}
use arxveil.Postgres.TelemetryStore.Effects.{record_sample-effect, recorded_tables}
use arxveil.Postgres.History.{Call, enrolls, finds, starts, touches, ends, records, step, run}

pub find_changes_nothing :
    (pg : Server) (agent_id : Bytes) (w : World)
    → (find_active_identity pg agent_id w).1.committed ≡ w.committed
unfolding find_active_identity autocommit select_active_identity
find_changes_nothing pg agent_id w = ground arith

pub either {ℓ} : {A : Type 0} (P : A → Type ℓ) {x y z : A} → (x ≡ y) ⊎ (x ≡ z) → P y → P z → P x
either P (inl e) py pz = subst P (sym e) py
either P (inr e) py pz = subst P (sym e) pz

enrolled-IsConsistent :
    (pg : Server) (input : StoredEnrollment) (n : ℕ) (db : Database)
    → machine_of (new_machine pg input n).id db ≡ none
    → IsConsistent db
    → IsConsistent (enrolled_tables pg input n db)
unfolding find_row
enrolled-IsConsistent pg input n db fresh h = record {
  unique = (fresh, h.unique);
  agrees = λ j. ground (arith, fresh, h.agrees j, h.agrees (new_machine pg input n).id);
  alternates = h.alternates;
}

started-IsConsistent :
    (pg : Server) (machine_id : Bytes) (n : ℕ) (db : Database)
    → IsConsistent db
    → IsConsistent (started_tables pg machine_id n db)
started-IsConsistent pg machine_id n db h = go (pg.parse_uuid machine_id) refl
  where
    go :
        (o : Option ℕ)
        → pg.parse_uuid machine_id ≡ o
        → IsConsistent (started_tables pg machine_id n db)
    go none e = rw (e, started_tables) h
    go (some id) e = rw (e, started_tables) (go_online-IsConsistent id _ _ _ _ db h)

touched-IsConsistent :
    (pg : Server) (s : Session) (n : ℕ) (db : Database)
    → IsConsistent db
    → IsConsistent (touched_tables pg s n db)
touched-IsConsistent pg s n db h = go (pg.parse_uuid s.machine_id) refl
  where
    go : (o : Option ℕ) → pg.parse_uuid s.machine_id ≡ o → IsConsistent (touched_tables pg s n db)
    go none e = rw (e, touched_tables) h
    go (some id) e =
        rw (e, touched_tables)
          (see_again-IsConsistent id (pg.encode_time s.connected_at) _ _ 0 db h)

ended-IsConsistent :
    (pg : Server) (s : Session) (n : ℕ) (db : Database)
    → IsConsistent db
    → IsConsistent (ended_tables pg s n db)
ended-IsConsistent pg s n db h = go (pg.parse_uuid s.machine_id) refl
  where
    go : (o : Option ℕ) → pg.parse_uuid s.machine_id ≡ o → IsConsistent (ended_tables pg s n db)
    go none e = rw (e, ended_tables) h
    go (some id) e =
        rw (e, ended_tables) (go_offline-IsConsistent id (pg.encode_time s.connected_at) _ _ _ db h)

recorded-IsConsistent :
    (pg : Server) (s : Sample) (n : ℕ) (db : Database)
    → IsConsistent db
    → IsConsistent (recorded_tables pg s n db)
recorded-IsConsistent pg s n db h =
    go (pg.parse_uuid s.machine_id) (pg.numeric s.cpu_usage_percent) refl refl
  where
    go :
        (o p : Option ℕ)
        → pg.parse_uuid s.machine_id ≡ o
        → pg.numeric s.cpu_usage_percent ≡ p
        → IsConsistent (recorded_tables pg s n db)
    go none p e q = rw (e, recorded_tables) h
    go (some machine) none e q = rw (e, q, recorded_tables) h
    go (some machine) (some percent) e q =
        rw (e, q, recorded_tables)
          (record { unique = h.unique; agrees = h.agrees; alternates = h.alternates })

module _ (pg : Server) (reads : ReadsUuids pg) where
  -- One call of a store, whatever its requests meet, keeps the tables consistent.
  pub step-IsConsistent :
      (w : World) (c : Call) → IsConsistent w.committed → IsConsistent (step pg w c).committed
  unfolding step
  step-IsConsistent w (enrolls input) h = elim (enroll-effect pg input w (reads _)) [
    | inl e ↦ subst IsConsistent (sym e) h
    | inr (e, fresh) ↦
        subst IsConsistent (sym e) (enrolled-IsConsistent pg input w.event w.committed fresh.0 h)
  ]
  step-IsConsistent w (finds agent_id) h =
      subst IsConsistent (sym (find_changes_nothing pg agent_id w)) h
  step-IsConsistent w (starts machine_id) h =
      either IsConsistent (start_session-effect pg machine_id w) h
        (started-IsConsistent pg machine_id w.event w.committed h)
  step-IsConsistent w (touches s) h =
      either IsConsistent (touch_session-effect pg s w) h
        (touched-IsConsistent pg s w.event w.committed h)
  step-IsConsistent w (ends s) h =
      either IsConsistent (end_session-effect pg s w reads) h
        (ended-IsConsistent pg s w.event w.committed h)
  step-IsConsistent w (records s) h =
      either IsConsistent (record_sample-effect pg s w) h
        (recorded-IsConsistent pg s w.event w.committed h)

  pub run-IsConsistent_from :
      (w : World) (cs : List Call) → IsConsistent w.committed → IsConsistent (run pg w cs).committed
  unfolding run
  run-IsConsistent_from w [] h = h
  run-IsConsistent_from w (c ∷ cs) h =
      run-IsConsistent_from (step pg w c) cs (step-IsConsistent w c h)

-- The tables after the migrations.
abbrev pub empty_database : Database
empty_database = record {
  machines = [];
  agent_identities = [];
  machine_presence_events = [];
  telemetry_samples = [];
}

abbrev pub initial : World
initial = record { committed = empty_database; working = empty_database; event = 0; started = 0 }

pub IsConsistent-empty : IsConsistent empty_database
unfolding find_row last_event
IsConsistent-empty = record { unique = tt; agrees = λ id. refl; alternates = tt }

-- Suppose the driver reads back every UUID that it writes. After any calls of the three stores on
-- empty tables, in any order and with any failures of their requests: machine IDs are unique, a
-- machine is online exactly when its newest presence event says so, and the events of each machine
-- alternate, beginning with an online event.
pub run-IsConsistent :
    (pg : Server) (cs : List Call) → ReadsUuids pg → IsConsistent (run pg initial cs).committed
run-IsConsistent pg cs reads = run-IsConsistent_from pg reads initial cs IsConsistent-empty
