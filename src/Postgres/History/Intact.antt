-- ===== src/Postgres/History/Intact.antt =====
-- The constraints of the tables, and histories of calls.
pub mod Updates
pub mod Readings
use arxveil.Prelude.{
  All-mono, ℕ, suc, ◌≡◌, refl, sym, ap, subst, ◌∙◌, ◌⊎◌, inl, inr, Bool, true, false, ◌&&◌, ◌||◌,
  Option, none, some, List, [], ◌∷◌, All, nat_eq, option_eq, ◌==◌, if◌then◌else◌, arith,
}
use arxveil.Go.Text.{Bytes}
use arxveil.Enrollment.{StoredEnrollment}
use arxveil.Presence.{Session}
use arxveil.Telemetry.{Sample}
use arxveil.Postgres.{Server, World}
use arxveil.Postgres.Statements.{machine_fits, is_active}
use arxveil.Postgres.Schema.{
  Machine, AgentIdentity, PresenceEvent, TelemetrySample, Database, find_row, update_rows,
  machine_of, is_online,
}
use arxveil.Postgres.Schema.Integrity.{
  IsIntact, sample_fits-IsBounded, machine_fits-IsDescribed, UniqueAgents, is_machine, Grows,
  Grows-update_rows, Grows-insert, All-update_rows, find_row-none, find_row-is_machine, no_identity,
  UniqueKeys-upsert, All-upsert,
}
use arxveil.Postgres.EnrollmentStore.Effects.{
  enroll-effect, enroll-fits, enrolled_tables, new_machine, new_identity, Fresh,
}
use arxveil.Postgres.PresenceStore.Effects.{
  start_session-effect, touch_session-effect, end_session-effect, started_tables, touched_tables,
  ended_tables, ReadsUuids, go_online, see_again, go_offline, has_id, has_connection, is_current,
  came_online, was_seen, went_offline,
}
use arxveil.Postgres.TelemetryStore.{record_sample}
use arxveil.Postgres.EnrollmentStore.{enroll}
use arxveil.Postgres.TelemetryStore.Effects.{
  record_sample-effect, recorded_tables, put_sample, new_row, record_sample-fits,
}
use arxveil.Postgres.History.{Call, enrolls, finds, starts, touches, ends, records, step, run}
use arxveil.Postgres.History.Invariant.{find_changes_nothing, either, initial, empty_database}
use Updates.{
  go_online-IsIntact, see_again-IsIntact, go_offline-IsIntact, put_sample-IsIntact,
  enrolled-IsIntact,
}

module _ (pg : Server) (db : Database) (h : IsIntact pg db) where
  started-IsIntact : (machine_id : Bytes) (n : ℕ) → IsIntact pg (started_tables pg machine_id n db)
  started-IsIntact machine_id n = go (pg.parse_uuid machine_id) refl
    where
      go :
          (o : Option ℕ)
          → pg.parse_uuid machine_id ≡ o
          → IsIntact pg (started_tables pg machine_id n db)
      go none e = rw (e, started_tables) h
      go (some id) e = rw (e, started_tables) (go_online-IsIntact pg id _ _ _ _ db h)

  touched-IsIntact : (s : Session) (n : ℕ) → IsIntact pg (touched_tables pg s n db)
  touched-IsIntact s n = go (pg.parse_uuid s.machine_id) refl
    where
      go : (o : Option ℕ) → pg.parse_uuid s.machine_id ≡ o → IsIntact pg (touched_tables pg s n db)
      go none e = rw (e, touched_tables) h
      go (some id) e =
          rw (e, touched_tables)
            (see_again-IsIntact pg id (pg.encode_time s.connected_at) _ _ 0 db h)

  ended-IsIntact : (s : Session) (n : ℕ) → IsIntact pg (ended_tables pg s n db)
  ended-IsIntact s n = go (pg.parse_uuid s.machine_id) refl
    where
      go : (o : Option ℕ) → pg.parse_uuid s.machine_id ≡ o → IsIntact pg (ended_tables pg s n db)
      go none e = rw (e, ended_tables) h
      go (some id) e =
          rw (e, ended_tables)
            (go_offline-IsIntact pg id (pg.encode_time s.connected_at) _ _ _ db h)

module _ (pg : Server) where
  recorded-IsIntact :
      (s : Sample) (w : World)
      → IsIntact pg w.committed
      → IsIntact pg (record_sample pg s w).1.committed
  recorded-IsIntact s w h =
      go (pg.parse_uuid s.machine_id) (pg.numeric s.cpu_usage_percent) refl refl
    where
      unchanged :
          recorded_tables pg s w.event w.committed ≡ w.committed
          → IsIntact pg (record_sample pg s w).1.committed
      unchanged e =
          either (IsIntact pg) (record_sample-effect pg s w) h (subst (IsIntact pg) (sym e) h)

      go :
          (o p : Option ℕ)
          → pg.parse_uuid s.machine_id ≡ o
          → pg.numeric s.cpu_usage_percent ≡ p
          → IsIntact pg (record_sample pg s w).1.committed
      go none p e q = unchanged (rw (e, recorded_tables) refl)
      go (some machine) none e q = unchanged (rw (e, q, recorded_tables) refl)
      go (some machine) (some percent) e q = elim (record_sample-fits pg s w e q) [
        | inl same ↦ subst (IsIntact pg) (sym same) h
        | inr (put, fits, known) ↦ subst (IsIntact pg) (sym put) (
            put_sample-IsIntact pg s w.event machine percent w.committed
              (sample_fits-IsBounded _ fits) known h)
      ]

  module _ (reads : ReadsUuids pg) where
    enrolled :
        (input : StoredEnrollment) (w : World)
        → IsIntact pg w.committed
        → IsIntact pg (enroll pg input w).1.committed
    enrolled input w h = elim (enroll-effect pg input w (reads _)) [
      | inl e ↦ subst (IsIntact pg) (sym e) h
      | inr (e, (fresh, unused)) ↦ elim (enroll-fits pg input w (reads _)) [
        | inl same ↦ subst (IsIntact pg) (sym same) h
        | inr (_, fits) ↦ subst (IsIntact pg) (sym e) (
            enrolled-IsIntact pg input w.event w.committed
              (machine_fits-IsDescribed pg (new_machine pg input w.event) fits) fresh unused h)
      ]
    ]

    step-IsIntact :
        (w : World) (c : Call) → IsIntact pg w.committed → IsIntact pg (step pg w c).committed
    unfolding step
    step-IsIntact w (enrolls input) h = enrolled input w h
    step-IsIntact w (finds agent_id) h =
        subst (IsIntact pg) (sym (find_changes_nothing pg agent_id w)) h
    step-IsIntact w (starts machine_id) h =
        either (IsIntact pg) (start_session-effect pg machine_id w) h
          (started-IsIntact pg w.committed h machine_id w.event)
    step-IsIntact w (touches s) h =
        either (IsIntact pg) (touch_session-effect pg s w) h
          (touched-IsIntact pg w.committed h s w.event)
    step-IsIntact w (ends s) h =
        either (IsIntact pg) (end_session-effect pg s w reads) h
          (ended-IsIntact pg w.committed h s w.event)
    step-IsIntact w (records s) h = recorded-IsIntact s w h

    pub run-IsIntact_from :
        (w : World) (cs : List Call) → IsIntact pg w.committed → IsIntact pg (run pg w cs).committed
    unfolding run
    run-IsIntact_from w [] h = h
    run-IsIntact_from w (c ∷ cs) h = run-IsIntact_from (step pg w c) cs (step-IsIntact w c h)

-- Suppose the driver reads back every UUID that it writes. After any calls of the three stores on
-- empty tables, in any order and with any failures of their requests: the texts of every machine
-- are such as the server accepts, trimmed not empty, and for the name and the host name of at most
-- 255 characters; every sample has a CPU usage of at most 100 percent, used memory and disk between
-- 0 and their totals, and an uptime that is not negative; no two machines have the same ID, no two
-- identities have the same ID or the same agent ID, no machine has two active identities, and no
-- two samples have the same machine and time; and every identity, event and sample belongs to a
-- machine.
pub run-IsIntact :
    (pg : Server) (cs : List Call) → ReadsUuids pg → IsIntact pg (run pg initial cs).committed
run-IsIntact pg cs reads = run-IsIntact_from pg reads initial cs (record {
  machines_fit = tt;
  samples_fit = tt;
  machine_ids = tt;
  keys = tt;
  agents = tt;
  identities_belong = tt;
  events_belong = tt;
  samples_belong = tt;
})
