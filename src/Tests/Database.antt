-- ===== src/Tests/Database.antt =====
-- The stores on a small database.
use arxveil.Prelude.{ℕ, ◌*◌, ◌/◌, ◌≡◌, refl, ◌⊎◌, none, some, List, [], ◌∷◌, arith}
use arxveil.Go.Text.{codes}
use arxveil.Go.Fault.{ok}
use arxveil.Enrollment.{StoredEnrollment}
use arxveil.Postgres.EnrollmentStore.{enroll}
use arxveil.Postgres.EnrollmentStore.Effects.{enroll-effect, enrolled_tables, Fresh}
use arxveil.Postgres.{begin, commit}
use arxveil.Postgres.Schema.{find_row, update_rows, machine_of}
use arxveil.Postgres.Statements.{mark_online, insert_presence_event}
use arxveil.Postgres.PresenceStore.{start_session, touch_session, end_session}
use arxveil.Postgres.PresenceStore.Effects.{came_online, went_offline}
use arxveil.Postgres.PresenceStore.Consistency.{IsConsistent}
use arxveil.Postgres.PresenceStore.Stale.{replaced_session_changes_nothing}
use arxveil.Postgres.PresenceStore.Progress.{start_session_connects, end_session_disconnects}
use arxveil.Prelude.{inr, ◌==◌, ◌&&◌, false, nat_eq}
use arxveil.Go.Text.{trim_space}
use arxveil.Telemetry.Validity.{IsValidSample}
use arxveil.Postgres.TelemetryStore.{record_sample, sample_of}
use arxveil.Postgres.TelemetryStore.Effects.{new_row}
use arxveil.Postgres.TelemetryStore.Upsert.{record_sample_keeps}
use arxveil.Postgres.History.{Call, enrolls, starts, touches, ends, records, run}
use arxveil.Postgres.History.Invariant.{initial, run-IsConsistent}
use arxveil.Tests.Toy.{toy, tables, machine, world, session, sample}

abbrev pub stored : StoredEnrollment
stored = record {
  credential_hash = codes "h";
  hostname = codes "agent-01";
  operating_system = codes "linux";
  os_version = codes "6.12";
  architecture = codes "amd64";
  agent_version = codes "0.1.0";
  capabilities = [];
}

abbrev pub calls : List Call
calls =
    starts (65 ∷ [])
    ∷ enrolls stored
    ∷ starts (3 ∷ [])
    ∷ touches session
    ∷ records sample
    ∷ ends session
    ∷ []

run-IsConsistent_example : IsConsistent (run toy initial calls).committed
run-IsConsistent_example = run-IsConsistent toy calls (λ u. refl)

found : machine_of 65 tables ≡ some machine
unfolding find_row
found = refl

starts_again : (start_session toy (65 ∷ []) world).0 ≡ ok 22000
unfolding start_session begin commit mark_online insert_presence_event find_row update_rows
starts_again = refl

reads_times : (t : ℕ) → t * 1000 / 1000 ≡ t
reads_times t = omega arith

unused : machine_of 65 (record tables { machines = [] }) ≡ none
unfolding find_row
unused = refl

-- The session since event 4, against a connection since event 22.
replaced_session_changes_nothing_example :
    ((touch_session toy session (start_session toy (65 ∷ []) world).1).1.committed
      ≡ (start_session toy (65 ∷ []) world).1.committed)
    × ((end_session toy session (start_session toy (65 ∷ []) world).1).1.committed
        ≡ (start_session toy (65 ∷ []) world).1.committed)
replaced_session_changes_nothing_example =
    replaced_session_changes_nothing toy world 65 machine 22000 session (λ u. refl) reads_times
      (unused, tt) refl found starts_again (omega arith)

start_session_connects_example :
    ((start_session toy (65 ∷ []) world).0 ≡ ok 22000)
    × (machine_of 65 (start_session toy (65 ∷ []) world).1.committed
        ≡ some (came_online 22 23 24 machine))
start_session_connects_example = start_session_connects toy (λ n. refl) (65 ∷ []) world refl found

end_session_disconnects_example :
    ((end_session toy session world).0 ≡ ok tt)
    × (machine_of 65 (end_session toy session world).1.committed
        ≡ some (went_offline 22 23 machine))
end_session_disconnects_example =
    end_session_disconnects toy (λ n. refl) (λ u. refl) session world refl found refl

enroll-effect_example :
    ((enroll toy stored world).1.committed ≡ tables)
    ⊎ (((enroll toy stored world).1.committed ≡ enrolled_tables toy stored 20 tables)
        × Fresh toy stored world refl)
enroll-effect_example = enroll-effect toy stored world refl

valid_sample : IsValidSample sample
unfolding trim_space
valid_sample = record {
  machine_id = λ e. cc;
  collected_at = λ e. omega (arith, e);
  cpu = inr (refl, omega arith);
  memory_used = omega arith;
  memory_total = omega arith;
  disk_used = omega arith;
  disk_total = omega arith;
  uptime = omega arith;
}

record_sample_keeps_example :
    ((record_sample toy sample world).0 ≡ ok tt)
    × ((received : ℕ) × (sample_of 65 5 (record_sample toy sample world).1.committed
          ≡ some (record (new_row toy sample 20 65 4250) { received_at = received })))
    × ((other at : ℕ)
        → ((other == 65) && (at == 5)) ≡ false
        → sample_of other at (record_sample toy sample world).1.committed
          ≡ sample_of other at tables)
record_sample_keeps_example =
    record_sample_keeps toy (λ n. refl) sample world valid_sample refl found refl (omega arith)
