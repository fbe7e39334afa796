-- ===== src/Postgres/History/Connections/Refinement.antt =====
-- Histories of calls against the abstract steps of their calls.
use arxveil.Prelude.{refl, ap, ◌∙◌, inl, inr, List, [], ◌∷◌, nat_eq, option_eq}
use arxveil.Postgres.{Server, World}
use arxveil.Postgres.Schema.Rows.{UniqueIds}
use arxveil.Postgres.EnrollmentStore.Effects.{enroll-effect, new_machine}
use arxveil.Postgres.PresenceStore.Effects.{
  start_session-effect, touch_session-effect, end_session-effect, ReadsUuids,
}
use arxveil.Postgres.PresenceStore.Consistency.{IsConsistent}
use arxveil.Postgres.TelemetryStore.Effects.{record_sample-effect}
use arxveil.Postgres.History.{Call, enrolls, finds, starts, touches, ends, records, step, run}
use arxveil.Postgres.History.Invariant.{step-IsConsistent, find_changes_nothing}
use arxveil.Postgres.History.Connections.{connection, view, Does, registers, Replays}
use arxveil.Postgres.History.Connections.Views.{view-enrolled}
use arxveil.Postgres.History.Connections.Steps.{
  same_tables, Does-starts, Does-touches, Does-ends, Does-records,
}

module _ (pg : Server) (reads : ReadsUuids pg) where
  pub step-Does :
      (w : World) (c : Call)
      → UniqueIds w.committed.machines
      → Does pg (view w.committed) (view (step pg w c).committed) c
  unfolding step
  step-Does w (enrolls input) u = elim (enroll-effect pg input w (reads _)) [
    | inl e ↦ same_tables pg _ _ e
    | inr (e, fresh) ↦
        registers (new_machine pg input w.event).id (ap connection fresh.0)
          (λ j. ap (λ d. view d j) e ∙ view-enrolled pg input w.event w.committed j)
  ]
  step-Does w (finds agent_id) u = same_tables pg _ _ (find_changes_nothing pg agent_id w)
  step-Does w (starts machine_id) u = elim (start_session-effect pg machine_id w) [
    | inl e ↦ same_tables pg _ _ e
    | inr e ↦ Does-starts pg w.committed machine_id w.event e
  ]
  step-Does w (touches s) u = elim (touch_session-effect pg s w) [
    | inl e ↦ same_tables pg _ _ e
    | inr e ↦ Does-touches pg w.committed s w.event e
  ]
  step-Does w (ends s) u = elim (end_session-effect pg s w reads) [
    | inl e ↦ same_tables pg _ _ e
    | inr e ↦ Does-ends pg w.committed s w.event u e
  ]
  step-Does w (records s) u = elim (record_sample-effect pg s w) [
    | inl e ↦ same_tables pg _ _ e
    | inr e ↦ Does-records pg w.committed s w.event e
  ]

  -- Suppose the driver reads back the UUIDs that it writes, and the tables are consistent. Then
  -- every history of calls of the three stores, with any failures of their requests, does to the
  -- connections of the machines what `Does` allows for its calls, one after the other: a new
  -- machine is registered, a session that starts connects its machine, the end of a session
  -- disconnects its machine if it is connected since the session's time, and every call may do
  -- nothing; a lookup, a heartbeat and a sample always do nothing.
  pub run_refines :
      (w : World) (cs : List Call)
      → IsConsistent w.committed
      → Replays pg (view w.committed) cs (view (run pg w cs).committed)
  unfolding run
  run_refines w [] h = λ j. refl
  run_refines w (c ∷ cs) h = (
    view (step pg w c).committed,
    step-Does w c h.unique,
    run_refines (step pg w c) cs (step-IsConsistent pg reads w c h),
  )
