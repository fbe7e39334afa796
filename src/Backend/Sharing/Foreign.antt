-- ===== src/Backend/Sharing/Foreign.antt =====
-- Calls of the stores that leave the connection of a machine alone.
use arxveil.Prelude.{
  ℕ, ◌≡◌, ◌≢◌, inl, inr, sym, subst, ap, ◌∙◌, some, List, [], ◌∷◌, All, nat_eq, arith,
}
use arxveil.Postgres.{Server, World}
use arxveil.Postgres.PresenceStore.Effects.{ReadsUuids}
use arxveil.Postgres.PresenceStore.Consistency.{IsConsistent}
use arxveil.Postgres.History.{Call, starts, ends, records, step, run}
use arxveil.Postgres.History.Invariant.{step-IsConsistent}
use arxveil.Postgres.History.Connections.{
  View, view, becomes, ◌≗◌, Connection, unregistered, disconnected, connected, Does, nothing,
  registers, connects, disconnects,
}
use arxveil.Postgres.History.Connections.Refinement.{step-Does}
use arxveil.Go.Fault.{Result}
use arxveil.Go.Exec.{Exec}
use arxveil.Go.Reader.{Reader}
use arxveil.Telemetry.{Sample, record_telemetry}
use arxveil.Telemetry.Validity.{record_telemetry_lem}
use arxveil.Postgres.TelemetryStore.{telemetry_store}
use arxveil.Backend.{State}
use arxveil.Backend.Sharing.{Shared, sharing}

module _ (pg : Server) (id : ℕ) where
  -- The call neither starts nor ends a session of the machine.
  abbrev pub Foreign : Call → Type 0
  Foreign (starts machine_id) = pg.parse_uuid machine_id ≢ some id
  Foreign (ends session) = pg.parse_uuid session.machine_id ≢ some id
  Foreign _ = Unit

  pub elsewhere : (v u : View) (j : ℕ) (c : Connection) → j ≢ id → u ≗ becomes j c v → u id ≡ v id
  elsewhere v u j c n e = ground (arith, e id, n)

  other_machine : (v : View) {t : ℕ} (j : ℕ) → v j ≡ unregistered → v id ≡ connected t → j ≢ id
  other_machine v j fresh h e = cc (fresh, h, ap v e)

  Does-Foreign :
      {v u : View} {c : Call} {t : ℕ}
      → Does pg v u c
      → Foreign c
      → v id ≡ connected t
      → u id ≡ connected t
  Does-Foreign (nothing e) f h = e id ∙ h
  Does-Foreign {v} {u} (registers j fresh e) f h =
      elsewhere v u j disconnected (other_machine v j fresh h) e ∙ h
  Does-Foreign {v} {u} (connects j t parsed known e) f h =
      elsewhere v u j (connected t) (λ q. f (parsed ∙ ap some q)) e ∙ h
  Does-Foreign {v} {u} (disconnects j parsed known e) f h =
      elsewhere v u j disconnected (λ q. f (parsed ∙ ap some q)) e ∙ h

  -- The machine is connected since the time, and the tables are consistent.
  abbrev pub Connected : ℕ → World → Type 0
  Connected t w = IsConsistent w.committed × (view w.committed id ≡ connected t)

module _ (pg : Server) (reads : ReadsUuids pg) (id : ℕ) where
  pub step-Connected :
      (t : ℕ) (w : World) (c : Call)
      → Foreign pg id c
      → Connected pg id t w
      → Connected pg id t (step pg w c)
  step-Connected t w c f (h, k) =
      (step-IsConsistent pg reads w c h, Does-Foreign pg id (step-Does pg reads w c h.unique) f k)

  pub run-Connected :
      (t : ℕ) (w : World) (cs : List Call)
      → All (Foreign pg id) cs
      → Connected pg id t w
      → Connected pg id t (run pg w cs)
  unfolding run
  run-Connected t w [] f h = h
  run-Connected t w (c ∷ cs) f h = run-Connected t (step pg w c) cs f.1 (step-Connected t w c f.0 h)

  pub record_telemetry-Connected :
      (t : ℕ) (sample : Sample) (w : World)
      → Connected pg id t w
      → Connected pg id t (record_telemetry (telemetry_store pg) sample w).1
  unfolding step
  record_telemetry-Connected t sample w h =
      elim (record_telemetry_lem (telemetry_store pg) sample w) [
        | inl (valid, e) ↦
            subst (λ (p : Result (Unit {0}) × World). Connected pg id t p.1) (sym e)
              (step-Connected t w (records sample) tt h)
        | inr (invalid, (f, e, _)) ↦
            subst (λ (p : Result (Unit {0}) × World). Connected pg id t p.1) (sym e) h
      ]

-- The machine is connected since the time, and what the others will do leaves it alone.
module _ (pg : Server) (id t : ℕ) where
  abbrev pub Standing : Shared → Type 0
  Standing ((w, r), later) = Connected pg id t w × All (All (Foreign pg id)) later

module _ (pg : Server) (reads : ReadsUuids pg) (id t : ℕ) where
  pub sharing-Standing :
      {A : Type 0} (m : Exec State A)
      → ((w : World) (r : Reader) → Connected pg id t w → Connected pg id t (m (w, r)).1.0)
      → (s : Shared) → Standing pg id t s
      → Standing pg id t (sharing pg m s).1
  sharing-Standing m keeps ((w, r), []) (h, f) = (keeps w r h, f)
  sharing-Standing m keeps ((w, r), calls ∷ later) (h, f) =
      (keeps (run pg w calls) r (run-Connected pg reads id t w calls f.0 h), f.1)
