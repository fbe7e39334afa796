-- ===== src/Backend/Updates.antt =====
-- A telemetry update of an agent, from its message to the table.
use arxveil.Prelude.{
  ℕ, ◌≤◌, ◌≡◌, refl, ap, ◌∙◌, ◌⊎◌, inl, inr, Bool, Option, none, some, nat_eq, arith,
}
use arxveil.Go.Text.{Bytes}
use arxveil.Go.Fault.{Fault, is, invalid_sample, Result, ok, err, wrap_result}
use arxveil.Go.Reader.{Reader}
use arxveil.Presence.{Session}
use arxveil.Presence
use arxveil.Telemetry.{Sample, record_telemetry}
use arxveil.Telemetry.Validity.{IsValidSample, record_telemetry_lem}
use arxveil.Postgres.{Server, World, autocommit}
use arxveil.Postgres.Schema.{Machine, machine_of}
use arxveil.Postgres.Statements.{touch_machine}
use arxveil.Postgres.PresenceStore.{touch_session}
use arxveil.Postgres.PresenceStore.Effects.{touch_session-effect, see_again}
use arxveil.Postgres.PresenceStore.Progress.{NoOutage}
use arxveil.Postgres.TelemetryStore.{telemetry_store, record_sample, sample_of}
use arxveil.Postgres.TelemetryStore.Effects.{new_row}
use arxveil.Postgres.TelemetryStore.Upsert.{record_sample_keeps}
use arxveil.AgentGrpc.Messages.{Telemetry, Timestamp, Timestamps}
use arxveil.AgentGrpc.Stream.{bad_request, telemetry_sample, handle_telemetry}
use arxveil.Backend.{State, presence_tracker, telemetry_recorder}

-- A sample is of the session's machine.
sample_machine :
    (times : Timestamps) (session : Session) (update : Telemetry) {sample : Sample}
    → telemetry_sample times session update ≡ ok sample
    → sample.machine_id ≡ session.machine_id
unfolding telemetry_sample
sample_machine times session update {sample} q = go update.collected_at refl
  where
    go : (o : Option Timestamp) → update.collected_at ≡ o → sample.machine_id ≡ session.machine_id
    go none e = absurd (ground (arith, e, q))
    go (some t) e = ground (arith, e, q)

module _ (pg : Server) (session : Session) (w : World) where
  -- A heartbeat leaves the samples as they are.
  touch_keeps_samples :
      (machine at : ℕ)
      → sample_of machine at (touch_session pg session w).1.committed
        ≡ sample_of machine at w.committed
  unfolding see_again
  touch_keeps_samples machine at = elim (touch_session-effect pg session w) [
    | inl e ↦ ap (sample_of machine at) e
    | inr e ↦ ap (sample_of machine at) e ∙ ground arith
  ]

  touch_succeeds :
      {id : ℕ}
      → NoOutage pg
      → pg.parse_uuid session.machine_id ≡ some id
      → (touch_session pg session w).0 ≡ ok tt
  unfolding touch_session autocommit touch_machine
  touch_succeeds up parsed = ground (arith, parsed, up w.event)

module _ (pg : Server) (is_uuid : Bytes → Bool) (times : Timestamps) (reply : Result (Unit {0}))
    (session : Session) (update : Telemetry) (w : World) (r : Reader) where
  -- The handling of the update, over the services over the database.
  abbrev pub handled : Result (Unit {0}) × State
  handled =
      handle_telemetry (presence_tracker pg is_uuid) (telemetry_recorder pg is_uuid) times reply
        session update (w, r)

  abbrev recorded : Sample → World
  recorded sample = (record_sample pg sample w).1

  handled_valid :
      (sample : Sample)
      → telemetry_sample times session update ≡ ok sample
      → record_telemetry (telemetry_store pg) sample w ≡ (ok tt, recorded sample)
      → (touch_session pg session (recorded sample)).0 ≡ ok tt
      → handled ≡ (ok tt, ((touch_session pg session (recorded sample)).1, r))
  unfolding handle_telemetry Presence.record_activity
  handled_valid sample q e t = rw (q, e, t)

  handled_invalid :
      (sample : Sample) (e : Fault)
      → telemetry_sample times session update ≡ ok sample
      → record_telemetry (telemetry_store pg) sample w ≡ (err e, w)
      → is e invalid_sample ≡ Bool.true
      → handled ≡ (err (bad_request "invalid telemetry update"), (w, r))
  unfolding handle_telemetry
  handled_invalid sample e q h i = rw (q, h, i)

  -- Suppose that no request fails, that the session's machine exists, that the update has a time
  -- that is valid, and that its CPU percentage is read as at most 100. If the sample is not valid,
  -- the agent gets `InvalidArgument`, and nothing changes. If it is, the handling of the update
  -- succeeds, and the sample is then found under its machine and time.
  pub handle_telemetry_stores :
      {sample : Sample} {id percent : ℕ} {m : Machine}
      → NoOutage pg
      → telemetry_sample times session update ≡ ok sample
      → pg.parse_uuid session.machine_id ≡ some id
      → machine_of id w.committed ≡ some m
      → pg.numeric sample.cpu_usage_percent ≡ some percent
      → percent ≤ 10000
      → ((¬ IsValidSample sample)
          × (handled ≡ (err (bad_request "invalid telemetry update"), (w, r))))
        ⊎ (IsValidSample sample
            × (handled.0 ≡ ok tt)
            × ((received : ℕ) × (sample_of id
                    (pg.encode_time sample.collected_at)
                    handled.1.0.committed
                  ≡ some
                      (record (new_row pg sample w.event id percent) { received_at = received }))))
  handle_telemetry_stores {sample} {id} {percent} up q parsed found reads small =
      elim (record_telemetry_lem (telemetry_store pg) sample w) [
        | inr (refused, (e, h, invalid)) ↦ inl (refused, handled_invalid sample e q h invalid)
        | inl (valid, h) ↦
            let its_machine = ap pg.parse_uuid (sample_machine times session update q) ∙ parsed in
            let (succeeds, (received, holds), _) =
              record_sample_keeps pg up sample w valid its_machine found reads small in
            let touched = touch_succeeds pg session (recorded sample) up parsed in
            let stored =
              handled_valid sample q
                (h ∙ ap (λ a. (wrap_result "record telemetry sample" a, recorded sample)) succeeds)
                touched in
            inr (
              valid,
              ap (λ p. p.0) stored,
              (
                received,
                ap
                      (λ (p : Result (Unit {0}) × State).
                        sample_of id (pg.encode_time sample.collected_at) p.1.0.committed)
                      stored
                    ∙ touch_keeps_samples pg session (recorded sample) id
                        (pg.encode_time sample.collected_at)
                    ∙ holds,
              ),
            )
      ]
