-- ===== src/Postgres/EnrollmentStore/Progress.antt =====
-- An enrollment that validation has let through, without failures.
use mathlib.Core.List.{reverse-reverse}
use arxveil.Prelude.{
  ℕ, suc, ◌≤◌, ◌≡◌, ◌≢◌, refl, true, ◌&&◌, ◌||◌, none, [], ◌∷◌, all, length, reverse, nat_eq,
  option_eq, ◌==◌, eq_refl, arith,
}
use arxveil.Go.Text.{Bytes, space_width, space_width_back, ascii_space}
use arxveil.Go.Text.Trim.{IsTrimmed}
use arxveil.Go.Fault.{ok}
use arxveil.Enrollment.{Input, StoredEnrollment}
use arxveil.Enrollment.Validation.Normal.{IsName, IsNormal}
use arxveil.Enrollment.Service.{stored}
use arxveil.Postgres.{Server, World, begin, commit}
use arxveil.Postgres.Schema.{Database, find_row, machine_of}
use arxveil.Postgres.Statements.{
  insert_machine, insert_agent_identity, machine_fits, name_fits, text_fits, drop_spaces, trim,
  is_active,
}
use arxveil.Postgres.EnrollmentStore.{enroll}
use arxveil.Postgres.EnrollmentStore.Effects.{
  new_machine, new_identity, enrolled_tables, enroll_commits,
}
use arxveil.Postgres.PresenceStore.Effects.{ReadsUuids}
use arxveil.Postgres.PresenceStore.Progress.{NoOutage}

front_stays : (s : Bytes) → space_width s ≡ 0 → drop_spaces s ≡ s
unfolding space_width drop_spaces ascii_space
front_stays [] h = refl
front_stays (a ∷ []) h = ground (arith, h)
front_stays (a ∷ b ∷ []) h = ground (arith, h)
front_stays (a ∷ b ∷ c ∷ s) h = ground (arith, h)

back_stays : (s : Bytes) → space_width_back s ≡ 0 → drop_spaces s ≡ s
unfolding space_width_back drop_spaces ascii_space
back_stays [] h = refl
back_stays (a ∷ []) h = ground (arith, h)
back_stays (a ∷ b ∷ []) h = ground (arith, h)
back_stays (a ∷ b ∷ c ∷ s) h = ground (arith, h)

-- A text that `strings.TrimSpace` leaves as it is, `trim` leaves too.
trim-fixed : (s : Bytes) → IsTrimmed s → trim s ≡ s
trim-fixed s t = rw (front_stays s t.front, back_stays (reverse s) t.back, reverse-reverse s)

-- A text of some bytes has some characters, and not more than bytes.
abbrev pub CountsCharacters : Server → Type 0
CountsCharacters pg = (s : Bytes) → (pg.char_length s ≤ length s) × (s ≢ [] → 1 ≤ pg.char_length s)

module _ (pg : Server) (counts : CountsCharacters pg) {maximum : ℕ} (small : maximum ≤ 255)
    (s : Bytes) (name : IsName maximum s) (accepted : pg.accepts_text s ≡ true) where
  IsName-name_fits : name_fits pg s ≡ true
  IsName-name_fits =
      rw (trim-fixed s name.trimmed, accepted)
        (ground (arith, small, (counts s).0, (counts s).1 name.nonempty, name.short))

  IsName-text_fits : text_fits pg s ≡ true
  IsName-text_fits =
      rw (trim-fixed s name.trimmed, accepted) (ground (arith, (counts s).1 name.nonempty))

-- The server's encoding has all texts of the input.
abbrev pub AcceptsTexts : Server → Input → Type 0
AcceptsTexts pg i =
    (pg.accepts_text i.hostname ≡ true)
    × (pg.accepts_text i.operating_system ≡ true)
    × (pg.accepts_text i.os_version ≡ true)
    × (pg.accepts_text i.architecture ≡ true)
    × (pg.accepts_text i.agent_version ≡ true)
    × (all pg.accepts_text i.capabilities ≡ true)

-- The new IDs are not in use, and no identity is stored for the new machine.
abbrev pub FreeIds : Server → StoredEnrollment → World → Type 0
FreeIds pg input w =
    (machine_of (new_machine pg input w.event).id w.committed ≡ none)
    × (find_row
          (λ i.
            i.id == (new_identity pg input w.event).id
            || i.agent_id == (new_identity pg input w.event).agent_id)
          w.committed.agent_identities
        ≡ none)
    × (find_row (λ i. i.machine_id == (new_machine pg input w.event).id && is_active i)
          w.committed.agent_identities
        ≡ none)

IsNormal-machine_fits :
    (pg : Server) (i : Input) (credential_hash : Bytes) (n : ℕ)
    → CountsCharacters pg
    → IsNormal i
    → AcceptsTexts pg i
    → machine_fits pg (new_machine pg (stored credential_hash i) n) ≡ true
IsNormal-machine_fits pg i credential_hash n counts normal
      (hostname, os, version, architecture, agent, _) =
    rw (
      IsName-name_fits pg counts (omega arith) i.hostname normal.hostname hostname,
      IsName-text_fits pg counts (omega arith) i.operating_system normal.operating_system os,
      IsName-text_fits pg counts (omega arith) i.os_version normal.os_version version,
      IsName-text_fits pg counts (omega arith) i.architecture normal.architecture architecture,
      IsName-text_fits pg counts (omega arith) i.agent_version normal.agent_version agent,
    )

module _ (pg : Server) (input : StoredEnrollment) (n : ℕ) (db : Database) where
  -- The transaction after its start, and after its first statement.
  abbrev begun : World
  begun = record { committed = db; working = db; event = suc (suc n); started = pg.now (suc n) }

  abbrev with_machine : World
  with_machine = record begun {
    working = record db { machines = new_machine pg input n ∷ db.machines };
    event = suc (suc (suc n));
  }

  insert_machine_succeeds :
      machine_fits pg (new_machine pg input n) ≡ true
      → machine_of (new_machine pg input n).id db ≡ none
      → insert_machine pg input.hostname input.hostname input.operating_system input.os_version
          input.architecture input.agent_version begun
        ≡ (ok (pg.show_uuid (new_machine pg input n).id), with_machine)
  unfolding insert_machine
  insert_machine_succeeds fits free = rw (fits, free)

  insert_agent_identity_succeeds :
      ReadsUuids pg
      → all pg.accepts_text input.capabilities ≡ true
      → find_row
          (λ i.
            i.id == (new_identity pg input n).id
            || i.agent_id == (new_identity pg input n).agent_id)
          db.agent_identities
        ≡ none
      → find_row
          (λ i. i.machine_id == (new_machine pg input n).id && is_active i)
          db.agent_identities
        ≡ none
      → insert_agent_identity pg
          (pg.show_uuid (new_machine pg input n).id)
          input.credential_hash
          input.capabilities
          (record with_machine { event = suc (suc (suc (suc n))) })
        ≡ (
          ok (pg.show_uuid (new_identity pg input n).agent_id),
          record with_machine {
            working = enrolled_tables pg input n db;
            event = suc (suc (suc (suc (suc (suc n)))));
          },
        )
  unfolding insert_agent_identity find_row
  insert_agent_identity_succeeds reads accepts unused alone = rw (
    reads (new_machine pg input n).id,
    accepts,
    eq_refl (new_machine pg input n).id,
    unused,
    alone,
  )

module _ (pg : Server) (up : NoOutage pg) (counts : CountsCharacters pg) (reads : ReadsUuids pg)
    (i : Input) (credential_hash : Bytes) (w : World) where
  enroll_succeeds :
      machine_fits pg (new_machine pg (stored credential_hash i) w.event) ≡ true
      → all pg.accepts_text i.capabilities ≡ true
      → FreeIds pg (stored credential_hash i) w
      → (enroll pg (stored credential_hash i) w).0
        ≡ ok (
          pg.show_uuid (new_machine pg (stored credential_hash i) w.event).id,
          pg.show_uuid (new_identity pg (stored credential_hash i) w.event).agent_id,
        )
  unfolding enroll begin commit
  enroll_succeeds fits accepts (free, unused, alone) =
      let input = stored credential_hash i in
      rw (
        up w.event,
        up (suc w.event),
        insert_machine_succeeds pg input w.event w.committed fits free,
        up (suc (suc (suc w.event))),
        insert_agent_identity_succeeds pg input w.event w.committed reads accepts unused alone,
        up (suc (suc (suc (suc (suc (suc w.event)))))),
      )

  -- Suppose that no request fails, that the driver reads back the UUIDs that it writes, that a text
  -- has at most as many characters as bytes and a nonempty one has some, and that the server's
  -- encoding has all texts of the input. When the input is as validation returns it and the new IDs
  -- are free, the enrollment succeeds and returns the IDs of the new machine and its agent, and
  -- both rows are committed.
  pub enroll_stores :
      IsNormal i
      → AcceptsTexts pg i
      → FreeIds pg (stored credential_hash i) w
      → ((enroll pg (stored credential_hash i) w).0
          ≡ ok (
            pg.show_uuid (new_machine pg (stored credential_hash i) w.event).id,
            pg.show_uuid (new_identity pg (stored credential_hash i) w.event).agent_id,
          ))
        × ((enroll pg (stored credential_hash i) w).1.committed
            ≡ enrolled_tables pg (stored credential_hash i) w.event w.committed)
  enroll_stores normal accepts free =
      let succeeds =
        enroll_succeeds (IsNormal-machine_fits pg i credential_hash w.event counts normal accepts)
          accepts.5 free in
      (succeeds, (enroll_commits pg (stored credential_hash i) w (reads _) succeeds).0)
