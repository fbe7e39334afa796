-- ===== src/Postgres/Schema/Integrity.antt =====
-- The constraints of server/migrations/000001_create_v1_machine_schema.up.sql, as a predicate of the tables: CHECK
-- constraints, keys and foreign keys.
use arxveil.Prelude.{
  ℕ, ◌≤◌, ◌≡◌, refl, ap, Bool, true, false, ◌&&◌, none, some, List, [], ◌∷◌, All, Option-cases, inl,
  inr, ne→false, nat_eq, option_eq, ◌==◌, if◌then◌else◌, arith,
}
use arxveil.Prelude.Int.{pos, ◌≤ℤ◌}
use arxveil.Go.Text.{Bytes}
use arxveil.Postgres.{Server}
use arxveil.Postgres.Schema.{
  Machine, AgentIdentity, TelemetrySample, Database, find_row, update_rows,
}
use arxveil.Postgres.Schema.Rows.{
  UniqueIds, find_machine, find_machine-update_rows, find_row-update_rows,
}
use arxveil.Postgres.Statements.{trim, machine_fits, is_some, is_active}
use arxveil.Postgres.TelemetryStore.{sample_fits, has_key, merge, upsert}

abbrev pub is_machine : List Machine → ℕ → Bool
is_machine rows id = is_some (find_machine id rows)

-- The primary key of the samples.
abbrev pub UniqueKeys : List TelemetrySample → Type 0
UniqueKeys [] = Unit
UniqueKeys (s ∷ rows) =
    (find_row (has_key s.machine_id s.collected_at) rows ≡ none) × UniqueKeys rows

-- The primary key and the agent IDs, and the machines of the identities that are active.
abbrev pub UniqueAgents : List AgentIdentity → Type 0
UniqueAgents [] = Unit
UniqueAgents (i ∷ rows) =
    (find_row (λ k. k.id == i.id) rows ≡ none)
    × (find_row (λ k. k.agent_id == i.agent_id) rows ≡ none)
    × (find_row (λ k. k.machine_id == i.machine_id && is_active k) rows ≡ none)
    × UniqueAgents rows

-- The CHECK constraints of `telemetry_samples`, with percentages in hundredths.
abbrev pub IsBounded : TelemetrySample → Type 0
IsBounded s =
    (s.cpu_usage_percent ≤ 10000)
    × (pos 0 ≤ℤ s.memory_used_bytes)
    × (s.memory_used_bytes ≤ℤ s.memory_total_bytes)
    × (pos 0 ≤ℤ s.disk_used_bytes)
    × (s.disk_used_bytes ≤ℤ s.disk_total_bytes)
    × (pos 0 ≤ℤ s.uptime_seconds)

pub sample_fits-IsBounded : (s : TelemetrySample) → sample_fits s ≡ true → IsBounded s
unfolding sample_fits
sample_fits-IsBounded s h = ground (arith, h)

-- The CHECK constraints of `machines`, on texts that the server accepts.
module _ (pg : Server) where
  abbrev pub HasText : Bytes → Type 0
  HasText text = (pg.accepts_text text ≡ true) × (1 ≤ pg.char_length (trim text))

  abbrev pub HasName : Bytes → Type 0
  HasName text = HasText text × (pg.char_length (trim text) ≤ 255)

  abbrev pub IsDescribed : Machine → Type 0
  IsDescribed m =
      HasName m.name
      × HasName m.hostname
      × HasText m.operating_system
      × HasText m.os_version
      × HasText m.architecture
      × HasText m.agent_version

  pub machine_fits-IsDescribed : (m : Machine) → machine_fits pg m ≡ true → IsDescribed m
  machine_fits-IsDescribed m h = ground (arith, h)

pub record IsIntact (pg : Server) (db : Database) : Type 0 where
  pub machines_fit : All (IsDescribed pg) db.machines
  pub samples_fit : All IsBounded db.telemetry_samples
  pub machine_ids : UniqueIds db.machines
  pub keys : UniqueKeys db.telemetry_samples
  pub agents : UniqueAgents db.agent_identities
  pub identities_belong : All (λ i. is_machine db.machines i.machine_id ≡ true) db.agent_identities
  pub events_belong :
      All (λ e. is_machine db.machines e.machine_id ≡ true) db.machine_presence_events
  pub samples_belong : All (λ s. is_machine db.machines s.machine_id ≡ true) db.telemetry_samples

module _ {A : Type 0} where
  pub All-update_rows :
      (P : A → Type 0) (p : A → Bool) (f : A → A) (xs : List A)
      → ((x : A) → P x → P (f x))
      → All P xs
      → All P (update_rows p f xs)
  unfolding update_rows
  All-update_rows P p f [] keeps h = tt
  All-update_rows P p f (x ∷ xs) keeps h = (one (p x), All-update_rows P p f xs keeps h.1)
    where
      one : (b : Bool) → P (if b then f x else x)
      one true = keeps x h.0
      one false = h.0

  pub find_row-none :
      (p q : A → Bool) (xs : List A)
      → ((x : A) → q x ≡ true → p x ≡ true)
      → find_row p xs ≡ none
      → find_row q xs ≡ none
  unfolding find_row
  find_row-none p q [] f h = refl
  find_row-none p q (x ∷ xs) f h = ground (arith, f x, h, find_row-none p q xs f)

-- No machine vanishes.
abbrev pub Grows : List Machine → List Machine → Type 0
Grows rows rows' = (id : ℕ) → is_machine rows id ≡ true → is_machine rows' id ≡ true

pub Grows-update_rows :
    (p : Machine → Bool) (f : Machine → Machine) (rows : List Machine)
    → ((m : Machine) → (f m).id ≡ m.id)
    → Grows rows (update_rows p f rows)
Grows-update_rows p f rows keeps id h =
    ground (arith, find_machine-update_rows p f keeps id rows, h)

pub Grows-insert : (m : Machine) (rows : List Machine) → Grows rows (m ∷ rows)
unfolding find_row
Grows-insert m rows id h = ground (arith, h)

module _ (received : ℕ) (new : TelemetrySample) where
  abbrev key : TelemetrySample → Bool
  key = has_key new.machine_id new.collected_at

  UniqueKeys-merge :
      (rows : List TelemetrySample)
      → UniqueKeys rows
      → UniqueKeys (update_rows key (merge received new) rows)
  unfolding update_rows
  UniqueKeys-merge [] h = tt
  UniqueKeys-merge (s ∷ rows) h = ground (
    arith,
    find_row-update_rows (has_key s.machine_id s.collected_at) key (merge received new) (λ r. refl)
        rows,
    UniqueKeys-merge rows h.1,
    h.0,
  )

  pub UniqueKeys-upsert :
      (rows : List TelemetrySample) → UniqueKeys rows → UniqueKeys (upsert received new rows)
  unfolding upsert
  UniqueKeys-upsert rows h = elim (Option-cases (find_row key rows)) [
    | inl free ↦ rw (free) (free, h)
    | inr (old, taken) ↦ rw (taken) (UniqueKeys-merge rows h)
  ]

  pub All-upsert :
      (P : TelemetrySample → Type 0) (rows : List TelemetrySample)
      → P new
      → ((r : TelemetrySample) → P r → P (merge received new r))
      → All P rows
      → All P (upsert received new rows)
  unfolding upsert
  All-upsert P rows n m h = elim (Option-cases (find_row key rows)) [
    | inl free ↦ rw (free) (n, h)
    | inr (old, taken) ↦ rw (taken) (All-update_rows P key (merge received new) rows m h)
  ]

-- A row that passes a test on the ID is a row of the machine.
pub find_row-is_machine :
    (id : ℕ) (q : Machine → Bool) (rows : List Machine)
    → ((m : Machine) → q m ≡ true → (m.id == id) ≡ true)
    → {m : Machine} → find_row q rows ≡ some m
    → is_machine rows id ≡ true
unfolding find_row
find_row-is_machine id q [] implies e = cc e
find_row-is_machine id q (r ∷ rows) implies {m} e =
    ground (arith, implies r, e, find_row-is_machine id q rows implies {m = m})

-- A machine that no machine row has the ID of has no identity.
pub no_identity :
    (rows : List Machine) (id : ℕ) (identities : List AgentIdentity)
    → is_machine rows id ≡ false
    → All (λ i. is_machine rows i.machine_id ≡ true) identities
    → find_row (λ k. k.machine_id == id && is_active k) identities ≡ none
unfolding find_row
no_identity rows id [] fresh h = refl
no_identity rows id (i ∷ identities) fresh h =
    ground (arith, other_machine, no_identity rows id identities fresh h.1)
  where
    other_machine : (i.machine_id == id) ≡ false
    other_machine = ne→false i.machine_id id λ e. cc (fresh, h.0, ap (is_machine rows) e)
