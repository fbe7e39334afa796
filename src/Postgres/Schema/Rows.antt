-- ===== src/Postgres/Schema/Rows.antt =====
-- Lookups in a table after an update of its rows.
use arxveil.Prelude.{
  ℕ, ◌≡◌, ◌≢◌, refl, subst, eq→path, Bool-cases, inl, inr, not_true→false, Bool, true, false,
  Option, none, some, List, [], ◌∷◌, nat_eq, ◌==◌, if◌then◌else◌, arith,
}
use arxveil.Postgres.Schema.{Machine, find_row, update_rows}

abbrev pub map_some : {A B : Type 0} → (A → B) → Option A → Option B
map_some f none = none
map_some f (some a) = some (f a)

abbrev pub find_machine : ℕ → List Machine → Option Machine
find_machine id rows = find_row (λ m. m.id == id) rows

-- No two machines have the same ID.
abbrev pub UniqueIds : List Machine → Type 0
UniqueIds [] = Unit
UniqueIds (m ∷ rows) = (find_machine m.id rows ≡ none) × UniqueIds rows

module _ (p : Machine → Bool) (f : Machine → Machine)
    (keeps_id : (m : Machine) → (f m).id ≡ m.id) where
  pub find_machine-update_rows :
      (id : ℕ) (rows : List Machine)
      → find_machine id (update_rows p f rows)
        ≡ map_some (λ m. if p m then f m else m) (find_machine id rows)
  unfolding find_row update_rows
  find_machine-update_rows id [] = refl
  find_machine-update_rows id (m ∷ rows) =
      ground (arith, keeps_id m, find_machine-update_rows id rows)

  pub UniqueIds-update_rows :
      (rows : List Machine) → UniqueIds rows → UniqueIds (update_rows p f rows)
  unfolding update_rows
  UniqueIds-update_rows [] h = tt
  UniqueIds-update_rows (m ∷ rows) h =
      ground (arith, keeps_id m, find_machine-update_rows m.id rows, UniqueIds-update_rows rows h.1)

-- Where IDs are unique, a row that passes a test on the ID and more is the row with the ID.
pub find_row_unique :
    (id : ℕ) (q : Machine → Bool) (rows : List Machine)
    → ((m : Machine) → q m ≡ true → m.id ≡ id)
    → UniqueIds rows
    → {m : Machine} → find_row q rows ≡ some m
    → (find_machine id rows ≡ some m) × (q m ≡ true)
unfolding find_row
find_row_unique id q [] h u e = cc
find_row_unique id q (r ∷ rows) h u {m} e =
    ground (arith, h r, find_row_unique id q rows h u.1 {m = m})

pub find_machine-id :
    (id : ℕ) (rows : List Machine) {m : Machine} → find_machine id rows ≡ some m → m.id ≡ id
unfolding find_row
find_machine-id id [] e = cc
find_machine-id id (r ∷ rows) {m} e = ground (arith, find_machine-id id rows {m = m})

-- Where the row with the ID fails a test that implies the ID, no row passes it.
module _ (id : ℕ) (q : Machine → Bool) (implies : (m : Machine) → q m ≡ true → m.id ≡ id) where
  absent_fails : (r : Machine) → r.id ≢ id → q r ≡ false
  absent_fails r n = not_true→false (q r) (λ t. n (implies r t))

  pub update_rows_absent :
      (f : Machine → Machine) (rows : List Machine)
      → find_machine id rows ≡ none
      → update_rows q f rows ≡ rows
  unfolding update_rows find_row
  update_rows_absent f [] e = refl
  update_rows_absent f (r ∷ rows) e = ground (arith, absent_fails r, update_rows_absent f rows)

  pub update_rows_failing :
      (f : Machine → Machine) (rows : List Machine) {m : Machine}
      → UniqueIds rows
      → find_machine id rows ≡ some m
      → q m ≡ false
      → update_rows q f rows ≡ rows
  unfolding update_rows find_row
  update_rows_failing f [] u e n = refl
  update_rows_failing f (r ∷ rows) {m} u e n = elim (Bool-cases (r.id == id)) [
    | inl same ↦
        let gone = subst (λ k. find_machine k rows ≡ none) (eq→path r.id id same) u.0 in
        ground (arith, same, update_rows_absent f rows gone, e, n)
    | inr differ ↦ ground (arith, absent_fails r, update_rows_failing f rows {m = m} u.1)
  ]

  pub find_row_failing :
      (rows : List Machine) {m : Machine}
      → UniqueIds rows
      → find_machine id rows ≡ some m
      → q m ≡ false
      → find_row q rows ≡ none
  find_row_failing rows {m} u e n = go (find_row q rows) refl
    where
      go : (o : Option Machine) → find_row q rows ≡ o → find_row q rows ≡ none
      go none h = h
      go (some k) h =
          let (found, passes) = find_row_unique id q rows implies u h in cc (found, e, passes, n)

  -- The row with the ID is found by a test that it passes.
  pub find_row_passing :
      (rows : List Machine) {m : Machine}
      → find_machine id rows ≡ some m
      → q m ≡ true
      → find_row q rows ≡ some m
  unfolding find_row
  find_row_passing [] e t = cc
  find_row_passing (r ∷ rows) {m} e t = ground (arith, implies r, find_row_passing rows {m = m})

module _ {A : Type 0} (q p : A → Bool) (f : A → A) (keeps : (r : A) → q (f r) ≡ q r) where
  -- An update that keeps what a search reads.
  pub find_row-update_rows :
      (rows : List A)
      → find_row q (update_rows p f rows) ≡ map_some (λ r. if p r then f r else r) (find_row q rows)
  unfolding find_row update_rows
  find_row-update_rows [] = refl
  find_row-update_rows (r ∷ rows) = ground (arith, keeps r, find_row-update_rows rows)

module _ {A : Type 0} (q : A → Bool) where
  pub find_row-passes : (rows : List A) {r : A} → find_row q rows ≡ some r → q r ≡ true
  unfolding find_row
  find_row-passes [] e = cc
  find_row-passes (x ∷ rows) {r} e = ground (arith, e, find_row-passes rows {r = r})
