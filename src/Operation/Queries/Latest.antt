-- ===== src/Operation/Queries/Latest.antt =====
-- LatestRuntimeInstall gives an installation of the latest second.
use yorva.Prelude.{
  ℕ, ◌≤◌, Bool, true, false, Option, none, some, List, [], ◌∷◌, Bytes, if◌then◌else◌, select, All,
  ok, err, ◌≡◌, Bool-cases, inl, inr,
}
use yorva.Prelude.Results.{bind_result}
use mathlib.Core.Path.{subst}
use yorva.Operation.Types.{Operation}
use yorva.Operation.Errors.{OperationError}
use yorva.Operation.Table.{Rows}
use yorva.Operation.Clock.{second, sorts_before}
use yorva.Operation.Clock.Order.{sorts_before_asym, sorts_before_trans, second-sorts_before}
use yorva.Operation.Queries.{
  scan_operation, scan_row, insert_row, order_rows, newest_first, is_install_of,
  latest_runtime_install,
}

abbrev Least : (Operation → Operation → Bool) → List Operation → Type 0
Least before [] = Unit
Least before (row ∷ rows) = All (λ r. before r row ≡ false) rows

module _ (before : Operation → Operation → Bool) where
  pub All-insert_row :
      (P : Operation → Type 0)
      → (row : Operation) → (rows : List Operation) → P row
      → All P rows
      → All P (insert_row before row rows)
  unfolding insert_row
  All-insert_row P row [] p all = (p, tt)
  All-insert_row P row (r ∷ rows) p (first, rest) =
      let later = All-insert_row P row rows p rest in
      elim (before r row)
        as (λ b. All P (if b then r ∷ insert_row before row rows else row ∷ r ∷ rows)) [
          | true ↦ (first, later)
          | false ↦ (p, (first, rest))
        ]

  pub All-order_rows :
      (P : Operation → Type 0)
      → (rows : List Operation) → All P rows
      → All P (order_rows before rows)
  unfolding order_rows
  All-order_rows P [] all = tt
  All-order_rows P (row ∷ rows) (first, rest) =
      All-insert_row P row (order_rows before rows) first (All-order_rows P rows rest)

  -- What holds of the ordered rows holds of the rows.
  All-unordered_row :
      (P : Operation → Type 0)
      → (row : Operation) → (rows : List Operation) → All P (insert_row before row rows)
      → P row × All P rows
  unfolding insert_row
  All-unordered_row P row [] = λ all. all
  All-unordered_row P row (r ∷ rows) =
      let later = All-unordered_row P row rows in
      elim (before r row)
        as (λ b.
          All P (if b then r ∷ insert_row before row rows else row ∷ r ∷ rows)
          → P row × (P r × All P rows)) [
            | true ↦ λ (first, rest). let (p, q) = later rest in (p, (first, q))
            | false ↦ λ all. all
          ]

  pub All-unordered :
      (P : Operation → Type 0)
      → (rows : List Operation) → All P (order_rows before rows)
      → All P rows
  unfolding order_rows
  All-unordered P [] all = tt
  All-unordered P (row ∷ rows) all =
      let (p, rest) = All-unordered_row P row (order_rows before rows) all in
      (p, All-unordered P rows rest)

module _ (before : Operation → Operation → Bool)
    (asym : (a b : Operation) → before a b ≡ true → before b a ≡ false)
    (trans : (a b c : Operation)
      → before b a ≡ false
      → before c b ≡ false
      → before c a ≡ false) where
  pub All-trans :
      (a b : Operation)
      → (rows : List Operation) → before b a ≡ false
      → All (λ r. before r b ≡ false) rows
      → All (λ r. before r a ≡ false) rows
  All-trans a b [] ab all = tt
  All-trans a b (r ∷ rows) ab (first, rest) = (trans a b r ab first, All-trans a b rows ab rest)

  Least-insert_row :
      (row : Operation)
      → (rows : List Operation) → Least before rows
      → Least before (insert_row before row rows)
  unfolding insert_row
  Least-insert_row row [] least = tt
  Least-insert_row row (r ∷ rows) least = elim (Bool-cases (before r row)) [
    | inl first ↦
        rw first (All-insert_row before (λ x. before x r ≡ false) row rows (asym r row first) least)
    | inr later ↦ rw later (later, All-trans row r rows later least)
  ]

  Least-order_rows : (rows : List Operation) → Least before (order_rows before rows)
  unfolding order_rows
  Least-order_rows [] = tt
  Least-order_rows (row ∷ rows) =
      Least-insert_row row (order_rows before rows) (Least-order_rows rows)

pub All-select :
    (test : Operation → Bool)
    → (P : Operation → Type 0) → (rows : List Operation) → All P (select test rows)
    → All (λ row. test row ≡ true → P row) rows
All-select test P [] = λ all. tt
All-select test P (row ∷ rows) =
    let rest = All-select test P rows in
    elim (Bool-cases (test row)) [
      | inl found ↦ rw found (λ (first, later). ((λ asked. first), rest later))
      | inr missed ↦ rw missed (λ later. ((λ asked. cc), rest later))
    ]

pub select-All :
    (test : Operation → Bool)
    → (rows : List Operation) → All (λ row. test row ≡ true) (select test rows)
select-All test [] = tt
select-All test (row ∷ rows) =
    let rest = select-All test rows in
    elim (Bool-cases (test row)) [
      | inl found ↦ rw found (found, rest)
      | inr missed ↦ rw missed rest
    ]

scanned_by :
    (p : Option ℕ)
    → (row v : Operation)
    → bind_result
        (elim p [ some n ↦ err OperationError.progress_stored | none ↦ ok row ])
        (λ value. ok (some value))
      ≡ ok (some v)
    → row ≡ v
scanned_by none row v found = cc
scanned_by (some n) row v found = cc

-- What a scanned first row says of the rows.
scan_row_first :
    (before : Operation → Operation → Bool)
    → (P : Operation → Type 0) → (rows : List Operation) → (v : Operation) → Least before rows
    → ((row : Operation) → before row row ≡ false)
    → All P rows
    → scan_row rows ≡ ok (some v)
    → P v × All (λ r. before r v ≡ false) rows
unfolding scan_row scan_operation
scan_row_first before P [] v least irrefl all found = cc
scan_row_first before P (row ∷ rows) v least irrefl (first, rest) found =
    subst (λ w. P w × All (λ r. before r w ≡ false) (row ∷ rows))
      (scanned_by row.progress row v found) (first, (irrefl row, least))

pub weaken :
    (P Q : Operation → Type 0)
    → (rows : List Operation) → ((row : Operation) → P row → Q row)
    → All P rows
    → All Q rows
weaken P Q [] implies all = tt
weaken P Q (row ∷ rows) implies (first, rest) = (implies row first, weaken P Q rows implies rest)

pub irreflexive : (a : ℕ) → sorts_before a a ≡ false
irreflexive a = elim (Bool-cases (sorts_before a a)) [
  | inl earlier ↦ sorts_before_asym a a earlier
  | inr later ↦ later
]

pub newest_asym : (a b : Operation) → newest_first a b ≡ true → newest_first b a ≡ false
newest_asym a b before = sorts_before_asym b.created_at a.created_at before

pub newest_trans :
    (a b c : Operation)
    → newest_first b a ≡ false
    → newest_first c b ≡ false
    → newest_first c a ≡ false
newest_trans a b c ab bc = sorts_before_trans c.created_at b.created_at a.created_at bc ab

-- The operation that LatestRuntimeInstall gives is an installation of the kind, and no installation
-- of the kind was created in a later second.
pub latest_runtime_install_lem :
    (kind : Bytes)
    → (rows : Rows) → (v : Operation) → latest_runtime_install kind rows ≡ ok (some v)
    → (is_install_of kind v ≡ true)
      × All
          (λ row. is_install_of kind row ≡ true → second row.created_at ≤ second v.created_at)
          rows
unfolding latest_runtime_install
latest_runtime_install_lem kind rows v found =
    let chosen = select (is_install_of kind) rows in
    let (asked, later) =
      scan_row_first newest_first (λ row. is_install_of kind row ≡ true)
        (order_rows newest_first chosen) v
        (Least-order_rows newest_first newest_asym newest_trans chosen)
        (λ row. irreflexive row.created_at)
        (All-order_rows newest_first (λ row. is_install_of kind row ≡ true) chosen
          (select-All (is_install_of kind) rows))
        found in
    let later' = All-unordered newest_first (λ r. newest_first r v ≡ false) chosen later in
    (
      asked,
      weaken _ _ rows
          (λ row keeps asked. second-sorts_before v.created_at row.created_at (keeps asked))
          (All-select (is_install_of kind) (λ r. newest_first r v ≡ false) rows later'),
    )
