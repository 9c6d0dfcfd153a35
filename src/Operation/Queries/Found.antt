-- ===== src/Operation/Queries/Found.antt =====
-- The row that GetOperation gives.
use yorva.Prelude.{
  Bool, true, false, ◌≡◌, refl, ap, sym, ◌∙◌, none, some, [], ◌∷◌, ◌++◌, Bytes, same, same_refl,
  same_iff, arith, Bool-cases, inl, inr, select, Result, ok, err,
}
use yorva.Prelude.Results.{bind_result}
use yorva.Operation.Types.{Operation}
use yorva.Operation.Constraints.{Constraint, any_row, breaks}
use yorva.Operation.Errors.{OperationError}
use yorva.Operation.Table.{Rows}
use yorva.Operation.Table.Rows.{IsConsistent, has_id, alone}
use yorva.Operation.Queries.{scan_operation, scan_row, get_operation}

-- Where a row stands in a table.
pub record Place (rows : Rows) (row : Operation) : Type 0 where
  pub before : Rows
  pub after : Rows
  pub parts : rows ≡ before ++ row ∷ after

first_selected :
    (p : Operation → Bool) (rows : Rows) (v : Operation) (vs : Rows)
    → select p rows ≡ v ∷ vs
    → Place rows v × (p v ≡ true)
first_selected p [] v vs h = cc
first_selected p (row ∷ rows) v vs h = elim (Bool-cases (p row)) [
  | inl hit ↦
      let here : row ≡ v = ground (arith, rw hit at h) in
      (record { before = []; after = rows; parts = ap (λ r. r ∷ rows) here }, ap p (sym here) ∙ hit)
  | inr miss ↦
      let (place, holds) = first_selected p rows v vs (rw miss at h) in
      (
        record {
          before = row ∷ place.before;
          after = place.after;
          parts = ap (λ rs. row ∷ rs) place.parts;
        },
        holds,
      )
]

-- The rows that a query selected, when GetOperation succeeds.
record HeadOf (found : Rows) (v : Operation) : Type 0 where
  rest : Rows
  is_first : found ≡ v ∷ rest

get_selected : Rows → Result OperationError Operation
unfolding scan_row scan_operation
get_selected found =
    bind_result (scan_row found) (λ found. elim found [
      | none ↦ err OperationError.operation_not_found
      | some value ↦ ok value
    ])

head_found : (found : Rows) (v : Operation) → get_selected found ≡ ok v → HeadOf found v
unfolding get_selected scan_row scan_operation
head_found [] v h = cc
head_found (row ∷ rows) v h = record {
  rest = rows;
  is_first = ap (λ r. r ∷ rows) (ground (arith, h));
}

-- The operation that GetOperation gives is a row of the table, with the identifier asked for.
pub get_operation-Place :
    (id : Bytes) (rows : Rows) (v : Operation)
    → get_operation id rows ≡ ok v
    → Place rows v × (v.id ≡ id)
unfolding get_operation get_selected
get_operation-Place id rows v h =
    let s = head_found (select (λ row. same row.id id) rows) v h in
    let (place, holds) = first_selected (λ row. same row.id id) rows v s.rest s.is_first in
    (place, (same_iff v.id id).0 holds)

skip_absent :
    (id : Bytes) (xs ys : Rows)
    → has_id id xs ≡ false
    → select (λ row. same row.id id) (xs ++ ys) ≡ select (λ row. same row.id id) ys
unfolding any_row
skip_absent id [] ys h = refl
skip_absent id (x ∷ xs) ys h = ground (arith, h, skip_absent id xs ys)

-- GetOperation gives a row of a consistent table by its identifier.
pub get_operation-IsConsistent :
    (v : Operation) (xs ys : Rows)
    → IsConsistent (xs ++ v ∷ ys)
    → v.progress ≡ none
    → get_operation v.id (xs ++ v ∷ ys) ≡ ok v
unfolding get_operation scan_row scan_operation breaks
get_operation-IsConsistent v xs ys good empty =
    let (absent, later) = alone v xs ys (good.kept Constraint.primary_key) in
    rw (skip_absent v.id xs (v ∷ ys) absent, same_refl v.id, empty) refl
