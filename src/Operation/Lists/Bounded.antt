-- ===== src/Operation/Lists/Bounded.antt =====
-- What ListOperations gives.
use yorva.Prelude.{
  ℕ, Bool, false, ◌≤◌, zero, suc, ℤ, pos, negsuc, true, List, [], ◌∷◌, Option, none, some, Bytes,
  length, take, select, All, Any, Result, ok, err, ◌≡◌, refl, sym, ap, ◌⊎◌, inl, inr, arith, same,
  same_iff, is_empty, ◌||◌, same_refl, ◌&&◌,
}
use yorva.Prelude.Results.{bind_result}
use mathlib.Core.Path.{subst}
use yorva.Operation.Types.{TargetType, target_type_eq, Operation}
use yorva.Operation.Errors.{OperationError}
use yorva.Operation.Table.{Rows}
use yorva.Operation.Queries.{scan_operation, scan_rows, order_rows, newest_first}
use yorva.Operation.Queries.Latest.{
  select-All, All-order_rows, All-unordered, All-select, newest_asym, newest_trans,
}
use yorva.Operation.Lists.Newest.{Listed, Ordered-order_rows, All-Listed-take}
use yorva.Operation.Clock.{second}
use yorva.Operation.Clock.Order.{second-sorts_before}
use yorva.Operation.Lists.{list_limit, asks_type, asked_row, list_operations}

length-take {ℓ} : {A : Type ℓ} (n : ℕ) (xs : List A) → length (take n xs) ≤ n
length-take zero xs = ground arith
length-take (suc n) [] = ground arith
length-take (suc n) (x ∷ xs) = let rest = length-take n xs in omega arith

All-take {ℓ} : {A : Type ℓ} (P : A → Type 0) (n : ℕ) (xs : List A) → All P xs → All P (take n xs)
All-take P zero xs all = tt
All-take P (suc n) [] all = tt
All-take P (suc n) (x ∷ xs) (first, rest) = (first, All-take P n xs rest)

list_limit_bound : (limit : ℤ) → list_limit limit ≤ 50
list_limit_bound (negsuc n) = ground arith
list_limit_bound (pos n) = ground arith

scanned :
    (p : Option ℕ)
    → (row : Operation) → (rest : List Operation) → (r : Result OperationError (List Operation))
    → (vs : List Operation) → ((us : List Operation) → r ≡ ok us → us ≡ rest)
    → bind_result
        (elim p [ some n ↦ err OperationError.progress_stored | none ↦ ok row ])
        (λ value. bind_result r (λ values. ok (value ∷ values)))
      ≡ ok vs
    → vs ≡ row ∷ rest
scanned none row rest (ok us) vs step found = let eq = step us refl in cc
scanned none row rest (err e) vs step found = cc
scanned (some n) row rest r vs step found = cc

scan_rows-ok : (rows vs : List Operation) → scan_rows rows ≡ ok vs → vs ≡ rows
unfolding scan_rows scan_operation
scan_rows-ok [] vs found = cc
scan_rows-ok (row ∷ rows) vs found =
    scanned row.progress row rows (scan_rows rows) vs (scan_rows-ok rows) found

-- A row of the target that was asked for; an empty text asks for none.
abbrev pub Asks : TargetType → Bytes → Operation → Type 0
Asks t id row =
    ((t ≡ TargetType.other []) ⊎ (row.target_type ≡ t)) × ((id ≡ []) ⊎ (row.target_id ≡ id))

eq_type : (t u : TargetType) → target_type_eq t u ≡ true → t ≡ u
unfolding target_type_eq
eq_type (TargetType.other a) (TargetType.other b) h = ap TargetType.other ((same_iff a b).0 h)
eq_type t u h = ground (arith, h)

asks_type-true : (t u : TargetType) → asks_type t u ≡ true → (t ≡ TargetType.other []) ⊎ (u ≡ t)
asks_type-true (TargetType.other []) u h = inl refl
asks_type-true t u h = inr (eq_type u t h)

asks_id : (id target : Bytes) → (is_empty id || same target id) ≡ true → (id ≡ []) ⊎ (target ≡ id)
asks_id [] target h = inl refl
asks_id (c ∷ id) target h = inr ((same_iff target (c ∷ id)).0 h)

asked_row-Asks :
    (t : TargetType) (id : Bytes) (row : Operation) → asked_row t id row ≡ true → Asks t id row
asked_row-Asks t id row h = (
  asks_type-true t row.target_type (ground (arith, h)),
  asks_id id row.target_id (ground (arith, h)),
)

eq_type_refl : (t : TargetType) → target_type_eq t t ≡ true
unfolding target_type_eq
eq_type_refl (TargetType.other a) = same_refl a
eq_type_refl t = ground arith

asks_type_refl : (t : TargetType) → asks_type t t ≡ true
asks_type_refl (TargetType.other []) = refl
asks_type_refl t = eq_type_refl t

asks_type_any : (t u : TargetType) → t ≡ TargetType.other [] → asks_type t u ≡ true
asks_type_any t u h = rw h refl

asks_both : (a b : Bool) → a ≡ true → b ≡ true → (a && b) ≡ true
asks_both a b g h = ground (arith, g, h)

asks_id-true :
    (id target : Bytes) → (id ≡ []) ⊎ (target ≡ id) → (is_empty id || same target id) ≡ true
asks_id-true id target (inl h) = rw h refl
asks_id-true id target (inr h) = ground (arith, (same_iff target id).1 h)

asks_type-target : (t u : TargetType) → (t ≡ TargetType.other []) ⊎ (u ≡ t) → asks_type t u ≡ true
asks_type-target t u (inl h) = asks_type_any t u h
asks_type-target t u (inr h) = rw h (asks_type_refl t)

asked_row-true :
    (t : TargetType) (id : Bytes) (row : Operation) → Asks t id row → asked_row t id row ≡ true
asked_row-true t id row (by_type, by_id) =
    asks_both _ _ (asks_type-target t row.target_type by_type) (asks_id-true id row.target_id by_id)

-- A row is listed, or the list is as long as the limit and no row of it is of an earlier second.
abbrev pub Shown : ℕ → List Operation → Operation → Type 0
Shown n vs row =
    Any (λ v. v ≡ row) vs
    ⊎ ((length vs ≡ n) × All (λ v. second row.created_at ≤ second v.created_at) vs)

no_earlier :
    (row : Operation) (vs : List Operation)
    → All (λ v. newest_first row v ≡ false) vs
    → All (λ v. second row.created_at ≤ second v.created_at) vs
no_earlier row [] all = tt
no_earlier row (v ∷ vs) (first, all) =
    (second-sorts_before v.created_at row.created_at first, no_earlier row vs all)

Shown-Listed :
    (n : ℕ) (vs : List Operation) (row : Operation) → Listed newest_first n vs row → Shown n vs row
Shown-Listed n vs row (inl found) = inl found
Shown-Listed n vs row (inr (full, behind)) = inr (full, no_earlier row vs behind)

pub All-implies :
    (P Q : Operation → Type 0)
    → (rows : List Operation) → ((row : Operation) → P row → Q row)
    → All P rows
    → All Q rows
All-implies P Q [] implies all = tt
All-implies P Q (row ∷ rows) implies (first, rest) =
    (implies row first, All-implies P Q rows implies rest)

-- A list that ListOperations gives has at most 50 operations, whatever the limit asked for, all of
-- them with the type and the identifier of the target that were asked for. Every row of the table
-- with that target is listed, unless the list is as long as the limit and has no operation of an
-- earlier second.
pub list_operations_bound :
    (t : TargetType)
    → (id : Bytes) → (limit : ℤ) → (rows : Rows) → (vs : List Operation)
    → list_operations t id limit rows ≡ ok vs
    → (length vs ≤ 50)
      × (All (Asks t id) vs × All (λ row. Asks t id row → Shown (list_limit limit) vs row) rows)
unfolding list_operations
list_operations_bound t id limit rows vs found =
    let n = list_limit limit in
    let chosen = select (asked_row t id) rows in
    let listed = order_rows newest_first chosen in
    let eq = scan_rows-ok (take n listed) vs found in
    let short = length-take n listed in
    let bound = list_limit_bound limit in
    let asked = All-take (Asks t id) n listed (
      All-order_rows newest_first (Asks t id) chosen
        (All-implies _ _ chosen (asked_row-Asks t id) (select-All (asked_row t id) rows))) in
    let shown = All-unordered newest_first (Shown n (take n listed)) chosen (
      All-implies _ _ listed (Shown-Listed n (take n listed)) (
        All-Listed-take newest_first newest_asym newest_trans n listed
          (Ordered-order_rows newest_first newest_asym newest_trans chosen))) in
    let complete =
      All-implies _ (λ row. Asks t id row → Shown n (take n listed) row) rows
        (λ row keeps asks. keeps (asked_row-true t id row asks))
        (All-select (asked_row t id) (Shown n (take n listed)) rows shown) in
    subst
      (λ us.
        (length us ≤ 50) × (All (Asks t id) us × All (λ row. Asks t id row → Shown n us row) rows))
      (sym eq) ((omega arith), (asked, complete))
