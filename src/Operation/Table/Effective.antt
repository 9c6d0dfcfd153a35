-- ===== src/Operation/Table/Effective.antt =====
-- An update of one row of a table that breaks no constraint takes effect.
use mathlib.Core.Path.{subst}
use yorva.Prelude.{
  ℕ, Bool, true, false, not, ◌&&◌, ◌≡◌, refl, ap, ◌∙◌, Option, none, some, List, [], ◌∷◌, ◌++◌,
  same, same_refl, arith, select, ok,
}
use yorva.Operation.Types.{status_eq, Operation}
use yorva.Operation.Status.{valid_status_change}
use yorva.Operation.Constraints.{Constraint, any_row, breaks, is_active, constraints, completion_ok}
use yorva.Operation.Table.{
  Report, Rows, matches, updated, update_row, update_rows, affected, broken, update_effect,
  update_statement, update_operation,
}
use yorva.Operation.Table.Rows.{
  IsConsistent, has, status_eq_refl, update_rows-absent, affected-absent, update_rows-append,
  affected-append, update_rows-IsConsistent, alone,
}

select_none : {A : Type 0} (p : A → Bool) (xs : List A) → ((a : A) → p a ≡ false) → select p xs ≡ []
select_none p [] h = refl
select_none p (x ∷ xs) h = ground (arith, h x, select_none p xs h)

matches_refl : (row : Operation) → matches row row ≡ true
unfolding matches
matches_refl row = ground (arith, same_refl row.id, status_eq_refl row.status)

pub update_rows-one :
    (row next : Operation) (xs ys : Rows)
    → IsConsistent (xs ++ row ∷ ys)
    → update_rows row next (xs ++ row ∷ ys) ≡ xs ++ updated next row ∷ ys
unfolding update_rows update_row breaks
update_rows-one row next xs ys good =
    let (before, after) = alone row xs ys (good.kept Constraint.primary_key) in
    rw (
      update_rows-append row next xs (row ∷ ys),
      update_rows-absent row next xs before,
      update_rows-absent row next ys after,
      matches_refl row,
    )

pub affected-one :
    (row : Operation) (xs ys : Rows)
    → IsConsistent (xs ++ row ∷ ys)
    → affected row (xs ++ row ∷ ys) ≡ 1
unfolding affected breaks
affected-one row xs ys good =
    let (before, after) = alone row xs ys (good.kept Constraint.primary_key) in
    rw (
      affected-append row xs (row ∷ ys),
      affected-absent row xs before,
      affected-absent row ys after,
      matches_refl row,
    )

pub broken-IsConsistent : (rows : Rows) → IsConsistent rows → broken rows ≡ []
unfolding broken
broken-IsConsistent rows good = select_none (λ c. breaks c rows) constraints good.kept

-- The statement that updates one row of a consistent table takes effect on that row.
update_statement-one :
    (report : Report) (row next : Operation) (xs ys : Rows)
    → IsConsistent (xs ++ row ∷ ys)
    → IsConsistent (xs ++ updated next row ∷ ys)
    → update_statement report row next (xs ++ row ∷ ys) ≡ ok (xs ++ updated next row ∷ ys)
unfolding update_statement update_effect
update_statement-one report row next xs ys good good' =
    ap (λ rows. update_effect report (affected row (xs ++ row ∷ ys)) rows (broken rows))
      (update_rows-one row next xs ys good)
    ∙ ap (λ n. update_effect report n after (broken after)) (affected-one row xs ys good)
    ∙ ap (λ cs. update_effect report 1 after cs) (broken-IsConsistent after good')
  where
    after : Rows
    after = xs ++ updated next row ∷ ys

pub no_progress-middle :
    (row : Operation) (xs ys : Rows)
    → any_row (λ r. has r.progress) (xs ++ row ∷ ys) ≡ false
    → row.progress ≡ none
unfolding any_row
no_progress-middle row [] ys h = nothing row.progress (ground (arith, h))
  where
    nothing : (o : Option ℕ) → has o ≡ false → o ≡ none
    nothing none e = refl
    nothing (some n) e = ground (arith, e)
no_progress-middle row (x ∷ xs) ys h = no_progress-middle row xs ys (ground (arith, h))

any_row-middle :
    (p : Operation → Bool) (row : Operation) (xs ys : Rows)
    → any_row p (xs ++ row ∷ ys) ≡ false
    → p row ≡ false
unfolding any_row
any_row-middle p row [] ys h = ground (arith, h)
any_row-middle p row (x ∷ xs) ys h = any_row-middle p row xs ys (ground (arith, h))

unnegated : (b : Bool) → not b ≡ false → b ≡ true
unnegated b h = ground (arith, h)

-- The completion time of a row is as its status asks for.
pub completion-middle :
    (row : Operation) (xs ys : Rows)
    → IsConsistent (xs ++ row ∷ ys)
    → completion_ok row.status row.completed_at ≡ true
unfolding breaks
completion-middle row xs ys good = unnegated _ (
    any_row-middle (λ r. not (completion_ok r.status r.completed_at)) row xs ys
      (good.kept Constraint.status_check))

-- What an operation may be updated to: it keeps its identifier and has no progress, its status may be
-- changed so and is not made active again, and its completion time is as the status asks for.
pub record Changes (row next : Operation) : Type 0 where
  pub same_id : same row.id next.id ≡ true
  pub allowed :
      not (status_eq row.status next.status) && not (valid_status_change row.status next.status)
      ≡ false
  pub progress : next.progress ≡ none
  pub activity : is_active next.status ≡ true → is_active row.status ≡ true
  pub completed : completion_ok next.status next.completed_at ≡ true

-- Such an update of one operation of a consistent table takes effect and keeps the table consistent.
pub update_one :
    (report : Report) (row next : Operation) (xs ys : Rows)
    → Changes row next
    → IsConsistent (xs ++ row ∷ ys)
    → (update_operation report row next (xs ++ row ∷ ys) ≡ ok (xs ++ updated next row ∷ ys))
      × IsConsistent (xs ++ updated next row ∷ ys)
unfolding update_operation
update_one report row next xs ys f good =
    let good' =
      subst IsConsistent (update_rows-one row next xs ys good)
        (update_rows-IsConsistent row next (xs ++ row ∷ ys) f.activity f.completed good) in
    (
      rw (f.same_id, f.allowed, f.progress) (update_statement-one report row next xs ys good good'),
      good',
    )
