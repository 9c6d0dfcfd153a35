-- ===== src/Operation/Table/Swap.antt =====
-- UpdateOperation as a compare-and-swap on the status of a row.
use yorva.Prelude.{
  ℕ, true, false, ◌||◌, ◌≡◌, refl, ap, ◌∙◌, none, List, [], ◌∷◌, same, same_iff, arith, ok, err,
}
use yorva.Operation.Types.{Status, status_eq, Operation}
use yorva.Operation.Status.{valid_status_change}
use yorva.Operation.Constraints.{Constraint}
use yorva.Operation.Errors.{OperationError}
use yorva.Operation.Table.Rows.{status_eq_refl}
use yorva.Operation.Table.{
  Report, Rows, matches, updated, update_row, update_rows, affected, broken, update_effect,
  update_statement, update_operation,
}

-- What an update that succeeds went through.
pub record Updated (current next : Operation) (rows after : Rows) : Type 0 where
  pub same_id : same current.id next.id ≡ true
  pub allowed :
      (status_eq current.status next.status || valid_status_change current.status next.status)
      ≡ true
  pub written : after ≡ update_rows current next rows
  pub one_row : affected current rows ≡ 1
  pub unbroken : broken after ≡ []

effect-ok :
    (report : Report) (n : ℕ) (rows after : Rows) (cs : List Constraint)
    → update_effect report n rows cs ≡ ok after
    → (n ≡ 1) × (cs ≡ []) × (after ≡ rows)
unfolding update_effect
effect-ok report n rows after [] h = ground (arith, h)
effect-ok report n rows after (c ∷ cs) h = cc

passed :
    (report : Report) (current next : Operation) (rows after : Rows)
    → update_operation report current next rows ≡ ok after
    → (same current.id next.id ≡ true)
      × ((status_eq current.status next.status || valid_status_change current.status next.status)
          ≡ true)
      × (update_statement report current next rows ≡ ok after)
unfolding update_operation
passed report current next rows after h = ground (arith, h)

pub update_operation-Updated :
    (report : Report) (current next : Operation) (rows after : Rows)
    → update_operation report current next rows ≡ ok after
    → Updated current next rows after
unfolding update_statement
update_operation-Updated report current next rows after h =
    let (same_id, allowed, effect) = passed report current next rows after h in
    let (one, unbroken, written) = effect-ok report _ _ after _ effect in
    record {
      same_id = same_id;
      allowed = allowed;
      written = written;
      one_row = one;
      unbroken = ap broken written ∙ unbroken;
    }

pub status_eq-true : (s t : Status) → status_eq s t ≡ true → s ≡ t
unfolding status_eq
status_eq-true (Status.other s) (Status.other t) h = ap Status.other ((same_iff s t).0 h)
status_eq-true s t h = ground (arith, h)

-- After an update that changes the status, no row has the old status any more.
affected-update_rows :
    (current next : Operation) (rows : Rows)
    → status_eq current.status next.status ≡ false
    → affected current (update_rows current next rows) ≡ 0
unfolding affected update_rows update_row matches updated
affected-update_rows current next [] h = refl
affected-update_rows current next (row ∷ rows) h = ground (
  arith,
  h,
  status_eq-true next.status current.status,
  status_eq_refl current.status,
  affected-update_rows current next rows,
)

unaffected :
    (current next : Operation) (rows : Rows)
    → affected current rows ≡ 0
    → update_rows current next rows ≡ rows
unfolding affected update_rows update_row
unaffected current next [] h = refl
unaffected current next (row ∷ rows) h = ground (arith, h, unaffected current next rows)

late_effect :
    (report : Report) (current other : Operation) (after : Rows)
    → affected current after ≡ 0
    → broken after ≡ []
    → update_statement report current other after ≡ err OperationError.invalid_status_transition
unfolding update_statement update_effect
late_effect report current other after none_left unbroken =
    ap (λ rows. update_effect report (affected current after) rows (broken rows))
      (unaffected current other after none_left)
    ∙ ap (λ cs. update_effect report (affected current after) after cs) unbroken
    ∙ ap (λ n. update_effect report n after []) none_left

-- Of two updates that were prepared from the same observed operation, where the first succeeds and
-- changes the status, the second fails with an invalid transition, if it names the same operation
-- and sets no progress: its own status change may be allowed or not.
pub second_update_fails :
    (report : Report) (current next other : Operation) (rows after : Rows)
    → update_operation report current next rows ≡ ok after
    → status_eq current.status next.status ≡ false
    → same current.id other.id ≡ true
    → other.progress ≡ none
    → update_operation report current other after ≡ err OperationError.invalid_status_transition
unfolding update_operation
second_update_fails report current next other rows after h changed named empty =
    let first = update_operation-Updated report current next rows after h in
    let gone =
      ap (affected current) first.written ∙ affected-update_rows current next rows changed in
    rw (named, empty) (ground (arith, late_effect report current other after gone first.unbroken))
