-- ===== src/Operation/Queries/Keyed.antt =====
-- The operation with a key, while operations are created and updated.
use mathlib.Core.Path.{subst}
use yorva.Prelude.{
  Bool, true, false, ◌≡◌, refl, sym, ap, ◌∙◌, Option, none, some, [], ◌∷◌, Bytes, same, same_iff,
  select, arith, Bool-cases, inl, inr, ok,
}
use yorva.Operation.Types.{OperationType, TargetType, Operation}
use yorva.Operation.Constraints.{Constraint, any_row, any_pair, breaks, clash}
use yorva.Operation.Table.{
  Rows, Report, matches, updated, update_row, update_rows, create_operation, update_operation,
}
use yorva.Operation.Table.Rows.{row_kept, same_sym}
use yorva.Operation.Table.Swap.{update_operation-Updated}
use yorva.Operation.Table.Invariant.{Created, create_operation-Created, inserted_breaks_none}
use yorva.Operation.Queries.{scan_operation, scan_row, get_operation_by_idempotency_key}

-- A table that became another one by creations and updates.
pub data Later (report : Report) (installs : Bytes → Option Bytes) (rows : Rows)
    : Rows → Type 0 where
  now : Later report installs rows rows
  created :
      {mid after : Rows} (value : Operation)
      → Later report installs rows mid
      → create_operation report installs value mid ≡ ok after
      → Later report installs rows after
  changed :
      {mid after : Rows} (current next : Operation)
      → Later report installs rows mid
      → update_operation report current next mid ≡ ok after
      → Later report installs rows after

abbrev pub has_idempotency_key : Bytes → Operation → Bool
has_idempotency_key key row = same row.idempotency_key key

-- The first row with the key is for this request, and is the operation with this identifier.
pub record Keyed (key id kind : Bytes) (rows : Rows) : Type 0 where
  pub operation : Operation
  pub others : Rows
  pub selected : select (has_idempotency_key key) rows ≡ operation ∷ others
  pub has_id : operation.id ≡ id
  pub operation_type : operation.operation_type ≡ OperationType.runtime_install
  pub target_type : operation.target_type ≡ TargetType.runtime_kind
  pub target_id : operation.target_id ≡ kind
  pub progress : operation.progress ≡ none

scan_first :
    (op : Operation) (rows : Rows) → op.progress ≡ none → scan_row (op ∷ rows) ≡ ok (some op)
unfolding scan_row scan_operation
scan_first op rows h = rw h refl

pub get-Keyed :
    (key id kind : Bytes) (rows : Rows)
    → (k : Keyed key id kind rows)
    → get_operation_by_idempotency_key key rows ≡ ok (some k.operation)
unfolding get_operation_by_idempotency_key
get-Keyed key id kind rows k = ap scan_row k.selected ∙ scan_first k.operation k.others k.progress

key-update_row :
    (key : Bytes) (current next row : Operation)
    → has_idempotency_key key (update_row current next row) ≡ has_idempotency_key key row
key-update_row key current next row = let (i, k, t, n, o) = row_kept current next row in rw k refl

select-update_rows :
    (key : Bytes) (current next : Operation) (rows : Rows)
    → select (has_idempotency_key key) (update_rows current next rows)
      ≡ update_rows current next (select (has_idempotency_key key) rows)
unfolding update_rows
select-update_rows key current next [] = refl
select-update_rows key current next (row ∷ rows) = elim (Bool-cases (has_idempotency_key key row)) [
  | inl hit ↦
      rw (key-update_row key current next row ∙ hit, hit)
        (ap (λ rs. update_row current next row ∷ rs) (select-update_rows key current next rows))
  | inr miss ↦
      rw (key-update_row key current next row ∙ miss, miss)
        (select-update_rows key current next rows)
]

progress_kept :
    (current next row : Operation)
    → row.progress ≡ none
    → (update_row current next row).progress ≡ none
unfolding update_row updated
progress_kept current next row h = elim (Bool-cases (matches current row)) [
  | inl hit ↦ rw hit refl
  | inr miss ↦ rw miss h
]

Keyed-updated :
    (key id kind : Bytes) (current next : Operation) (rows : Rows)
    → Keyed key id kind rows
    → Keyed key id kind (update_rows current next rows)
unfolding update_rows
Keyed-updated key id kind current next rows k =
    let (same_id, same_key, same_type, same_target, same_kind) =
      row_kept current next k.operation in
    record {
      operation = update_row current next k.operation;
      others = update_rows current next k.others;
      selected =
          select-update_rows key current next rows ∙ ap (update_rows current next) k.selected;
      has_id = same_id ∙ k.has_id;
      operation_type = same_kind ∙ k.operation_type;
      target_type = same_type ∙ k.target_type;
      target_id = same_target ∙ k.target_id;
      progress = progress_kept current next k.operation k.progress;
    }

none_selected :
    (key : Bytes) (value : Operation) (rows : Rows)
    → any_row (λ row. same value.idempotency_key row.idempotency_key) rows ≡ false
    → same value.idempotency_key key ≡ true
    → select (has_idempotency_key key) rows ≡ []
unfolding any_row
none_selected key value [] h e = refl
none_selected key value (row ∷ rows) h e =
    let eq : value.idempotency_key ≡ key = (same_iff value.idempotency_key key).0 e in
    let away : same row.idempotency_key key ≡ false =
      same_sym row.idempotency_key key
      ∙ subst (λ k. same k row.idempotency_key ≡ false) eq (ground (arith, h)) in
    rw away (none_selected key value rows (ground (arith, h)) e)

new_key :
    (key id kind : Bytes) (installs : Bytes → Option Bytes) (value : Operation) (rows after : Rows)
    → Created installs value rows after
    → Keyed key id kind rows
    → has_idempotency_key key value ≡ false
unfolding breaks any_pair clash
new_key key id kind installs value rows after made k =
    elim (Bool-cases (has_idempotency_key key value)) [
      | inr miss ↦ miss
      | inl hit ↦
          let free =
            inserted_breaks_none installs value rows made.unbroken Constraint.idempotency_key in
          let gone = none_selected key value rows (ground (arith, free)) hit in
          absurd (ground (arith, sym k.selected ∙ gone))
    ]

creation_keeps_key :
    (key id kind : Bytes) (installs : Bytes → Option Bytes) (value : Operation) (rows after : Rows)
    → Created installs value rows after
    → Keyed key id kind rows
    → Keyed key id kind after
creation_keeps_key key id kind installs value rows after made k =
    subst (Keyed key id kind) (sym made.written) (record {
      operation = k.operation;
      others = k.others;
      selected = rw (new_key key id kind installs value rows after made k) k.selected;
      has_id = k.has_id;
      operation_type = k.operation_type;
      target_type = k.target_type;
      target_id = k.target_id;
      progress = k.progress;
    })

-- The operation with a key stays the same one, however the table goes on.
pub Keyed-Later :
    (key id kind : Bytes) {report : Report} {installs : Bytes → Option Bytes} {rows after : Rows}
    → Keyed key id kind rows
    → Later report installs rows after
    → Keyed key id kind after
Keyed-Later key id kind k now = k
Keyed-Later key id kind k (created value later h) =
    creation_keeps_key key id kind _ value _ _ (create_operation-Created _ _ value _ _ h)
      (Keyed-Later key id kind k later)
Keyed-Later key id kind k (changed current next later h) =
    let step = update_operation-Updated _ current next _ _ h in
    subst (Keyed key id kind) (sym step.written)
      (Keyed-updated key id kind current next _ (Keyed-Later key id kind k later))
