-- ===== src/App/Start/Replay.antt =====
-- Starting twice with one key.
use yorva.Prelude.{
  true, false, Option, none, some, ◌∷◌, Bytes, same_refl, same_iff, select, ap, ◌∙◌, Result, ok,
  err, ◌≡◌, refl,
}
use mathlib.Core.Path.{subst}
use yorva.Operation.Types.{OperationType, target_type_eq, Operation}
use yorva.Operation.Table.{Rows}
use yorva.Operation.Queries.{get_operation_by_idempotency_key}
use yorva.Operation.Queries.Keyed.{Keyed, Later, Keyed-Later, get-Keyed, has_idempotency_key}
use yorva.Operation.Lists.{type_text}
use yorva.App.Node.{Settings, Node, InstallError}
use yorva.App.Preflight.{validate_idempotency_key}
use yorva.App.Start.Refusals.{
  InstallStartResult, Detected, Fresh, reject_install_gate, other_request, replay_idempotent,
}
use yorva.App.Start.{after_key, after_check, after_gate, start}
use yorva.App.Start.Created.{Created, Creates, Creates-after_check}

module _ (s : Settings) (fresh : Fresh) (kind key : Bytes) (detected : Detected) where
  key_passed :
      (node node' : Node)
      → (r : InstallStartResult) → (checked : Result InstallError (Unit {0}))
      → after_check s fresh kind key detected node checked ≡ (ok r, node')
      → checked ≡ ok tt
  unfolding after_check
  key_passed node node' r (ok tt) h = refl
  key_passed node node' r (err e) h = cc

  key-after_gate :
      (gated : Option InstallError × Node)
      → (r : InstallStartResult) → (node' : Node)
      → after_gate s fresh kind key detected gated ≡ (ok r, node')
      → (r.created ≡ true)
      → (validate_idempotency_key key ≡ ok tt) × Created kind key r node'
  unfolding after_gate
  key-after_gate (some e, node) r node' h created = cc
  key-after_gate (none, node) r node' h created = (
    key_passed node node' r _ h,
    subst (Creates kind key) h (Creates-after_check s fresh kind key node detected _) created,
  )

Keyed-Created :
    (kind key : Bytes)
    → (r : InstallStartResult) → (node : Node) → Created kind key r node
    → Keyed key r.operation.id kind node.rows
Keyed-Created kind key r node made = record {
  operation = r.operation;
  others = select (has_idempotency_key key) made.before;
  selected =
      ap (select (has_idempotency_key key)) made.rows
      ∙ selects_first key r.operation made.before made.has_key;
  has_id = refl;
  operation_type = made.operation_type;
  target_type = made.target_type;
  target_id = made.target_id;
  progress = made.progress;
}
  where
    selects_first :
        (k : Bytes) (op : Operation) (rows : Rows)
        → op.idempotency_key ≡ k
        → select (has_idempotency_key k) (op ∷ rows) ≡ op ∷ select (has_idempotency_key k) rows
    selects_first k op rows h = rw ((same_iff op.idempotency_key k).1 h) refl

replays :
    (kind key id : Bytes)
    → (rows : Rows) → (k : Keyed key id kind rows)
    → replay_idempotent k.operation OperationType.runtime_install kind
      ≡ ok (record { operation = k.operation; created = false })
unfolding replay_idempotent other_request target_type_eq
replays kind key id rows k =
    rw (k.operation_type, k.target_type, k.target_id)
      (rw (same_refl (type_text OperationType.runtime_install), same_refl kind) refl)

-- A start that gave the operation with an identifier, as it is stored, and changed nothing.
pub record Replayed (id key : Bytes) (later : Node)
    (out : Result InstallError InstallStartResult × Node) : Type 0 where
  pub operation : Operation
  pub has_id : operation.id ≡ id
  pub stored : get_operation_by_idempotency_key key later.rows ≡ ok (some operation)
  pub returned : out ≡ (ok (record { operation = operation; created = false }), later)

-- Where a start has created an operation, every later start with the same key and kind that the gate
-- lets pass gives the operation with the same identifier, as it is stored by then, creates nothing
-- and leaves the node as it is. Meanwhile the table may have gone on by any creations and updates of
-- operations, and the rest of the node, the time and the other settings, and what the Runtime's
-- discovery says may be different.
pub start-again :
    (s s' : Settings)
    → (fresh fresh' : Fresh) → (kind key : Bytes) → (detected detected' : Detected)
    → (node node' later : Node) → (r : InstallStartResult)
    → start s fresh kind key detected node ≡ (ok r, node')
    → r.created ≡ true
    → Later s.report s.installs node'.rows later.rows
    → reject_install_gate s' later ≡ (none, later)
    → Replayed r.operation.id key later (start s' fresh' kind key detected' later)
unfolding start after_gate after_check after_key
start-again s s' fresh fresh' kind key detected detected' node node' later r h created went gate =
    let (valid, made) =
      key-after_gate s fresh kind key detected (reject_install_gate s node) r node' h created in
    let k = Keyed-Later key r.operation.id kind (Keyed-Created kind key r node' made) went in
    let found = get-Keyed key r.operation.id kind later.rows k in
    record {
      operation = k.operation;
      has_id = k.has_id;
      stored = found;
      returned = rw (gate, valid, found, replays kind key r.operation.id later.rows k) refl;
    }
