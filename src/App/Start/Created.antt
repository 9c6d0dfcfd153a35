-- ===== src/App/Start/Created.antt =====
-- What Start has done where it says that it created an operation.
use yorva.Prelude.{
  Bool, true, false, not, Option, none, some, List, [], ◌∷◌, Bytes, is_empty, if◌then◌else◌, Result,
  ok, err, ◌≡◌, refl, sym, ◌∙◌, arith,
}
use yorva.Install.Records.{InstallTransaction}
use yorva.Install.Disk.{Disk}
use yorva.Operation.Types.{OperationType, TargetType, Operation}
use yorva.Operation.Constraints.{Constraint}
use yorva.Operation.Errors.{OperationError}
use yorva.Operation.Table.{Rows, Report, create_operation, insert_effect, broken_on_insert}
use yorva.Operation.Queries.{get_operation_by_idempotency_key}
use yorva.App.Node.{Settings, Node, InstallError, after_create, persist_create, emit_operation}
use yorva.App.Preflight.{DiscoveryState, PreflightDecision}
use yorva.App.Start.Refusals.{
  InstallStartResult, Detected, Fresh, conflict, other_request, normalize_create_conflict,
  is_in_progress, is_duplicate, replay_idempotent, replayed_or, replay_if_current_key,
  recover_create,
}
use yorva.App.Start.{
  new_install, bind_worker, start_created, linked, start_with, create_install, decide_on,
  after_latest, after_detect, after_active, after_key, after_check,
}

-- The operation stands in the table under the key, as a pending installation of the kind.
pub record Created (kind key : Bytes) (r : InstallStartResult) (node : Node) : Type 0 where
  pub before : Rows
  pub rows : node.rows ≡ r.operation ∷ before
  pub has_key : r.operation.idempotency_key ≡ key
  pub operation_type : r.operation.operation_type ≡ OperationType.runtime_install
  pub target_type : r.operation.target_type ≡ TargetType.runtime_kind
  pub target_id : r.operation.target_id ≡ kind
  pub progress : r.operation.progress ≡ none

abbrev pub Creates : Bytes → Bytes → Result InstallError InstallStartResult × Node → Type 0
Creates kind key (ok r, node) = r.created ≡ true → Created kind key r node
Creates kind key (err e, node) = Unit

insert_effect-rows :
    (report : Report)
    → (t : OperationType) → (rows rows' : Rows) → (cs : List Constraint)
    → insert_effect report t rows cs ≡ ok rows'
    → rows' ≡ rows
unfolding insert_effect
insert_effect-rows report t rows rows' [] h = cc
insert_effect-rows report t rows rows' (c ∷ cs) h = cc

inserted_by :
    (s : Settings)
    → (value : Operation) → (rows rows' : Rows) → (keyless : Bool)
    → (if keyless
        then err OperationError.key_required
        else insert_effect s.report value.operation_type
            (value ∷ rows)
            (broken_on_insert s.installs value rows))
      ≡ ok rows'
    → rows' ≡ value ∷ rows
inserted_by s value rows rows' true h = cc
inserted_by s value rows rows' false h = insert_effect-rows s.report _ _ rows' _ h

rows-create_operation :
    (s : Settings)
    → (value : Operation) → (rows rows' : Rows) → value.progress ≡ none
    → create_operation s.report s.installs value rows ≡ ok rows'
    → rows' ≡ value ∷ rows
unfolding create_operation
rows-create_operation s value rows rows' unset h =
    inserted_by s value rows rows' (is_empty value.idempotency_key) (sym (rw unset refl) ∙ h)

-- A result that is an error or a replay.
abbrev Replays : Result InstallError InstallStartResult → Type 0
Replays (ok r) = r.created ≡ false
Replays (err e) = Unit

Creates-Replays :
    (kind key : Bytes)
    → (result : Result InstallError InstallStartResult) → (node : Node) → Replays result
    → Creates kind key (result, node)
Creates-Replays kind key (ok r) node replays = λ created. cc
Creates-Replays kind key (err e) node replays = tt

Replays-if :
    (b : Bool)
    → (p q : Result InstallError InstallStartResult) → Replays p
    → Replays q
    → Replays (if b then p else q)
Replays-if true p q hp hq = hp
Replays-if false p q hp hq = hq

Replays-replay_idempotent :
    (existing : Operation)
    → (want : OperationType) → (target : Bytes) → Replays (replay_idempotent existing want target)
unfolding replay_idempotent
Replays-replay_idempotent existing want target =
    Replays-if (other_request existing want target) (err conflict)
      (ok (record { operation = existing; created = false })) tt refl

Replays-replayed_or :
    (want : OperationType)
    → (target : Bytes) → (otherwise : Result InstallError InstallStartResult)
    → (found : Result OperationError (Option Operation)) → Replays otherwise
    → Replays (replayed_or want target otherwise found)
unfolding replayed_or
Replays-replayed_or want target otherwise (err e) replays = tt
Replays-replayed_or want target otherwise (ok none) replays = replays
Replays-replayed_or want target otherwise (ok (some existing)) replays =
    Replays-replay_idempotent existing want target

Replays-replay_if_current_key :
    (key : Bytes)
    → (want : OperationType) → (target : Bytes) → (e : InstallError) → (rows : Rows)
    → Replays (replay_if_current_key key want target e rows)
unfolding replay_if_current_key
Replays-replay_if_current_key key want target e rows =
    Replays-if (not (is_in_progress e)) (err e) _ tt
      (Replays-replayed_or want target (err e) (get_operation_by_idempotency_key key rows) tt)

Replays-recover_create :
    (intended : Operation)
    → (e : OperationError) → (rows : Rows) → Replays (recover_create intended e rows)
unfolding recover_create
Replays-recover_create intended e rows =
    Replays-replayed_or intended.operation_type intended.target_id _ _ (
      Replays-if (is_duplicate e) (err conflict)
        (err (normalize_create_conflict intended.target_id (InstallError.store e) rows)) tt tt)

linked-progress :
    (txn : Option InstallTransaction) → (op : Operation) → (linked txn op).progress ≡ op.progress
linked-progress none op = refl
linked-progress (some txn) op = ground arith

-- The fields of an installation that Start fills in, and that a transaction does not change.
record Fits (kind key : Bytes) (op : Operation) : Type 0 where
  has_key : op.idempotency_key ≡ key
  operation_type : op.operation_type ≡ OperationType.runtime_install
  target_type : op.target_type ≡ TargetType.runtime_kind
  target_id : op.target_id ≡ kind
  progress : op.progress ≡ none

Fits-linked :
    (kind key : Bytes)
    → (txn : Option InstallTransaction) → (op : Operation) → Fits kind key op
    → Fits kind key (linked txn op)
Fits-linked kind key none op fits = fits
Fits-linked kind key (some txn) op fits =
    elim (is_empty txn.id)
      as (λ b. Fits kind key (if b then op else record op { transaction_id = txn.id })) [
        | true ↦ fits
        | false ↦ record {
          has_key = fits.has_key;
          operation_type = fits.operation_type;
          target_type = fits.target_type;
          target_id = fits.target_id;
          progress = fits.progress;
        }
      ]

rows-bind_worker :
    (s : Settings) → (id : Bytes) → (node : Node) → (bind_worker s id node).rows ≡ node.rows
unfolding bind_worker
rows-bind_worker s id node = ground arith

Creates-inserted :
    (s : Settings)
    → (kind key : Bytes) → (txn : Option InstallTransaction) → (op : Operation) → (node : Node)
    → (written : Result OperationError Rows) → Fits kind key op
    → ((rows : Rows) → written ≡ ok rows → rows ≡ op ∷ node.rows)
    → Creates kind key (start_created s txn op (after_create s op node written))
unfolding start_created after_create emit_operation
Creates-inserted s kind key txn op node (ok rows) fits inserted = λ created. record {
  before = node.rows;
  rows = rows-bind_worker s op.id _ ∙ inserted rows refl;
  has_key = fits.has_key;
  operation_type = fits.operation_type;
  target_type = fits.target_type;
  target_id = fits.target_id;
  progress = fits.progress;
}
Creates-inserted s kind key txn op node (err e) fits inserted =
    Creates-Replays kind key _ _ (Replays-recover_create op e node.rows)

Creates-start_with :
    (s : Settings)
    → (kind key : Bytes) → (op : Operation) → (node : Node)
    → (made : Result InstallError (Option InstallTransaction) × Disk) → Fits kind key op
    → Creates kind key (start_with s op node made)
unfolding start_with persist_create
Creates-start_with s kind key op node (err e, d) fits = tt
Creates-start_with s kind key op node (ok txn, d) fits =
    let fits' = Fits-linked kind key txn op fits in
    Creates-inserted s kind key txn (linked txn op) (record node { disk = d }) _ fits'
      (λ rows h. rows-create_operation s (linked txn op) node.rows rows fits'.progress h)

Creates-create_install :
    (s : Settings)
    → (fresh : Fresh) → (kind key : Bytes) → (node : Node)
    → Creates kind key (create_install s fresh kind key node)
unfolding create_install new_install
Creates-create_install s fresh kind key node = Creates-start_with s kind key _ node _ (record {
  has_key = refl;
  operation_type = refl;
  target_type = refl;
  target_id = refl;
  progress = refl;
})

module _ (s : Settings) (fresh : Fresh) (kind key : Bytes) (node : Node) where
  Creates-decide_on :
      (decision : PreflightDecision) → Creates kind key (decide_on s fresh kind key node decision)
  unfolding decide_on
  Creates-decide_on decision =
      elim decision.allow
        as (λ b. Creates kind key (
          if not b
          then (err (InstallError.rejection decision.code decision.retryable []), node)
          else create_install s fresh kind key node)) [
            | true ↦ Creates-create_install s fresh kind key node
            | false ↦ tt
          ]

  Creates-after_latest :
      (state : DiscoveryState)
      → (latest : Result OperationError (Option Operation))
      → Creates kind key (after_latest s fresh kind key node state latest)
  unfolding after_latest
  Creates-after_latest state (err e) = tt
  Creates-after_latest state (ok latest) = Creates-decide_on _

  Creates-after_detect :
      (detected : Detected) → Creates kind key (after_detect s fresh kind key node detected)
  unfolding after_detect
  Creates-after_detect (Detected.passed_on e) = tt
  Creates-after_detect Detected.detect_failed = tt
  Creates-after_detect (Detected.found state) = Creates-after_latest state _

  Creates-after_active :
      (detected : Detected)
      → (active : Option InstallError)
      → Creates kind key (after_active s fresh kind key detected node active)
  unfolding after_active
  Creates-after_active detected (some e) =
      Creates-Replays kind key _ node
        (Replays-replay_if_current_key key OperationType.runtime_install kind e node.rows)
  Creates-after_active detected none = Creates-after_detect detected

  Creates-after_key :
      (detected : Detected)
      → (found : Result OperationError (Option Operation))
      → Creates kind key (after_key s fresh kind key detected node found)
  unfolding after_key
  Creates-after_key detected (err e) = tt
  Creates-after_key detected (ok (some existing)) =
      Creates-Replays kind key _ node
        (Replays-replay_idempotent existing OperationType.runtime_install kind)
  Creates-after_key detected (ok none) = Creates-after_active detected _

  pub Creates-after_check :
      (detected : Detected)
      → (checked : Result InstallError (Unit {0}))
      → Creates kind key (after_check s fresh kind key detected node checked)
  unfolding after_check
  Creates-after_check detected (err e) = tt
  Creates-after_check detected (ok u) = Creates-after_key detected _
