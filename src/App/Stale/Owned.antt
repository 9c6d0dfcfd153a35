-- ===== src/App/Stale/Owned.antt =====
-- What InterruptStale gives back.
use yorva.Prelude.{
  pos, Bool, true, false, not, ◌&&◌, ◌||◌, List, [], ◌∷◌, Result, ok, err, ◌≡◌, refl, arith,
  Bool-cases, inl, inr,
}
use mathlib.Core.Path.{subst}
use yorva.Install.Disk.{Disk}
use yorva.Operation.Types.{TargetType, Status, Operation}
use yorva.Operation.Status.{is_terminal}
use yorva.Operation.Errors.{OperationError}
use yorva.Operation.Constraints.{is_host_mutation}
use yorva.Operation.Queries.{is_install}
use yorva.Operation.Table.{Rows, update_operation, interrupted}
use yorva.Operation.Lists.{list_operations}
use yorva.App.Node.{Settings, Node, status_text, after_update, persist_update, emit_operation}
use yorva.App.Transactions.{filesystem_owns_operation, load_linked_transaction}
use yorva.App.Project.Unchanged.{disk-project_open_installs}
use yorva.App.Project.{project_open_installs}
use yorva.App.Stale.{
  Interrupted, passed_over, after_interrupt, interrupt_stale_each, interrupt_listed,
  interrupt_after, interrupt_stale,
}

-- A failed operation on the host whose transaction, on this disk, neither activates nor is
-- committed.
pub record Stale (s : Settings) (d : Disk) (op : Operation) : Type 0 where
  pub status : op.status ≡ Status.failed
  pub retryable : op.retryable ≡ true
  pub host : is_host_mutation op.operation_type ≡ true
  pub not_owned : (is_install op.operation_type && filesystem_owns_operation s op d) ≡ false

-- The operations are written one after the other, each over a current one that had not ended.
abbrev pub Interrupts : Settings → Disk → List Operation → Rows → Rows → Type 0
Interrupts s d [] rows rows' = rows' ≡ rows
Interrupts s d (op ∷ ops) rows rows' =
    (current : Operation) × (mid : Rows) × (op ≡ interrupted s.now current)
    × (is_terminal current.status ≡ false)
    × Stale s d op
    × (update_operation s.report current op rows ≡ ok mid)
    × Interrupts s d ops mid rows'

abbrev pub Outcome : Settings → Disk → Rows → Interrupted × Node → Type 0
Outcome s d rows (done, node) = Interrupts s d done.operations rows node.rows × (node.disk ≡ d)

owns-interrupted :
    (s : Settings)
    → (current : Operation) → (d : Disk)
    → filesystem_owns_operation s (interrupted s.now current) d
      ≡ filesystem_owns_operation s current d
unfolding filesystem_owns_operation load_linked_transaction interrupted
owns-interrupted s current d = refl

passed_parts :
    (host terminal install owned : Bool)
    → (not host || terminal || install && owned) ≡ false
    → (host ≡ true) × ((install && owned) ≡ false) × (terminal ≡ false)
passed_parts host terminal install owned h = (ground arith, ground arith, ground arith)

Stale-interrupted :
    (s : Settings)
    → (node : Node) → (current : Operation) → passed_over s node current ≡ false
    → Stale s node.disk (interrupted s.now current) × (is_terminal current.status ≡ false)
unfolding passed_over interrupted
Stale-interrupted s node current h =
    let (on_host, free, going) =
      passed_parts (is_host_mutation current.operation_type) (is_terminal current.status)
        (is_install current.operation_type) (filesystem_owns_operation s current node.disk) h in
    (
      record {
        status = refl;
        retryable = refl;
        host = on_host;
        not_owned = rw (owns-interrupted s current node.disk) free;
      },
      going,
    )

Outcome-written :
    (s : Settings)
    → (d : Disk) → (current : Operation) → (node : Node) → (r : Result OperationError Rows)
    → (rest : Node → Interrupted × Node) → node.disk ≡ d
    → Stale s d (interrupted s.now current)
    → is_terminal current.status ≡ false
    → update_operation s.report current (interrupted s.now current) node.rows ≡ r
    → ((next : Node) → next.disk ≡ d → Outcome s d next.rows (rest next))
    → Outcome s d node.rows (
        after_interrupt s
          (interrupted s.now current)
          (after_update s current (interrupted s.now current) node r)
          rest)
unfolding after_interrupt emit_operation after_update
Outcome-written s d current node (err e) rest same_disk stale going wrote later = (refl, same_disk)
Outcome-written s d current node (ok rows) rest same_disk stale going wrote later =
    let next = interrupted s.now current in
    let ran =
      emit_operation s (status_text current.status) next false (record node { rows = rows }) in
    let (more, same_disk') = later (emit_operation s [] next false ran) same_disk in
    ((current, rows, refl, going, stale, wrote, more), same_disk')

Outcome-each :
    (s : Settings)
    → (ops : List Operation) → (d : Disk) → (node : Node) → node.disk ≡ d
    → Outcome s d node.rows (interrupt_stale_each s ops node)
unfolding interrupt_stale_each persist_update
Outcome-each s [] d node same_disk = (refl, same_disk)
Outcome-each s (current ∷ ops) d node same_disk =
    let later = Outcome-each s ops d in
    elim (Bool-cases (passed_over s node current)) [
      | inl passed ↦ rw passed (later node same_disk)
      | inr taken ↦
          let (stale, going) = Stale-interrupted s node current taken in
          rw taken (
            Outcome-written s d current node _ (interrupt_stale_each s ops) same_disk
              (subst (λ e. Stale s e (interrupted s.now current)) same_disk stale) going refl later)
    ]

Outcome-listed :
    (s : Settings)
    → (listed : Result OperationError (List Operation)) → (node : Node)
    → Outcome s node.disk node.rows (interrupt_listed s listed node)
unfolding interrupt_listed
Outcome-listed s (err e) node = (refl, refl)
Outcome-listed s (ok ops) node = Outcome-each s ops node.disk node refl

-- After the projection of the open installations, InterruptStale changes the table only by the updates
-- that make the operations it gives back FAILED and retryable, one after the other, also where it ends
-- with an error. Each of them had not ended, is an installation or a prerequisites operation, and, if
-- it is an installation, does not belong to a transaction that activates or is committed. The disk
-- stays as it is.
pub interrupt_stale_lem :
    (s : Settings)
    → (node : Node)
    → Outcome s node.disk (project_open_installs s node).rows (interrupt_stale s node)
unfolding interrupt_stale interrupt_after
interrupt_stale_lem s node =
    let same_disk = disk-project_open_installs s node in
    subst (λ d. Outcome s d (project_open_installs s node).rows (interrupt_stale s node)) same_disk
      (Outcome-listed s
        (list_operations TargetType.runtime_kind [] (pos 50) (project_open_installs s node).rows)
        (project_open_installs s node))
