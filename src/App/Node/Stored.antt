-- ===== src/App/Node/Stored.antt =====
-- An update that persistUpdate makes of an operation that is stored.
use mathlib.Core.Path.{subst}
use yorva.Prelude.{
  ℕ, true, false, not, ◌&&◌, Option, some, none, ◌∷◌, ◌++◌, Bytes, Result, ok, ◌≡◌, refl, sym, ap,
  ◌∙◌,
}
use yorva.Operation.Types.{Status, status_eq, Operation}
use yorva.Operation.Status.{valid_status_change}
use yorva.Operation.Constraints.{is_active, completion_ok}
use yorva.Operation.Errors.{OperationError}
use yorva.Operation.Table.{Rows, updated, update_operation}
use yorva.Operation.Table.Rows.{IsConsistent}
use yorva.Operation.Table.Effective.{Changes, completion-middle, no_progress-middle, update_one}
use yorva.Operation.Queries.{get_operation}
use yorva.Operation.Queries.Found.{Place, get_operation-Place, get_operation-IsConsistent}
use yorva.App.Node.{Settings, Node, after_update, emit_operation, persist_update}

-- An operation is stored in a table that breaks no constraint.
pub record Stored (op : Operation) (node : Node) : Type 0 where
  pub place : Place node.rows op
  pub consistent : IsConsistent node.rows

-- An update took effect: the operation that was given is stored, and the disk and the workers are
-- what they were.
pub record Took (next : Operation) (node : Node) (out : Result OperationError (Unit {0}) × Node)
    : Type 0 where
  pub result : out.0 ≡ ok tt
  pub stored : Stored next out.1
  pub disk : out.1.disk ≡ node.disk
  pub workers : out.1.workers ≡ node.workers

pub no_progress-Stored : (op : Operation) (node : Node) → Stored op node → op.progress ≡ none
no_progress-Stored op node st =
    no_progress-middle op st.place.before st.place.after
      (subst IsConsistent st.place.parts st.consistent).no_progress

pub completion-Stored :
    (op : Operation) (node : Node) → Stored op node → completion_ok op.status op.completed_at ≡ true
completion-Stored op node st =
    completion-middle op st.place.before st.place.after
      (subst IsConsistent st.place.parts st.consistent)

no_time : (t : Option ℕ) → (s : Status) → is_active s ≡ true → completion_ok s t ≡ true → t ≡ none
no_time none s a h = refl
no_time (some t) Status.pending a h = cc
no_time (some t) Status.running a h = cc
no_time (some t) Status.succeeded a h = cc
no_time (some t) Status.failed a h = cc
no_time (some t) Status.cancelled a h = cc
no_time (some t) (Status.other o) a h = cc

-- A stored operation that is active has no completion time.
pub no_time-Stored :
    (op : Operation) (node : Node)
    → is_active op.status ≡ true
    → Stored op node
    → op.completed_at ≡ none
no_time-Stored op node active st =
    no_time op.completed_at op.status active (completion-Stored op node st)

pub may_run :
    not (status_eq Status.pending Status.running)
      && not (valid_status_change Status.pending Status.running)
    ≡ false
unfolding status_eq valid_status_change
may_run = refl

-- GetOperation gives a stored operation by its identifier.
pub get_operation-Stored :
    (op : Operation) (node : Node) → Stored op node → get_operation op.id node.rows ≡ ok op
get_operation-Stored op node st =
    ap (get_operation op.id) st.place.parts
    ∙ get_operation-IsConsistent op st.place.before st.place.after
        (subst IsConsistent st.place.parts st.consistent) (no_progress-Stored op node st)

-- What GetOperation gives is stored, under the identifier asked for.
pub Stored-get_operation :
    (id : Bytes) (op : Operation) (node : Node)
    → IsConsistent node.rows
    → get_operation id node.rows ≡ ok op
    → Stored op node × (op.id ≡ id)
Stored-get_operation id op node good found =
    let (place, is_id) = get_operation-Place id node.rows op found in
    (record { place = place; consistent = good }, is_id)

Took-after_update :
    (s : Settings)
    → (current next : Operation) → (xs ys : Rows) → (node : Node) → IsConsistent (xs ++ next ∷ ys)
    → Took next node (after_update s current next node (ok (xs ++ next ∷ ys)))
unfolding after_update emit_operation
Took-after_update s current next xs ys node good = record {
  result = refl;
  stored = record { place = record { before = xs; after = ys; parts = refl }; consistent = good };
  disk = refl;
  workers = refl;
}

-- On a table that breaks no constraint, an update that the status machine allows takes effect.
pub Took-persist_update :
    (s : Settings)
    → (current next : Operation) → (node : Node) → Stored current node
    → Changes current next
    → updated next current ≡ next
    → Took next node (persist_update s current next node)
unfolding persist_update
Took-persist_update s current next node st change written =
    let place = st.place in
    let good = subst IsConsistent place.parts st.consistent in
    let (done, kept) = update_one s.report current next place.before place.after change good in
    let effect =
      ap (update_operation s.report current next) place.parts
      ∙ done
      ∙ ap (λ r. ok (place.before ++ r ∷ place.after)) written in
    subst (λ r. Took next node (after_update s current next node r)) (sym effect)
      (Took-after_update s current next place.before place.after node
        (subst (λ r. IsConsistent (place.before ++ r ∷ place.after)) written kept))
