-- ===== src/App/Worker/Going.antt =====
-- The updates that the worker of an installation makes take effect.
use yorva.Prelude.{
  ℕ, true, false, not, ◌&&◌, none, List, [], ◌∷◌, Bytes, Result, ok, err, ◌≡◌, refl, sym, ap,
  same_refl, arith,
}
use yorva.Operation.Types.{Status, status_eq, Operation}
use yorva.Operation.Status.{valid_status_change}
use yorva.Operation.Constraints.{is_active, completion_ok}
use yorva.Operation.Errors.{OperationError}
use yorva.Operation.Table.{updated}
use yorva.Operation.Table.Effective.{Changes}
use yorva.App.Node.{Settings, Node, persist_update}
use yorva.App.Node.Stored.{
  may_run, no_time-Stored, Stored, Took, no_progress-Stored, completion-Stored, Took-persist_update,
}
use yorva.App.Worker.Postcheck.{ApplyStep}
use yorva.App.Worker.{at_stage, after_report, report_stage, apply_steps, running_from, finished}

-- The operation that the worker holds is the one that is stored under its identifier, and it runs.
pub record Going (id : Bytes) (at : Operation × Node) : Type 0 where
  pub stored : Stored at.0 at.1
  pub has_id : at.0.id ≡ id
  pub runs : at.0.status ≡ Status.running

may_stay :
    not (status_eq Status.running Status.running)
      && not (valid_status_change Status.running Status.running)
    ≡ false
unfolding status_eq
may_stay = refl

may_succeed :
    not (status_eq Status.running Status.succeeded)
      && not (valid_status_change Status.running Status.succeeded)
    ≡ false
unfolding status_eq valid_status_change
may_succeed = refl

running_from-Changes :
    (now : ℕ) (op : Operation) (node : Node)
    → op.status ≡ Status.pending
    → Stored op node
    → Changes op (running_from now op)
unfolding running_from
running_from-Changes now op node pending st =
    let active : is_active op.status ≡ true = ap is_active pending in
    record {
      same_id = same_refl op.id;
      allowed = rw pending may_run;
      progress = no_progress-Stored op node st;
      activity = λ a. active;
      completed = ap (completion_ok Status.running) (no_time-Stored op node active st);
    }

updated-running_from :
    (now : ℕ) (op : Operation)
    → op.progress ≡ none
    → updated (running_from now op) op ≡ running_from now op
unfolding updated running_from
updated-running_from now op h = ap (λ p. record (running_from now op) { progress = p }) (sym h)

-- Marking a stored pending operation as running takes effect.
pub Took-running_from :
    (s : Settings)
    → (op : Operation) → (node : Node) → op.status ≡ Status.pending
    → Stored op node
    → Took (running_from s.now op) node (persist_update s op (running_from s.now op) node)
Took-running_from s op node pending st =
    Took-persist_update s op (running_from s.now op) node st
      (running_from-Changes s.now op node pending st)
      (updated-running_from s.now op (no_progress-Stored op node st))

at_stage-Changes :
    (now : ℕ) (stage warning : Bytes) (op : Operation) (node : Node)
    → op.status ≡ Status.running
    → Stored op node
    → Changes op (at_stage now stage warning op)
unfolding at_stage
at_stage-Changes now stage warning op node runs st = record {
  same_id = same_refl op.id;
  allowed = rw runs may_stay;
  progress = no_progress-Stored op node st;
  activity = λ a. a;
  completed = completion-Stored op node st;
}

updated-at_stage :
    (now : ℕ) (stage warning : Bytes) (op : Operation)
    → op.progress ≡ none
    → updated (at_stage now stage warning op) op ≡ at_stage now stage warning op
unfolding updated at_stage
updated-at_stage now stage warning op h =
    ap (λ p. record (at_stage now stage warning op) { progress = p }) (sym h)

Going-after_report :
    (id : Bytes) (current next : Operation) (node : Node)
    → (out : Result OperationError (Unit {0}) × Node) → next.id ≡ id
    → next.status ≡ Status.running
    → Took next node out
    → Going id (after_report current next out) × ((after_report current next out).0 ≡ next)
unfolding after_report
Going-after_report id current next node (ok u, node') is_id runs took =
    (record { stored = took.stored; has_id = is_id; runs = runs }, refl)
Going-after_report id current next node (err e, node') is_id runs took = cc

-- A stage that is reported is stored.
pub Going-report_stage :
    (s : Settings)
    → (id stage warning : Bytes) → (at : Operation × Node) → Going id at
    → Going id (report_stage s stage warning at)
      × ((report_stage s stage warning at).0 ≡ at_stage s.now stage warning at.0)
unfolding report_stage at_stage
Going-report_stage s id stage warning (current, node) going =
    Going-after_report id current (at_stage s.now stage warning current) node _ going.has_id
      going.runs
      (Took-persist_update s current (at_stage s.now stage warning current) node going.stored
        (at_stage-Changes s.now stage warning current node going.runs going.stored)
        (updated-at_stage s.now stage warning current
          (no_progress-Stored current node going.stored)))

-- What other goroutines and the host do while Apply runs leaves stored operations alone.
abbrev pub Undisturbed : List ApplyStep → Type 0
Undisturbed [] = Unit
Undisturbed (ApplyStep.reported stage warning ∷ steps) = Undisturbed steps
Undisturbed (ApplyStep.meanwhile f ∷ steps) =
    ((op : Operation) (node : Node) → Stored op node → Stored op (f node)) × Undisturbed steps

pub Going-apply_steps :
    (s : Settings)
    → (id : Bytes) → (steps : List ApplyStep) → (at : Operation × Node) → Undisturbed steps
    → Going id at
    → Going id (apply_steps s steps at)
unfolding apply_steps
Going-apply_steps s id [] at calm going = going
Going-apply_steps s id (ApplyStep.reported stage warning ∷ steps) at calm going =
    Going-apply_steps s id steps (report_stage s stage warning at) calm
      (Going-report_stage s id stage warning at going).0
Going-apply_steps s id (ApplyStep.meanwhile f ∷ steps) (current, node) (keeps, calm) going =
    Going-apply_steps s id steps (current, f node) calm
      (record {
        stored = keeps current node going.stored;
        has_id = going.has_id;
        runs = going.runs;
      })

-- An operation that runs may succeed.
pub finished-Changes :
    (now : ℕ) (op : Operation) (node : Node)
    → op.status ≡ Status.running
    → Stored op node
    → Changes op (finished now op)
unfolding finished
finished-Changes now op node runs st = record {
  same_id = same_refl op.id;
  allowed = rw runs may_succeed;
  progress = no_progress-Stored op node st;
  activity = λ a. absurd (ground (arith, a));
  completed = refl;
}

pub updated-finished :
    (now : ℕ) (op : Operation) → op.progress ≡ none → updated (finished now op) op ≡ finished now op
unfolding updated finished
updated-finished now op h = ap (λ p. record (finished now op) { progress = p }) (sym h)
