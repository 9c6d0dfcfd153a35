-- ===== src/App/Worker/Succeeds.antt =====
-- A worker whose host succeeds.
use mathlib.Core.Path.{subst}
use yorva.Prelude.{
  ℕ, Bool, true, false, not, ◌&&◌, ◌||◌, none, some, List, [], ◌∷◌, ◌++◌, Bytes, bytes, Result, ok,
  err, ◌≡◌, refl, sym, ap, ◌∙◌, arith, same, select, Bool-cases, inl, inr,
}
use yorva.Operation.Types.{Status, Operation}
use yorva.Operation.Errors.{OperationError}
use yorva.Operation.Table.{Rows, Report, updated, affected, broken}
use yorva.Operation.Table.Rows.{IsConsistent, update_rows-IsConsistent}
use yorva.Operation.Table.Effective.{Changes, update_rows-one, affected-one, broken-IsConsistent}
use yorva.Operation.Queries.{get_operation}
use yorva.Operation.Installations.{
  AcceptedInstallation, Installations, upsert, complete_effect, complete_operation,
  complete_install_success,
}
use yorva.App.Node.{Settings, Node, emit_operation}
use yorva.App.Node.Stored.{Stored, Took, no_progress-Stored, get_operation-Stored}
use yorva.App.Project.{cleanup}
use yorva.App.Cancel.{any_of}
use yorva.App.Worker.Postcheck.{Candidate, Discovery, Host, postcheck_accepted}
use yorva.App.Worker.{
  Site, report_stage, at_stage, apply_steps, finished, accepted_by, after_completion, complete_with,
  complete, complete_discovered, postcheck, after_apply, after_running, run_validated, run_with,
  stop_worker, running_from, execute,
}
use yorva.App.Worker.Going.{
  Going, Took-running_from, Going-report_stage, Undisturbed, Going-apply_steps, finished-Changes,
  updated-finished,
}

-- The operation that is stored succeeded and is cleaned up, the installation is accepted, and the
-- table breaks no constraint.
pub record Succeeded (id : Bytes) (accepted : Installations) (site : Site) : Type 0 where
  pub operation : Operation
  pub found : get_operation id site.0.rows ≡ ok operation
  pub status : operation.status ≡ Status.succeeded
  pub stage : operation.stage ≡ cleanup
  pub consistent : IsConsistent site.0.rows
  pub installations : site.1 ≡ accepted

-- The UPDATE of CompleteInstallSuccess takes effect.
complete_operation-one :
    (report : Report) (now : ℕ) (row : Operation) (xs ys : Rows)
    → Changes row (finished now row)
    → updated (finished now row) row ≡ finished now row
    → IsConsistent (xs ++ row ∷ ys)
    → (complete_operation report row (finished now row) (xs ++ row ∷ ys)
        ≡ ok (xs ++ finished now row ∷ ys))
      × IsConsistent (xs ++ finished now row ∷ ys)
unfolding complete_operation complete_effect finished
complete_operation-one report now row xs ys change written good =
    let next = finished now row in
    let moved = update_rows-one row next xs ys good ∙ ap (λ r. xs ++ r ∷ ys) written in
    let good' =
      subst IsConsistent moved (
        update_rows-IsConsistent row next (xs ++ row ∷ ys) change.activity change.completed good) in
    (
      ap (λ rows. complete_effect report (affected row (xs ++ row ∷ ys)) rows (broken rows)) moved
          ∙ ap (λ n. complete_effect report n (xs ++ next ∷ ys) (broken (xs ++ next ∷ ys)))
              (affected-one row xs ys good)
          ∙ ap (λ cs. complete_effect report 1 (xs ++ next ∷ ys) cs)
              (broken-IsConsistent (xs ++ next ∷ ys) good'),
      good',
    )

fit : (p a b : Bool) → p ≡ true → (a || b) ≡ true → (not p || not a && not b) ≡ false
fit p a b g h = ground (arith, g, h)

module _ (s : Settings) (h : Host) (started : Operation) (accepted accepted' : Installations) where
  Succeeded-written :
      (current : Operation)
      → (xs ys : Rows) → (node : Node) → current.id ≡ started.id
      → current.stage ≡ cleanup
      → IsConsistent (xs ++ finished s.now current ∷ ys)
      → current.progress ≡ none
      → Succeeded started.id accepted' (
          after_completion s started.id current
            (finished s.now current)
            (node, accepted)
            (ok (xs ++ finished s.now current ∷ ys, accepted')))
  unfolding after_completion emit_operation finished
  Succeeded-written current xs ys node is_id cleaned good empty = record {
    operation = finished s.now current;
    found =
        subst
          (λ i. get_operation i (xs ++ finished s.now current ∷ ys) ≡ ok (finished s.now current))
          is_id
          (get_operation-Stored (finished s.now current)
            (record node { rows = xs ++ finished s.now current ∷ ys })
            (record {
              place = record { before = xs; after = ys; parts = refl };
              consistent = good;
            }));
    status = refl;
    stage = cleaned;
    consistent = good;
    installations = refl;
  }

  completed :
      (current next : Operation)
      → (known : Bytes → Bool) → (value : AcceptedInstallation) → (rows rows' : Rows)
      → Changes current next
      → complete_operation s.report current next rows ≡ ok rows'
      → upsert known value accepted ≡ ok accepted'
      → complete_install_success s.report known current next value (rows, accepted)
        ≡ ok (rows', accepted')
  unfolding complete_install_success
  completed current next known value rows rows' change done up = rw (change.allowed, done, up) refl

  Succeeded-complete_with :
      (c : Candidate)
      → (t : ℕ) → (known : Bytes → Bool) → (random : Bytes) → (at : Operation × Node)
      → upsert known (accepted_by s h started.target_id random c t) accepted ≡ ok accepted'
      → Going started.id at
      → at.0.stage ≡ cleanup
      → Succeeded started.id accepted'
          (complete_with s h started c t known (some random) at.0 (at.1, accepted))
  unfolding complete_with
  Succeeded-complete_with c t known random (current, node) up going cleaned =
      let next = finished s.now current in
      let place = going.stored.place in
      let value = accepted_by s h started.target_id random c t in
      let empty = no_progress-Stored current node going.stored in
      let change = finished-Changes s.now current node going.runs going.stored in
      let (done, good) =
        complete_operation-one s.report s.now current place.before place.after change
          (updated-finished s.now current empty)
          (subst IsConsistent place.parts going.stored.consistent) in
      let effect =
        completed current next known value node.rows (place.before ++ next ∷ place.after) change
          (ap (complete_operation s.report current next) place.parts ∙ done) up in
      subst
        (λ r.
          Succeeded started.id accepted'
            (after_completion s started.id current next (node, accepted) r))
        (sym effect)
        (Succeeded-written current place.before place.after node going.has_id cleaned good empty)

  Succeeded-discovered :
      (c : Candidate)
      → (t : ℕ) → (known : Bytes → Bool) → (random : Bytes) → (at : Operation × Node)
      → h.completer ≡ some known
      → h.installation_id ≡ some random
      → upsert known (accepted_by s h started.target_id random c t) accepted ≡ ok accepted'
      → Going started.id at
      → Succeeded started.id accepted' (complete_discovered s h started (some c) t at accepted)
  unfolding complete_discovered complete at_stage
  Succeeded-discovered c t known random at has_completer has_id up going =
      let (going', staged) = Going-report_stage s started.id cleanup [] at going in
      rw (has_completer, has_id)
        (Succeeded-complete_with c t known random (report_stage s cleanup [] at) up going'
          (ap (λ op. op.stage) staged))

  module _ (d : Discovery) (c : Candidate) (known : Bytes → Bool) (random : Bytes)
      (detected : h.detected ≡ some d) (selected : d.selected ≡ some c)
      (confirmed : postcheck_accepted s h d ≡ true) (has_completer : h.completer ≡ some known)
      (has_id : h.installation_id ≡ some random)
      (up : upsert known (accepted_by s h started.target_id random c d.detected_at) accepted
        ≡ ok accepted') where
    Succeeded-after_apply :
        (at : Operation × Node)
        → Going started.id at
        → Succeeded started.id accepted' (after_apply s h started none at accepted)
    unfolding after_apply postcheck
    Succeeded-after_apply at going =
        let (going', staged) =
          Going-report_stage s started.id (bytes "postcheck.discovery") [] at going in
        rw (detected, confirmed, selected)
          (Succeeded-discovered c d.detected_at known random _ has_completer has_id up going')

    Succeeded-after_running :
        (out : Result OperationError (Unit {0}) × Node) (node : Node)
        → h.apply_error ≡ none
        → Undisturbed h.steps
        → Took (running_from s.now started) node out
        → Succeeded started.id accepted'
            (after_running s h started (running_from s.now started) out accepted)
    unfolding after_running running_from
    Succeeded-after_running (ok u, node') node no_error calm took = rw no_error (
        Succeeded-after_apply (apply_steps s h.steps (running_from s.now started, node')) (
          Going-apply_steps s started.id h.steps (running_from s.now started, node') calm
            (record { stored = took.stored; has_id = refl; runs = refl })))
    Succeeded-after_running (err e, node') node no_error calm took = cc

    Succeeded-run :
        (applier : Bytes × Bytes) (node : Node)
        → s.applier ≡ some applier
        → h.platform_supported ≡ true
        → (h.on_windows || h.allow_non_windows) ≡ true
        → h.target_error ≡ none
        → h.apply_error ≡ none
        → Undisturbed h.steps
        → Stored started node
        → started.status ≡ Status.pending
        → Succeeded started.id accepted' (run_with s h started s.applier (node, accepted))
    unfolding run_with run_validated
    Succeeded-run applier node has_applier platform windows no_target no_error calm st pending =
        subst (λ a. Succeeded started.id accepted' (run_with s h started a (node, accepted)))
          (sym has_applier)
          (rw (fit h.platform_supported h.on_windows h.allow_non_windows platform windows) (
            subst
              (λ e. Succeeded started.id accepted' (run_validated s h started e (node, accepted)))
              (sym no_target)
              (Succeeded-after_running _ node no_error calm
                (Took-running_from s started node pending st))))

Succeeded-stop_worker :
    (id : Bytes) (accepted : Installations) (site : Site)
    → Succeeded id accepted site
    → Succeeded id accepted (stop_worker id site.0, site.1)
unfolding stop_worker
Succeeded-stop_worker id accepted site done = record {
  operation = done.operation;
  found = done.found;
  status = done.status;
  stage = done.stage;
  consistent = done.consistent;
  installations = done.installations;
}

no_worker : (id : Bytes) (ws : List Bytes) → any_of id (select (λ w. not (same w id)) ws) ≡ false
unfolding any_of
no_worker id [] = refl
no_worker id (w ∷ ws) = elim (Bool-cases (same w id)) [
  | inl hit ↦ rw hit (no_worker id ws)
  | inr miss ↦ rw (miss, miss) (no_worker id ws)
]

-- A worker that starts on a stored pending operation, in a table that breaks no constraint, ends with
-- that operation stored as SUCCEEDED at the stage `cleanup`, with the installation accepted, with no
-- constraint broken and with the worker gone, where the platform and the target are fit, Apply
-- succeeds whatever stages it reports while nobody else touches stored operations, the discovery
-- confirms the installation and its row can be written.
pub execute-succeeds :
    (s : Settings)
    → (h : Host) → (started : Operation) → (node : Node) → (accepted accepted' : Installations)
    → (applier : Bytes × Bytes) → (d : Discovery) → (c : Candidate) → (known : Bytes → Bool)
    → (random : Bytes) → s.applier ≡ some applier
    → h.platform_supported ≡ true
    → (h.on_windows || h.allow_non_windows) ≡ true
    → h.target_error ≡ none
    → h.apply_error ≡ none
    → Undisturbed h.steps
    → h.detected ≡ some d
    → d.selected ≡ some c
    → postcheck_accepted s h d ≡ true
    → h.completer ≡ some known
    → h.installation_id ≡ some random
    → upsert known (accepted_by s h started.target_id random c d.detected_at) accepted
      ≡ ok accepted'
    → Stored started node
    → started.status ≡ Status.pending
    → Succeeded started.id accepted' (execute s h started (node, accepted))
      × (any_of started.id (execute s h started (node, accepted)).0.workers ≡ false)
unfolding execute stop_worker
execute-succeeds s h started node accepted accepted' applier d c known random has_applier platform
      windows no_target no_error calm detected selected confirmed has_completer has_id up st
      pending =
    (
      Succeeded-stop_worker started.id accepted' (run_with s h started s.applier (node, accepted)) (
          Succeeded-run s h started accepted accepted' d c known random detected selected confirmed
            has_completer has_id up applier node has_applier platform windows no_target no_error
            calm st pending),
      no_worker started.id _,
    )
