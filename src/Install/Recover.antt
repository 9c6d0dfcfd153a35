-- ===== src/Install/Recover.antt =====
-- recover.go: the recovery loop and the gate that it leaves.
pub mod Pointer
use yorva.Prelude.{
  ℕ, zero, suc, Bool, true, false, not, ◌&&◌, ◌||◌, Option, some, none, if◌then◌else◌, ltb, ◌==◌,
  Result, ok, err,
}
use yorva.Install.Types.{TransactionState, state_eq, Gate, Action, Code, RecoveryDecision}
use yorva.Install.Records.{Err, lock_busy, blocked_unsafe}
use yorva.Install.Disk.{Disk, M}
use yorva.Install.Decide.Recovery.{decide_recovery}
use yorva.Install.Observe.{observe}
use yorva.Install.Manager.Persist.{outcome}
use yorva.Install.Gc.Collect.{collect}
use yorva.Install.Execute.{execute, is_unset}

abbrev pub max_recover_steps : ℕ
max_recover_steps = 8

-- finalGate
unfoldable pub final_gate : RecoveryDecision → Gate
final_gate d = d.gate

-- rankState
unfoldable pub rank_state : TransactionState → ℕ
rank_state TransactionState.created = 1
rank_state TransactionState.building = 2
rank_state TransactionState.sealed = 3
rank_state TransactionState.published = 4
rank_state TransactionState.activating = 5
rank_state TransactionState.committed = 6
rank_state _ = 0

action_index : Action → ℕ
action_index Action.none = 0
action_index Action.fail_transaction = 1
action_index Action.move_staging_to_failed = 2
action_index Action.remove_empty_staging = 3
action_index Action.remove_empty_generation = 4
action_index Action.persist_published = 5
action_index Action.persist_activating = 6
action_index Action.activate = 7
action_index Action.reconcile_env = 8
action_index Action.commit = 9
action_index Action.gc_staging = 10
action_index Action.diagnose_retain = 11
action_index Action.block_unsafe = 12
action_index Action.fail_failable_extras = 13

-- `a == b` on actions
unfoldable pub action_eq : Action → Action → Bool
unfolding action_index
action_eq a b = action_index a == action_index b

abbrev pub is_blocked : RecoveryDecision → Bool
is_blocked d = elim d.gate [
  | Gate.blocked_unsafe ↦ true
  | _ ↦ action_eq d.action Action.block_unsafe
]

-- forwardOrNoop
unfoldable pub forward_or_noop : RecoveryDecision → RecoveryDecision → Bool
unfolding action_eq rank_state state_eq
forward_or_noop prev next =
    if is_blocked next
    then false
    else if action_eq next.action Action.none || action_eq next.action Action.diagnose_retain
    then true
    else if action_eq next.action Action.reconcile_env
    then true
    else if not (action_eq prev.action next.action)
    then true
    else if not (is_unset prev.next_state)
        && not (is_unset next.next_state)
        && not (state_eq prev.next_state next.next_state)
    then ltb (rank_state prev.next_state) (rank_state next.next_state)
    else false

-- What RecoverWith leaves in the gate and returns.
pub record Recovered : Type 0 where
  pub gate : Gate
  pub decision : RecoveryDecision
  pub error : Option Err

blocked_decision : RecoveryDecision
blocked_decision = record {
  gate = Gate.blocked_unsafe;
  next_state = TransactionState.unset;
  action = Action.block_unsafe;
  error_code = Code.blocked_unsafe;
}

-- The decision ends the loop: there is nothing to do but, with the gate open, to collect.
abbrev pub settles : RecoveryDecision → Bool
settles d =
    action_eq d.action Action.none && is_unset d.next_state
    || action_eq d.action Action.diagnose_retain

unfoldable pub collect_if_ready : Gate → Disk → Disk
collect_if_ready Gate.ready d = (collect d).1
collect_if_ready _ d = d

abbrev pub regresses : Option RecoveryDecision → RecoveryDecision → Bool
regresses none next = false
regresses (some prev) next = not (forward_or_noop prev next)

-- The gate after Execute has failed.
gate_of_failure : Action → Gate
gate_of_failure Action.reconcile_env = Gate.reconciling
gate_of_failure _ = Gate.blocked_unsafe

unfoldable pub after_execute :
    RecoveryDecision → Result Err (Unit {0}) → Recovered × Disk → Disk → Recovered × Disk
unfolding gate_of_failure
after_execute d (ok tt) rest disk = rest
after_execute d (err e) rest disk =
    (record { gate = gate_of_failure d.action; decision = d; error = some e }, disk)

-- The loop of RecoverWith, with the steps left and the decision before.
unfoldable pub recover_loop : ℕ → Option RecoveryDecision → Disk → Recovered × Disk
unfolding after_execute collect_if_ready blocked_decision
recover_loop zero previous disk = (
  record { gate = Gate.blocked_unsafe; decision = blocked_decision; error = some blocked_unsafe },
  disk,
)
recover_loop (suc steps) previous disk =
    let obs = observe disk in
    let d = decide_recovery obs in
    let ran = execute obs d disk in
    let rest = recover_loop steps (some d) ran.1 in
    if is_blocked d
    then (record { gate = Gate.blocked_unsafe; decision = d; error = none }, disk)
    else if settles d
    then (
      record { gate = final_gate d; decision = d; error = none },
      collect_if_ready (final_gate d) disk,
    )
    else if regresses previous d
    then (record { gate = Gate.blocked_unsafe; decision = d; error = some blocked_unsafe }, disk)
    else after_execute d ran.0 rest ran.1

-- RecoverWith, given what AcquireLock returned.
unfoldable pub recover_with : Result Err (Unit {0}) → Disk → Recovered × Disk
unfolding recover_loop
recover_with (err lock_busy) disk = (
  record {
    gate = Gate.reconciling;
    decision = record {
      gate = Gate.reconciling;
      next_state = TransactionState.unset;
      action = Action.none;
      error_code = Code.not_ready;
    };
    error = some lock_busy;
  },
  disk,
)
recover_with (err e) disk =
    (record { gate = Gate.blocked_unsafe; decision = blocked_decision; error = some e }, disk)
recover_with (ok tt) disk = recover_loop max_recover_steps none disk
