-- ===== src/Install/Decide/Environment.antt =====
-- How far the decisions of recovery depend on the observed environment.
use yorva.Prelude.{◌≡◌, ◌⊎◌, inl, inr, List, [], ◌∷◌, arith, refl, Bool-cases}
use yorva.Install.Types.{
  TransactionState, Action, TransactionView, Observation, RecoveryDecision, EnvironmentObservation,
}
use yorva.Install.Decide.Single.{decide_one, decide_activating, decide_by_state}
use yorva.Install.Decide.Recovery.{decide_recovery, decide_among, decide_terminal}
use yorva.Install.Decide.Classify.{valid_txns, open_txns}
use yorva.Install.Decide.Safety.{unblocked, decide_recovery-unblocked, decide_recovery-blocked}

-- The actions between which the observed environment may choose.
abbrev pub EnvironmentStage : Action → Type 0
EnvironmentStage a = (a ≡ Action.commit) ⊎ (a ≡ Action.reconcile_env) ⊎ (a ≡ Action.none)

abbrev pub SameButEnvironment : RecoveryDecision → RecoveryDecision → Type 0
SameButEnvironment d d' = (d ≡ d') ⊎ (EnvironmentStage d.action × EnvironmentStage d'.action)

decide_activating-environment :
    (obs : Observation) (e : EnvironmentObservation) (txn : TransactionView)
    → SameButEnvironment
        (decide_activating obs txn)
        (decide_activating (record obs { environment = e }) txn)
unfolding decide_activating
decide_activating-environment obs e txn = ground arith

decide_by_state-environment :
    (s : TransactionState) (obs : Observation) (e : EnvironmentObservation) (txn : TransactionView)
    → SameButEnvironment
        (decide_by_state s obs txn)
        (decide_by_state s (record obs { environment = e }) txn)
unfolding decide_by_state
decide_by_state-environment TransactionState.activating obs e txn =
    decide_activating-environment obs e txn
decide_by_state-environment TransactionState.published obs e txn = inl (ground arith)
decide_by_state-environment _ obs e txn = inl refl

decide_terminal-environment :
    (obs : Observation) (e : EnvironmentObservation) (valid : List TransactionView)
    → SameButEnvironment
        (decide_terminal obs valid)
        (decide_terminal (record obs { environment = e }) valid)
unfolding decide_terminal
decide_terminal-environment obs e valid = ground arith

decide_among-environment :
    (obs : Observation) (e : EnvironmentObservation) (valid open_list : List TransactionView)
    → SameButEnvironment
        (decide_among obs valid open_list)
        (decide_among (record obs { environment = e }) valid open_list)
unfolding decide_among decide_one
decide_among-environment obs e valid [] = decide_terminal-environment obs e valid
decide_among-environment obs e valid (txn ∷ []) = decide_by_state-environment txn.state obs e txn
decide_among-environment obs e valid (txn ∷ txn' ∷ txns) = inl refl

-- Whatever the environment is observed to be, recovery decides the same, except to choose between
-- committing, reconciling the environment and doing nothing.
pub environment_only_finishes :
    (obs : Observation) (e : EnvironmentObservation)
    → SameButEnvironment (decide_recovery obs) (decide_recovery (record obs { environment = e }))
environment_only_finishes obs e =
    let obs' : Observation = record obs { environment = e } in
    elim (Bool-cases (unblocked obs)) [
      | inl free ↦ rw (decide_recovery-unblocked obs free) (
          rw (decide_recovery-unblocked obs' free) (
            decide_among-environment obs e (valid_txns obs.transactions)
              (open_txns obs.transactions)))
      | inr stuck ↦
          rw (decide_recovery-blocked obs stuck)
            (rw (decide_recovery-blocked obs' stuck) (inl refl))
    ]
