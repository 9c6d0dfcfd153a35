-- ===== src/Install/Decide/Safety.antt =====
-- What recovery may decide.
use yorva.Prelude.{
  Bool, true, false, not, ◌&&◌, ◌||◌, ◌≡◌, ◌⊎◌, inl, inr, List, [], ◌∷◌, arith, refl, ◌↔◌, Any,
  Bool-cases, same,
}
use yorva.Install.Types.{
  TransactionState, nonterminal, Gate, Action, TransactionView, is_valid, is_invalid, complete,
  Observation,
}
use yorva.Install.Decide.Outcome.{blocked, active_names, expected_predecessor}
use yorva.Install.Decide.Single.{decide_one, generation_proven}
use yorva.Install.Decide.Recovery.{
  decide_recovery, decide_among, decide_terminal, failed_but_active,
}
use yorva.Install.Decide.Classify.{
  any_malformed, valid_txns, open_txns, classify-eq-select, Any-select,
}

-- Nothing that blocks recovery was observed.
abbrev pub unblocked : Observation → Bool
unblocked obs =
    not (is_invalid obs.active || obs.reserved_id_collision || any_malformed obs.transactions)

pub decide_recovery-unblocked :
    (obs : Observation)
    → unblocked obs ≡ true
    → decide_recovery obs
      ≡ decide_among obs (valid_txns obs.transactions) (open_txns obs.transactions)
unfolding decide_recovery
decide_recovery-unblocked obs h = rw (classify-eq-select obs.transactions) (ground arith)

pub decide_recovery-blocked :
    (obs : Observation) → unblocked obs ≡ false → decide_recovery obs ≡ blocked
unfolding decide_recovery
decide_recovery-blocked obs h = rw (classify-eq-select obs.transactions) (ground arith)

-- The conditions under which recovery may write the active pointer for the one open transaction.
abbrev pub CanActivate : Observation → TransactionView → Type 0
CanActivate obs txn =
    (txn.state ≡ TransactionState.activating)
    × (generation_proven obs ≡ true)
    × (active_names obs.active txn.generation_id ≡ false)
    × (expected_predecessor obs.active txn ≡ true)

decide_among-activate :
    (obs : Observation) (valid open_list : List TransactionView)
    → (decide_among obs valid open_list).action ≡ Action.activate
    → (txn : TransactionView) × (open_list ≡ txn ∷ []) × CanActivate obs txn
unfolding decide_among
decide_among-activate obs valid [] h = ground arith
decide_among-activate obs valid (txn ∷ []) h = (txn, refl, ground arith)
decide_among-activate obs valid (txn ∷ txn' ∷ txns) h = ground arith

decide_one-activate :
    (obs : Observation) (txn : TransactionView)
    → CanActivate obs txn
    → (decide_one obs txn).action ≡ Action.activate
unfolding decide_one
decide_one-activate obs txn h = ground arith

-- Recovery decides to activate exactly when nothing blocks it, exactly one valid record is open,
-- that record is ACTIVATING, its generation is present, sealed and of its lineage, and the active
-- pointer does not name the generation yet and is the predecessor that the record expects.
pub activate_iff :
    (obs : Observation)
    → ((decide_recovery obs).action ≡ Action.activate) ↔ (
        (txn : TransactionView) × (unblocked obs ≡ true)
        × (open_txns obs.transactions ≡ txn ∷ [])
        × CanActivate obs txn)
activate_iff obs = elim (Bool-cases (unblocked obs)) [
  | inl free ↦ rw (decide_recovery-unblocked obs free) (only free, back free)
  | inr stuck ↦
      rw (decide_recovery-blocked obs stuck)
        (λ h. unfold blocked in cc, λ h. absurd (ground (arith, h.1)))
]
  where
    only :
        unblocked obs ≡ true
        → (decide_among obs (valid_txns obs.transactions) (open_txns obs.transactions)).action
          ≡ Action.activate
        → (txn : TransactionView) × (unblocked obs ≡ true)
          × (open_txns obs.transactions ≡ txn ∷ [])
          × CanActivate obs txn
    only free h =
        let (txn, one, can) =
          decide_among-activate obs (valid_txns obs.transactions) (open_txns obs.transactions) h in
        (txn, free, one, can)

    back :
        unblocked obs ≡ true
        → ((txn : TransactionView) × (unblocked obs ≡ true)
            × (open_txns obs.transactions ≡ txn ∷ [])
            × CanActivate obs txn)
        → (decide_among obs (valid_txns obs.transactions) (open_txns obs.transactions)).action
          ≡ Action.activate
    back free (txn, free', one, can) =
        rw one (unfold decide_among in decide_one-activate obs txn can)

-- A record whose generation the active pointer names, and which recovery may commit.
abbrev pub Committable : Observation → TransactionView → Type 0
Committable obs t =
    ((t.state ≡ TransactionState.activating) ⊎ (t.state ≡ TransactionState.failed))
    × (same obs.active.generation_id t.generation_id ≡ true)

failed_but_active-Any :
    (obs : Observation) (valid : List TransactionView)
    → failed_but_active obs.active valid ≡ true
    → Any (Committable obs) valid × (is_valid obs.active ≡ true)
unfolding failed_but_active
failed_but_active-Any obs [] h = ground arith
failed_but_active-Any obs (t ∷ ts) h =
    ground (arith, λ (e : failed_but_active obs.active ts ≡ true). failed_but_active-Any obs ts e)

abbrev Finishes : Observation → List TransactionView → Type 0
Finishes obs ts =
    (complete obs.environment ≡ true) × (is_valid obs.active ≡ true) × Any (Committable obs) ts

decide_terminal-commit :
    (obs : Observation) (valid : List TransactionView)
    → (decide_terminal obs valid).action ≡ Action.commit
    → Finishes obs valid
unfolding decide_terminal
decide_terminal-commit obs valid h =
    ground
      (arith, λ (e : failed_but_active obs.active valid ≡ true). failed_but_active-Any obs valid e)

decide_one-commit :
    (obs : Observation) (txn : TransactionView)
    → (decide_one obs txn).action ≡ Action.commit
    → Finishes obs (txn ∷ [])
unfolding decide_one active_names
decide_one-commit obs txn h = ground arith

decide_recovery-inert :
    (obs : Observation)
    → (decide_recovery obs).gate ≡ Gate.blocked_unsafe
    → ((decide_recovery obs).action ≡ Action.block_unsafe)
      × ((decide_recovery obs).next_state ≡ TransactionState.unset)
unfolding decide_recovery
decide_recovery-inert obs h = ground arith

-- The conclusion of `commit_needs_active`, over all records on disk.
abbrev pub MayCommit : Observation → Type 0
MayCommit obs =
    (complete obs.environment ≡ true)
    × (is_valid obs.active ≡ true)
    × Any (λ t. (t.valid ≡ true) × Committable obs t) obs.transactions

decide_among-commit :
    (obs : Observation) (valid open_list : List TransactionView)
    → (decide_among obs valid open_list).action ≡ Action.commit
    → Finishes obs valid ⊎ Finishes obs open_list
unfolding decide_among
decide_among-commit obs valid [] h = inl (decide_terminal-commit obs valid h)
decide_among-commit obs valid (txn ∷ []) h = inr (decide_one-commit obs txn h)
decide_among-commit obs valid (txn ∷ txn' ∷ txns) h = ground arith

weaken_open :
    (P : TransactionView → Type 0) (ts : List TransactionView)
    → Any (λ t. ((t.valid && nonterminal t.state) ≡ true) × P t) ts
    → Any (λ t. (t.valid ≡ true) × P t) ts
weaken_open P [] a = elim a [ ]
weaken_open P (t ∷ ts) (inl (e, p)) = inl (ground arith, p)
weaken_open P (t ∷ ts) (inr a) = inr (weaken_open P ts a)

-- Recovery decides to commit only when the environment is complete, the active pointer is valid,
-- and it names the generation of a valid record on disk that is ACTIVATING or was marked FAILED.
pub commit_needs_active :
    (obs : Observation) → (decide_recovery obs).action ≡ Action.commit → MayCommit obs
commit_needs_active obs h = elim (Bool-cases (unblocked obs)) [
  | inl free ↦ joined (
      decide_among-commit obs (valid_txns obs.transactions) (open_txns obs.transactions)
        (rw (decide_recovery-unblocked obs free) at h))
  | inr stuck ↦ unfold blocked in cc (rw (decide_recovery-blocked obs stuck) at h)
]
  where
    joined :
        Finishes obs (valid_txns obs.transactions) ⊎ Finishes obs (open_txns obs.transactions)
        → MayCommit obs
    joined (inl (done, valid, a)) =
        (done, valid, Any-select (Committable obs) (λ t. t.valid) obs.transactions a)
    joined (inr (done, valid, a)) = (
      done,
      valid,
      weaken_open (Committable obs) obs.transactions
          (Any-select (Committable obs) (λ t. t.valid && nonterminal t.state) obs.transactions a),
    )
