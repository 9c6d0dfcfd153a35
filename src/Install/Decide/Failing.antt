-- ===== src/Install/Decide/Failing.antt =====
-- What recovery may mark as FAILED.
use yorva.Prelude.{
  Bool, true, false, not, ◌||◌, ◌≡◌, ◌⊎◌, inl, inr, List, [], ◌∷◌, arith, refl, Any, Bool-cases,
}
use yorva.Install.Types.{
  TransactionState, is_failed, Action, TransactionView, Observation, RecoveryDecision,
}
use yorva.Install.Decide.Outcome.{blocked, has_failable, failable}
use yorva.Install.Decide.Single.{decide_one}
use yorva.Install.Decide.Recovery.{decide_recovery, decide_among, decide_terminal}
use yorva.Install.Decide.Classify.{valid_txns, open_txns}
use yorva.Install.Decide.Safety.{unblocked, decide_recovery-unblocked, decide_recovery-blocked}

-- The decision marks records as FAILED: the one that it is about, or all that were not built yet.
abbrev pub marks_failed : RecoveryDecision → Bool
marks_failed d =
    is_failed d.next_state || (elim d.action [ Action.fail_failable_extras ↦ true | _ ↦ false ])

abbrev pub Unbuilt : TransactionView → Type 0
Unbuilt t = (t.state ≡ TransactionState.created) ⊎ (t.state ≡ TransactionState.building)

-- The one open transaction was never published: it was not built yet, and what is at the place of
-- its generation is nothing, empty or its own; or it was sealed and nothing is at that place.
abbrev pub Abandoned : Observation → TransactionView → Type 0
Abandoned obs txn =
    (Unbuilt txn
      × ((not obs.generation.present || obs.generation.empty || obs.generation.lineage_match)
          ≡ true))
    ⊎ ((txn.state ≡ TransactionState.sealed) × (obs.generation.present ≡ false))

abbrev pub MarksOne : Observation → Type 0
MarksOne obs = (txn : TransactionView) × (open_txns obs.transactions ≡ txn ∷ []) × Abandoned obs txn

-- Several are open, and one of them was not built yet.
abbrev pub MarksExtras : Observation → Type 0
MarksExtras obs =
    (t : TransactionView) × (t' : TransactionView) × (ts : List TransactionView) × (open_txns
        obs.transactions
      ≡ t ∷ t' ∷ ts)
    × Any Unbuilt (t ∷ t' ∷ ts)

decide_one-marks_failed :
    (obs : Observation) (txn : TransactionView)
    → marks_failed (decide_one obs txn) ≡ true
    → Abandoned obs txn
unfolding decide_one
decide_one-marks_failed obs txn h = ground arith

terminal_keeps :
    (obs : Observation) (valid : List TransactionView)
    → marks_failed (decide_terminal obs valid) ≡ false
unfolding decide_terminal
terminal_keeps obs valid = ground arith

failable_lem : (t : TransactionView) → failable t.state ≡ true → Unbuilt t
failable_lem t h = ground arith

has_failable-Any : (ts : List TransactionView) → has_failable ts ≡ true → Any Unbuilt ts
unfolding has_failable
has_failable-Any [] h = cc
has_failable-Any (t ∷ ts) h = elim (Bool-cases (failable t.state)) [
  | inl here ↦ inl (failable_lem t here)
  | inr later ↦ inr (has_failable-Any ts (rw later at h))
]

several :
    (obs : Observation) (valid : List TransactionView) (t t' : TransactionView)
    → (ts : List TransactionView) → marks_failed (decide_among obs valid (t ∷ t' ∷ ts)) ≡ true
    → has_failable (t ∷ t' ∷ ts) ≡ true
unfolding decide_among
several obs valid t t' ts h = ground (arith, h)

decide_among-marks_failed :
    (obs : Observation) (valid open_list : List TransactionView)
    → open_txns obs.transactions ≡ open_list
    → marks_failed (decide_among obs valid open_list) ≡ true
    → MarksOne obs ⊎ MarksExtras obs
unfolding decide_among
decide_among-marks_failed obs valid [] eq h = absurd (ground (arith, h, terminal_keeps obs valid))
decide_among-marks_failed obs valid (txn ∷ []) eq h =
    inl (txn, eq, decide_one-marks_failed obs txn h)
decide_among-marks_failed obs valid (t ∷ t' ∷ ts) eq h =
    inr (t, t', ts, eq, has_failable-Any (t ∷ t' ∷ ts) (several obs valid t t' ts h))

-- Whenever recovery decides to mark records as FAILED, there are two cases. Exactly one valid record is
-- open, and it is CREATED or BUILDING with nothing, an empty directory or its own tree at the place
-- of its generation, or SEALED with nothing there. Or several are open, and one of them is CREATED or
-- BUILDING.
pub fail_only-Unbuilt :
    (obs : Observation) → marks_failed (decide_recovery obs) ≡ true → MarksOne obs ⊎ MarksExtras obs
fail_only-Unbuilt obs h = elim (Bool-cases (unblocked obs)) [
  | inl free ↦
      decide_among-marks_failed obs (valid_txns obs.transactions) (open_txns obs.transactions) refl
        (rw (decide_recovery-unblocked obs free) at h)
  | inr stuck ↦ unfold blocked in cc (rw (decide_recovery-blocked obs stuck) at h)
]
