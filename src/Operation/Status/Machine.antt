-- ===== src/Operation/Status/Machine.antt =====
-- What the status machine allows.
use yorva.Prelude.{
  ℕ, ◌+◌, Bool, false, ◌&&◌, true, ◌||◌, ◌≡◌, refl, List, [], ◌∷◌, leb, arith, length,
}
use yorva.Operation.Types.{Status, status_eq}
use yorva.Operation.Status.{
  is_terminal, valid_transition, valid_projection_repair, valid_status_change,
}

-- The statuses that an operation went through, each change of them an ordinary transition.
pub data Run : Status → List Status → Type 0 where
  stays : {s : Status} → Run s []
  moves :
      {s : Status} (t : Status) {rest : List Status}
      → valid_transition s t ≡ true
      → Run t rest
      → Run s (t ∷ rest)

-- How many ordinary transitions may follow.
steps_left : Status → ℕ
steps_left Status.pending = 2
steps_left Status.running = 1
steps_left _ = 0

steps_left-valid_transition :
    (s t : Status) → valid_transition s t ≡ true → leb (steps_left t + 1) (steps_left s) ≡ true
unfolding valid_transition status_eq steps_left
steps_left-valid_transition s t h = ground arith

length-Run :
    {s : Status} {rest : List Status} → Run s rest → leb (length rest) (steps_left s) ≡ true
length-Run stays = ground arith
length-Run (moves {s} t {rest} h r) =
    ground (arith, steps_left-valid_transition s t h, length-Run r)

-- An operation that is only moved by ordinary transitions changes its status at most twice, at
-- most once after it is RUNNING, and never once it is terminal.
pub Run-ends :
    {s : Status} {rest : List Status}
    → Run s rest
    → (leb (length rest) 2 ≡ true)
      × (s ≡ Status.running → leb (length rest) 1 ≡ true)
      × (is_terminal s ≡ true → rest ≡ [])
unfolding steps_left is_terminal status_eq
Run-ends {s} {rest} r =
    let bound = length-Run r in
    (within s bound, (λ h. ground (arith, bound, h)), λ h. none_left s rest h bound)
  where
    within : (s : Status) → leb (length rest) (steps_left s) ≡ true → leb (length rest) 2 ≡ true
    within s h = ground (arith, h)

    none_left :
        (s : Status) (l : List Status)
        → is_terminal s ≡ true
        → leb (length l) (steps_left s) ≡ true
        → l ≡ []
    none_left s [] h b = refl
    none_left s (t ∷ l) h b = ground (arith, h, b)

-- The changes of status that are allowed: an operation is run, ended, or repaired after it ended.
abbrev pub allowed_changes : List (Status × Status)
allowed_changes =
    (Status.pending, Status.running)
    ∷ (Status.pending, Status.failed)
    ∷ (Status.pending, Status.cancelled)
    ∷ (Status.running, Status.succeeded)
    ∷ (Status.running, Status.failed)
    ∷ (Status.running, Status.cancelled)
    ∷ (Status.succeeded, Status.running)
    ∷ (Status.failed, Status.succeeded)
    ∷ (Status.failed, Status.running)
    ∷ (Status.cancelled, Status.succeeded)
    ∷ (Status.cancelled, Status.running)
    ∷ []

abbrev pub lists_change : Status → Status → List (Status × Status) → Bool
lists_change s t [] = false
lists_change s t ((a, b) ∷ changes) = status_eq a s && status_eq b t || lists_change s t changes

-- A status change is allowed exactly when nothing changes or when it is one of these: PENDING to
-- RUNNING, FAILED or CANCELLED; RUNNING to SUCCEEDED, FAILED or CANCELLED; SUCCEEDED to RUNNING;
-- FAILED or CANCELLED to SUCCEEDED or RUNNING.
pub valid_status_change_lem :
    (s t : Status) → valid_status_change s t ≡ (status_eq s t || lists_change s t allowed_changes)
unfolding valid_status_change valid_transition valid_projection_repair is_terminal status_eq
valid_status_change_lem s t = ground arith
