-- ===== src/Install/Recover/Pointer.antt =====
-- The active pointer across a recovery: every change of it is a compare-and-swap.
use yorva.Prelude.{
  ◌≡◌, refl, ap, ◌∙◌, ◌⊎◌, inl, inr, ℕ, zero, suc, Bool, true, false, Option, none, some, Result,
  ok, err, Bool-cases, if◌then◌else◌,
}
use yorva.Prelude.Results.{check_cases}
use yorva.Install.Types.{is_invalid, Gate, Action, RecoveryDecision}
use yorva.Install.Records.{Err, lock_busy, InstallTransaction, ActiveRecord}
use yorva.Install.Validate.{validate_active_record}
use yorva.Install.Disk.{Disk, ActiveFile, pure, raise, reads, ◌>>=◌, write, M}
use yorva.Install.Disk.Steps.{reads-ok, reads-err, bind-ok, bind-err}
use yorva.Install.Disk.Frame.{
  Frames, Frames-pure, Frames-reads, Frames-bind, Frames-if, Frames-write,
}
use yorva.Install.Seal.{read_active}
use yorva.Install.Pointer.{pointer_names_txn, cas_allows_activate}
use yorva.Install.Manager.Persist.{write_active}
use yorva.Install.Manager.Activate.{
  active_record_of, pointer, swap_pointer, compare_and_swap, enter_activating, activate_from,
  activate,
}
use yorva.Install.Decide.Recovery.{decide_recovery}
use yorva.Install.Observe.{observe}
use yorva.Install.Execute.{primary, invoke_on_primary, execute_action, execute}
use yorva.Install.Store.{load_transaction}
use yorva.Install.Gc.Collect.{collect}
use mathlib.Core.Path.{subst}
use yorva.Install.Execute.Quiet.{
  IsQuiet, Frames-persist, Frames-ensure_control, Frames-now, Frames-pointer, Frames-execute_action,
  Frames-collect, Frames-mark_activating, Frames-enter_activating,
}
use yorva.Install.Recover.{
  recover_loop, recover_with, Recovered, is_blocked, settles, regresses, after_execute,
  collect_if_ready, final_gate,
}

-- The file that holds a record.
abbrev pub file_with : ActiveRecord → Option ActiveFile
file_with rec = some (record { plain = true; content = some rec })

-- The transaction may replace the pointer that is read off the disk.
pub record MaySwap (d : Disk) (txn : InstallTransaction) : Type 0 where
  pub not_invalid : is_invalid (read_active d) ≡ false
  pub not_named : pointer_names_txn (read_active d) txn ≡ false
  pub allowed : cas_allows_activate txn (read_active d) ≡ ok tt

-- What one round of recovery does where it replaces the pointer: it read a record off the disk, and
-- where that is PUBLISHED it persisted it with the pointer remembered; on the disk that this left, the
-- record may replace the pointer, and the file holds the record's valid generation now.
pub record Swap (e f : Disk) : Type 0 where
  pub txn : InstallTransaction
  pub stored : load_transaction (primary (observe e)).id e ≡ ok txn
  pub entered : InstallTransaction
  pub enters : (enter_activating txn (read_active e) e).0 ≡ ok entered
  pub may : MaySwap (enter_activating txn (read_active e) e).1 entered
  pub time : ℕ
  pub valid : validate_active_record (active_record_of entered time) ≡ ok tt
  pub written : f.active ≡ file_with (active_record_of entered time)

abbrev pub Swaps : Disk → Disk → Type 0
Swaps e f = (f.active ≡ e.active) ⊎ Swap e f

-- One round: the disk is observed, and the decision on it is carried out.
abbrev pub round : Disk → Disk
round e = (execute (observe e) (decide_recovery (observe e)) e).1

-- The disks of a recovery: rounds, each of which leaves control/active.json alone or replaces it as
-- `Swap` says, and a collection, which leaves it alone.
pub data PointerHistory (d : Disk) : Disk → Type 0 where
  started : PointerHistory d d
  turned : {e : Disk} → PointerHistory d e → Swaps e (round e) → PointerHistory d (round e)
  collected :
      {e : Disk}
      → PointerHistory d e
      → (collect e).1.active ≡ e.active
      → PointerHistory d (collect e).1

history_chain : {a b c : Disk} → PointerHistory a b → PointerHistory b c → PointerHistory a c
history_chain h started = h
history_chain h (turned k swaps) = turned (history_chain h k) swaps
history_chain h (collected k kept) = collected (history_chain h k) kept

SameActive : Disk → Disk → Type 0
SameActive d e = e.active ≡ d.active

same_quiet : IsQuiet SameActive
unfolding SameActive
same_quiet = record {
  frame = record { same = λ d. refl; chain = λ a b c h k. k ∙ h; spend = λ d fates. refl };
  transactions = λ d files. refl;
  staging = λ d trees. refl;
  generations = λ d trees. refl;
  failed = λ d trees. refl;
  environment = λ d o. refl;
}

-- The file is left alone, or holds the valid record of the transaction at some time.
Written : InstallTransaction → Disk → Disk → Type 0
Written txn d e =
    (e.active ≡ d.active)
    ⊎ ((time : ℕ) × (validate_active_record (active_record_of txn time) ≡ ok tt)
        × (e.active ≡ file_with (active_record_of txn time)))

Written-chain :
    (txn : InstallTransaction) (a b c : Disk) → Written txn a b → Written txn b c → Written txn a c
unfolding Written
Written-chain txn a b c (inl h) (inl k) = inl (k ∙ h)
Written-chain txn a b c (inr (t, v, h)) (inl k) = inr (t, v, k ∙ h)
Written-chain txn a b c _ (inr k) = inr k

Written-quiet : (txn : InstallTransaction) → IsQuiet (Written txn)
unfolding Written
Written-quiet txn = record {
  frame = record { same = λ d. inl refl; chain = Written-chain txn; spend = λ d fates. inl refl };
  transactions = λ d files. inl refl;
  staging = λ d trees. inl refl;
  generations = λ d trees. inl refl;
  failed = λ d trees. inl refl;
  environment = λ d o. inl refl;
}

module _ (txn : InstallTransaction) (time : ℕ) where
  Written-set :
      validate_active_record (active_record_of txn time) ≡ ok tt
      → Frames
          (Written txn)
          (write (λ d. record d { active = file_with (active_record_of txn time) }))
  unfolding Written
  Written-set valid = Frames-write (Written-quiet txn).frame _ (λ d. inr (time, valid, refl))

  Written-write_active : Frames (Written txn) (write_active (active_record_of txn time))
  unfolding write_active Written
  Written-write_active = elim (check_cases (validate_active_record (active_record_of txn time))) [
    | inl valid ↦
        let frame = (Written-quiet txn).frame in
        Frames-bind frame _ _ (Frames-reads frame _) λ _.
          Frames-bind frame _ _ (Frames-ensure_control (Written-quiet txn))
            λ _. Frames-bind frame _ _ (Frames-reads frame _) λ _. Written-set valid
    | inr (e, refused) ↦ record {
      at = λ d. inl (ap (λ (r : Result Err Unit × Disk). r.1.active) (reads-err _ _ d e refused));
    }
  ]

Written-swap_pointer : (txn : InstallTransaction) → Frames (Written txn) (swap_pointer txn)
unfolding swap_pointer
Written-swap_pointer txn =
    let frame = (Written-quiet txn).frame in
    Frames-bind frame _ _ (Frames-now (Written-quiet txn)) λ time.
      Frames-bind frame _ _ (Written-write_active txn time) λ _.
        Frames-bind frame _ _ (Frames-pointer (Written-quiet txn)) λ _.
          Frames-bind frame _ _ (Frames-reads frame _) λ _.
            Frames-bind frame _ _ (Frames-reads frame _) λ _.
              Frames-if frame _ _ _ (Frames-pure frame _) (Frames-persist (Written-quiet txn) _)

-- What holds of the disk that a computation leaves, by what it reads and binds.
module _ {A C : Type 0} (Q : Disk → Type 0) where
  after_reads :
      (f : Disk → Result Err A) (k : A → M C) (d : Disk)
      → Q d
      → ((a : A) → f d ≡ ok a → Q (k a d).1)
      → Q ((reads f >>= k) d).1
  after_reads f k d stop go = by_result (f d) refl
    where
      by_result : (r : Result Err A) → f d ≡ r → Q ((reads f >>= k) d).1
      by_result (ok a) e = rw (reads-ok f k d a e) (go a e)
      by_result (err x) e = rw (reads-err f k d x e) stop

  after_bind :
      (m : M A) (k : A → M C) (d : Disk)
      → Q (m d).1
      → ((a : A) → (m d).0 ≡ ok a → Q (k a (m d).1).1)
      → Q ((m >>= k) d).1
  after_bind m k d stop go = by_result (m d) refl
    where
      by_result : (r : Result Err A × Disk) → m d ≡ r → Q ((m >>= k) d).1
      by_result (ok a, e) h = rw (bind-ok m k d e a h) (
          subst (λ (x : Result Err A × Disk). Q (k a x.1).1) h
            (go a (ap (λ (x : Result Err A × Disk). x.0) h)))
      by_result (err x, e) h =
          rw (bind-err m k d e x h) (subst (λ (x : Result Err A × Disk). Q x.1) h stop)

-- The compare-and-swap from a disk: it leaves the file alone, or the record may replace the pointer.
Compared : InstallTransaction → Disk → Disk → Type 0
Compared txn d e =
    (e.active ≡ d.active)
    ⊎ (MaySwap d txn
        × (time : ℕ) × (validate_active_record (active_record_of txn time) ≡ ok tt)
        × (e.active ≡ file_with (active_record_of txn time)))

Compared-Written :
    (txn : InstallTransaction) (d e : Disk) → MaySwap d txn → Written txn d e → Compared txn d e
unfolding Written Compared
Compared-Written txn d e may (inl h) = inl h
Compared-Written txn d e may (inr (time, valid, w)) = inr (may, time, valid, w)

Compared-compare_and_swap :
    (txn : InstallTransaction) (d : Disk) → Compared txn d (compare_and_swap txn d).1
unfolding compare_and_swap pointer pure raise Compared
Compared-compare_and_swap txn d =
    rw (reads-ok (λ e. ok (read_active e)) _ d (read_active d) refl)
      (elim (Bool-cases (is_invalid (read_active d))) [
        | inl e ↦ rw e (inl refl)
        | inr valid ↦ rw valid (elim (Bool-cases (pointer_names_txn (read_active d) txn)) [
          | inl e ↦ rw e (inl refl)
          | inr unnamed ↦ rw unnamed (
              after_reads (Compared txn d) (λ _. cas_allows_activate txn (read_active d))
                (λ _. swap_pointer txn) d (inl refl)
                (λ u allowed.
                  Compared-Written txn d (swap_pointer txn d).1
                    (record { not_invalid = valid; not_named = unnamed; allowed = allowed })
                    ((Written-swap_pointer txn).at d)))
        ])
      ])

-- A round that activates, from the disk it observed.
module _ (e : Disk) where
  Swaps-Compared :
      (txn entered : InstallTransaction) (f : Disk)
      → load_transaction (primary (observe e)).id e ≡ ok txn
      → (enter_activating txn (read_active e) e).0 ≡ ok entered
      → (enter_activating txn (read_active e) e).1.active ≡ e.active
      → Compared entered (enter_activating txn (read_active e) e).1 f
      → Swaps e f
  unfolding Compared
  Swaps-Compared txn entered f stored enters same (inl h) = inl (h ∙ same)
  Swaps-Compared txn entered f stored enters same (inr (may, time, valid, written)) = inr (record {
    txn = txn;
    stored = stored;
    entered = entered;
    enters = enters;
    may = may;
    time = time;
    valid = valid;
    written = written;
  })

  Swaps-activate_from :
      (txn : InstallTransaction)
      → load_transaction (primary (observe e)).id e ≡ ok txn
      → Swaps e (activate_from txn (read_active e) e).1
  unfolding activate_from raise SameActive
  Swaps-activate_from txn stored = elim (Bool-cases (is_invalid (read_active e))) [
    | inl invalid ↦ rw invalid (inl refl)
    | inr valid ↦ rw valid (elim (Bool-cases (pointer_names_txn (read_active e) txn)) [
      | inl named ↦ rw named (inl ((Frames-mark_activating same_quiet txn).at e))
      | inr unnamed ↦
          let same = (Frames-enter_activating same_quiet txn (read_active e)).at e in
          rw unnamed (
            after_bind (Swaps e) (enter_activating txn (read_active e)) compare_and_swap e
              (inl same)
              (λ entered enters.
                Swaps-Compared txn entered _ stored enters same
                  (Compared-compare_and_swap entered (enter_activating txn (read_active e) e).1)))
    ])
  ]

  Swaps-activate :
      (txn : InstallTransaction)
      → load_transaction (primary (observe e)).id e ≡ ok txn
      → Swaps e (activate txn e).1
  unfolding activate pointer
  Swaps-activate txn stored = after_reads (Swaps e) _ _ e (inl refl) λ u p.
      after_reads (Swaps e) _ _ e (inl refl) λ v q. after_reads (Swaps e) _ _ e (inl refl) λ w r.
        rw (reads-ok (λ x. ok (read_active x)) (activate_from txn) e (read_active e) refl)
          (Swaps-activate_from txn stored)

  Swaps-invoke : Swaps e (invoke_on_primary (observe e) activate e).1
  unfolding invoke_on_primary pure
  Swaps-invoke = after_reads (Swaps e) _ _ e (inl refl) λ u p.
      after_reads (Swaps e) _ _ e (inl refl) λ txn stored.
        after_bind (Swaps e) (activate txn) _ e (Swaps-activate txn stored)
          λ a b. Swaps-activate txn stored

  Swaps-execute_action :
      (a : Action) (d : RecoveryDecision) → Swaps e (execute_action a (observe e) d e).1
  unfolding execute_action SameActive
  Swaps-execute_action Action.activate d = Swaps-invoke
  Swaps-execute_action a d = inl ((Frames-execute_action same_quiet a (observe e) d refl).at e)

  Swaps-round : Swaps e (round e)
  unfolding execute
  Swaps-round = Swaps-execute_action _ (decide_recovery (observe e))

history-after_execute :
    (disk ran : Disk) (d : RecoveryDecision) (r : Result Err Unit) (rest : Recovered × Disk)
    → PointerHistory disk ran
    → PointerHistory disk rest.1
    → PointerHistory disk (after_execute d r rest ran).1
unfolding after_execute
history-after_execute disk ran d (ok tt) rest h k = k
history-after_execute disk ran d (err e) rest h k = h

history-collect_if_ready : (g : Gate) (disk : Disk) → PointerHistory disk (collect_if_ready g disk)
unfolding collect_if_ready SameActive
history-collect_if_ready Gate.ready disk = collected started ((Frames-collect same_quiet).at disk)
history-collect_if_ready Gate.reconciling disk = started
history-collect_if_ready Gate.blocked_unsafe disk = started

history_if :
    (b : Bool) (disk : Disk) (x y : Recovered × Disk)
    → PointerHistory disk x.1
    → PointerHistory disk y.1
    → PointerHistory disk (if b then x else y).1
history_if true disk x y h k = h
history_if false disk x y h k = k

history-recover_loop :
    (steps : ℕ) (previous : Option RecoveryDecision) (disk : Disk)
    → PointerHistory disk (recover_loop steps previous disk).1
unfolding recover_loop
history-recover_loop zero previous disk = started
history-recover_loop (suc steps) previous disk =
    let obs = observe disk in
    let d = decide_recovery obs in
    let step = turned started (Swaps-round disk) in
    history_if (is_blocked d) disk _ _ started (
      history_if (settles d) disk _ _ (history-collect_if_ready (final_gate d) disk) (
        history_if (regresses previous d) disk _ _ started (
          history-after_execute disk (round disk) d (execute obs d disk).0 _ step
            (history_chain step (history-recover_loop steps (some d) (round disk))))))

-- Recovery, from any disk, whichever writes fail and wherever it stops, changes the active pointer
-- only by compare-and-swaps. It goes through rounds, and a round leaves the pointer alone or writes
-- the valid record of a transaction that it read off the disk, or, where that one was PUBLISHED, of
-- the one it has persisted with the pointer remembered; and on the disk where it writes, the pointer
-- is not invalid, does not name that transaction, and is the predecessor that the record remembers.
pub recover-PointerHistory :
    (lock : Result Err Unit) (disk : Disk) → PointerHistory disk (recover_with lock disk).1
unfolding recover_with
recover-PointerHistory (ok tt) disk = history-recover_loop 8 none disk
recover-PointerHistory (err lock_busy) disk = started
recover-PointerHistory (err e) disk = started
