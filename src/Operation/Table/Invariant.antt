-- ===== src/Operation/Table/Invariant.antt =====
-- What holds of the table of operations after any creations, updates and interruptions.
use yorva.Prelude.{
  Bool, true, false, ◌&&◌, ◌||◌, ◌≡◌, refl, sym, Option, none, List, [], ◌∷◌, Bytes, arith,
  Bool-cases, inl, inr, ok, select, All,
}
use mathlib.Core.Path.{subst}
use yorva.Operation.Types.{Status, status_eq, Operation, OperationType}
use yorva.Operation.Status.{valid_status_change, is_terminal}
use yorva.Operation.Constraints.{
  Constraint, clash, indexed, any_row, any_pair, breaks, breaks_on_insert, constraints, is_active,
  overlaps,
}
use yorva.Operation.Table.{
  Report, Rows, broken, broken_on_insert, insert_effect, create_operation, update_operation,
  update_row,
}
use yorva.Operation.Table.Rows.{
  active-update_row, IsConsistent, has, any_row-update_rows, any_pair-update_rows, row_kept,
  progress-update_row,
}
use yorva.Operation.Table.Swap.{Updated, update_operation-Updated}

-- No mutation of all instances of an installation is active together with one of its instances.
abbrev pub Exclusive : (Bytes → Option Bytes) → Rows → Type 0
Exclusive installs rows =
    any_pair (λ a b. overlaps installs a b || overlaps installs b a) rows ≡ false

-- The tables that creations and ordinary updates make, those of an operation that is not terminal.
pub data Reachable (report : Report) (installs : Bytes → Option Bytes) : Rows → Type 0 where
  empty : Reachable report installs []
  created :
      {rows after : Rows} (value : Operation)
      → Reachable report installs rows
      → create_operation report installs value rows ≡ ok after
      → Reachable report installs after
  changed :
      {rows after : Rows} (current next : Operation)
      → Reachable report installs rows
      → is_terminal current.status ≡ false
      → update_operation report current next rows ≡ ok after
      → Reachable report installs after

-- What a creation that succeeds went through.
pub record Created (installs : Bytes → Option Bytes) (value : Operation) (rows after : Rows)
    : Type 0 where
  pub no_progress : value.progress ≡ none
  pub unbroken : broken_on_insert installs value rows ≡ []
  pub written : after ≡ value ∷ rows

insert-ok :
    (report : Report) (t : OperationType) (rows after : Rows) (cs : List Constraint)
    → insert_effect report t rows cs ≡ ok after
    → (cs ≡ []) × (after ≡ rows)
unfolding insert_effect
insert-ok report t rows after [] h = ground (arith, h)
insert-ok report t rows after (c ∷ cs) h = cc

create_passed :
    (report : Report) (installs : Bytes → Option Bytes) (value : Operation) (rows after : Rows)
    → create_operation report installs value rows ≡ ok after
    → (value.progress ≡ none)
      × (insert_effect report value.operation_type
            (value ∷ rows)
            (broken_on_insert installs value rows)
          ≡ ok after)
unfolding create_operation
create_passed report installs value rows after h = ground (arith, h)

pub create_operation-Created :
    (report : Report) (installs : Bytes → Option Bytes) (value : Operation) (rows after : Rows)
    → create_operation report installs value rows ≡ ok after
    → Created installs value rows after
create_operation-Created report installs value rows after h =
    let (no_progress, effect) = create_passed report installs value rows after h in
    let (unbroken, written) = insert-ok report _ _ after _ effect in
    record { no_progress = no_progress; unbroken = unbroken; written = written }

select-none :
    {A : Type 0} (p : A → Bool) (xs : List A) → select p xs ≡ [] → All (λ x. p x ≡ false) xs
select-none p [] h = tt
select-none p (x ∷ xs) h = elim (Bool-cases (p x)) [
  | inl hit ↦ absurd (ground (arith, rw hit at h))
  | inr miss ↦ (miss, select-none p xs (rw miss at h))
]

any_pair-never :
    (t : Operation → Operation → Bool) (rows : Rows)
    → ((a b : Operation) → t a b ≡ false)
    → any_pair t rows ≡ false
unfolding any_pair any_row
any_pair-never t [] h = refl
any_pair-never t (row ∷ rows) h = ground (arith, never rows, any_pair-never t rows h)
  where
    never : (others : Rows) → any_row (t row) others ≡ false
    never [] = refl
    never (o ∷ others) = ground (arith, h row o, never others)

breaks_none : (rows : Rows) → broken rows ≡ [] → (c : Constraint) → breaks c rows ≡ false
unfolding broken breaks clash indexed
breaks_none rows h c =
    let (a, (b, (s, (p, (k, (x, (y, (z, end)))))))) =
      select-none (λ c. breaks c rows) constraints h in
    elim c as (λ k. breaks k rows ≡ false) [
      | Constraint.status_check ↦ s
      | Constraint.primary_key ↦ p
      | Constraint.idempotency_key ↦ k
      | Constraint.host_mutation ↦ x
      | Constraint.instance_mutation ↦ y
      | Constraint.runtime_mutation ↦ z
      | Constraint.runtime_wide_trigger ↦ a
      | Constraint.instance_trigger ↦ b
    ]

pub inserted_breaks_none :
    (installs : Bytes → Option Bytes) (value : Operation) (rows : Rows)
    → broken_on_insert installs value rows ≡ []
    → (c : Constraint) → breaks c (value ∷ rows) ≡ false
unfolding broken_on_insert breaks_on_insert breaks clash indexed
inserted_breaks_none installs value rows h c =
    let (a, (b, (s, (p, (k, (x, (y, (z, end)))))))) =
      select-none (λ c. breaks_on_insert installs c value rows) constraints h in
    elim c as (λ k. breaks k (value ∷ rows) ≡ false) [
      | Constraint.status_check ↦ s
      | Constraint.primary_key ↦ p
      | Constraint.idempotency_key ↦ k
      | Constraint.host_mutation ↦ x
      | Constraint.instance_mutation ↦ y
      | Constraint.runtime_mutation ↦ z
      | Constraint.runtime_wide_trigger ↦ any_pair-never _ (value ∷ rows) (λ a b. refl)
      | Constraint.instance_trigger ↦ any_pair-never _ (value ∷ rows) (λ a b. refl)
    ]

any_row-or :
    (p q : Operation → Bool) (rows : Rows)
    → any_row p rows ≡ false
    → any_row q rows ≡ false
    → any_row (λ row. p row || q row) rows ≡ false
unfolding any_row
any_row-or p q [] h k = refl
any_row-or p q (row ∷ rows) h k = ground (arith, h, k, any_row-or p q rows)

inserted_apart :
    (installs : Bytes → Option Bytes) (value : Operation) (rows : Rows)
    → broken_on_insert installs value rows ≡ []
    → any_row (λ row. overlaps installs value row || overlaps installs row value) rows ≡ false
unfolding broken_on_insert breaks_on_insert
inserted_apart installs value rows h =
    let (a, (b, rest)) = select-none (λ c. breaks_on_insert installs c value rows) constraints h in
    any_row-or _ _ rows a b

Created-IsConsistent :
    {installs : Bytes → Option Bytes} {value : Operation} {rows after : Rows}
    → Created installs value rows after
    → IsConsistent rows
    → IsConsistent after
unfolding any_row
Created-IsConsistent {installs} {value} {rows} made good =
    subst IsConsistent (sym made.written) (record {
      kept = inserted_breaks_none installs value rows made.unbroken;
      no_progress = rw made.no_progress good.no_progress;
    })

Created-Exclusive :
    {installs : Bytes → Option Bytes} {value : Operation} {rows after : Rows}
    → Created installs value rows after
    → Exclusive installs rows
    → Exclusive installs after
unfolding any_pair
Created-Exclusive {installs} {value} {rows} made apart =
    subst (Exclusive installs) (sym made.written)
      (ground (arith, inserted_apart installs value rows made.unbroken, apart))

Updated-IsConsistent :
    {current next : Operation} {rows after : Rows}
    → Updated current next rows after
    → IsConsistent rows
    → IsConsistent after
Updated-IsConsistent {current} {next} {rows} {after} step good = record {
  kept = breaks_none after step.unbroken;
  no_progress =
      subst (λ r. any_row (λ row. has row.progress) r ≡ false) (sym step.written)
        (any_row-update_rows _ _ current next rows (progress-update_row current next)
          good.no_progress);
}

-- An ordinary update does not make a row active that was not.
stays_active :
    (s t : Status)
    → is_terminal s ≡ false
    → (status_eq s t || valid_status_change s t) ≡ true
    → is_active t ≡ true
    → is_active s ≡ true
unfolding is_terminal valid_status_change status_eq
stays_active s t h k a = ground (arith, h, k, a)

six_tests :
    (a b x y p p' q q' r : Bool)
    → (a ≡ true → x ≡ true)
    → (b ≡ true → y ≡ true)
    → (a && p && p') && (b && q && q') && r ≡ true
    → (x && p && p') && (y && q && q') && r ≡ true
six_tests a b x y p p' q q' r f g h = ground (arith, f, g, h)

overlaps-update_row :
    (installs : Bytes → Option Bytes) (current next a b : Operation)
    → is_terminal current.status ≡ false
    → (status_eq current.status next.status || valid_status_change current.status next.status)
      ≡ true
    → overlaps installs (update_row current next a) (update_row current next b) ≡ true
    → overlaps installs a b ≡ true
overlaps-update_row installs current next a b h k i =
    let (ia, ka, ta, na, oa) = row_kept current next a in
    let (ib, kb, tb, nb, ob) = row_kept current next b in
    six_tests _ _ _ _ _ _ _ _ _ (active-update_row current next a (stays_active _ _ h k))
      (active-update_row current next b (stays_active _ _ h k)) (rw (ta, na, oa, tb, nb, ob) at i)

either_or :
    (a b x y : Bool)
    → (a ≡ true → x ≡ true)
    → (b ≡ true → y ≡ true)
    → (a || b) ≡ true
    → (x || y) ≡ true
either_or a b x y f g h = ground (arith, f, g, h)

Updated-Exclusive :
    (installs : Bytes → Option Bytes) {current next : Operation} {rows after : Rows}
    → is_terminal current.status ≡ false
    → Updated current next rows after
    → Exclusive installs rows
    → Exclusive installs after
Updated-Exclusive installs {current} {next} {rows} h step apart =
    subst (Exclusive installs) (sym step.written) (
      any_pair-update_rows _ current next rows
        (λ a b.
          either_or _ _ _ _ (overlaps-update_row installs current next a b h step.allowed)
            (overlaps-update_row installs current next b a h step.allowed))
        apart)

breaks-empty : (c : Constraint) → breaks c [] ≡ false
unfolding breaks any_row any_pair
breaks-empty Constraint.status_check = refl
breaks-empty c = refl

-- However operations are created and then moved by ordinary updates, the table breaks no constraint,
-- and a mutation of all instances of an installation is never active together with a mutation of
-- one instance that belongs to it.
pub reachable_invariant :
    {report : Report} {installs : Bytes → Option Bytes} {rows : Rows}
    → Reachable report installs rows
    → IsConsistent rows × Exclusive installs rows
unfolding any_row any_pair breaks
reachable_invariant empty = (record { kept = breaks-empty; no_progress = refl }, refl)
reachable_invariant (created {rows} {after} value r h) =
    let (good, apart) = reachable_invariant r in
    let made = create_operation-Created _ _ value rows after h in
    (Created-IsConsistent made good, Created-Exclusive made apart)
reachable_invariant (changed {rows} {after} current next r h u) =
    let (good, apart) = reachable_invariant r in
    let step = update_operation-Updated _ current next rows after u in
    (Updated-IsConsistent step good, Updated-Exclusive _ h step apart)
