-- ===== src/Operation/Table/Rows.antt =====
-- What an update does to the rows of the table.
use yorva.Prelude.{
  ◌+◌, Bool, true, false, not, ◌&&◌, ◌≡◌, refl, ap, Option, none, some, [], ◌∷◌, ◌++◌, Bytes, same,
  same_refl, same_iff, arith, Bool-cases, inl, inr,
}
use yorva.Operation.Types.{Status, status_eq, Operation}
use yorva.Operation.Constraints.{
  Constraint, indexed, clash, any_row, any_pair, breaks, is_active, completion_ok, same_target,
}
use yorva.Operation.Table.{matches, updated, update_row, update_rows, affected, Rows}

abbrev pub has : {A : Type 0} → Option A → Bool
has none = false
has (some a) = true

-- A table that the driver may hold: no constraint is broken, and no row has a progress.
pub record IsConsistent (rows : Rows) : Type 0 where
  pub kept : (c : Constraint) → breaks c rows ≡ false
  pub no_progress : any_row (λ row. has row.progress) rows ≡ false

abbrev pub has_id : Bytes → Rows → Bool
has_id id rows = any_row (λ row. same row.id id) rows

pub status_eq_refl : (s : Status) → status_eq s s ≡ true
unfolding status_eq
status_eq_refl (Status.other s) = same_refl s
status_eq_refl s = ground arith

pub update_rows-absent :
    (current next : Operation) (rows : Rows)
    → has_id current.id rows ≡ false
    → update_rows current next rows ≡ rows
unfolding update_rows update_row matches any_row
update_rows-absent current next [] h = refl
update_rows-absent current next (row ∷ rows) h =
    ground (arith, h, update_rows-absent current next rows)

pub affected-absent :
    (current : Operation) (rows : Rows) → has_id current.id rows ≡ false → affected current rows ≡ 0
unfolding affected matches any_row
affected-absent current [] h = refl
affected-absent current (row ∷ rows) h = ground (arith, h, affected-absent current rows)

pub update_rows-append :
    (current next : Operation) (xs ys : Rows)
    → update_rows current next (xs ++ ys)
      ≡ update_rows current next xs ++ update_rows current next ys
unfolding update_rows
update_rows-append current next [] ys = refl
update_rows-append current next (x ∷ xs) ys =
    ap (λ rows. update_row current next x ∷ rows) (update_rows-append current next xs ys)

pub affected-append :
    (current : Operation) (xs ys : Rows)
    → affected current (xs ++ ys) ≡ affected current xs + affected current ys
unfolding affected
affected-append current [] ys = ground arith
affected-append current (x ∷ xs) ys = ground (arith, affected-append current xs ys)

active_alike : (s t : Status) → status_eq s t ≡ true → is_active t ≡ true → is_active s ≡ true
unfolding status_eq
active_alike s t e a = ground (arith, e, a)

-- An update that does not make an operation active again makes no row active.
pub active-update_row :
    (current next row : Operation)
    → (is_active next.status ≡ true → is_active current.status ≡ true)
    → is_active (update_row current next row).status ≡ true
    → is_active row.status ≡ true
unfolding update_row updated matches
active-update_row current next row h a = elim (Bool-cases (matches current row)) [
  | inl hit ↦ active_alike row.status current.status (ground (arith, hit)) (h (rw hit at a))
  | inr miss ↦ rw miss at a
]

first_of : (a b x : Bool) → (a ≡ true → x ≡ true) → (a && b) ≡ true → (x && b) ≡ true
first_of a b x f i = ground (arith, f, i)

-- The columns that an update leaves alone.
pub row_kept :
    (current next row : Operation)
    → ((update_row current next row).id ≡ row.id)
      × ((update_row current next row).idempotency_key ≡ row.idempotency_key)
      × ((update_row current next row).target_type ≡ row.target_type)
      × ((update_row current next row).target_id ≡ row.target_id)
      × ((update_row current next row).operation_type ≡ row.operation_type)
unfolding update_row updated
row_kept current next row = elim (Bool-cases (matches current row)) [
  | inl hit ↦ rw hit (refl, refl, refl, refl, refl)
  | inr miss ↦ rw miss (refl, refl, refl, refl, refl)
]

indexed-update_row :
    (c : Constraint) (current next row : Operation)
    → (is_active next.status ≡ true → is_active current.status ≡ true)
    → indexed c (update_row current next row) ≡ true
    → indexed c row ≡ true
unfolding indexed
indexed-update_row Constraint.host_mutation current next row h i =
    let (ik, kk, tk, nk, type_kept) = row_kept current next row in
    first_of _ _ _ (active-update_row current next row h) (rw type_kept at i)
indexed-update_row Constraint.instance_mutation current next row h i =
    let (ik, kk, tk, nk, type_kept) = row_kept current next row in
    first_of _ _ _ (first_of _ _ _ (active-update_row current next row h)) (rw (tk, type_kept) at i)
indexed-update_row Constraint.runtime_mutation current next row h i =
    let (ik, kk, tk, nk, type_kept) = row_kept current next row in
    first_of _ _ _ (first_of _ _ _ (active-update_row current next row h)) (rw (tk, type_kept) at i)
indexed-update_row c current next row h i = ground (arith, i)

same_target-update_row :
    (current next a b : Operation)
    → same_target (update_row current next a) (update_row current next b) ≡ same_target a b
same_target-update_row current next a b =
    let (ia, ka, ta, na, oa) = row_kept current next a in
    let (ib, kb, tb, nb, ob) = row_kept current next b in rw (ta, na, tb, nb)

all_three :
    (x y z x' y' z' : Bool)
    → (x ≡ true → x' ≡ true)
    → (y ≡ true → y' ≡ true)
    → z ≡ z'
    → x && y && z ≡ true
    → x' && y' && z' ≡ true
all_three x y z x' y' z' f g e h = ground (arith, f, g, e, h)

clash-update_row :
    (c : Constraint) (current next a b : Operation)
    → (is_active next.status ≡ true → is_active current.status ≡ true)
    → clash c (update_row current next a) (update_row current next b) ≡ true
    → clash c a b ≡ true
unfolding clash
clash-update_row Constraint.primary_key current next a b h i =
    ground (arith, row_kept current next a, row_kept current next b, i)
clash-update_row Constraint.idempotency_key current next a b h i =
    ground (arith, row_kept current next a, row_kept current next b, i)
clash-update_row c current next a b h i =
    all_three _ _ _ _ _ _ (indexed-update_row c current next a h)
      (indexed-update_row c current next b h) (same_target-update_row current next a b) i

pub any_row-update_rows :
    (p q : Operation → Bool) (current next : Operation) (rows : Rows)
    → ((row : Operation) → q (update_row current next row) ≡ true → p row ≡ true)
    → any_row p rows ≡ false
    → any_row q (update_rows current next rows) ≡ false
unfolding any_row update_rows
any_row-update_rows p q current next [] f h = refl
any_row-update_rows p q current next (row ∷ rows) f h =
    ground (arith, f row, h, any_row-update_rows p q current next rows f)

pub any_pair-update_rows :
    (t : Operation → Operation → Bool) (current next : Operation) (rows : Rows)
    → ((a b : Operation)
        → t (update_row current next a) (update_row current next b) ≡ true
        → t a b ≡ true)
    → any_pair t rows ≡ false
    → any_pair t (update_rows current next rows) ≡ false
unfolding any_pair update_rows
any_pair-update_rows t current next [] f h = refl
any_pair-update_rows t current next (row ∷ rows) f h = ground (
  arith,
  h,
  any_row-update_rows (t row) (t (update_row current next row)) current next rows (f row),
  any_pair-update_rows t current next rows f,
)

completion-update_row :
    (current next row : Operation)
    → completion_ok next.status next.completed_at ≡ true
    → not (
        completion_ok
          (update_row current next row).status
          (update_row current next row).completed_at)
      ≡ true
    → not (completion_ok row.status row.completed_at) ≡ true
unfolding update_row updated
completion-update_row current next row h i = elim (Bool-cases (matches current row)) [
  | inl hit ↦ absurd (ground (arith, h, rw hit at i))
  | inr miss ↦ rw miss at i
]

pub progress-update_row :
    (current next row : Operation)
    → has (update_row current next row).progress ≡ true
    → has row.progress ≡ true
unfolding update_row updated
progress-update_row current next row i = elim (Bool-cases (matches current row)) [
  | inl hit ↦ absurd (ground (arith, rw hit at i))
  | inr miss ↦ rw miss at i
]

-- An update that does not make an operation active again, and that sets the completion time as its
-- status asks for, keeps a table consistent.
pub update_rows-IsConsistent :
    (current next : Operation) (rows : Rows)
    → (is_active next.status ≡ true → is_active current.status ≡ true)
    → completion_ok next.status next.completed_at ≡ true
    → IsConsistent rows
    → IsConsistent (update_rows current next rows)
unfolding breaks
update_rows-IsConsistent current next rows h k good = record {
  kept = λ c. go c (good.kept c);
  no_progress =
      any_row-update_rows _ _ current next rows (progress-update_row current next) good.no_progress;
}
  where
    go : (c : Constraint) → breaks c rows ≡ false → breaks c (update_rows current next rows) ≡ false
    go Constraint.status_check b =
        any_row-update_rows _ _ current next rows (λ row. completion-update_row current next row k)
          b
    go c b =
        any_pair-update_rows (clash c) current next rows
          (λ x y. clash-update_row c current next x y h) b

has_id-middle :
    (test row : Operation) (xs ys : Rows)
    → any_row (clash Constraint.primary_key test) (xs ++ row ∷ ys) ≡ false
    → same test.id row.id ≡ false
unfolding any_row clash
has_id-middle test row [] ys h = ground (arith, h)
has_id-middle test row (x ∷ xs) ys h = ground (arith, h, has_id-middle test row xs ys)

pub same_sym : (a b : Bytes) → same a b ≡ same b a
same_sym a b = ground (arith, same_iff a b, same_iff b a)

after_row :
    (row : Operation) (ys : Rows)
    → any_row (clash Constraint.primary_key row) ys ≡ false
    → has_id row.id ys ≡ false
unfolding any_row clash
after_row row [] h = refl
after_row row (y ∷ ys) h = ground (arith, h, same_sym row.id y.id, after_row row ys)

-- No other row has the identifier of a row of a consistent table.
pub alone :
    (row : Operation) (xs ys : Rows)
    → any_pair (clash Constraint.primary_key) (xs ++ row ∷ ys) ≡ false
    → (has_id row.id xs ≡ false) × (has_id row.id ys ≡ false)
unfolding any_pair any_row
alone row [] ys h = (refl, after_row row ys (ground (arith, h)))
alone row (x ∷ xs) ys h =
    let (before, after) = alone row xs ys (ground (arith, h)) in
    (ground (arith, h, before, has_id-middle x row xs ys), after)
