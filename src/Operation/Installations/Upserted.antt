-- ===== src/Operation/Installations/Upserted.antt =====
-- What GetAcceptedInstallation gives after UpsertAcceptedInstallation.
use mathlib.Core.Path.{subst}
use yorva.Prelude.{
  Bool, true, false, ◌&&◌, ◌≡◌, refl, sym, ap, ◌∙◌, Option, none, some, [], ◌∷◌, ◌++◌, Bytes,
  same_refl, same_iff, arith, Bool-cases, inl, inr, if◌then◌else◌, ok, err,
}
use yorva.Operation.Installations.{
  AcceptedInstallation, Installations, InstallationError, has_key, at_key_of, refreshed, find_row,
  refresh, insert_new, upsert_found, upsert, upsert_accepted_installation,
  get_accepted_installation, scan_accepted,
}

-- The row at the key of a value after the upsert, by the row that was there.
abbrev pub accepted_as : AcceptedInstallation → Option AcceptedInstallation → AcceptedInstallation
accepted_as value none = value
accepted_as value (some row) = refreshed value row

at_own_key : (value : AcceptedInstallation) → at_key_of value value ≡ true
at_own_key value =
    rw (same_refl value.node_id, same_refl value.runtime_kind, same_refl value.install_path) refl

find_row-refresh :
    (value row : AcceptedInstallation) (rows : Installations)
    → find_row (at_key_of value) rows ≡ some row
    → find_row (at_key_of value) (refresh value rows) ≡ some (refreshed value row)
unfolding find_row refresh refreshed
find_row-refresh value row [] h = cc
find_row-refresh value row (r ∷ rows) h = elim (Bool-cases (at_key_of value r)) [
  | inl hit ↦
      let here : r ≡ row = ground (arith, rw hit at h) in
      rw (hit, hit) (ap (λ x. some (refreshed value x)) here)
  | inr miss ↦ rw (miss, miss) (find_row-refresh value row rows (rw miss at h))
]

find_row-insert :
    (p : AcceptedInstallation → Bool) (value : AcceptedInstallation) (rows : Installations)
    → p value ≡ true
    → find_row p rows ≡ none
    → find_row p (rows ++ value ∷ []) ≡ some value
unfolding find_row
find_row-insert p value [] here h = rw here refl
find_row-insert p value (r ∷ rows) here h = elim (Bool-cases (p r)) [
  | inl hit ↦ absurd (some_none (rw hit at h))
  | inr miss ↦ rw miss (find_row-insert p value rows here (rw miss at h))
]
  where
    some_none : some r ≡ none → ⊥
    some_none e = cc

parts_of : (a b c : Bool) → (a && b && c) ≡ true → (a ≡ true) × ((b ≡ true) × (c ≡ true))
parts_of a b c h = (ground arith, (ground arith, ground arith))

module _ (node kind path : Bytes) where
  -- A row at the key of a value is at another key exactly if the value is.
  same_key :
      (value row : AcceptedInstallation)
      → at_key_of value row ≡ true
      → has_key node kind path row ≡ has_key node kind path value
  same_key value row h =
      let (a, (b, c)) = parts_of _ _ _ h in
      rw
        (
          (same_iff row.node_id value.node_id).0 a,
          (same_iff row.runtime_kind value.runtime_kind).0 b,
          (same_iff row.install_path value.install_path).0 c,
        )
        refl

  other-refresh :
      (value : AcceptedInstallation) (rows : Installations)
      → has_key node kind path value ≡ false
      → find_row (has_key node kind path) (refresh value rows)
        ≡ find_row (has_key node kind path) rows
  unfolding find_row refresh refreshed
  other-refresh value [] h = refl
  other-refresh value (r ∷ rows) h = elim (Bool-cases (at_key_of value r)) [
    | inl hit ↦ let away = same_key value r hit ∙ h in rw hit (rw away refl)
    | inr miss ↦ rw miss (
        ap (λ found. if has_key node kind path r then some r else found)
          (other-refresh value rows h))
  ]

  other-insert :
      (value : AcceptedInstallation) (rows : Installations)
      → has_key node kind path value ≡ false
      → find_row (has_key node kind path) (rows ++ value ∷ [])
        ≡ find_row (has_key node kind path) rows
  unfolding find_row
  other-insert value [] h = rw h refl
  other-insert value (r ∷ rows) h =
      ap (λ found. if has_key node kind path r then some r else found) (other-insert value rows h)

-- The row that is there afterwards, and the rows at other keys.
record Upserted (value : AcceptedInstallation) (rows after : Installations) : Type 0 where
  found :
      find_row (at_key_of value) after ≡ some (accepted_as value (find_row (at_key_of value) rows))
  others :
      (node kind path : Bytes)
      → has_key node kind path value ≡ false
      → find_row (has_key node kind path) after ≡ find_row (has_key node kind path) rows

Upserted-insert_new :
    (known : Bytes → Bool) (value : AcceptedInstallation) (rows after : Installations)
    → (other : Option AcceptedInstallation) → find_row (at_key_of value) rows ≡ none
    → insert_new known value rows other ≡ ok after
    → Upserted value rows after
unfolding insert_new
Upserted-insert_new known value rows after (some row) h e = cc
Upserted-insert_new known value rows after none h e = elim (Bool-cases (known value.node_id)) [
  | inl hit ↦
      let written : rows ++ value ∷ [] ≡ after = ground (arith, rw hit at e) in
      subst (Upserted value rows) written (record {
        found =
            find_row-insert (at_key_of value) value rows (at_own_key value) h
            ∙ ap (λ o. some (accepted_as value o)) (sym h);
        others = λ node kind path away. other-insert node kind path value rows away;
      })
  | inr miss ↦ absurd (refused (rw miss at e))
]
  where
    refused : err InstallationError.foreign_key_broken ≡ ok after → ⊥
    refused e = cc

Upserted-found :
    (known : Bytes → Bool) (value : AcceptedInstallation) (rows after : Installations)
    → (o : Option AcceptedInstallation) → find_row (at_key_of value) rows ≡ o
    → upsert_found known value rows o ≡ ok after
    → Upserted value rows after
unfolding upsert_found
Upserted-found known value rows after none h e = Upserted-insert_new known value rows after _ h e
Upserted-found known value rows after (some row) h e =
    let written : refresh value rows ≡ after = ground (arith, e) in
    subst (Upserted value rows) written (record {
      found = find_row-refresh value row rows h ∙ ap (λ o. some (accepted_as value o)) (sym h);
      others = λ node kind path away. other-refresh node kind path value rows away;
    })

accepted_upsert :
    (known : Bytes → Bool) (value : AcceptedInstallation) (rows after : Installations)
    → upsert_accepted_installation known value rows ≡ ok after
    → upsert known value rows ≡ ok after
unfolding upsert_accepted_installation
accepted_upsert known value rows after h = ground (arith, h)

-- After an UpsertAcceptedInstallation that succeeds, GetAcceptedInstallation gives, at the key of the
-- value, the value itself, or the row that was there with its identifier and creation time and with
-- what the value says of its version, support, status and times; at any other key it gives what it
-- gave before.
pub get-upsert_accepted_installation :
    (known : Bytes → Bool) (value : AcceptedInstallation) (rows after : Installations)
    → upsert_accepted_installation known value rows ≡ ok after
    → (get_accepted_installation value.node_id value.runtime_kind value.install_path after
        ≡ ok (accepted_as value (find_row (at_key_of value) rows)))
      × ((node kind path : Bytes)
          → has_key node kind path value ≡ false
          → get_accepted_installation node kind path after
            ≡ get_accepted_installation node kind path rows)
unfolding get_accepted_installation upsert scan_accepted
get-upsert_accepted_installation known value rows after h =
    let up =
      Upserted-found known value rows after _ refl (accepted_upsert known value rows after h) in
    (
      ap scan_accepted up.found,
      λ node kind path away. ap scan_accepted (up.others node kind path away),
    )
