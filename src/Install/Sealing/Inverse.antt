-- ===== src/Install/Sealing/Inverse.antt =====
-- What the steps of a seal that returned have done.
use yorva.Prelude.{
  Bool, true, false, not, Option, none, some, List, [], ◌∷◌, Bytes, same, if◌then◌else◌, ◌==◌,
  Result, ok, err, ◌≡◌, refl, ap, ◌∙◌, Bool-cases, inl, inr,
}
use yorva.Install.Records.{Err, seal_invalid, ManifestEntry}
use yorva.Install.Disk.{Disk, Tree, M, pure, raise, reads, continue, ◌>>=◌, ◌>>◌, write, find}
use yorva.Install.Disk.Steps.{write_inv}
use yorva.Install.Seal.{manifests_equal, walk_seal_manifest, walked}
use yorva.Install.Manager.Persist.{outcome, now}
use yorva.Install.Sealing.{
  change_tree, write_tree, remove_seal_files, cleaned, or_clean, SealInput, walk_again, seal_time,
}

abbrev pub on_tree : (Tree → Tree) → Option Tree → Option Tree
on_tree change none = none
on_tree change (some t) = some (change t)

find-change_tree :
    (id : Bytes)
    → (change : Tree → Tree) → (trees : List (Bytes × Tree))
    → find id (change_tree id change trees) ≡ on_tree change (find id trees)
unfolding find change_tree
find-change_tree id change [] = refl
find-change_tree id change ((name, t) ∷ trees) =
    let rest = find-change_tree id change trees in
    elim (Bool-cases (same name id)) [
      | inl this ↦ rw this (rw this refl)
      | inr other ↦ rw other (rw other rest)
    ]

-- The trees of a disk on which one tree was changed.
pub record Changed (id : Bytes) (change : Tree → Tree) (d e : Disk) : Type 0 where
  pub tree : find id e.generations ≡ on_tree change (find id d.generations)
  pub reparse : e.reparse ≡ d.reparse

pub Changed-write_tree :
    (id : Bytes)
    → (change : Tree → Tree) → (d : Disk) → (write_tree id change d).0 ≡ ok tt
    → Changed id change d (write_tree id change d).1
unfolding write_tree write
Changed-write_tree id change d h =
    let (rest, w) = write_inv d.fates _ d h in
    record {
      tree = ap (λ (e : Disk). find id e.generations) w ∙ find-change_tree id change d.generations;
      reparse = ap (λ (e : Disk). e.reparse) w;
    }

pub disk-seal_time : (input : SealInput) → (d : Disk) → (seal_time input d).1 ≡ d
unfolding seal_time now reads pure
disk-seal_time input d =
    elim (input.created_at == 0) as (λ b. ((if b then now else pure input.created_at) d).1 ≡ d) [
      | true ↦ refl
      | false ↦ refl
    ]

raised_by :
    (r : Result Err (Unit {0}))
    → (e : Err) → (d : Disk) → (continue r (λ u. raise {A = Unit {0}} e) d).0 ≡ ok (tt {0})
    → ⊥
unfolding raise
raised_by (ok u) e d h = cc
raised_by (err x) e d h = cc

raised_after : (m : M (Unit {0})) → (e : Err) → (d : Disk) → ((m >> raise e) d).0 ≡ ok (tt {0}) → ⊥
unfolding ◌>>=◌
raised_after m e d h = raised_by (m d).0 e (m d).1 h

cleaned_inv :
    (cleanup : M (Unit {0}))
    → (r : Result Err (Unit {0})) → (d : Disk) → (cleaned cleanup r d).0 ≡ ok tt
    → (r ≡ ok tt) × ((cleaned cleanup r d).1 ≡ d)
unfolding cleaned pure
cleaned_inv cleanup (ok u) d h = (refl, refl)
cleaned_inv cleanup (err e) d h = absurd (raised_after cleanup e d h)

-- A computation with a cleanup that returns has run without it.
pub or_clean_inv :
    (m cleanup : M (Unit {0}))
    → (d : Disk) → (or_clean m cleanup d).0 ≡ ok tt
    → ((m d).0 ≡ ok tt) × ((or_clean m cleanup d).1 ≡ (m d).1)
unfolding or_clean outcome ◌>>=◌
or_clean_inv m cleanup d h = cleaned_inv cleanup (m d).0 (m d).1 h

equal_walks :
    (id : Bytes)
    → (d : Disk) → (equal : Bool)
    → ((if not equal then remove_seal_files id >> raise seal_invalid else pure tt) d).0
      ≡ ok (tt {0})
    → ((if not equal then remove_seal_files id >> raise seal_invalid else pure (tt {0})) d).1 ≡ d
unfolding pure
equal_walks id d true h = refl
equal_walks id d false h = absurd (raised_after (remove_seal_files id) seal_invalid d h)

pub disk-walk_again :
    (id : Bytes)
    → (entries : List ManifestEntry) → (walked : Result Err (List ManifestEntry)) → (d : Disk)
    → (walk_again id entries walked d).0 ≡ ok tt
    → (walk_again id entries walked d).1 ≡ d
unfolding walk_again pure
disk-walk_again id entries (err e) d h = absurd (raised_after (remove_seal_files id) e d h)
disk-walk_again id entries (ok again) d h = equal_walks id d (manifests_equal entries again) h

walked_payload :
    (p : Option (List ManifestEntry))
    → (entries : List ManifestEntry) → walked p ≡ ok entries
    → p ≡ some entries
unfolding walked
walked_payload none entries h = cc
walked_payload (some es) entries h = cc

pub walked_some :
    (tree : Option Tree)
    → (entries : List ManifestEntry) → walk_seal_manifest tree ≡ ok entries
    → (t : Tree) × ((tree ≡ some t) × (t.payload ≡ some entries))
unfolding walk_seal_manifest
walked_some none entries h = cc
walked_some (some t) entries h = (t, (refl, walked_payload t.payload entries h))

then_continued :
    (r : Result Err (Unit {0}))
    → (m : M (Unit {0})) → (d : Disk) → (continue r (λ u. m) d).0 ≡ ok tt
    → ((m d).0 ≡ ok tt) × ((continue r (λ u. m) d).1 ≡ (m d).1)
then_continued (ok u) m d h = (h, refl)
then_continued (err e) m d h = cc

-- A check before a computation that returns.
pub then_inv :
    (f : Disk → Result Err (Unit {0}))
    → (m : M (Unit {0})) → (d : Disk) → ((reads f >> m) d).0 ≡ ok tt
    → ((m d).0 ≡ ok tt) × (((reads f >> m) d).1 ≡ (m d).1)
unfolding ◌>>=◌ reads
then_inv f m d h = then_continued (f d) m d h

pub disk-outcome :
    (f : Disk → Result Err (List ManifestEntry)) → (d : Disk) → (outcome (reads f) d).1 ≡ d
unfolding outcome reads
disk-outcome f d = refl
