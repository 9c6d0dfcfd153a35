-- ===== src/Install/Gc/Safety.antt =====
-- What a collection removes and what it keeps.
use yorva.Prelude.{
  ◌≡◌, refl, ap, ◌∙◌, ◌⊎◌, inl, inr, true, false, ◌||◌, List, [], ◌∷◌, Bytes, same, same_iff, sym,
  Bool-cases, arith,
}
use mathlib.Core.Path.{subst}
use yorva.Install.Disk.{Disk, Fate, pure, reads, ◌>>=◌, find, remove}
use yorva.Install.Disk.Frame.{
  IsFrame, Frames, Frames-pure, Frames-reads, Frames-bind, Frames-if, Frames-write,
}
use yorva.Install.Gc.Retention.{Area, Place, is_place, has_place, trees_in, tree_at, retention_set}
use yorva.Install.Gc.Collect.{remove_tree, is_kept, collect_from, collect, gc_candidates}

find-remove :
    {A : Type 0} (n m : Bytes) (xs : List (Bytes × A))
    → same n m ≡ false
    → find m (remove n xs) ≡ find m xs
unfolding find remove
find-remove n m [] h = refl
find-remove n m ((k, a) ∷ xs) h = ground (arith, same_iff k n, find-remove n m xs h)

-- Removing one tree leaves every other place as it was.
tree_at-remove_tree :
    (q p : Place) (d : Disk) → is_place q p ≡ false → tree_at p (remove_tree q d) ≡ tree_at p d
unfolding tree_at remove_tree is_place trees_in
tree_at-remove_tree (Area.staging, n) (Area.staging, m) d h = find-remove n m d.staging h
tree_at-remove_tree (Area.failed, n) (Area.failed, m) d h = find-remove n m d.failed h
tree_at-remove_tree (Area.generations, n) (Area.generations, m) d h =
    find-remove n m d.generations h
tree_at-remove_tree (Area.staging, n) (Area.failed, m) d h = refl
tree_at-remove_tree (Area.staging, n) (Area.generations, m) d h = refl
tree_at-remove_tree (Area.failed, n) (Area.staging, m) d h = refl
tree_at-remove_tree (Area.failed, n) (Area.generations, m) d h = refl
tree_at-remove_tree (Area.generations, n) (Area.staging, m) d h = refl
tree_at-remove_tree (Area.generations, n) (Area.failed, m) d h = refl

-- The places that a protected set keeps: the relation between the disks before and after.
KeepsPlace : Place → Disk → Disk → Type 0
KeepsPlace p d e = tree_at p e ≡ tree_at p d

keeps_frame : (p : Place) → IsFrame (KeepsPlace p)
unfolding KeepsPlace tree_at trees_in
keeps_frame (a, n) = record {
  same = λ d. refl;
  chain = λ x y z h k. k ∙ h;
  spend = λ d fates. spent a d fates;
}
  where
    spent :
        (b : Area) (d : Disk) (fates : List Fate)
        → find n (trees_in b (record d { fates = fates })) ≡ find n (trees_in b d)
    spent Area.staging d fates = refl
    spent Area.failed d fates = refl
    spent Area.generations d fates = refl

has_place-cons :
    (p q : Place) (ps : List Place) → has_place (q ∷ ps) p ≡ (is_place q p || has_place ps p)
unfolding has_place
has_place-cons p q ps = refl

place_eq : (q p : Place) → is_place q p ≡ true → q ≡ p
unfolding is_place
place_eq (Area.staging, n) (Area.staging, m) h = ap (λ x. (Area.staging, x)) ((same_iff n m).0 h)
place_eq (Area.failed, n) (Area.failed, m) h = ap (λ x. (Area.failed, x)) ((same_iff n m).0 h)
place_eq (Area.generations, n) (Area.generations, m) h =
    ap (λ x. (Area.generations, x)) ((same_iff n m).0 h)
place_eq (Area.staging, n) (Area.failed, m) h = cc
place_eq (Area.staging, n) (Area.generations, m) h = cc
place_eq (Area.failed, n) (Area.staging, m) h = cc
place_eq (Area.failed, n) (Area.generations, m) h = cc
place_eq (Area.generations, n) (Area.staging, m) h = cc
place_eq (Area.generations, n) (Area.failed, m) h = cc

is_kept-protected :
    (p : Place) (protected : List Place) (d : Disk)
    → has_place protected p ≡ true
    → is_kept protected p d ≡ true
unfolding is_kept
is_kept-protected p protected d h = rw h

-- One round of the loop, when its candidate is another place.
keeps_other :
    (p q : Place) (protected qs : List Place)
    → is_place q p ≡ false
    → Frames (KeepsPlace p) (collect_from protected qs)
    → Frames (KeepsPlace p) (collect_from protected (q ∷ qs))
unfolding collect_from KeepsPlace
keeps_other p q protected qs other rest =
    let frame = keeps_frame p in
    Frames-bind frame _ _ (Frames-reads frame _) λ kept.
      Frames-bind frame _ _
        (Frames-if frame kept _ _ (Frames-pure frame tt)
          (Frames-write frame (remove_tree q) (λ d. tree_at-remove_tree q p d other)))
        (λ _. rest)

-- One round of the loop, when its candidate is protected.
keeps_protected :
    (p : Place) (protected qs : List Place)
    → has_place protected p ≡ true
    → Frames (KeepsPlace p) (collect_from protected qs)
    → Frames (KeepsPlace p) (collect_from protected (p ∷ qs))
unfolding collect_from ◌>>=◌ pure reads
keeps_protected p protected qs h rest = record {
  at = λ d. rw (is_kept-protected p protected d h) (rest.at d);
}

-- A protected place, and one that is no candidate, is kept by the loop.
keeps-collect_from :
    (p : Place) (protected places : List Place)
    → (has_place protected p ≡ true) ⊎ (has_place places p ≡ false)
    → Frames (KeepsPlace p) (collect_from protected places)
keeps-collect_from p protected [] h = unfold collect_from in Frames-pure (keeps_frame p) tt
keeps-collect_from p protected (q ∷ qs) h = elim (Bool-cases (is_place q p)) [
  | inr other ↦
      keeps_other p q protected qs other
        (keeps-collect_from p protected qs (ground (arith, has_place-cons p q qs)))
  | inl this ↦
      let guarded : has_place protected p ≡ true = ground (arith, has_place-cons p q qs) in
      subst (λ (x : Place). Frames (KeepsPlace p) (collect_from protected (x ∷ qs)))
        (sym (place_eq q p this))
        (keeps_protected p protected qs guarded (keeps-collect_from p protected qs (inl guarded)))
]

-- A collection, whichever of its removals fail, changes nothing at a place of its retention set,
-- nor at one that is no candidate.
pub collect_keeps :
    (p : Place) (d : Disk)
    → (has_place (retention_set d) p ≡ true) ⊎ (has_place (gc_candidates d) p ≡ false)
    → tree_at p (collect d).1 ≡ tree_at p d
unfolding collect ◌>>=◌ reads KeepsPlace
collect_keeps p d h = (keeps-collect_from p (retention_set d) (gc_candidates d) h).at d
