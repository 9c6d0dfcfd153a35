-- ===== src/Install/Gc/Pointer.antt =====
-- A collection and the active pointer (gc.go, active_pointer.go).
use yorva.Prelude.{◌≡◌, refl, ap, ◌∙◌, inl, true, Option, Bytes, Result, ok, err, arith, same_refl}
use yorva.Install.Records.{Err, not_found, ActiveRecord}
use yorva.Install.Disk.{Disk, Tree, find}
use yorva.Install.Seal.{
  read_active, load_active, pointer_of, verify_published_generation, load_published_seal,
  reject_reparse,
}
use yorva.Install.Execute.Quiet.{IsQuiet, Frames-collect}
use yorva.Install.Gc.Retention.{
  Area, tree_at, has_place, is_place, area_eq, retention_set, active_place, trees_in,
}
use yorva.Install.Gc.Collect.{collect}
use yorva.Install.Gc.Safety.{collect_keeps}

-- The relation that the removals keep: the pointer's file, and whether paths have links.
SamePointer : Disk → Disk → Type 0
SamePointer d e = (e.active ≡ d.active) × (e.reparse ≡ d.reparse)

pointer_quiet : IsQuiet SamePointer
unfolding SamePointer
pointer_quiet = record {
  frame = record {
    same = λ d. (refl, refl);
    chain = λ a b c h k. (k.0 ∙ h.0, k.1 ∙ h.1);
    spend = λ d fates. (refl, refl);
  };
  transactions = λ d x. (refl, refl);
  staging = λ d x. (refl, refl);
  generations = λ d x. (refl, refl);
  failed = λ d x. (refl, refl);
  environment = λ d x. (refl, refl);
}

verify-of_reparse :
    (d e : Disk) (tree : Option Tree) (id manifest seal : Bytes)
    → e.reparse ≡ d.reparse
    → verify_published_generation e tree id manifest seal
      ≡ verify_published_generation d tree id manifest seal
unfolding verify_published_generation load_published_seal reject_reparse
verify-of_reparse d e tree id manifest seal h =
    ap (λ r. verify_published_generation (record d { reparse = r }) tree id manifest seal) h

pointer_of_kept :
    (d e : Disk) (r : Result Err ActiveRecord)
    → (pointer_of d r).valid ≡ true
    → e.reparse ≡ d.reparse
    → find (pointer_of d r).generation_id e.generations
      ≡ find (pointer_of d r).generation_id d.generations
    → pointer_of e r ≡ pointer_of d r
unfolding pointer_of
pointer_of_kept d e (err not_found) v h g = refl
pointer_of_kept d e (err x) v h g = ground (arith, v)
pointer_of_kept d e (ok rec) v h g = ground (
  arith,
  h,
  g,
  verify-of_reparse d e (find rec.generation_id d.generations) rec.generation_id rec.manifest_sha256
      rec.seal_sha256,
)

kept_by_collect :
    (d : Disk)
    → (read_active d).valid ≡ true
    → find (read_active d).generation_id (collect d).1.generations
      ≡ find (read_active d).generation_id d.generations
unfolding tree_at trees_in retention_set active_place has_place is_place area_eq
kept_by_collect d v =
    collect_keeps (Area.generations, (read_active d).generation_id) d
      (inl (ground (arith, v, same_refl (read_active d).generation_id)))

-- A collection, whichever of its removals fail, does not change the active pointer as it is
-- observed, if the pointer is valid.
pub read_active-collect :
    (d : Disk) → (read_active d).valid ≡ true → read_active (collect d).1 ≡ read_active d
unfolding read_active load_active SamePointer
read_active-collect d v =
    let (same_file, same_reparse) = (Frames-collect pointer_quiet).at d in
    rw same_file
      (pointer_of_kept d (collect d).1 (load_active d) v same_reparse (kept_by_collect d v))
