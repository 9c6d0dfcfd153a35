-- ===== src/Install/Disk/Frame.antt =====
-- Frame rules: how every computation of a kind relates the disk before it to the disk after it.
use yorva.Prelude.{Bool, true, false, List, [], ◌∷◌, if◌then◌else◌, Result, ok, err}
use yorva.Install.Records.{Err}
use yorva.Install.Disk.{
  Disk, Fate, fated, write_with, M, pure, raise, reads, ◌>>=◌, continue, write,
}

-- A relation between disks that a sequence of steps keeps, and that the use of a fate keeps.
pub record IsFrame (R : Disk → Disk → Type 0) : Type 0 where
  pub same : (d : Disk) → R d d
  pub chain : (a b c : Disk) → R a b → R b c → R a c
  pub spend : (d : Disk) (fates : List Fate) → R d (record d { fates = fates })

-- From any disk, `m` leads to a disk in the relation, whether it returns or fails.
pub record Frames {A : Type 0} (R : Disk → Disk → Type 0) (m : M A) : Type 0 where
  pub at : (d : Disk) → R d (m d).1

module _ {R : Disk → Disk → Type 0} (frame : IsFrame R) where
  pub Frames-pure : {A : Type 0} (a : A) → Frames R (pure a)
  unfolding pure
  Frames-pure a = record { at = λ d. frame.same d }

  pub Frames-raise : {A : Type 0} (e : Err) → Frames {A = A} R (raise e)
  unfolding raise
  Frames-raise e = record { at = λ d. frame.same d }

  pub Frames-reads : {A : Type 0} (f : Disk → Result Err A) → Frames R (reads f)
  unfolding reads
  Frames-reads f = record { at = λ d. frame.same d }

  continue_frames :
      {A B : Type 0} (r : Result Err A) (f : A → M B) (d d' : Disk)
      → R d d'
      → ((a : A) → Frames R (f a))
      → R d (continue r f d').1
  continue_frames (ok a) f d d' h k = frame.chain d d' (f a d').1 h ((k a).at d')
  continue_frames (err e) f d d' h k = h

  pub Frames-bind :
      {A B : Type 0} (m : M A) (f : A → M B)
      → Frames R m
      → ((a : A) → Frames R (f a))
      → Frames R (m >>= f)
  unfolding ◌>>=◌
  Frames-bind m f h k = record { at = λ d. continue_frames (m d).0 f d (m d).1 (h.at d) k }

  pub Frames-if :
      {A : Type 0} (b : Bool) (m n : M A) → Frames R m → Frames R n → Frames R (if b then m else n)
  Frames-if true m n h k = h
  Frames-if false m n h k = k

  fated_frames :
      (fate : Fate) (change : Disk → Disk) (d d' : Disk)
      → R d d'
      → R d' (change d')
      → R d (fated fate change d').1
  unfolding fated
  fated_frames Fate.made change d d' h k = frame.chain d d' (change d') h k
  fated_frames Fate.lost change d d' h k = h
  fated_frames Fate.late change d d' h k = frame.chain d d' (change d') h k

  write_with_frames :
      (fates : List Fate) (change : Disk → Disk) (d : Disk)
      → ((e : Disk) → R e (change e))
      → R d (write_with fates change d).1
  unfolding write_with
  write_with_frames [] change d k = k d
  write_with_frames (fate ∷ rest) change d k =
      let d' : Disk = record d { fates = rest } in
      fated_frames fate change d d' (frame.spend d rest) (k d')

  -- A write frames if its change does.
  pub Frames-write :
      (change : Disk → Disk) → ((d : Disk) → R d (change d)) → Frames R (write change)
  unfolding write
  Frames-write change k = record { at = λ d. write_with_frames d.fates change d k }

  -- What is decided by the disk itself.
  pub Frames-by :
      {A B : Type 0} (read : Disk → B) (m : B → M A)
      → ((b : B) → Frames R (m b))
      → Frames R (λ d. m (read d) d)
  Frames-by read m k = record { at = λ d. (k (read d)).at d }
