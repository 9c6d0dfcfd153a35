-- ===== src/Install/Disk/Steps.antt =====
-- Running the first step of a computation.
use yorva.Prelude.{◌≡◌, refl, ap, List, ◌∷◌, Result, ok, err, []}
use yorva.Install.Records.{Err}
use yorva.Install.Disk.{Fate, fated, continue, Disk, M, reads, ◌>>=◌, write, write_with}

module _ {A B : Type 0} where
  pub reads-ok :
      (f : Disk → Result Err A) (k : A → M B) (d : Disk) (a : A)
      → f d ≡ ok a
      → (reads f >>= k) d ≡ k a d
  unfolding ◌>>=◌ reads
  reads-ok f k d a h = rw h

  pub reads-err :
      (f : Disk → Result Err A) (k : A → M B) (d : Disk) (e : Err)
      → f d ≡ err e
      → (reads f >>= k) d ≡ (err e, d)
  unfolding ◌>>=◌ reads
  reads-err f k d e h = rw h

  -- A computation that returns runs what follows on the disk that it leaves.
  pub bind-ok : (m : M A) (k : A → M B) (d e : Disk) (a : A) → m d ≡ (ok a, e) → (m >>= k) d ≡ k a e
  unfolding ◌>>=◌
  bind-ok m k d e a h = rw h

  pub bind-err :
      (m : M A) (k : A → M B) (d e : Disk) (x : Err) → m d ≡ (err x, e) → (m >>= k) d ≡ (err x, e)
  unfolding ◌>>=◌
  bind-err m k d e x h = rw h

-- A write that no fate is left for is made.
pub write-made :
    (change : Disk → Disk) (d : Disk) → d.fates ≡ [] → write change d ≡ (ok tt, change d)
unfolding write write_with
write-made change d h = rw h

module _ {A B : Type 0} where
  continue_inv :
      (r : Result Err A) (k : A → M B) (d e : Disk) (b : B)
      → continue r k d ≡ (ok b, e)
      → (a : A) × (r ≡ ok a) × (k a d ≡ (ok b, e))
  continue_inv (ok a) k d e b h = (a, refl, h)
  continue_inv (err x) k d e b h = cc (ap (λ (p : Result Err B × Disk). p.0) h)

  -- A sequence that returns has run both of its parts.
  pub bind_inv :
      (m : M A) (k : A → M B) (d e : Disk) (b : B)
      → (m >>= k) d ≡ (ok b, e)
      → (a : A) × ((m d).0 ≡ ok a) × (k a (m d).1 ≡ (ok b, e))
  unfolding ◌>>=◌
  bind_inv m k d e b h = continue_inv (m d).0 k (m d).1 e b h

  pub reads_inv :
      (f : Disk → Result Err A) (k : A → M B) (d e : Disk) (b : B)
      → (reads f >>= k) d ≡ (ok b, e)
      → (a : A) × (f d ≡ ok a) × (k a d ≡ (ok b, e))
  unfolding ◌>>=◌ reads
  reads_inv f k d e b h = continue_inv (f d) k d e b h

-- A write that reports success was made, on the disk as it was but for the fates.
pub write_inv :
    (fates : List Fate) (change : Disk → Disk) (d : Disk)
    → (write_with fates change d).0 ≡ ok tt
    → (rest : List Fate) × ((write_with fates change d).1 ≡ change (record d { fates = rest }))
unfolding write_with fated
write_inv [] change d h = (d.fates, refl)
write_inv (Fate.made ∷ rest) change d h = (rest, refl)
write_inv (Fate.lost ∷ rest) change d h = cc
write_inv (Fate.late ∷ rest) change d h = cc
