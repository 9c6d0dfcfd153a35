-- ===== src/Install/Gc/Retained.antt =====
-- The trees that a collection keeps, by the records and the pointer on disk.
use yorva.Prelude.{
  Bool, true, false, not, ◌&&◌, ◌||◌, ◌≡◌, refl, sym, ap, ◌∙◌, ◌⊎◌, inl, inr, none, some, List, [],
  ◌∷◌, ◌++◌, Bytes, same, same_refl, ltb, All, arith, Bool-cases,
}
use mathlib.Core.Path.{subst}
use yorva.Install.Types.{is_committed, is_failed, nonterminal}
use yorva.Install.Records.{InstallTransaction}
use yorva.Install.Disk.{Disk, Tree}
use yorva.Install.Seal.{read_active}
use yorva.Install.Gc.Retention.{
  Area, area_eq, Place, Hit, is_place, has_place, tree_at, lineage_proven, txn_time, committed_hits,
  failed_hits, proven_at, place_of_hit, keep_present, latest_previous_committed,
  latest_failed_proven, open_places, active_place, load_valid_transactions, retention_set,
}
use yorva.Install.Gc.Collect.{collect, gc_candidates}
use yorva.Install.Gc.Safety.{collect_keeps}
use yorva.Install.Gc.Latest.{In, latest-place}

-- The three places of a transaction's tree.
abbrev pub places_of : InstallTransaction → List Place
places_of txn =
    (Area.staging, txn.id) ∷ (Area.failed, txn.id) ∷ (Area.generations, txn.generation_id) ∷ []

-- Every committed record of another generation than the active one is of this generation or older.
abbrev pub LastCommitted : Disk → InstallTransaction → Type 0
LastCommitted d txn =
    All
      (λ o.
        is_committed o.state ≡ true
        → same o.generation_id (read_active d).generation_id ≡ false
        → (o.generation_id ≡ txn.generation_id) ⊎ (ltb (txn_time o) (txn_time txn) ≡ true))
      (load_valid_transactions d)

-- Every proven tree of a failed record is at this place or of an older record.
abbrev pub LastFailed : Disk → InstallTransaction → Place → Type 0
LastFailed d txn p =
    All
      (λ o.
        is_failed o.state ≡ true
        → All
            (λ q.
              lineage_proven d (tree_at q d) o ≡ true
              → (q ≡ p) ⊎ (ltb (txn_time o) (txn_time txn) ≡ true))
            (places_of o))
      (load_valid_transactions d)

-- The places that a collection has to keep.
pub data Retained (d : Disk) : Place → Type 0 where
  active :
      (read_active d).valid ≡ true → Retained d (Area.generations, (read_active d).generation_id)
  open_staging :
      (txn : InstallTransaction)
      → In txn (load_valid_transactions d)
      → nonterminal txn.state ≡ true
      → Retained d (Area.staging, txn.id)
  open_generation :
      (txn : InstallTransaction)
      → In txn (load_valid_transactions d)
      → nonterminal txn.state ≡ true
      → Retained d (Area.generations, txn.generation_id)
  previous :
      (txn : InstallTransaction) (tree : Tree)
      → In txn (load_valid_transactions d)
      → is_committed txn.state ≡ true
      → same txn.generation_id (read_active d).generation_id ≡ false
      → LastCommitted d txn
      → tree_at (Area.generations, txn.generation_id) d ≡ some tree
      → Retained d (Area.generations, txn.generation_id)
  last_failed :
      {p : Place} (txn : InstallTransaction)
      → In txn (load_valid_transactions d)
      → is_failed txn.state ≡ true
      → In p (places_of txn)
      → lineage_proven d (tree_at p d) txn ≡ true
      → LastFailed d txn p
      → Retained d p
  unknown : {p : Place} → has_place (gc_candidates d) p ≡ false → Retained d p

is_place_refl : (p : Place) → is_place p p ≡ true
unfolding is_place area_eq
is_place_refl (Area.staging, n) = same_refl n
is_place_refl (Area.failed, n) = same_refl n
is_place_refl (Area.generations, n) = same_refl n

has_place-append :
    (ps qs : List Place) (p : Place) → has_place (ps ++ qs) p ≡ (has_place ps p || has_place qs p)
unfolding has_place
has_place-append [] qs p = refl
has_place-append (x ∷ ps) qs p = ground (arith, has_place-append ps qs p)

here_place : (p : Place) (ps : List Place) → has_place (p ∷ ps) p ≡ true
unfolding has_place
here_place p ps = ground (arith, is_place_refl p)

later_place : (q p : Place) (ps : List Place) → has_place ps p ≡ true → has_place (q ∷ ps) p ≡ true
unfolding has_place
later_place q p ps h = ground (arith, h)

open_places-kept :
    (txn : InstallTransaction) (txns : List InstallTransaction)
    → In txn txns
    → nonterminal txn.state ≡ true
    → (has_place (open_places txns) (Area.staging, txn.id) ≡ true)
      × (has_place (open_places txns) (Area.generations, txn.generation_id) ≡ true)
unfolding open_places
open_places-kept txn [] i h = elim i [ ]
open_places-kept txn (x ∷ txns) (inl e) h =
    subst
      (λ y.
        (has_place (open_places (y ∷ txns)) (Area.staging, txn.id) ≡ true)
        × (has_place (open_places (y ∷ txns)) (Area.generations, txn.generation_id) ≡ true))
      (sym e) (rw h (here_place _ _, later_place _ _ _ (here_place _ _)))
open_places-kept txn (x ∷ txns) (inr i) h =
    let (a, b) = open_places-kept txn txns i h in
    elim (Bool-cases (nonterminal x.state)) [
      | inl more ↦
          rw more (later_place _ _ _ (later_place _ _ _ a), later_place _ _ _ (later_place _ _ _ b))
      | inr ended ↦ rw ended (a, b)
    ]

committed_hits-In :
    (txn : InstallTransaction) (active_id : Bytes) (txns : List InstallTransaction)
    → In txn txns
    → is_committed txn.state ≡ true
    → same txn.generation_id active_id ≡ false
    → In ((Area.generations, txn.generation_id), txn_time txn) (committed_hits txns active_id)
unfolding committed_hits
committed_hits-In txn active_id [] i h k = elim i [ ]
committed_hits-In txn active_id (x ∷ txns) (inl e) h k =
    subst
      (λ y.
        In ((Area.generations, txn.generation_id), txn_time txn)
          (committed_hits (y ∷ txns) active_id))
      (sym e) (rw (h, k) (inl refl))
committed_hits-In txn active_id (x ∷ txns) (inr i) h k =
    let rest = committed_hits-In txn active_id txns i h k in
    elim (Bool-cases (is_committed x.state && not (same x.generation_id active_id))) [
      | inl hit ↦ rw hit (inr rest)
      | inr miss ↦ rw miss rest
    ]

both_parts : (a b : Bool) → (a && not b) ≡ true → (a ≡ true) × (b ≡ false)
both_parts a b h = (ground arith, ground arith)

committed_hits-All :
    (txn : InstallTransaction) (active_id : Bytes) (txns : List InstallTransaction)
    → All
        (λ o.
          is_committed o.state ≡ true
          → same o.generation_id active_id ≡ false
          → (o.generation_id ≡ txn.generation_id) ⊎ (ltb (txn_time o) (txn_time txn) ≡ true))
        txns
    → All
        (λ (x : Hit).
          (x.0 ≡ (Area.generations, txn.generation_id)) ⊎ (ltb x.1 (txn_time txn) ≡ true))
        (committed_hits txns active_id)
unfolding committed_hits
committed_hits-All txn active_id [] all = tt
committed_hits-All txn active_id (x ∷ txns) (first, all) =
    let rest = committed_hits-All txn active_id txns all in
    elim (Bool-cases (is_committed x.state && not (same x.generation_id active_id))) [
      | inl hit ↦ let (c, away) = both_parts _ _ hit in rw hit (named (first c away), rest)
      | inr miss ↦ rw miss rest
    ]
  where
    named :
        (x.generation_id ≡ txn.generation_id) ⊎ (ltb (txn_time x) (txn_time txn) ≡ true)
        → (◌≡◌ {A = Place}
            (Area.generations, x.generation_id)
            (Area.generations, txn.generation_id))
          ⊎ (ltb (txn_time x) (txn_time txn) ≡ true)
    named (inl e) = inl (ap (λ g. (Area.generations, g)) e)
    named (inr e) = inr e

present_kept :
    (p : Place) (d : Disk) (tree : Tree)
    → tree_at p d ≡ some tree
    → has_place (keep_present d (p ∷ [])) p ≡ true
unfolding keep_present
present_kept p d tree there =
    subst (λ o. has_place (elim o [ none ↦ [] | some t ↦ p ∷ [] ]) p ≡ true) (sym there)
      (here_place p [])

previous-kept :
    (d : Disk) (txn : InstallTransaction) (tree : Tree)
    → In txn (load_valid_transactions d)
    → is_committed txn.state ≡ true
    → same txn.generation_id (read_active d).generation_id ≡ false
    → LastCommitted d txn
    → tree_at (Area.generations, txn.generation_id) d ≡ some tree
    → has_place
        (latest_previous_committed d (load_valid_transactions d) (read_active d).generation_id)
        (Area.generations, txn.generation_id)
      ≡ true
unfolding latest_previous_committed place_of_hit
previous-kept d txn tree i committed away last there =
    let txns = load_valid_transactions d in
    let active_id = (read_active d).generation_id in
    let (u, found) =
      latest-place (Area.generations, txn.generation_id) (txn_time txn)
        (committed_hits txns active_id) (committed_hits-In txn active_id txns i committed away)
        (committed_hits-All txn active_id txns last) in
    rw found (present_kept _ d tree there)

module _ (d : Disk) (txn : InstallTransaction) (p : Place) where
  At : Hit → Type 0
  At x = (x.0 ≡ p) ⊎ (ltb x.1 (txn_time txn) ≡ true)

  proven_at-In :
      (ps : List Place)
      → In p ps
      → lineage_proven d (tree_at p d) txn ≡ true
      → In (p, txn_time txn) (proven_at d txn ps)
  unfolding proven_at
  proven_at-In [] i h = elim i [ ]
  proven_at-In (q ∷ ps) (inl e) h =
      subst (λ r. In (p, txn_time txn) (proven_at d txn (r ∷ ps))) (sym e) (rw h (inl refl))
  proven_at-In (q ∷ ps) (inr i) h =
      let rest = proven_at-In ps i h in
      elim (Bool-cases (lineage_proven d (tree_at q d) txn)) [
        | inl hit ↦ rw hit (inr rest)
        | inr miss ↦ rw miss rest
      ]

  proven_at-All :
      (o : InstallTransaction) (ps : List Place)
      → All
          (λ q.
            lineage_proven d (tree_at q d) o ≡ true
            → (q ≡ p) ⊎ (ltb (txn_time o) (txn_time txn) ≡ true))
          ps
      → All At (proven_at d o ps)
  unfolding proven_at At
  proven_at-All o [] all = tt
  proven_at-All o (q ∷ ps) (first, all) =
      let rest = proven_at-All o ps all in
      elim (Bool-cases (lineage_proven d (tree_at q d) o)) [
        | inl hit ↦ rw hit (first hit, rest)
        | inr miss ↦ rw miss rest
      ]

  In-left : (xs ys : List Hit) → In (p, txn_time txn) xs → In (p, txn_time txn) (xs ++ ys)
  In-left [] ys i = elim i [ ]
  In-left (x ∷ xs) ys (inl e) = inl e
  In-left (x ∷ xs) ys (inr i) = inr (In-left xs ys i)

  In-right : (xs ys : List Hit) → In (p, txn_time txn) ys → In (p, txn_time txn) (xs ++ ys)
  In-right [] ys i = i
  In-right (x ∷ xs) ys i = inr (In-right xs ys i)

  All-append : (xs ys : List Hit) → All At xs → All At ys → All At (xs ++ ys)
  All-append [] ys a b = b
  All-append (x ∷ xs) ys (first, a) b = (first, All-append xs ys a b)

  failed_hits-In :
      (txns : List InstallTransaction)
      → In txn txns
      → is_failed txn.state ≡ true
      → In p (places_of txn)
      → lineage_proven d (tree_at p d) txn ≡ true
      → In (p, txn_time txn) (failed_hits d txns)
  unfolding failed_hits
  failed_hits-In [] i h at proven = elim i [ ]
  failed_hits-In (x ∷ txns) (inl e) h at proven =
      subst (λ y. In (p, txn_time txn) (failed_hits d (y ∷ txns))) (sym e)
        (rw h (In-left _ _ (proven_at-In (places_of txn) at proven)))
  failed_hits-In (x ∷ txns) (inr i) h at proven =
      let rest = failed_hits-In txns i h at proven in
      elim (Bool-cases (is_failed x.state)) [
        | inl hit ↦ rw hit (In-right _ _ rest)
        | inr miss ↦ rw miss rest
      ]

  failed_hits-All :
      (txns : List InstallTransaction)
      → All
          (λ o.
            is_failed o.state ≡ true
            → All
                (λ q.
                  lineage_proven d (tree_at q d) o ≡ true
                  → (q ≡ p) ⊎ (ltb (txn_time o) (txn_time txn) ≡ true))
                (places_of o))
          txns
      → All At (failed_hits d txns)
  unfolding failed_hits
  failed_hits-All [] all = tt
  failed_hits-All (x ∷ txns) (first, all) =
      let rest = failed_hits-All txns all in
      elim (Bool-cases (is_failed x.state)) [
        | inl hit ↦ rw hit (All-append _ _ (proven_at-All x (places_of x) (first hit)) rest)
        | inr miss ↦ rw miss rest
      ]

  failed-kept :
      In txn (load_valid_transactions d)
      → is_failed txn.state ≡ true
      → In p (places_of txn)
      → lineage_proven d (tree_at p d) txn ≡ true
      → LastFailed d txn p
      → has_place (latest_failed_proven d (load_valid_transactions d)) p ≡ true
  unfolding latest_failed_proven place_of_hit At
  failed-kept i h at proven last =
      let txns = load_valid_transactions d in
      let (u, found) =
        latest-place p (txn_time txn) (failed_hits d txns) (failed_hits-In txns i h at proven)
          (failed_hits-All txns last) in
      rw found (here_place p [])

any_of_four :
    (a b c e : Bool)
    → (a ≡ true) ⊎ ((b ≡ true) ⊎ ((c ≡ true) ⊎ (e ≡ true)))
    → (a || (b || (c || e))) ≡ true
any_of_four a b c e h = ground (arith, h)

-- The four parts of the retention set.
retained_by :
    (d : Disk) (p : Place)
    → (has_place (active_place d) p ≡ true)
      ⊎ ((has_place
              (latest_previous_committed d
                (load_valid_transactions d)
                (read_active d).generation_id)
              p
            ≡ true)
          ⊎ ((has_place (latest_failed_proven d (load_valid_transactions d)) p ≡ true)
              ⊎ (has_place (open_places (load_valid_transactions d)) p ≡ true)))
    → has_place (retention_set d) p ≡ true
unfolding retention_set
retained_by d p h =
    let txns = load_valid_transactions d in
    let previous_ones = latest_previous_committed d txns (read_active d).generation_id in
    let rest = has_place-append (latest_failed_proven d txns) (open_places txns) p in
    let more = has_place-append previous_ones (latest_failed_proven d txns ++ open_places txns) p in
    has_place-append (active_place d)
      (previous_ones ++ (latest_failed_proven d txns ++ open_places txns)) p
    ∙ ap (λ x. has_place (active_place d) p || x) more
    ∙ ap (λ x. has_place (active_place d) p || (has_place previous_ones p || x)) rest
    ∙ any_of_four _ _ _ _ h

active-kept :
    (d : Disk)
    → (read_active d).valid ≡ true
    → has_place (active_place d) (Area.generations, (read_active d).generation_id) ≡ true
unfolding active_place
active-kept d h = rw h (here_place _ [])

Retained-kept :
    (d : Disk) (p : Place)
    → Retained d p
    → (has_place (retention_set d) p ≡ true) ⊎ (has_place (gc_candidates d) p ≡ false)
Retained-kept d p (active valid) = inl (retained_by d p (inl (active-kept d valid)))
Retained-kept d p (open_staging txn i h) =
    inl (retained_by d p (inr (inr (inr (open_places-kept txn _ i h).0))))
Retained-kept d p (open_generation txn i h) =
    inl (retained_by d p (inr (inr (inr (open_places-kept txn _ i h).1))))
Retained-kept d p (previous txn tree i committed away last there) =
    inl (retained_by d p (inr (inl (previous-kept d txn tree i committed away last there))))
Retained-kept d p (last_failed txn i h at proven last) =
    inl (retained_by d p (inr (inr (inl (failed-kept d txn p i h at proven last)))))
Retained-kept d p (unknown h) = inr h

-- A collection, whichever of its removals fail, changes nothing at these places: the generation that a
-- valid pointer names; the staging tree and the generation of every valid record that is not
-- terminal; the generation of the committed record, not the active one, that is later than those of
-- all other generations; the proven tree of the failed record that is later than all other proven
-- trees of failed records; and every place that is no candidate.
pub collect-Retained : (p : Place) (d : Disk) → Retained d p → tree_at p (collect d).1 ≡ tree_at p d
collect-Retained p d r = collect_keeps p d (Retained-kept d p r)
