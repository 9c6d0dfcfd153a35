-- ===== src/Install/Gc/Collect.antt =====
-- gc.go: the candidates for removal, and the loop that removes them.
use yorva.Prelude.{
  Bool, false, not, ◌&&◌, ◌||◌, Option, some, none, List, [], ◌∷◌, ◌++◌, Bytes, same, if◌then◌else◌,
  is_ok, ok,
}
use yorva.Install.Records.{InstallTransaction}
use yorva.Install.Disk.{Disk, Tree, M, pure, reads, ◌>>=◌, ◌>>◌, write, remove}
use yorva.Install.Seal.{reject_reparse}
use yorva.Install.Gc.Retention.{
  Area, Place, has_place, tree_at, load_valid_transactions, lineage_proven, active_place,
  retention_set,
}

-- knownTxn and knownGen: the last transaction under a name.
known : (InstallTransaction → Bytes) → Bytes → List InstallTransaction → Option InstallTransaction
known field name [] = none
known field name (txn ∷ txns) = elim (known field name txns) [
  | some later ↦ some later
  | none ↦ if same (field txn) name then some txn else none
]

is_proven : Disk → Tree → Option InstallTransaction → Bool
is_proven d t none = false
is_proven d t (some txn) = lineage_proven d (some t) txn

-- listedKnownDirs, and the same loop over generations/
unfoldable pub listed_known :
    Disk
    → Area
    → (InstallTransaction → Bytes)
    → List InstallTransaction
    → List (Bytes × Tree)
    → List Place
unfolding known is_proven
listed_known d area field txns [] = []
listed_known d area field txns ((name, t) ∷ rest) =
    let others = listed_known d area field txns rest in
    if t.directory && is_proven d t (known field name txns) then (area, name) ∷ others else others

-- gcCandidates; the order of the paths is that of the names of the three areas
unfoldable pub gc_candidates : Disk → List Place
unfolding listed_known
gc_candidates d =
    let txns = load_valid_transactions d in
    listed_known d Area.failed (λ t. t.id) txns d.failed
    ++ (listed_known d Area.generations (λ t. t.generation_id) txns d.generations
        ++ listed_known d Area.staging (λ t. t.id) txns d.staging)

safe_tree : Disk → Option Tree → Bool
safe_tree d none = false
safe_tree d (some t) = t.directory && is_ok (reject_reparse d (some t))

-- gcSafePath, for a place under the managed root
unfoldable pub gc_safe_path : Disk → Place → Bool
unfolding safe_tree
gc_safe_path d p = safe_tree d (tree_at p d)

-- os.RemoveAll
unfoldable pub remove_tree : Place → Disk → Disk
remove_tree (Area.staging, n) d = record d { staging = remove n d.staging }
remove_tree (Area.failed, n) d = record d { failed = remove n d.failed }
remove_tree (Area.generations, n) d = record d { generations = remove n d.generations }

-- Whether the loop keeps a candidate: it is protected, it has become active, or it is not safe.
unfoldable pub is_kept : List Place → Place → Disk → Bool
unfolding gc_safe_path
is_kept protected p d =
    has_place protected p || has_place (active_place d) p || not (gc_safe_path d p)

-- The loop of Collect.
unfoldable pub collect_from : List Place → List Place → M (Unit {0})
unfolding is_kept remove_tree
collect_from protected [] = pure tt
collect_from protected (p ∷ ps) = do
  kept ← reads (λ d. ok (is_kept protected p d))
  if kept then pure tt else write (remove_tree p)
  collect_from protected ps

-- Collect
unfoldable pub collect : M (Unit {0})
unfolding collect_from
collect = do
  protected ← reads (λ d. ok (retention_set d))
  candidates ← reads (λ d. ok (gc_candidates d))
  collect_from protected candidates
