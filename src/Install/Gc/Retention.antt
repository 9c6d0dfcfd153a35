-- ===== src/Install/Gc/Retention.antt =====
-- gc.go: which directories are kept. A path is a directory's area and its name.
use yorva.Prelude.{
  ℕ, Bool, true, false, not, ◌&&◌, ◌||◌, Option, some, none, List, [], ◌∷◌, ◌++◌, Bytes, same,
  is_empty, ltb, ◌==◌, if◌then◌else◌, Result, ok, err, is_ok,
}
use yorva.Install.Types.{is_committed, is_failed, nonterminal, TransactionView}
use yorva.Install.Records.{Err, InstallTransaction, GenerationRecord, CandidateRecord}
use yorva.Install.Disk.{Disk, Tree, find}
use yorva.Install.Seal.{verify_published_generation, read_active}
use yorva.Install.Store.{load_transaction, inspect_transactions}
use yorva.Install.Observe.{read_generation_file, read_candidate_record}

pub data Area : Type 0 where
  staging failed generations : Area

abbrev pub Place : Type 0
Place = Area × Bytes

unfoldable pub area_eq : Area → Area → Bool
area_eq Area.staging Area.staging = true
area_eq Area.failed Area.failed = true
area_eq Area.generations Area.generations = true
area_eq _ _ = false

unfoldable pub is_place : Place → Place → Bool
unfolding area_eq
is_place (a, n) (b, m) = area_eq a b && same n m

unfoldable pub has_place : List Place → Place → Bool
unfolding is_place
has_place [] p = false
has_place (q ∷ qs) p = is_place q p || has_place qs p

unfoldable pub trees_in : Area → Disk → List (Bytes × Tree)
trees_in Area.staging d = d.staging
trees_in Area.failed d = d.failed
trees_in Area.generations d = d.generations

unfoldable pub tree_at : Place → Disk → Option Tree
unfolding trees_in
tree_at (a, n) d = find n (trees_in a d)

add_loaded : Result Err InstallTransaction → List InstallTransaction → List InstallTransaction
add_loaded (ok txn) rest = txn ∷ rest
add_loaded (err e) rest = rest

load_views : List TransactionView → Disk → List InstallTransaction
unfolding add_loaded
load_views [] d = []
load_views (v ∷ vs) d =
    let rest = load_views vs d in
    if not v.valid then rest else add_loaded (load_transaction v.id d) rest

-- loadValidTransactions
unfoldable pub load_valid_transactions : Disk → List InstallTransaction
unfolding load_views
load_valid_transactions d = load_views (inspect_transactions d) d

-- txnTime
unfoldable pub txn_time : InstallTransaction → ℕ
txn_time txn = elim txn.committed_at [
  | some t ↦ t
  | none ↦ if not (txn.updated_at == 0) then txn.updated_at else txn.created_at
]

named_by : Option GenerationRecord → Option CandidateRecord → InstallTransaction → Bool
named_by (some rec) candidate txn =
    same rec.generation_id txn.generation_id && same rec.transaction_id txn.id
named_by none (some rec) txn =
    same rec.generation_id txn.generation_id && same rec.transaction_id txn.id
named_by none none txn = false

-- lineageProven
unfoldable pub lineage_proven : Disk → Option Tree → InstallTransaction → Bool
unfolding named_by
lineage_proven d none txn = false
lineage_proven d (some t) txn =
    if not (is_empty txn.manifest_sha256) && not (is_empty txn.seal_sha256)
    then is_ok (
        verify_published_generation d (some t) txn.generation_id txn.manifest_sha256
          txn.seal_sha256)
    else named_by (read_generation_file t) (read_candidate_record t) txn

-- The first of the latest, as a sort by time puts it first.
abbrev pub Hit : Type 0
Hit = Place × ℕ

unfoldable pub later_of : Hit → Option Hit → Hit
later_of (p, t) none = (p, t)
later_of (p, t) (some (q, u)) = if ltb t u then (q, u) else (p, t)

unfoldable pub latest : List Hit → Option Hit
unfolding later_of
latest [] = none
latest (h ∷ hs) = some (later_of h (latest hs))

unfoldable pub committed_hits : List InstallTransaction → Bytes → List Hit
committed_hits [] active = []
committed_hits (txn ∷ txns) active =
    let rest = committed_hits txns active in
    if is_committed txn.state && not (same txn.generation_id active)
    then ((Area.generations, txn.generation_id), txn_time txn) ∷ rest
    else rest

unfoldable pub place_of_hit : Option Hit → List Place
place_of_hit none = []
place_of_hit (some (p, t)) = p ∷ []

unfoldable pub keep_present : Disk → List Place → List Place
keep_present d [] = []
keep_present d (p ∷ ps) = elim (tree_at p d) [ none ↦ [] | some t ↦ p ∷ [] ]

-- latestPreviousCommitted
unfoldable pub latest_previous_committed : Disk → List InstallTransaction → Bytes → List Place
unfolding committed_hits place_of_hit keep_present latest
latest_previous_committed d txns active =
    keep_present d (place_of_hit (latest (committed_hits txns active)))

unfoldable pub proven_at : Disk → InstallTransaction → List Place → List Hit
proven_at d txn [] = []
proven_at d txn (p ∷ ps) =
    let rest = proven_at d txn ps in
    if lineage_proven d (tree_at p d) txn then (p, txn_time txn) ∷ rest else rest

unfoldable pub failed_hits : Disk → List InstallTransaction → List Hit
unfolding proven_at
failed_hits d [] = []
failed_hits d (txn ∷ txns) =
    let rest = failed_hits d txns in
    if not (is_failed txn.state)
    then rest
    else proven_at d txn (
        (Area.staging, txn.id) ∷ (Area.failed, txn.id) ∷ (Area.generations, txn.generation_id) ∷ [])
      ++ rest

-- latestFailedProven
unfoldable pub latest_failed_proven : Disk → List InstallTransaction → List Place
unfolding failed_hits place_of_hit latest
latest_failed_proven d txns = place_of_hit (latest (failed_hits d txns))

-- The trees of the transactions that are not terminal.
unfoldable pub open_places : List InstallTransaction → List Place
open_places [] = []
open_places (txn ∷ txns) =
    let rest = open_places txns in
    if nonterminal txn.state
    then (Area.staging, txn.id) ∷ (Area.generations, txn.generation_id) ∷ rest
    else rest

unfoldable pub active_place : Disk → List Place
active_place d =
    let active = read_active d in
    if active.valid then (Area.generations, active.generation_id) ∷ [] else []

-- retentionSet
unfoldable pub retention_set : Disk → List Place
unfolding active_place open_places latest_failed_proven latest_previous_committed
retention_set d =
    let txns = load_valid_transactions d in
    active_place d
    ++ (latest_previous_committed d txns (read_active d).generation_id
        ++ (latest_failed_proven d txns ++ open_places txns))
