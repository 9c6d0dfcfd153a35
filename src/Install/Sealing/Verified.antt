-- ===== src/Install/Sealing/Verified.antt =====
-- A generation that SealGeneration has sealed passes the verification.
use yorva.Prelude.{
  ℕ, true, Option, none, some, List, [], ◌∷◌, Bytes, same_refl, Result, ok, err, ◌≡◌, refl, sym, ap,
  ◌∙◌, arith,
}
use yorva.Prelude.Results.{bind_result}
use yorva.Install.Records.{Err, ManifestEntry, GenerationRecord}
use yorva.Install.Ids.{parse_generation_id}
use yorva.Install.Paths.{validate_generation_rel}
use yorva.Install.Disk.{Disk, Tree, M, pure, reads, ◌>>◌, find}
use yorva.Install.Disk.Steps.{bind_inv, reads_inv}
use yorva.Install.Seal.{
  entry_eq, manifests_equal, decoded, seal_files, reject_reparse, load_published_seal,
  verify_sealed_tree, walk_seal_manifest, walked,
}
use yorva.Install.Manager.Persist.{outcome}
use yorva.Install.Sealing.{
  Digests, write_tree, set_manifest, set_generation, remove_manifest, or_clean, SealInput,
  SealResult, manifest_of, sealed_record, walk_again, seal_time, write_seal, seal_generation,
}
use yorva.Install.Sealing.Inverse.{
  on_tree, Changed-write_tree, disk-seal_time, or_clean_inv, disk-walk_again, walked_some, then_inv,
  disk-outcome,
}

-- What a generation that is sealed looks like.
abbrev sealed_tree : Digests → SealInput → Bytes → List ManifestEntry → ℕ → Tree → Tree
sealed_tree digests input lineage entries time t =
    set_generation digests (sealed_record digests input lineage entries time)
      (set_manifest digests (manifest_of entries) t)

manifests_equal_refl : (entries : List ManifestEntry) → manifests_equal entries entries ≡ true
unfolding manifests_equal entry_eq
manifests_equal_refl [] = refl
manifests_equal_refl (e ∷ entries) =
    ground (arith, same_refl e.path, same_refl e.sha256, manifests_equal_refl entries)

first_passes : (p q : Result Err (Unit {0})) → bind_result p (λ _. q) ≡ ok tt → p ≡ ok tt
first_passes (ok u) q h = refl
first_passes (err e) q h = cc

parse-validate_generation_rel :
    (rel id : Bytes) → validate_generation_rel rel id ≡ ok tt → parse_generation_id id ≡ ok tt
unfolding validate_generation_rel
parse-validate_generation_rel rel id h = first_passes (parse_generation_id id) _ h

verify-sealed_tree :
    (digests : Digests)
    → (input : SealInput) → (lineage : Bytes) → (entries : List ManifestEntry) → (time : ℕ)
    → (t : Tree) → (d : Disk)
    → validate_generation_rel input.generation_relative_path input.generation_id ≡ ok tt
    → reject_reparse d (some t) ≡ ok tt
    → t.payload ≡ some entries
    → verify_sealed_tree d
        (some (sealed_tree digests input lineage entries time t))
        input.generation_id
        (digests.manifest_sha (manifest_of entries))
        (digests.generation_sha (sealed_record digests input lineage entries time))
      ≡ ok tt
unfolding verify_sealed_tree load_published_seal seal_files decoded reject_reparse
    walk_seal_manifest
verify-sealed_tree digests input lineage entries time t d valid plain walked =
    rw (parse-validate_generation_rel input.generation_relative_path input.generation_id valid) (
      rw plain (
        rw
          (
            same_refl (digests.manifest_sha (manifest_of entries)),
            same_refl (digests.generation_sha (sealed_record digests input lineage entries time)),
          )
          (rw (same_refl input.generation_id)
            (rw valid (rw walked (rw (manifests_equal_refl entries) refl))))))

-- The disk that a successful seal leaves, from the one that it walked.
record Sealed (digests : Digests) (input : SealInput) (lineage : Bytes)
    (entries : List ManifestEntry) (d e : Disk) (r : SealResult) : Type 0 where
  time : ℕ
  reparse : e.reparse ≡ d.reparse
  tree :
      find input.generation_id e.generations
      ≡ on_tree
          (sealed_tree digests input lineage entries time)
          (find input.generation_id d.generations)
  manifest : r.manifest_sha256 ≡ digests.manifest_sha (manifest_of entries)
  seal : r.seal_sha256 ≡ digests.generation_sha (sealed_record digests input lineage entries time)

on_tree_twice :
    (f g : Tree → Tree) → (o : Option Tree) → on_tree g (on_tree f o) ≡ on_tree (λ t. g (f t)) o
on_tree_twice f g none = refl
on_tree_twice f g (some t) = refl

ok_same : (x : Result Err SealResult) → (a b : SealResult) → x ≡ ok a → x ≡ ok b → a ≡ b
ok_same x a b first second = cc

result_of : (a r : SealResult) → (d e : Disk) → pure a d ≡ (ok r, e) → (a ≡ r) × (d ≡ e)
unfolding pure
result_of a r d e h = (
  ok_same (ok a) a r refl (ap (λ (p : Result Err SealResult × Disk). p.0) h),
  ap (λ (p : Result Err SealResult × Disk). p.1) h,
)

Sealed-write_seal :
    (digests : Digests)
    → (lineage : Bytes) → (input : SealInput) → (entries : List ManifestEntry) → (d e : Disk)
    → (r : SealResult) → write_seal digests lineage input entries d ≡ (ok r, e)
    → Sealed digests input lineage entries d e r
unfolding write_seal
Sealed-write_seal digests lineage input entries d e r h =
    let id : Bytes = input.generation_id in
    let put : Tree → Tree = set_manifest digests (manifest_of entries) in
    let (u, wrote, h1) = bind_inv (write_tree id put) _ d e r h in
    let d1 : Disk = (write_tree id put d).1 in
    let c1 = Changed-write_tree id put d wrote in
    let (time, timed, h2) = bind_inv (seal_time input) _ d1 e r h1 in
    let d2 : Disk = (seal_time input d1).1 in
    let rec : GenerationRecord = sealed_record digests input lineage entries time in
    let second : M Unit =
      reads (λ x. validate_generation_rel input.generation_relative_path id)
      >> write_tree id (set_generation digests rec) in
    let (v, sealed, h3) = bind_inv (or_clean second (remove_manifest id)) _ d2 e r h2 in
    let (second_ok, same3) = or_clean_inv second (remove_manifest id) d2 sealed in
    let d3 : Disk = (or_clean second (remove_manifest id) d2).1 in
    let put_seal : Tree → Tree = set_generation digests rec in
    let check : Disk → Result Err Unit =
      λ x. validate_generation_rel input.generation_relative_path id in
    let (wrote2, same_second) = then_inv check (write_tree id put_seal) d2 second_ok in
    let dw : Disk = (write_tree id put_seal d2).1 in
    let c2 = Changed-write_tree id put_seal d2 wrote2 in
    let walk : Disk → Result Err (List ManifestEntry) =
      λ x. walk_seal_manifest (find id x.generations) in
    let (again, walked_again, h4) = bind_inv (outcome (reads walk)) _ d3 e r h3 in
    let d4 : Disk = (outcome (reads walk) d3).1 in
    let (w, equal, h5) = bind_inv (walk_again id entries again) _ d4 e r h4 in
    let (same_result, same_end) = result_of _ r (walk_again id entries again d4).1 e h5 in
    let same_disk : e ≡ dw =
      sym same_end
      ∙ disk-walk_again id entries again d4 equal
      ∙ disk-outcome walk d3
      ∙ same3
      ∙ same_second in
    let same_start : d2 ≡ d1 = disk-seal_time input d1 in
    record {
      time = time;
      reparse =
          ap (λ (x : Disk). x.reparse) same_disk
          ∙ c2.reparse
          ∙ ap (λ (x : Disk). x.reparse) same_start
          ∙ c1.reparse;
      tree =
          ap (λ (x : Disk). find id x.generations) same_disk
          ∙ c2.tree
          ∙ ap (λ (x : Disk). on_tree put_seal (find id x.generations)) same_start
          ∙ ap (on_tree put_seal) c1.tree
          ∙ on_tree_twice put put_seal (find id d.generations);
      manifest = ap (λ (x : SealResult). x.manifest_sha256) (sym same_result);
      seal = ap (λ (x : SealResult). x.seal_sha256) (sym same_result);
    }

reject-same_disk :
    (d e : Disk)
    → (tree : Option Tree) → e.reparse ≡ d.reparse
    → reject_reparse e tree ≡ reject_reparse d tree
unfolding reject_reparse
reject-same_disk d e tree same_reparse = rw same_reparse refl

verified_from :
    (digests : Digests)
    → (input : SealInput) → (lineage : Bytes) → (entries : List ManifestEntry) → (d e : Disk)
    → (r : SealResult) → (found : Option Tree) → Sealed digests input lineage entries d e r
    → found ≡ find input.generation_id d.generations
    → validate_generation_rel input.generation_relative_path input.generation_id ≡ ok tt
    → reject_reparse d found ≡ ok tt
    → walk_seal_manifest found ≡ ok entries
    → verify_sealed_tree e
        (find input.generation_id e.generations)
        input.generation_id
        r.manifest_sha256
        r.seal_sha256
      ≡ ok tt
verified_from digests input lineage entries d e r found sealed same_found valid plain walks =
    let (t, (same_tree, payload)) = walked_some found entries walks in
    let located : find input.generation_id e.generations
        ≡ some (sealed_tree digests input lineage entries sealed.time t) =
      sealed.tree
      ∙ ap (on_tree (sealed_tree digests input lineage entries sealed.time))
          (sym same_found ∙ same_tree) in
    rw (located, sealed.manifest, sealed.seal)
      (verify-sealed_tree digests input lineage entries sealed.time t e valid
        (reject-same_disk d e (some t) sealed.reparse
          ∙ ap (reject_reparse d) (sym same_tree)
          ∙ plain)
        payload)

-- A generation that SealGeneration has sealed passes VerifySealedTree with the two digests that it
-- returned, whatever function the digests are.
pub verify-seal_generation :
    (digests : Digests)
    → (lineage : Bytes) → (input : SealInput) → (d e : Disk) → (r : SealResult)
    → seal_generation digests lineage input d ≡ (ok r, e)
    → verify_sealed_tree e
        (find input.generation_id e.generations)
        input.generation_id
        r.manifest_sha256
        r.seal_sha256
      ≡ ok tt
unfolding seal_generation
verify-seal_generation digests lineage input d e r h =
    let (u, valid, h1) = reads_inv _ _ d e r h in
    let (v, parsed, h2) = reads_inv _ _ d e r h1 in
    let (w, plain, h3) = reads_inv _ _ d e r h2 in
    let (entries, walks, h4) = reads_inv _ _ d e r h3 in
    verified_from digests input lineage entries d e r _
      (Sealed-write_seal digests lineage input entries d e r h4) refl valid plain walks
