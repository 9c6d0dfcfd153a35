-- ===== src/Install/Paths/Contained.antt =====
-- The relative paths of staging and generation directories pass the checks made of them.
use yorva.Prelude.{
  ℕ, true, false, ◌||◌, [], ◌∷◌, ◌++◌, Bytes, same, has_prefix, contains_byte, ◌==◌, length, drop,
  ok, ◌≡◌, refl, arith, Bool-cases, sym, same_refl, inl, inr,
}
use mathlib.Core.Path.{subst}
use yorva.Prelude.Results.{check_cases}
use yorva.Install.Ids.{
  id_alphabet, all_in_alphabet, parse_closed_id, parse_transaction_id, parse_generation_id,
  txn_prefix, gen_prefix,
}
use yorva.Install.Paths.{
  staging_rel, generation_rel, split_slash, reject_unsafe_rel, require_exact_rel,
  validate_staging_rel, validate_generation_rel,
}

prefix_split : (s p : Bytes) → has_prefix s p ≡ true → s ≡ p ++ drop (length p) s
unfolding has_prefix
prefix_split s [] h = refl
prefix_split [] (c ∷ p) h = ground arith
prefix_split (b ∷ s) (c ∷ p) h = ground (arith, prefix_split s p)

all_in_alphabet-cons :
    (b : ℕ) (bs : Bytes)
    → all_in_alphabet (b ∷ bs) ≡ true
    → (contains_byte id_alphabet b ≡ true) × (all_in_alphabet bs ≡ true)
unfolding all_in_alphabet
all_in_alphabet-cons b bs h = elim (Bool-cases (contains_byte id_alphabet b)) [
  | inl e ↦ (e, rw e at h)
  | inr e ↦ cc (rw e at h)
]

contains_byte-cons :
    (b : ℕ) (bs : Bytes) (c : ℕ) → contains_byte (b ∷ bs) c ≡ (b == c || contains_byte bs c)
unfolding contains_byte
contains_byte-cons b bs c = refl

-- A byte outside the alphabet does not stand in an identifier's body.
not_in_body :
    (c : ℕ) (body : Bytes)
    → contains_byte id_alphabet c ≡ false
    → all_in_alphabet body ≡ true
    → contains_byte body c ≡ false
not_in_body c [] out h = unfold contains_byte in refl
not_in_body c (b ∷ bs) out h =
    ground (arith, contains_byte-cons b bs c, all_in_alphabet-cons b bs h, not_in_body c bs out)

split-slash_free : (s : Bytes) → contains_byte s b'/' ≡ false → split_slash s ≡ s ∷ []
unfolding split_slash contains_byte
split-slash_free [] h = refl
split-slash_free (c ∷ s) h = ground (arith, split-slash_free s)

clean_body :
    (body : Bytes)
    → all_in_alphabet body ≡ true
    → (contains_byte body 92 ≡ false)
      × (contains_byte body 0 ≡ false)
      × (split_slash body ≡ body ∷ [])
unfolding contains_byte
clean_body body h = (
  not_in_body 92 body refl h,
  not_in_body 0 body refl h,
  split-slash_free body (not_in_body b'/' body refl h),
)

generation_safe :
    (body : Bytes)
    → all_in_alphabet body ≡ true
    → reject_unsafe_rel (generation_rel (gen_prefix ++ body)) ≡ ok tt
unfolding reject_unsafe_rel generation_rel has_prefix contains_byte same
generation_safe body h = let (a, b, c) = clean_body body h in rw (a, b, c)

staging_safe :
    (body : Bytes)
    → all_in_alphabet body ≡ true
    → reject_unsafe_rel (staging_rel (txn_prefix ++ body)) ≡ ok tt
unfolding reject_unsafe_rel staging_rel has_prefix contains_byte same
staging_safe body h = let (a, b, c) = clean_body body h in rw (a, b, c)

-- The parser accepts an identifier exactly where it finds the prefix and a body of the alphabet.
parse_closed_id-ok :
    (id prefix : Bytes) {u : Unit}
    → parse_closed_id id prefix ≡ ok u
    → (id ≡ prefix ++ drop (length prefix) id) × (all_in_alphabet (drop (length prefix) id) ≡ true)
unfolding parse_closed_id
parse_closed_id-ok id prefix h = (prefix_split id prefix (ground arith), ground arith)

exact : (rel : Bytes) → reject_unsafe_rel rel ≡ ok tt → require_exact_rel rel rel ≡ ok tt
unfolding require_exact_rel
exact rel h = rw (h, same_refl rel)

-- A generation's own relative path is accepted exactly when the generation's identifier is, and
-- is refused with the error that the identifier is refused with.
pub validate-generation_rel :
    (gen_id : Bytes)
    → validate_generation_rel (generation_rel gen_id) gen_id ≡ parse_generation_id gen_id
unfolding validate_generation_rel
validate-generation_rel gen_id = elim (check_cases (parse_generation_id gen_id)) [
  | inl accepted ↦ rw accepted (exact (generation_rel gen_id) (safe accepted))
  | inr (e, refused) ↦ rw refused
]
  where
    safe : parse_generation_id gen_id ≡ ok tt → reject_unsafe_rel (generation_rel gen_id) ≡ ok tt
    safe accepted =
        let (whole, clean) =
          parse_closed_id-ok gen_id gen_prefix (unfold parse_generation_id in accepted) in
        subst (λ i. reject_unsafe_rel (generation_rel i) ≡ ok tt) (sym whole)
          (generation_safe (drop 4 gen_id) clean)

-- A transaction's own staging path is accepted exactly when the transaction's identifier is, and
-- is refused with the error that the identifier is refused with.
pub validate-staging_rel :
    (txn_id : Bytes)
    → validate_staging_rel (staging_rel txn_id) txn_id ≡ parse_transaction_id txn_id
unfolding validate_staging_rel
validate-staging_rel txn_id = elim (check_cases (parse_transaction_id txn_id)) [
  | inl accepted ↦ rw accepted (exact (staging_rel txn_id) (safe accepted))
  | inr (e, refused) ↦ rw refused
]
  where
    safe : parse_transaction_id txn_id ≡ ok tt → reject_unsafe_rel (staging_rel txn_id) ≡ ok tt
    safe accepted =
        let (whole, clean) =
          parse_closed_id-ok txn_id txn_prefix (unfold parse_transaction_id in accepted) in
        subst (λ i. reject_unsafe_rel (staging_rel i) ≡ ok tt) (sym whole)
          (staging_safe (drop 4 txn_id) clean)
