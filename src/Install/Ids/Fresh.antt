-- ===== src/Install/Ids/Fresh.antt =====
-- What the closed identifiers are made of.
use yorva.Prelude.{
  ℕ, zero, suc, ◌+◌, ◌%◌, ◌<◌, true, List, [], ◌∷◌, ◌++◌, map, Bytes, has_prefix, contains_byte,
  length, drop, get_or, ok, ◌≡◌, ◌∙◌, refl, arith,
}
use yorva.Install.Ids.{id_alphabet, all_in_alphabet, parse_closed_id, id_body, new_closed_id}

length-map {ℓ κ} :
    {A : Type ℓ} {B : Type κ} (f : A → B) (xs : List A) → length (map f xs) ≡ length xs
length-map f [] = refl
length-map f (x ∷ xs) = omega (arith, length-map f xs)

length-append {ℓ} : {A : Type ℓ} (xs ys : List A) → length (xs ++ ys) ≡ length xs + length ys
length-append [] ys = omega arith
length-append (x ∷ xs) ys = omega (arith, length-append xs ys)

drop-append {ℓ} : {A : Type ℓ} (xs ys : List A) → drop (length xs) (xs ++ ys) ≡ ys
drop-append [] ys = refl
drop-append (x ∷ xs) ys = drop-append xs ys

has_prefix-append : (p s : Bytes) → has_prefix (p ++ s) p ≡ true
unfolding has_prefix
has_prefix-append [] s = refl
has_prefix-append (c ∷ p) s = ground (arith, has_prefix-append p s)

contains_byte-get_or : (s : Bytes) (i : ℕ) → i < length s → contains_byte s (get_or s i 0) ≡ true
unfolding contains_byte
contains_byte-get_or [] i h = elim h [ ]
contains_byte-get_or (c ∷ s) zero h = ground arith
contains_byte-get_or (c ∷ s) (suc i) h = ground (arith, contains_byte-get_or s i)

all_in_alphabet-id_body : (random : Bytes) → all_in_alphabet (id_body random) ≡ true
unfolding all_in_alphabet id_body
all_in_alphabet-id_body [] = refl
all_in_alphabet-id_body (b ∷ bs) =
    rw (contains_byte-get_or id_alphabet (b % 32) (omega arith)) (all_in_alphabet-id_body bs)

length-id_body : (random : Bytes) → length (id_body random) ≡ length random
unfolding id_body
length-id_body random = length-map _ random

parsed :
    (prefix body : Bytes)
    → length body ≡ 22
    → all_in_alphabet body ≡ true
    → parse_closed_id (prefix ++ body) prefix ≡ ok tt
unfolding parse_closed_id
parsed prefix body h a =
    rw (drop-append prefix body, has_prefix-append prefix body, length-append prefix body, a, h)
      (ground arith)

-- An identifier made from 22 random bytes behind any prefix is accepted by the parser of that
-- prefix.
pub parse-new_closed_id :
    (prefix random : Bytes)
    → length random ≡ 22
    → parse_closed_id (new_closed_id prefix random) prefix ≡ ok tt
unfolding new_closed_id
parse-new_closed_id prefix random h =
    parsed prefix (id_body random) (length-id_body random ∙ h) (all_in_alphabet-id_body random)
