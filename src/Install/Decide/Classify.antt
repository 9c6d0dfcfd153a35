-- ===== src/Install/Decide/Classify.antt =====
-- The loop of DecideRecovery over the transaction records, as filters.
use yorva.Prelude.{
  Bool, true, false, not, ◌&&◌, ◌||◌, ◌≡◌, ◌⊎◌, inl, inr, refl, none, some, List, [], ◌∷◌, arith,
  select, Any, if◌then◌else◌, Bool-cases,
}
use yorva.Install.Types.{nonterminal, TransactionView}
use yorva.Install.Decide.Recovery.{classify}

-- A record that cannot be read under a name that the transactions reserve.
abbrev pub malformed : TransactionView → Bool
malformed t = not t.valid && t.occupies_reserved_name

abbrev pub any_malformed : List TransactionView → Bool
any_malformed [] = false
any_malformed (t ∷ ts) = malformed t || any_malformed ts

abbrev pub valid_txns : List TransactionView → List TransactionView
valid_txns = select (λ t. t.valid)

abbrev pub open_txns : List TransactionView → List TransactionView
open_txns = select (λ t. t.valid && nonterminal t.state)

-- The loop is two filters, unless some record is malformed.
pub classify-eq-select :
    (txns : List TransactionView)
    → classify txns ≡ (if any_malformed txns then none else some (valid_txns txns, open_txns txns))
unfolding classify
classify-eq-select [] = refl
classify-eq-select (t ∷ ts) = rw (classify-eq-select ts) (ground arith)

-- What holds of some selected element holds of an element that passes the test.
pub Any-select {ℓ} :
    {A : Type ℓ} (P : A → Type 0) (test : A → Bool) (xs : List A)
    → Any P (select test xs)
    → Any (λ x. (test x ≡ true) × P x) xs
Any-select P test [] a = elim a [ ]
Any-select P test (x ∷ xs) a = elim (Bool-cases (test x)) [
  | inl passes ↦ keep passes (Any-select P test xs) (rw passes at a)
  | inr fails ↦ inr (Any-select P test xs (rw fails at a))
]
  where
    keep :
        test x ≡ true
        → (Any P (select test xs) → Any (λ y. (test y ≡ true) × P y) xs)
        → P x ⊎ Any P (select test xs)
        → Any (λ y. (test y ≡ true) × P y) (x ∷ xs)
    keep passes rest (inl p) = inl (passes, p)
    keep passes rest (inr b) = inr (rest b)
