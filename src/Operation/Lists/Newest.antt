-- ===== src/Operation/Lists/Newest.antt =====
-- The first rows of an ordered list.
use yorva.Prelude.{
  ℕ, zero, suc, Bool, true, false, List, [], ◌∷◌, take, length, ap, All, Any, ◌≡◌, refl, ◌⊎◌, inl,
  inr, Bool-cases,
}
use yorva.Operation.Types.{Operation}
use yorva.Operation.Queries.{insert_row, order_rows}
use yorva.Operation.Queries.Latest.{All-insert_row, All-trans}

-- No row comes before one that stands ahead of it.
abbrev pub Ordered : (Operation → Operation → Bool) → List Operation → Type 0
Ordered before [] = Unit
Ordered before (row ∷ rows) = All (λ r. before r row ≡ false) rows × Ordered before rows

-- A row is among the first ones, or there are as many of them as were asked for and it comes before
-- none of them.
abbrev pub Listed : (Operation → Operation → Bool) → ℕ → List Operation → Operation → Type 0
Listed before n firsts row =
    Any (λ v. v ≡ row) firsts ⊎ ((length firsts ≡ n) × All (λ v. before row v ≡ false) firsts)

module _ (before : Operation → Operation → Bool)
    (asym : (a b : Operation) → before a b ≡ true → before b a ≡ false)
    (trans : (a b c : Operation)
      → before b a ≡ false
      → before c b ≡ false
      → before c a ≡ false) where
  Ordered-insert_row :
      (row : Operation)
      → (rows : List Operation) → Ordered before rows
      → Ordered before (insert_row before row rows)
  unfolding insert_row
  Ordered-insert_row row [] ordered = (tt, tt)
  Ordered-insert_row row (r ∷ rows) (least, ordered) = elim (Bool-cases (before r row)) [
    | inl first ↦ rw first (
      All-insert_row before (λ x. before x r ≡ false) row rows (asym r row first) least,
      Ordered-insert_row row rows ordered,
    )
    | inr later ↦
        rw later ((later, All-trans before asym trans row r rows later least), (least, ordered))
  ]

  pub Ordered-order_rows : (rows : List Operation) → Ordered before (order_rows before rows)
  unfolding order_rows
  Ordered-order_rows [] = tt
  Ordered-order_rows (row ∷ rows) =
      Ordered-insert_row row (order_rows before rows) (Ordered-order_rows rows)

  adds_later :
      (n : ℕ) (row : Operation) (firsts rows : List Operation)
      → All (λ r. before r row ≡ false) rows
      → All (Listed before n firsts) rows
      → All (Listed before (suc n) (row ∷ firsts)) rows
  adds_later n row firsts [] least all = tt
  adds_later n row firsts (r ∷ rows) (later, least) (inl found, all) =
      (inl (inr found), adds_later n row firsts rows least all)
  adds_later n row firsts (r ∷ rows) (later, least) (inr (full, behind), all) =
      (inr (ap suc full, (later, behind)), adds_later n row firsts rows least all)

  nothing_taken : (rows : List Operation) → All (Listed before zero []) rows
  nothing_taken [] = tt
  nothing_taken (row ∷ rows) = (inr (refl, tt), nothing_taken rows)

  -- Every row of an ordered list is among the first ones or comes before none of them.
  pub All-Listed-take :
      (n : ℕ) (rows : List Operation)
      → Ordered before rows
      → All (Listed before n (take n rows)) rows
  All-Listed-take zero rows ordered = nothing_taken rows
  All-Listed-take (suc n) [] ordered = tt
  All-Listed-take (suc n) (row ∷ rows) (least, ordered) =
      (inl (inl refl), adds_later n row (take n rows) rows least (All-Listed-take n rows ordered))
