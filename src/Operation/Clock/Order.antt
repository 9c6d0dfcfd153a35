-- ===== src/Operation/Clock/Order.antt =====
-- The order of stored times: it is a total preorder, and agrees with the clock on seconds.
use yorva.Prelude.{ℕ, ◌≤◌, true, false, [], ◌∷◌, Bytes, ◌≡◌, refl, arith}
use yorva.Operation.Clock.{second, fraction_text, text_before, sorts_before}

text_before_asym : (s t : Bytes) → text_before s t ≡ true → text_before t s ≡ false
unfolding text_before
text_before_asym [] [] before = refl
text_before_asym [] (y ∷ t) before = refl
text_before_asym (x ∷ s) [] before = ground arith
text_before_asym (x ∷ s) (y ∷ t) before = let rest = text_before_asym s t in ground arith

text_before_trans :
    (s t u : Bytes) → text_before t s ≡ false → text_before u t ≡ false → text_before u s ≡ false
unfolding text_before
text_before_trans [] t [] st tu = refl
text_before_trans [] [] (z ∷ u) st tu = refl
text_before_trans [] (y ∷ t) (z ∷ u) st tu = refl
text_before_trans (x ∷ s) [] u st tu = ground arith
text_before_trans (x ∷ s) (y ∷ t) [] st tu = ground arith
text_before_trans (x ∷ s) (y ∷ t) (z ∷ u) st tu = let rest = text_before_trans s t u in ground arith

pub sorts_before_asym : (a b : ℕ) → sorts_before a b ≡ true → sorts_before b a ≡ false
unfolding sorts_before
sorts_before_asym a b before =
    let rest = text_before_asym (fraction_text a) (fraction_text b) in ground arith

pub sorts_before_trans :
    (a b c : ℕ) → sorts_before b a ≡ false → sorts_before c b ≡ false → sorts_before c a ≡ false
unfolding sorts_before
sorts_before_trans a b c ab bc =
    let rest = text_before_trans (fraction_text a) (fraction_text b) (fraction_text c) in
    ground arith

-- A time that does not sort before another is not in an earlier second.
pub second-sorts_before : (a b : ℕ) → sorts_before a b ≡ false → second b ≤ second a
unfolding sorts_before
second-sorts_before a b later = ground arith
