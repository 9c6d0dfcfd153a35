-- ===== src/Operation/Clock.antt =====
-- formatTime (persistence/sqlite/node.go) and the order that `ORDER BY created_at` gives the texts
-- it writes. A time is a number of nanoseconds. The date and the time of day have a fixed width, so
-- texts are compared by the second first, and then by what RFC3339Nano writes behind it.
pub mod Order
use yorva.Prelude.{
  ℕ, zero, suc, ◌+◌, ◌/◌, ◌%◌, Bool, true, false, not, ◌&&◌, ◌||◌, List, [], ◌∷◌, ◌++◌, Bytes,
  is_empty, if◌then◌else◌, ◌==◌, ltb, leb,
}

abbrev pub second : ℕ → ℕ
second t = t / 1000000000

-- The last `count` digits of a number.
unfoldable pub last_digits : ℕ → ℕ → Bytes
last_digits zero n = []
last_digits (suc count) n = last_digits count (n / 10) ++ (b'0' + n % 10) ∷ []

-- RFC3339Nano leaves out the zeros at the end.
unfoldable pub trim_zeros : Bytes → Bytes
trim_zeros [] = []
trim_zeros (c ∷ s) = let rest = trim_zeros s in if is_empty rest && c == b'0' then [] else c ∷ rest

-- What stands behind the second: a point and digits, where there are any, and the letter of UTC.
unfoldable pub fraction_text : ℕ → Bytes
unfolding last_digits trim_zeros
fraction_text t =
    let part = trim_zeros (last_digits 9 t) in
    if is_empty part then b'Z' ∷ [] else b'.' ∷ part ++ b'Z' ∷ []

-- The order of texts in SQLite, byte by byte.
unfoldable pub text_before : Bytes → Bytes → Bool
text_before [] [] = false
text_before [] (y ∷ ys) = true
text_before (x ∷ xs) [] = false
text_before (x ∷ xs) (y ∷ ys) = ltb x y || x == y && text_before xs ys

-- Whether the text of a time sorts before that of another.
unfoldable pub sorts_before : ℕ → ℕ → Bool
unfolding text_before fraction_text
sorts_before a b =
    ltb (second a) (second b)
    || second a == second b && text_before (fraction_text a) (fraction_text b)
