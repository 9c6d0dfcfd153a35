-- ===== src/Install/Gc/Latest.antt =====
-- The first of the latest hits (gc.go sorts by time).
use yorva.Prelude.{
  ℕ, true, ◌≡◌, refl, ap, ◌∙◌, ◌⊎◌, inl, inr, Option, none, some, List, [], ◌∷◌, ltb, leb, All, Any,
  arith, Bool-cases,
}
use mathlib.Core.Path.{subst}
use yorva.Install.Gc.Retention.{Hit, Place, later_of, latest}

abbrev pub In : {A : Type 0} → A → List A → Type 0
In a xs = Any (λ x. x ≡ a) xs

pub All-In : {A : Type 0} (P : A → Type 0) (a : A) (xs : List A) → All P xs → In a xs → P a
All-In P a [] all i = elim i [ ]
All-In P a (x ∷ xs) (p, all) (inl here) = subst P here p
All-In P a (x ∷ xs) (p, all) (inr later) = All-In P a xs all later

-- A hit that is among the hits, and no other is later.
record IsLatest (h : Hit) (hs : List Hit) : Type 0 where
  member : In h hs
  latest_time : All (λ x. leb x.1 h.1 ≡ true) hs

All-leb :
    (t u : ℕ) (hs : List Hit)
    → leb t u ≡ true
    → All (λ x. leb x.1 t ≡ true) hs
    → All (λ x. leb x.1 u ≡ true) hs
All-leb t u [] h all = tt
All-leb t u (x ∷ hs) h (first, all) = (ground (arith, h, first), All-leb t u hs h all)

IsLatest-cons :
    (x : Hit) (rest : List Hit) (found : Option Hit)
    → latest rest ≡ found
    → ((h : Hit) → latest rest ≡ some h → IsLatest h rest)
    → (latest rest ≡ none → rest ≡ [])
    → IsLatest (later_of x found) (x ∷ rest)
unfolding later_of
IsLatest-cons (p, t) rest none e go empty =
    rw (empty e) (record { member = inl refl; latest_time = (ground arith, tt) })
IsLatest-cons (p, t) rest (some (q, u)) e go empty =
    let r = go (q, u) e in
    elim (Bool-cases (ltb t u)) [
      | inl less ↦
          rw less
            (record { member = inr r.member; latest_time = (ground (arith, less), r.latest_time) })
      | inr not_less ↦ rw not_less (record {
        member = inl refl;
        latest_time = (ground arith, All-leb u t rest (ground (arith, not_less)) r.latest_time);
      })
    ]

latest_none : (hs : List Hit) → latest hs ≡ none → hs ≡ []
unfolding latest
latest_none [] h = refl
latest_none (x ∷ hs) h = cc

latest-IsLatest : (hs : List Hit) (h : Hit) → latest hs ≡ some h → IsLatest h hs
unfolding latest
latest-IsLatest [] h e = cc
latest-IsLatest (x ∷ hs) h e =
    subst (λ y. IsLatest y (x ∷ hs)) (some_same (later_of x (latest hs)) h e)
      (IsLatest-cons x hs (latest hs) refl (latest-IsLatest hs) (latest_none hs))
  where
    some_same : (a b : Hit) → some a ≡ some b → a ≡ b
    some_same a b k = cc

-- The place of a hit that is later than all at other places is the one that `latest` gives.
pub latest-place :
    (p : Place) (t : ℕ) (hs : List Hit)
    → In (p, t) hs
    → All (λ x. (x.0 ≡ p) ⊎ (ltb x.1 t ≡ true)) hs
    → (u : ℕ) × (latest hs ≡ some (p, u))
latest-place p t hs i all = by_found (latest hs) refl
  where
    same_place : (q : Place) (u : ℕ) → IsLatest (q, u) hs → q ≡ p
    same_place q u l = elim (All-In (λ x. (x.0 ≡ p) ⊎ (ltb x.1 t ≡ true)) (q, u) hs all l.member) [
      | inl e ↦ e
      | inr less ↦
          let least = All-In (λ x. leb x.1 u ≡ true) (p, t) hs l.latest_time i in
          absurd (ground (arith, less, least))
    ]

    by_found : (found : Option Hit) → latest hs ≡ found → (u : ℕ) × (latest hs ≡ some (p, u))
    by_found none e = absurd (subst (λ xs. In (p, t) xs) (latest_none hs e) i)
    by_found (some (q, u)) e =
        (u, e ∙ ap (λ x. some (x, u)) (same_place q u (latest-IsLatest hs (q, u) e)))
