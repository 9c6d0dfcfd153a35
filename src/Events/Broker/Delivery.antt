-- ===== src/Events/Broker/Delivery.antt =====
-- What subscribers get.
use yorva.Prelude.{
  ℕ, zero, suc, true, ◌≡◌, refl, sym, ap, ◌∙◌, List, [], ◌∷◌, ◌++◌, ltb, leb, length, take, map,
  arith, Bool-cases, inl, inr,
}
use mathlib.Core.List.{append_assoc}
use mathlib.Core.Path.{subst}
use yorva.Events.Broker.{
  Event, Subscriber, Broker, subscriber_buffer, publish, offer, offer_all, count_event, stamp,
}
use yorva.Events.Broker.Bounds.{
  Reachable, well_formed, well_formed-offer_all, reachable_well_formed,
}

-- The events of a series of publications as they are stamped.
unfoldable pub stamped_all : ℕ → ℕ → List Event → List Event
stamped_all now n [] = []
stamped_all now n (e ∷ es) = stamp now n e ∷ stamped_all now (count_event n e) es

unfoldable pub publish_all : ℕ → List Event → Broker → Broker
publish_all now [] b = b
publish_all now (e ∷ es) b = publish_all now es (publish now e b)

-- A subscriber that reads nothing has the first 16 of what it had and what came.
abbrev pub keep_first : List Event → Subscriber → Subscriber
keep_first es s = record s { buffer = take subscriber_buffer (s.buffer ++ es) }

take-length : (xs ys : List Event) → take (length xs) (xs ++ ys) ≡ xs
take-length [] ys = refl
take-length (x ∷ xs) ys = ap (λ l. x ∷ l) (take-length xs ys)

take_short : (n : ℕ) (xs : List Event) → leb (length xs) n ≡ true → take n (xs ++ []) ≡ xs
take_short zero [] h = refl
take_short zero (x ∷ xs) h = ground (arith, h)
take_short (suc n) [] h = refl
take_short (suc n) (x ∷ xs) h = ap (λ l. x ∷ l) (take_short n xs (ground (arith, h)))

take_all : (n : ℕ) (xs ys : List Event) → length xs ≡ n → take n (xs ++ ys) ≡ xs
take_all n xs ys h = subst (λ m. take m (xs ++ ys) ≡ xs) h (take-length xs ys)

keep_first-offer :
    (e : Event) (es : List Event) (s : Subscriber)
    → leb (length s.buffer) subscriber_buffer ≡ true
    → keep_first es (offer e s) ≡ keep_first (e ∷ es) s
unfolding offer
keep_first-offer e es s h = elim (Bool-cases (ltb (length s.buffer) subscriber_buffer)) [
  | inl room ↦ rw room (
      ap (λ (l : List Event). record s { buffer = take subscriber_buffer l })
        (append_assoc s.buffer (e ∷ []) es))
  | inr full ↦
      let sixteen : length s.buffer ≡ subscriber_buffer = ground (arith, h, full) in
      rw full (
        ap (λ (l : List Event). record s { buffer = l })
          (take_all subscriber_buffer s.buffer es sixteen
            ∙ sym (take_all subscriber_buffer s.buffer (e ∷ es) sixteen)))
]

map-offer_all :
    (next : ℕ) (e : Event) (es : List Event) (subs : List Subscriber)
    → well_formed next subs ≡ true
    → map (keep_first es) (offer_all e subs) ≡ map (keep_first (e ∷ es)) subs
unfolding offer_all well_formed
map-offer_all next e es [] h = refl
map-offer_all next e es (s ∷ rest) h =
    ap (λ t. t ∷ map (keep_first es) (offer_all e rest))
      (keep_first-offer e es s (ground (arith, h)))
    ∙ ap (λ l. keep_first (e ∷ es) s ∷ l) (map-offer_all next e es rest (ground (arith, h)))

map-keep_first :
    (next : ℕ) (subs : List Subscriber)
    → well_formed next subs ≡ true
    → subs ≡ map (keep_first []) subs
unfolding well_formed
map-keep_first next [] h = refl
map-keep_first next (s ∷ rest) h =
    ap (λ (l : List Event). record s { buffer = l } ∷ rest)
      (sym (take_short subscriber_buffer s.buffer (ground (arith, h))))
    ∙ ap (λ l. keep_first [] s ∷ l) (map-keep_first next rest (ground (arith, h)))

delivered :
    (now next : ℕ) (es : List Event) (b : Broker)
    → well_formed next b.subscribers ≡ true
    → (publish_all now es b).subscribers
      ≡ map (keep_first (stamped_all now b.next_event es)) b.subscribers
unfolding publish_all publish stamped_all
delivered now next [] b w = map-keep_first next b.subscribers w
delivered now next (e ∷ es) b w =
    delivered now next es (publish now e b)
      (well_formed-offer_all next (stamp now b.next_event e) b.subscribers w)
    ∙ map-offer_all next (stamp now b.next_event e)
        (stamped_all now (count_event b.next_event e) es) b.subscribers w

-- While nobody reads, subscribes or closes, any number of publications leave each subscriber with
-- the first 16 of the events that it had in its buffer and of those published, in order and as they
-- were stamped; what comes later is dropped, for that subscriber only.
pub publish_all_lem :
    (now : ℕ) (es : List Event) {b : Broker}
    → Reachable b
    → (publish_all now es b).subscribers
      ≡ map (keep_first (stamped_all now b.next_event es)) b.subscribers
publish_all_lem now es {b} r = delivered now b.next_id es b (reachable_well_formed r)
