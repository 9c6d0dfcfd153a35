-- ===== src/Events/Broker/Bounds.antt =====
-- What holds of a broker after any steps.
use yorva.Prelude.{
  ℕ, ◌+◌, ◌%◌, ◌^◌, Bool, true, false, ◌≡◌, refl, sym, List, [], ◌∷◌, ◌++◌, ltb, leb, length, ◌==◌,
  ◌&&◌, ◌||◌, not, arith,
}
use mathlib.Core.Path.{subst}
use yorva.Events.Broker.{
  Event, Subscriber, Broker, subscriber_buffer, new_broker, subscribe, close, without, publish,
  offer, offer_all, receive, receive_from, take_first, stamp,
}

-- The steps of a broker, of which fewer than 2 ^ 64 are subscriptions.
pub data Reachable : Broker → Type 0 where
  start : Reachable new_broker
  subscribed :
      {b : Broker} → Reachable b → ltb (b.next_id + 1) (2 ^ 64) ≡ true → Reachable (subscribe b)
  closed : {b : Broker} (key : ℕ) → Reachable b → Reachable (close key b)
  published : {b : Broker} (now : ℕ) (event : Event) → Reachable b → Reachable (publish now event b)
  received : {b : Broker} (key : ℕ) → Reachable b → Reachable (receive key b)

-- Every key was given out, every buffer is within its bound, and no key is there twice.
unfoldable pub has_key : ℕ → List Subscriber → Bool
has_key key [] = false
has_key key (s ∷ rest) = s.key == key || has_key key rest

unfoldable pub well_formed : ℕ → List Subscriber → Bool
unfolding has_key
well_formed next [] = true
well_formed next (s ∷ rest) =
    ltb s.key next
    && leb (length s.buffer) subscriber_buffer
    && not (has_key s.key rest)
    && well_formed next rest

has_key-without :
    (k key : ℕ) (subs : List Subscriber)
    → has_key k subs ≡ false
    → has_key k (without key subs) ≡ false
unfolding has_key without
has_key-without k key [] h = refl
has_key-without k key (s ∷ rest) h = ground (arith, h, has_key-without k key rest)

well_formed-without :
    (next key : ℕ) (subs : List Subscriber)
    → well_formed next subs ≡ true
    → well_formed next (without key subs) ≡ true
unfolding well_formed without
well_formed-without next key [] h = refl
well_formed-without next key (s ∷ rest) h =
    ground (arith, h, has_key-without s.key key rest, well_formed-without next key rest)

length-snoc : (es : List Event) (e : Event) → length (es ++ e ∷ []) ≡ length es + 1
length-snoc [] e = refl
length-snoc (x ∷ es) e = ground (arith, length-snoc es e)

has_key-offer_all :
    (k : ℕ) (event : Event) (subs : List Subscriber)
    → has_key k (offer_all event subs) ≡ has_key k subs
unfolding has_key offer_all offer
has_key-offer_all k event [] = refl
has_key-offer_all k event (s ∷ rest) = ground (arith, has_key-offer_all k event rest)

pub well_formed-offer_all :
    (next : ℕ) (event : Event) (subs : List Subscriber)
    → well_formed next subs ≡ true
    → well_formed next (offer_all event subs) ≡ true
unfolding well_formed offer_all offer
well_formed-offer_all next event [] h = refl
well_formed-offer_all next event (s ∷ rest) h = ground (
  arith,
  h,
  length-snoc s.buffer event,
  has_key-offer_all s.key event rest,
  well_formed-offer_all next event rest,
)

has_key-receive_from :
    (k key : ℕ) (subs : List Subscriber) → has_key k (receive_from key subs) ≡ has_key k subs
unfolding has_key receive_from
has_key-receive_from k key [] = refl
has_key-receive_from k key (s ∷ rest) = ground (arith, has_key-receive_from k key rest)

length-take_first :
    (es : List Event)
    → leb (length es) subscriber_buffer ≡ true
    → leb (length (take_first es)) subscriber_buffer ≡ true
unfolding take_first
length-take_first [] h = refl
length-take_first (e ∷ es) h = ground (arith, h)

well_formed-receive_from :
    (next key : ℕ) (subs : List Subscriber)
    → well_formed next subs ≡ true
    → well_formed next (receive_from key subs) ≡ true
unfolding well_formed receive_from
well_formed-receive_from next key [] h = refl
well_formed-receive_from next key (s ∷ rest) h = ground (
  arith,
  h,
  length-take_first s.buffer,
  has_key-receive_from s.key key rest,
  well_formed-receive_from next key rest,
)

well_formed-later :
    (next : ℕ) (subs : List Subscriber)
    → well_formed next subs ≡ true
    → well_formed (next + 1) subs ≡ true
unfolding well_formed
well_formed-later next [] h = refl
well_formed-later next (s ∷ rest) h = ground (arith, h, well_formed-later next rest)

fresh :
    (next : ℕ) (subs : List Subscriber) → well_formed next subs ≡ true → has_key next subs ≡ false
unfolding well_formed has_key
fresh next [] h = refl
fresh next (s ∷ rest) h = ground (arith, h, fresh next rest)

below_bound : (n : ℕ) → ltb (n + 1) (2 ^ 64) ≡ true → (n + 1) % 2 ^ 64 ≡ n + 1
below_bound n h = ground (arith, h)

joined :
    (next : ℕ) (subs : List Subscriber)
    → well_formed next subs ≡ true
    → well_formed (next + 1) (record { key = next; buffer = [] } ∷ subs) ≡ true
unfolding well_formed
joined next subs w = ground (arith, fresh next subs w, well_formed-later next subs w)

subscribed_lem :
    (b : Broker)
    → ltb (b.next_id + 1) (2 ^ 64) ≡ true
    → well_formed b.next_id b.subscribers ≡ true
    → well_formed (subscribe b).next_id (subscribe b).subscribers ≡ true
unfolding subscribe
subscribed_lem b h w =
    subst (λ n. well_formed n (record { key = b.next_id; buffer = [] } ∷ b.subscribers) ≡ true)
      (sym (below_bound b.next_id h)) (joined b.next_id b.subscribers w)

-- Whatever is subscribed, closed, published and received, with fewer than 2 ^ 64 subscriptions,
-- no two subscribers share a key, every key was given out before, and no buffer holds more than 16
-- events.
pub reachable_well_formed : {b : Broker} → Reachable b → well_formed b.next_id b.subscribers ≡ true
unfolding close publish receive well_formed
reachable_well_formed start = refl
reachable_well_formed (subscribed {b} r h) = subscribed_lem b h (reachable_well_formed r)
reachable_well_formed (closed {b} key r) =
    well_formed-without b.next_id key b.subscribers (reachable_well_formed r)
reachable_well_formed (published {b} now event r) =
    well_formed-offer_all b.next_id (stamp now b.next_event event) b.subscribers
      (reachable_well_formed r)
reachable_well_formed (received {b} key r) =
    well_formed-receive_from b.next_id key b.subscribers (reachable_well_formed r)
