-- ===== src/Events/Broker.antt =====
-- events/broker.go: subscriptions with a bounded buffer, and publication that never waits.
pub mod Bounds
pub mod Delivery
use yorva.Prelude.{
  ℕ, zero, suc, ◌+◌, ◌/◌, ◌%◌, ◌^◌, Bool, true, false, List, [], ◌∷◌, ◌++◌, Bytes, bytes, is_empty,
  ltb, length, ◌==◌, if◌then◌else◌,
}

-- A time is a number, and 0 is Go's zero time.
pub record Event : Type 0 where
  pub id : Bytes
  pub event_type : Bytes
  pub occurred_at : ℕ
  pub payload : Bytes

-- A channel in the map of subscribers: its key, and the events in its buffer, the oldest first.
pub record Subscriber : Type 0 where
  pub key : ℕ
  pub buffer : List Event

-- Broker; the lock makes each of its operations one step.
pub record Broker : Type 0 where
  pub next_id : ℕ
  pub next_event : ℕ
  pub subscribers : List Subscriber

abbrev pub subscriber_buffer : ℕ
subscriber_buffer = 16

-- NewBroker
abbrev pub new_broker : Broker
new_broker = record { next_id = 0; next_event = 0; subscribers = [] }

-- Subscribe; the counter is a uint64
unfoldable pub subscribe : Broker → Broker
subscribe b = record b {
  next_id = (b.next_id + 1) % 2 ^ 64;
  subscribers = record { key = b.next_id; buffer = [] } ∷ b.subscribers;
}

without : ℕ → List Subscriber → List Subscriber
without key [] = []
without key (s ∷ rest) =
    let others = without key rest in if s.key == key then others else s ∷ others

-- What Close runs the first time.
unfoldable pub close : ℕ → Broker → Broker
unfolding without
close key b = record b { subscribers = without key b.subscribers }

-- The decimal digits of a number; as many rounds as the number and one are enough.
unfoldable pub digits : ℕ → ℕ → Bytes → Bytes
digits zero n acc = acc
digits (suc fuel) n acc =
    let rest = digits fuel (n / 10) ((b'0' + n % 10) ∷ acc) in
    if ltb n 10 then (b'0' + n) ∷ acc else rest

-- formatEventID
unfoldable pub format_event_id : ℕ → Bytes
unfolding digits
format_event_id seq = bytes "evt_" ++ digits (seq + 1) seq []

-- The counter after an event, and the event with its identifier and time.
unfoldable pub count_event : ℕ → Event → ℕ
count_event n event = if is_empty event.id then (n + 1) % 2 ^ 64 else n

unfoldable pub stamp : ℕ → ℕ → Event → Event
unfolding count_event
stamp now n event = record event {
  id = if is_empty event.id then format_event_id (count_event n event) else event.id;
  occurred_at = if event.occurred_at == 0 then now else event.occurred_at;
}

-- The select with a default: an event for which there is no room is dropped.
unfoldable pub offer : Event → Subscriber → Subscriber
offer event s =
    if ltb (length s.buffer) subscriber_buffer
    then record s { buffer = s.buffer ++ event ∷ [] }
    else s

unfoldable pub offer_all : Event → List Subscriber → List Subscriber
offer_all event [] = []
offer_all event (s ∷ rest) = offer event s ∷ offer_all event rest

-- Publish on a broker that is not nil
unfoldable pub publish : ℕ → Event → Broker → Broker
unfolding offer_all
publish now event b = record b {
  next_event = count_event b.next_event event;
  subscribers = offer_all (stamp now b.next_event event) b.subscribers;
}

-- A reader takes the oldest event off its channel.
take_first : List Event → List Event
take_first [] = []
take_first (e ∷ rest) = rest

receive_from : ℕ → List Subscriber → List Subscriber
unfolding take_first
receive_from key [] = []
receive_from key (s ∷ rest) =
    (if s.key == key then record s { buffer = take_first s.buffer } else s) ∷ receive_from key rest

unfoldable pub receive : ℕ → Broker → Broker
unfolding receive_from
receive key b = record b { subscribers = receive_from key b.subscribers }
