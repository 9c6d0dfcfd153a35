-- ===== src/Examples/Subscribers.antt =====
-- The statements on the broker at sample steps.
use yorva.Prelude.{◌≡◌, true, refl, [], ◌∷◌, bytes, map}
use yorva.Events.Broker.{Event, Broker, new_broker, subscribe, publish}
use yorva.Events.Broker.Bounds.{
  Reachable, start, subscribed, published, well_formed, reachable_well_formed,
}
use yorva.Events.Broker.Delivery.{publish_all, publish_all_lem, keep_first, stamped_all}

abbrev event : Event
event = record { id = []; event_type = bytes "operation.started"; occurred_at = 0; payload = [] }

abbrev two : Broker
two = publish 5 event (subscribe (subscribe new_broker))

two_reachable : Reachable two
unfolding subscribe
two_reachable = published 5 event (subscribed (subscribed start refl) refl)

reachable_well_formed_example : well_formed two.next_id two.subscribers ≡ true
reachable_well_formed_example = reachable_well_formed two_reachable

publish_all_lem_example :
    (publish_all 7 (event ∷ event ∷ []) two).subscribers
    ≡ map (keep_first (stamped_all 7 two.next_event (event ∷ event ∷ []))) two.subscribers
publish_all_lem_example = publish_all_lem 7 (event ∷ event ∷ []) two_reachable
