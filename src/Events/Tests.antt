-- ===== src/Events/Tests.antt =====
-- A publisher of one periodic event, and an instance of the theorem.
use opensomeip.Base.{ℕ, ◌≤◌, ◌<◌, ◌≡◌, refl, true, false, List, [], ◌∷◌, All, none, some}
use opensomeip.Base.Map.{find, insert}
use opensomeip.Sd.Service.{Sent}
use opensomeip.Events.Publisher.{
  EventConfig, EventPublisher, periodic, new_publisher, initialize, register_event, timer_tick,
  publish_cyclic_events, publish_each, publish_due,
}
use opensomeip.Events.Timer.{Reach, here, next, initializes, registers, timer_tick_blocks}
use opensomeip.Events.Publisher.{publish_event, client_endpoint}
use opensomeip.Events.Subscriber.{
  EventSubscriber, new_subscriber, new_info, make_key, find_service, subscribe_eventgroup,
}
use opensomeip.Events.Notices.{IsDelivered, receivers, publish_event-IsDelivered}

abbrev clock_event : EventConfig
clock_event = record {
  event_id = 0x8001;
  eventgroup_id = 1;
  notification_type = periodic;
  cycle_time = 1000;
}

abbrev publisher : EventPublisher
publisher = record (new_publisher 0x1234) {
  running = true;
  registered_events = (0x8001, clock_event) ∷ [];
}

publisher-Reach : Reach (new_publisher 0x1234) publisher
unfolding initialize register_event find insert
publisher-Reach = next (next here (initializes true)) (registers clock_event)

timer_tick_blocks_example :
    ((p' : EventPublisher) (sents : List Sent)
      → timer_tick 5000 publisher ≡ some (p', sents)
      → (p' ≡ publisher) × (sents ≡ []))
    × ((id : ℕ) (config : EventConfig)
        → publisher.running ≡ true
        → find id publisher.registered_events ≡ some config
        → config.notification_type ≡ periodic
        → 0 < config.cycle_time
        → config.cycle_time ≤ 5000
        → timer_tick 5000 publisher ≡ none)
timer_tick_blocks_example = timer_tick_blocks 0x1234 5000 publisher publisher-Reach

-- The publisher's round does not end.
publisher_blocks : timer_tick 5000 publisher ≡ none
unfolding timer_tick find publish_cyclic_events publish_each publish_due publish_event
publisher_blocks = refl

-- A subscriber with one subscription, and the publisher with one client.
abbrev subscriber : EventSubscriber
subscriber = record (new_subscriber 9) {
  running = true;
  subscriptions = (make_key 0x1234 1 1, new_info 2 0x1234 1 1 (some 4) []) ∷ [];
}

abbrev heard_publisher : EventPublisher
heard_publisher = record publisher {
  subscriptions = (1, record { client_id = 9; endpoint = client_endpoint } ∷ []) ∷ [];
}

subscribed_subscriber :
    (subscribe_eventgroup
      (λ m. true)
      2
      0x1234
      1
      1
      (some 4)
      []
      (record (new_subscriber 9) { running = true })).1
    ≡ subscriber
unfolding subscribe_eventgroup insert
subscribed_subscriber = refl

publish_event-IsDelivered_example :
    (sents : List Sent) × (publish_event false 5 0x8001 (1 ∷ []) heard_publisher
      ≡ some (true, record heard_publisher { next_session_id = 2 }, sents))
    × (receivers sents ≡ client_endpoint ∷ [])
    × All
        (IsDelivered 6 heard_publisher 0x8001
          (1 ∷ [])
          subscriber
          (make_key 0x1234 1 1)
          (new_info 2 0x1234 1 1 (some 4) []))
        sents
unfolding find find_service
publish_event-IsDelivered_example =
    publish_event-IsDelivered 5 6 heard_publisher 0x8001 (1 ∷ []) subscriber (make_key 0x1234 1 1)
      (new_info 2 0x1234 1 1 (some 4) []) refl refl clock_event refl refl
