-- ===== src/Events/Notices.antt =====
-- What a subscriber makes of the notifications of a publisher.
use opensomeip.Base.{
  ℕ, ◌+◌, ◌%◌, ◌^◌, ◌≡◌, refl, ap, ◌∙◌, true, false, List, [], ◌∷◌, append_nil, All, none, some,
}
use opensomeip.Base.Map.{find, insert}
use opensomeip.Message.{new_message, set_payload, update_length}
use opensomeip.Sd.Service.{Endpoint, Sent}
use opensomeip.Events.Publisher.{
  EventConfig, EventPublisher, ClientInfo, publish_event, publish_locked, send_event_notification,
  notify_all, clients_of,
}
use opensomeip.Events.Timer.{publish_event-running}
use opensomeip.Events.Subscriber.{
  EventSubscriber, EventNotification, SubscriptionInfo, Notices, find_service, notice, notified,
  on_message_received, make_key,
}

-- What the callback of a subscription is to get for an event.
abbrev pub notification_of : EventPublisher → ℕ → List ℕ → SubscriptionInfo → EventNotification
notification_of p event_id event_data info = record {
  service_id = p.service_id;
  instance_id = info.subscription.instance_id;
  event_id = event_id;
  client_id = 0;
  session_id = p.next_session_id;
  event_data = event_data;
}

-- A message reaches the first subscription to the service, and it alone.
abbrev pub IsDelivered :
    ℕ → EventPublisher → ℕ → List ℕ → EventSubscriber → ℕ → SubscriptionInfo → Sent → Type 0
IsDelivered later p event_id event_data s key info sent =
    on_message_received later sent.message s ≡ (
      record s { subscriptions = insert key (notified later info) s.subscriptions },
      notice info.notification_callback (notification_of p event_id event_data info),
    )

abbrev pub receivers : List Sent → List Endpoint
receivers [] = []
receivers (sent ∷ rest) = sent.receiver ∷ receivers rest

abbrev pub endpoints : List ClientInfo → List Endpoint
endpoints [] = []
endpoints (client ∷ rest) = client.endpoint ∷ endpoints rest

published :
    (now event_id : ℕ) (event_data : List ℕ) (p : EventPublisher) (config : EventConfig)
    → p.running ≡ true
    → find event_id p.registered_events ≡ some config
    → publish_event false now event_id event_data p
      ≡ some (
        true,
        record p { next_session_id = (p.next_session_id + 1) % 2 ^ 16 },
        notify_all
            (send_event_notification now p event_id event_data p.next_session_id)
            (clients_of (find config.eventgroup_id p.subscriptions)),
      )
unfolding publish_locked
published now event_id event_data p config on registered =
    publish_event-running false now event_id event_data p on
    ∙ ap some (rw (publish_locked, registered) refl)

module _ (now later : ℕ) (p : EventPublisher) (event_id : ℕ) (event_data : List ℕ)
    (s : EventSubscriber) (key : ℕ) (info : SubscriptionInfo)
    (held : find_service p.service_id s.subscriptions ≡ some (key, info))
    (no_field : find (make_key p.service_id 0 event_id) s.field_requests ≡ none) where
  abbrev Delivered : Sent → Type 0
  Delivered = IsDelivered later p event_id event_data s key info

  one-IsDelivered :
      (endpoint : Endpoint)
      → Delivered (send_event_notification now p event_id event_data p.next_session_id endpoint)
  unfolding on_message_received send_event_notification new_message set_payload update_length
  one-IsDelivered endpoint =
      rw (on_message_received, held, no_field)
        (ap
          (λ (notices : Notices). (
            record s { subscriptions = insert key (notified later info) s.subscriptions },
            notices,
          ))
          (append_nil
            (notice info.notification_callback (notification_of p event_id event_data info))))

  deliver-IsDelivered :
      (clients : List ClientInfo)
      → All Delivered
          (notify_all (send_event_notification now p event_id event_data p.next_session_id) clients)
  deliver-IsDelivered [] = tt
  deliver-IsDelivered (client ∷ rest) = (one-IsDelivered client.endpoint, deliver-IsDelivered rest)

  to_each :
      (clients : List ClientInfo)
      → receivers
          (notify_all (send_event_notification now p event_id event_data p.next_session_id) clients)
        ≡ endpoints clients
  unfolding send_event_notification
  to_each [] = refl
  to_each (client ∷ rest) = ap (λ (l : List Endpoint). client.endpoint ∷ l) (to_each rest)

  -- A running publisher with the event registered, called by a thread that does not hold its mutex,
  -- says yes, takes the next session number, modulo 2 ^ 16, 0 included, and sends one message to each
  -- client of the event's group, in their order. Each of them, at a subscriber that has not asked for a
  -- field under that id, calls the callback of its first subscription to the service, whatever the
  -- event group of that, with the data, and makes that subscription active.
  pub publish_event-IsDelivered :
      (config : EventConfig)
      → p.running ≡ true
      → find event_id p.registered_events ≡ some config
      → (sents : List Sent) × (publish_event false now event_id event_data p
          ≡ some (true, record p { next_session_id = (p.next_session_id + 1) % 2 ^ 16 }, sents))
        × (receivers sents ≡ endpoints (clients_of (find config.eventgroup_id p.subscriptions)))
        × All (IsDelivered later p event_id event_data s key info) sents
  publish_event-IsDelivered config on registered =
      let clients = clients_of (find config.eventgroup_id p.subscriptions) in
      (
        notify_all (send_event_notification now p event_id event_data p.next_session_id) clients,
        published now event_id event_data p config on registered,
        to_each clients,
        deliver-IsDelivered clients,
      )
