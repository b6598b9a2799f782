-- ===== src/Events/Subscriber.antt =====
-- `EventSubscriberImpl` of src/events/event_subscriber.cpp. A map whose keys are texts "a:b:c" of three
-- 16-bit numbers is one whose keys are the numbers put side by side, which is as one-to-one. A callback
-- is a number, or `none` where it is empty; the status callback is never called and left out. The map is
-- gone through in the order of its list. Whether the transport takes a message is an argument.
use opensomeip.Base.{
  ℕ, ◌+◌, ◌*◌, ◌/◌, ◌%◌, ◌^◌, Bool, true, false, not, ◌==◌, ◌!=◌, if◌then◌else◌, List, [], ◌∷◌,
  ◌++◌, Option, none, some,
}
use opensomeip.Base.Map.{find, insert, erase}
use opensomeip.Types.MessageType.{request, notification}
use opensomeip.Types.ReturnCode.{e_ok}
use opensomeip.Message.{Message, new_message, set_payload}

pub data SubscriptionState : Type 0 where
  requested subscribed pending rejected expired : SubscriptionState

pub record EventSubscription : Type 0 where
  pub service_id : ℕ
  pub instance_id : ℕ
  pub eventgroup_id : ℕ
  pub state : SubscriptionState
  pub last_notification : ℕ

pub record EventFilter : Type 0 where
  pub event_id : ℕ
  pub filter_data : List ℕ

pub record SubscriptionInfo : Type 0 where
  pub subscription : EventSubscription
  pub notification_callback : Option ℕ
  pub filters : List EventFilter

pub record EventNotification : Type 0 where
  pub service_id : ℕ
  pub instance_id : ℕ
  pub event_id : ℕ
  pub client_id : ℕ
  pub session_id : ℕ
  pub event_data : List ℕ

pub record EventSubscriber : Type 0 where
  pub client_id : ℕ
  pub subscriptions : List (ℕ × SubscriptionInfo)
  pub field_requests : List (ℕ × Option ℕ)
  pub running : Bool

abbrev pub new_subscriber : ℕ → EventSubscriber
new_subscriber client_id = record {
  client_id = client_id;
  subscriptions = [];
  field_requests = [];
  running = false;
}

-- `make_subscription_key` and `make_field_key`
abbrev pub make_key : ℕ → ℕ → ℕ → ℕ
make_key a b c = a * 2 ^ 32 + b * 2 ^ 16 + c

unfoldable pub initialize : Bool → EventSubscriber → Bool × EventSubscriber
initialize starts s =
    if s.running
    then (true, s)
    else if not starts
    then (false, s)
    else (true, record s { running = true })

unfoldable pub shutdown : EventSubscriber → EventSubscriber
shutdown s = if not s.running then s else record s { running = false; subscriptions = [] }

-- A request to the service: the method and the session are the same number.
abbrev pub request_message : ℕ → ℕ → ℕ → ℕ → ℕ → Message
request_message now service_id number client_id id =
    set_payload ((id / 256 % 256) ∷ (id % 256) ∷ []) (
      new_message (record { service_id = service_id; method_id = number })
        (record { client_id = client_id; session_id = number }) request e_ok now)

abbrev pub new_info : ℕ → ℕ → ℕ → ℕ → Option ℕ → List EventFilter → SubscriptionInfo
new_info now service_id instance_id eventgroup_id callback filters = record {
  subscription = record {
    service_id = service_id;
    instance_id = instance_id;
    eventgroup_id = eventgroup_id;
    state = requested;
    last_notification = now;
  };
  notification_callback = callback;
  filters = filters;
}

unfoldable pub subscribe_eventgroup :
    (Message → Bool)
    → ℕ
    → ℕ
    → ℕ
    → ℕ
    → Option ℕ
    → List EventFilter
    → EventSubscriber
    → Bool × EventSubscriber × Option Message
subscribe_eventgroup sends now service_id instance_id eventgroup_id callback filters s =
    let key = make_key service_id instance_id eventgroup_id in
    let stored =
      insert key (new_info now service_id instance_id eventgroup_id callback filters)
        s.subscriptions in
    let message = request_message now service_id 0x0001 s.client_id eventgroup_id in
    if not s.running
    then (false, s, none)
    else if sends message
    then (true, record s { subscriptions = stored }, some message)
    else (false, record s { subscriptions = erase key stored }, some message)

unfoldable pub unsubscribe_eventgroup :
    ℕ → ℕ → ℕ → ℕ → EventSubscriber → Bool × EventSubscriber × Option Message
unsubscribe_eventgroup now service_id instance_id eventgroup_id s =
    let key = make_key service_id instance_id eventgroup_id in
    if not s.running then (false, s, none) else elim (find key s.subscriptions) [
      | none ↦ (false, s, none)
      | some info ↦ (
        true,
        record s { subscriptions = erase key s.subscriptions },
        some (request_message now service_id 0x0002 s.client_id eventgroup_id),
      )
    ]

unfoldable pub request_field :
    (Message → Bool)
    → ℕ
    → ℕ
    → ℕ
    → ℕ
    → Option ℕ
    → EventSubscriber
    → Bool × EventSubscriber × Option Message
request_field sends now service_id instance_id event_id callback s =
    let message = request_message now service_id 0x0003 s.client_id event_id in
    if not s.running then (false, s, none) else (
      sends message,
      record s {
        field_requests =
            insert (make_key service_id instance_id event_id) callback s.field_requests;
      },
      some message,
    )

unfoldable pub set_event_filters :
    ℕ → ℕ → ℕ → List EventFilter → EventSubscriber → Bool × EventSubscriber
set_event_filters service_id instance_id eventgroup_id filters s =
    let key = make_key service_id instance_id eventgroup_id in
    elim (find key s.subscriptions) [
      | none ↦ (false, s)
      | some info ↦ (
        true,
        record s { subscriptions = insert key (record info { filters = filters }) s.subscriptions },
      )
    ]

abbrev infos : List (ℕ × SubscriptionInfo) → List EventSubscription
infos [] = []
infos ((key, info) ∷ rest) = info.subscription ∷ infos rest

unfoldable pub get_active_subscriptions : EventSubscriber → List EventSubscription
get_active_subscriptions s = infos s.subscriptions

unfoldable pub get_subscription_status : ℕ → ℕ → ℕ → EventSubscriber → SubscriptionState
get_subscription_status service_id instance_id eventgroup_id s =
    elim (find (make_key service_id instance_id eventgroup_id) s.subscriptions) [
      | none ↦ requested
      | some info ↦ info.subscription.state
    ]

-- The first subscription to a service, with its key.
unfoldable pub find_service : ℕ → List (ℕ × SubscriptionInfo) → Option (ℕ × SubscriptionInfo)
find_service service_id [] = none
find_service service_id ((key, info) ∷ rest) =
    let found = find_service service_id rest in
    if info.subscription.service_id == service_id then some (key, info) else found

-- Calls of callbacks.
abbrev pub Notices : Type 0
Notices = List (ℕ × EventNotification)

abbrev pub notice : Option ℕ → EventNotification → Notices
notice none n = []
notice (some callback) n = (callback, n) ∷ []

abbrev pub notified : ℕ → SubscriptionInfo → SubscriptionInfo
notified now info = record info {
  subscription = record info.subscription { state = subscribed; last_notification = now };
}

abbrev to_subscription :
    ℕ → Message → EventSubscriber → Option (ℕ × SubscriptionInfo) → EventSubscriber × Notices
to_subscription now message s none = (s, [])
to_subscription now message s (some (key, info)) = (
  record s { subscriptions = insert key (notified now info) s.subscriptions },
  notice info.notification_callback (record {
    service_id = message.message_id.service_id;
    instance_id = info.subscription.instance_id;
    event_id = message.message_id.method_id;
    client_id = message.request_id.client_id;
    session_id = message.request_id.session_id;
    event_data = message.payload;
  }),
)

abbrev to_field : ℕ → Message → EventSubscriber → Option (Option ℕ) → EventSubscriber × Notices
to_field key message s none = (s, [])
to_field key message s (some callback) = (
  record s { field_requests = erase key s.field_requests },
  notice callback (record {
    service_id = message.message_id.service_id;
    instance_id = 0;
    event_id = message.message_id.method_id;
    client_id = 0;
    session_id = 0;
    event_data = message.payload;
  }),
)

unfoldable pub on_message_received : ℕ → Message → EventSubscriber → EventSubscriber × Notices
on_message_received now message s =
    let field_key = make_key message.message_id.service_id 0 message.message_id.method_id in
    let (s', notices) =
      to_subscription now message s (find_service message.message_id.service_id s.subscriptions) in
    let (s'', more) = to_field field_key message s' (find field_key s'.field_requests) in
    if message.message_type != notification then (s, []) else (s'', notices ++ more)

abbrev is_subscribed : SubscriptionState → Bool
is_subscribed subscribed = true
is_subscribed requested = false
is_subscribed pending = false
is_subscribed rejected = false
is_subscribed expired = false

unfoldable pub suspend : List (ℕ × SubscriptionInfo) → List (ℕ × SubscriptionInfo)
suspend [] = []
suspend ((key, info) ∷ rest) =
    let others = suspend rest in
    if is_subscribed info.subscription.state
    then (key, record info { subscription = record info.subscription { state = pending } }) ∷ others
    else (key, info) ∷ others

unfoldable pub on_connection_lost : EventSubscriber → EventSubscriber
on_connection_lost s = record s { subscriptions = suspend s.subscriptions }
