-- ===== src/Events/Publisher.antt =====
-- `EventPublisherImpl` of src/events/event_publisher.cpp. The parts of a configuration that nothing reads
-- are left out, and so are the filters of a client, which are timed and never looked at. The methods run
-- one after another, as the mutexes have it, and whether a thread already holds the mutex of the events is
-- an argument where a method can be called with it held.
use opensomeip.Base.{
  ℕ, ◌+◌, ◌-◌, ◌%◌, ◌^◌, Bool, true, false, not, ◌&&◌, ◌==◌, ltb, leb, if◌then◌else◌, List, [], ◌∷◌,
  ◌++◌, Option, none, some,
}
use opensomeip.Base.Map.{find, insert, erase}
use opensomeip.Types.MessageType.{notification}
use opensomeip.Types.ReturnCode.{e_ok}
use opensomeip.Message.{new_message, set_payload}
use opensomeip.Sd.Service.{Text, Endpoint, Sent}

pub data NotificationType : Type 0 where
  unknown periodic on_change on_change_with_filter polling : NotificationType

pub record EventConfig : Type 0 where
  pub event_id : ℕ
  pub eventgroup_id : ℕ
  pub notification_type : NotificationType
  pub cycle_time : ℕ

pub record ClientInfo : Type 0 where
  pub client_id : ℕ
  pub endpoint : Endpoint

-- A time that has not been timed counts as 0, the value that `operator[]` makes.
pub record EventPublisher : Type 0 where
  pub service_id : ℕ
  pub registered_events : List (ℕ × EventConfig)
  pub subscriptions : List (ℕ × List ClientInfo)
  pub last_publish_times : List (ℕ × ℕ)
  pub next_session_id : ℕ
  pub running : Bool

abbrev pub new_publisher : ℕ → EventPublisher
new_publisher service_id = record {
  service_id = service_id;
  registered_events = [];
  subscriptions = [];
  last_publish_times = [];
  next_session_id = 1;
  running = false;
}

unfoldable pub initialize : Bool → EventPublisher → Bool × EventPublisher
initialize starts p =
    if p.running
    then (true, p)
    else if not starts
    then (false, p)
    else (true, record p { running = true })

unfoldable pub shutdown : EventPublisher → EventPublisher
shutdown p =
    if not p.running
    then p
    else record p { running = false; subscriptions = []; registered_events = [] }

unfoldable pub register_event : EventConfig → EventPublisher → Bool × EventPublisher
register_event config p = elim (find config.event_id p.registered_events) [
  | some old ↦ (false, p)
  | none ↦
      (true, record p { registered_events = insert config.event_id config p.registered_events })
]

unfoldable pub unregister_event : ℕ → EventPublisher → Bool × EventPublisher
unregister_event event_id p = elim (find event_id p.registered_events) [
  | none ↦ (false, p)
  | some old ↦ (true, record p { registered_events = erase event_id p.registered_events })
]

unfoldable pub update_event_config : ℕ → EventConfig → EventPublisher → Bool × EventPublisher
update_event_config event_id config p = elim (find event_id p.registered_events) [
  | none ↦ (false, p)
  | some old ↦ (true, record p { registered_events = insert event_id config p.registered_events })
]

unfoldable pub send_event_notification : ℕ → EventPublisher → ℕ → List ℕ → ℕ → Endpoint → Sent
send_event_notification now p event_id event_data session_id endpoint = record {
  message = set_payload event_data (
      new_message (record { service_id = p.service_id; method_id = event_id })
        (record { client_id = 0; session_id = session_id }) notification e_ok now);
  receiver = endpoint;
}

abbrev pub notify_all : (Endpoint → Sent) → List ClientInfo → List Sent
notify_all send [] = []
notify_all send (client ∷ rest) = send client.endpoint ∷ notify_all send rest

abbrev pub clients_of : Option (List ClientInfo) → List ClientInfo
clients_of none = []
clients_of (some clients) = clients

-- `std::scoped_lock` of a mutex: a thread that holds it already waits for itself for ever, which is a
-- `none`.
abbrev pub locking {ℓ} : {A : Type ℓ} → Bool → Option A → Option A
locking held section = if held then none else section

-- What `publish_event` does with the mutex of the events held.
unfoldable pub publish_locked : ℕ → ℕ → List ℕ → EventPublisher → Bool × EventPublisher × List Sent
publish_locked now event_id event_data p = elim (find event_id p.registered_events) [
  | none ↦ (false, p, [])
  | some config ↦ (
    true,
    record p { next_session_id = (p.next_session_id + 1) % 2 ^ 16 },
    notify_all (send_event_notification now p event_id event_data p.next_session_id)
        (clients_of (find config.eventgroup_id p.subscriptions)),
  )
]

-- `held` says whether the thread that calls holds the mutex of the events.
unfoldable pub publish_event :
    Bool → ℕ → ℕ → List ℕ → EventPublisher → Option (Bool × EventPublisher × List Sent)
publish_event held now event_id event_data p =
    if not p.running
    then some (false, p, [])
    else locking held (some (publish_locked now event_id event_data p))

-- "127.0.0.1", port 30500
abbrev pub client_endpoint : Endpoint
client_endpoint = record { address = 49 ∷ 50 ∷ 55 ∷ 46 ∷ 48 ∷ 46 ∷ 48 ∷ 46 ∷ 49 ∷ []; port = 30500 }

-- In place of the client with the id, or at the end.
unfoldable pub put_client : ClientInfo → List ClientInfo → List ClientInfo
put_client info [] = info ∷ []
put_client info (client ∷ rest) =
    let others = put_client info rest in
    if client.client_id == info.client_id then info ∷ rest else client ∷ others

unfoldable pub handle_subscription : ℕ → ℕ → EventPublisher → EventPublisher
handle_subscription eventgroup_id client_id p = record p {
  subscriptions =
      insert eventgroup_id
        (put_client (record { client_id = client_id; endpoint = client_endpoint })
          (clients_of (find eventgroup_id p.subscriptions)))
        p.subscriptions;
}

unfoldable pub without_client : ℕ → List ClientInfo → List ClientInfo
without_client client_id [] = []
without_client client_id (client ∷ rest) =
    let others = without_client client_id rest in
    if client.client_id == client_id then others else client ∷ others

unfoldable pub handle_unsubscription : ℕ → ℕ → EventPublisher → Bool × EventPublisher
handle_unsubscription eventgroup_id client_id p = elim (find eventgroup_id p.subscriptions) [
  | none ↦ (false, p)
  | some clients ↦ (
    true,
    record p {
      subscriptions = insert eventgroup_id (without_client client_id clients) p.subscriptions;
    },
  )
]

abbrev client_ids : List ClientInfo → List ℕ
client_ids [] = []
client_ids (client ∷ rest) = client.client_id ∷ client_ids rest

unfoldable pub get_subscriptions : ℕ → EventPublisher → List ℕ
get_subscriptions eventgroup_id p = client_ids (clients_of (find eventgroup_id p.subscriptions))

abbrev event_ids : List (ℕ × EventConfig) → List ℕ
event_ids [] = []
event_ids ((event_id, config) ∷ rest) = event_id ∷ event_ids rest

unfoldable pub get_registered_events : EventPublisher → List ℕ
get_registered_events p = event_ids p.registered_events

abbrev pub is_periodic : NotificationType → Bool
is_periodic periodic = true
is_periodic unknown = false
is_periodic on_change = false
is_periodic on_change_with_filter = false
is_periodic polling = false

abbrev time_of : Option ℕ → ℕ
time_of none = 0
time_of (some time) = time

abbrev pub is_due : ℕ → List (ℕ × ℕ) → EventConfig → Bool
is_due now times config =
    is_periodic config.notification_type
    && (ltb 0 config.cycle_time
        && leb config.cycle_time (now - time_of (find config.event_id times)))

abbrev timed :
    ℕ → ℕ → Option (Bool × EventPublisher × List Sent) → Option (EventPublisher × List Sent)
timed now event_id none = none
timed now event_id (some (done, p, sents)) =
    some (record p { last_publish_times = insert event_id now p.last_publish_times }, sents)

-- An event that is due is published, with no data, by a call from the thread that holds the mutex.
unfoldable pub publish_due : ℕ → EventConfig → EventPublisher → Option (EventPublisher × List Sent)
publish_due now config p =
    if is_due now p.last_publish_times config
    then timed now config.event_id (publish_event true now config.event_id [] p)
    else some (p, [])

abbrev and_before :
    List Sent → Option (EventPublisher × List Sent) → Option (EventPublisher × List Sent)
and_before sents none = none
and_before sents (some (p, more)) = some (p, sents ++ more)

-- The loop over the events, with their mutex held.
unfoldable pub publish_each :
    ℕ → List (ℕ × EventConfig) → EventPublisher → Option (EventPublisher × List Sent)
publish_each now [] p = some (p, [])
publish_each now ((event_id, config) ∷ rest) p = elim (publish_due now config p) [
  | none ↦ none
  | some (p', sents) ↦ and_before sents (publish_each now rest p')
]

unfoldable pub publish_cyclic_events :
    Bool → ℕ → EventPublisher → Option (EventPublisher × List Sent)
publish_cyclic_events held now p = locking held (publish_each now p.registered_events p)

-- A round of the timer's thread, behind its sleep.
unfoldable pub timer_tick : ℕ → EventPublisher → Option (EventPublisher × List Sent)
timer_tick now p = if not p.running then some (p, []) else publish_cyclic_events false now p

abbrev same_text : Text → Text → Bool
same_text [] [] = true
same_text [] (y ∷ ys) = false
same_text (x ∷ xs) [] = false
same_text (x ∷ xs) (y ∷ ys) = x == y && same_text xs ys

abbrev is_endpoint : Endpoint → Endpoint → Bool
is_endpoint a b = same_text a.address b.address && a.port == b.port

unfoldable without_endpoint : Endpoint → List ClientInfo → List ClientInfo
without_endpoint endpoint [] = []
without_endpoint endpoint (client ∷ rest) =
    let others = without_endpoint endpoint rest in
    if is_endpoint client.endpoint endpoint then others else client ∷ others

unfoldable drop_endpoint : Endpoint → List (ℕ × List ClientInfo) → List (ℕ × List ClientInfo)
drop_endpoint endpoint [] = []
drop_endpoint endpoint ((eventgroup_id, clients) ∷ rest) =
    (eventgroup_id, without_endpoint endpoint clients) ∷ drop_endpoint endpoint rest

unfoldable pub on_connection_lost : Endpoint → EventPublisher → EventPublisher
unfolding drop_endpoint without_endpoint
on_connection_lost endpoint p = record p { subscriptions = drop_endpoint endpoint p.subscriptions }
