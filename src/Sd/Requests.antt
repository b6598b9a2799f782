-- ===== src/Sd/Requests.antt =====
-- What `SdServerImpl` of src/sd/sd_server.cpp does with a message, and at a tick of its timer. An entry
-- is taken for what its constructor says, as `SdMessage::deserialize` makes it.
use opensomeip.Base.{
  ℕ, ◌-◌, ◌*◌, min, Bool, true, false, ◌&&◌, ◌||◌, not, ◌==◌, ◌!=◌, ltb, leb, if◌then◌else◌, List,
  [], ◌∷◌, ◌++◌, get_elem?, Option, none, some,
}
use opensomeip.Message.{Message}
use opensomeip.Sd.{swap16}
use opensomeip.Sd.Entries.{
  SdEntry, ServiceEntry, EventGroupEntry, service, event_group, find_service, subscribe_eventgroup,
  subscribe_eventgroup_ack,
}
use opensomeip.Sd.Options.{
  SdOption, Ipv4MulticastOption, ipv4_endpoint, ipv4_multicast, configuration, new_multicast_option,
  ipv4_endpoint_type,
}
use opensomeip.Sd.Messages.{SdMessage, new_message, deserialize}
use opensomeip.Sd.Service.{
  Text, Endpoint, Inet, SdConfig, split_colon, stoi, decimal, sd_notification, Sent,
}
use opensomeip.Sd.Server.{
  SdServer, OfferedService, send_service_offer, send_service_offer_to_client,
}

abbrev pub answer_entry : ℕ → ℕ → ℕ → Bool → EventGroupEntry
answer_entry service_id instance_id eventgroup_id acknowledge = record {
  head = record {
    type = subscribe_eventgroup_ack;
    index1 = 0;
    index2 = 0;
    ttl = if acknowledge then 3600 else 0;
  };
  service_id = service_id;
  instance_id = instance_id;
  eventgroup_id = eventgroup_id;
  major_version = 1;
}

abbrev pub multicast_option : Inet → SdConfig → Ipv4MulticastOption
multicast_option inet config = record new_multicast_option {
  ipv4_address = inet.inet_addr config.multicast_address;
  port = swap16 config.multicast_port;
}

-- Where an answer goes; `none` is the exception of `std::stoi`.
unfoldable pub client_endpoint : SdConfig → Text → Option Endpoint
client_endpoint config client_address = elim (split_colon client_address) [
  | none ↦ some (record { address = client_address; port = config.unicast_port })
  | some (ip, port) ↦ elim (stoi port) [
    | none ↦ none
    | some p ↦ some (record { address = ip; port = p })
  ]
]

abbrev pub answer_of : Inet → SdConfig → ℕ → ℕ → ℕ → Bool → SdMessage
answer_of inet config service_id instance_id eventgroup_id acknowledge = record new_message {
  entries = event_group (answer_entry service_id instance_id eventgroup_id acknowledge) ∷ [];
  options = ipv4_multicast (multicast_option inet config) ∷ [];
}

-- What is sent; the value returned is whether the transport has taken it.
unfoldable pub handle_eventgroup_subscription :
    Inet → ℕ → SdConfig → ℕ → ℕ → ℕ → Text → Bool → Option Sent
handle_eventgroup_subscription inet now config service_id instance_id eventgroup_id client_address
      acknowledge =
    elim (client_endpoint config client_address) [
      | none ↦ none
      | some receiver ↦ some (record {
        message =
            sd_notification now
              (answer_of inet config service_id instance_id eventgroup_id acknowledge);
        receiver = receiver;
      })
    ]

-- The endpoint option that an entry refers to, as "ip:port".
abbrev from_option : Inet → Endpoint → Option SdOption → Text
from_option inet sender none = sender.address ++ 58 ∷ decimal sender.port
from_option inet sender (some (ipv4_endpoint o)) =
    if o.head.type == ipv4_endpoint_type
    then inet.inet_ntop o.ipv4_address ++ 58 ∷ decimal o.port
    else sender.address ++ 58 ∷ decimal sender.port
from_option inet sender (some (ipv4_multicast o)) = sender.address ++ 58 ∷ decimal sender.port
from_option inet sender (some (configuration o)) = sender.address ++ 58 ∷ decimal sender.port

unfoldable pub handle_eventgroup_subscription_request :
    Inet → ℕ → EventGroupEntry → SdMessage → Endpoint → SdConfig → Option Sent
handle_eventgroup_subscription_request inet now e m sender config =
    handle_eventgroup_subscription inet now config e.service_id e.instance_id e.eventgroup_id
      (from_option inet sender (get_elem? m.options e.head.index1)) true

-- The first offered service that a search asks for.
unfoldable pub find_requested : ServiceEntry → List OfferedService → Option OfferedService
find_requested e [] = none
find_requested e (svc ∷ rest) =
    let found = find_requested e rest in
    if svc.service_instance.service_id == e.service_id
      && (e.instance_id == 0xffff || svc.service_instance.instance_id == e.instance_id)
    then some svc
    else found

abbrev pub one : Option Sent → Option (List Sent)
one none = none
one (some sent) = some (sent ∷ [])

unfoldable pub handle_find_service :
    Inet → ℕ → ServiceEntry → Endpoint → SdServer → Option (List Sent)
handle_find_service inet now e sender s = elim (find_requested e s.offered_services) [
  | none ↦ some []
  | some svc ↦ one (send_service_offer_to_client inet now sender svc)
]

unfoldable pub handle_entry :
    Inet → ℕ → SdEntry → SdMessage → Endpoint → SdServer → Option (List Sent)
handle_entry inet now (service e) m sender s =
    if e.head.type == find_service then handle_find_service inet now e sender s else some []
handle_entry inet now (event_group e) m sender s =
    if e.head.type == subscribe_eventgroup
    then one (handle_eventgroup_subscription_request inet now e m sender s.config)
    else some []

abbrev pub both : Option (List Sent) → Option (List Sent) → Option (List Sent)
both none ys = none
both (some xs) none = none
both (some xs) (some ys) = some (xs ++ ys)

unfoldable pub process_sd_entries :
    Inet → ℕ → List SdEntry → SdMessage → Endpoint → SdServer → Option (List Sent)
process_sd_entries inet now [] m sender s = some []
process_sd_entries inet now (e ∷ es) m sender s =
    both (handle_entry inet now e m sender s) (process_sd_entries inet now es m sender s)

abbrev pub handled : Inet → ℕ → Endpoint → SdServer → Option (Bool × SdMessage) → Option (List Sent)
handled inet now sender s none = none
handled inet now sender s (some (false, m)) = some []
handled inet now sender s (some (true, m)) = process_sd_entries inet now m.entries m sender s

-- The server stays as it is.
unfoldable pub on_message_received : Inet → ℕ → Message → Endpoint → SdServer → Option (List Sent)
on_message_received inet now message sender s =
    if message.message_id.service_id != 0xffff
    then some []
    else handled inet now sender s (deserialize message.payload new_message)

abbrev pub joined :
    OfferedService
    → Option Sent
    → Option (List OfferedService × List Sent)
    → Option (List OfferedService × List Sent)
joined svc none rest = none
joined svc (some sent) none = none
joined svc (some sent) (some (others, messages)) = some (svc ∷ others, sent ∷ messages)

abbrev pub kept :
    OfferedService
    → Option (List OfferedService × List Sent)
    → Option (List OfferedService × List Sent)
kept svc none = none
kept svc (some (others, messages)) = some (svc ∷ others, messages)

unfoldable pub send_periodic_offers :
    Inet → ℕ → SdConfig → List OfferedService → Option (List OfferedService × List Sent)
send_periodic_offers inet now config [] = some ([], [])
send_periodic_offers inet now config (svc ∷ rest) =
    let others = send_periodic_offers inet now config rest in
    if leb config.cyclic_offer (now - svc.last_offer_time)
    then joined (record svc { last_offer_time = now }) (send_service_offer inet now config svc)
        others
    else kept svc others

unfoldable pub next_delay : SdConfig → ℕ → ℕ
next_delay config delay =
    if ltb delay config.repetition_max
    then min (delay * config.repetition_multiplier) config.repetition_max
    else delay

-- A round of the timer's loop, behind its sleep; `none` is an exception, which ends the program.
unfoldable pub offer_tick : Inet → ℕ → SdServer → Option (SdServer × List Sent)
offer_tick inet now s =
    if not s.running
    then some (s, [])
    else elim (send_periodic_offers inet now s.config s.offered_services) [
      | none ↦ none
      | some (offered, messages) ↦ some (
        record s {
          offered_services = offered;
          next_offer_delay = next_delay s.config s.next_offer_delay;
        },
        messages,
      )
    ]
