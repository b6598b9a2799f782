-- ===== src/Sd/Server.antt =====
-- `SdServerImpl` of src/sd/sd_server.cpp. The messages given to the transport are listed; what comes of
-- them is looked at by `handle_eventgroup_subscription` only. Joining the multicast group changes
-- nothing here. `none` is an exception of `std::stoi`, or an undefined read of a message. The methods
-- run one after another, as the mutex has it; the timer's thread is a sequence of `offer_tick`.
use opensomeip.Base.{
  ℕ, Bool, true, false, not, leb, if◌then◌else◌, List, [], ◌∷◌, ◌++◌, length, Option, none, some,
}
use opensomeip.Sd.Entries.{ServiceEntry, service, offer_service as offer_type}
use opensomeip.Sd.Options.{Ipv4EndpointOption, ipv4_endpoint}
use opensomeip.Sd.Messages.{SdMessage, new_message, add_entry, set_unicast}
use opensomeip.Sd.Service.{
  Text, Endpoint, Inet, ServiceInstance, SdConfig, is_instance, endpoint_option, sd_notification,
  Sent,
}

pub record OfferedService : Type 0 where
  pub service_instance : ServiceInstance
  pub unicast_endpoint : Text
  pub multicast_endpoint : Text
  pub last_offer_time : ℕ

pub record SdServer : Type 0 where
  pub config : SdConfig
  pub running : Bool
  pub offered_services : List OfferedService
  pub next_offer_delay : ℕ

abbrev pub new_server : SdConfig → SdServer
new_server config = record {
  config = config;
  running = false;
  offered_services = [];
  next_offer_delay = config.initial_delay;
}

unfoldable pub initialize : Bool → SdServer → Bool × SdServer
initialize starts s =
    if s.running
    then (true, s)
    else if not starts
    then (false, s)
    else (true, record s { running = true })

abbrev pub offer_entry : ServiceInstance → ServiceEntry
offer_entry i = record {
  head = record { type = offer_type; index1 = 0; index2 = 0; ttl = i.ttl_seconds };
  service_id = i.service_id;
  instance_id = i.instance_id;
  major_version = i.major_version;
  minor_version = 0;
}

abbrev pub stop_entry : ServiceInstance → ServiceEntry
stop_entry i = record (offer_entry i) {
  head = record { type = offer_type; index1 = 0; index2 = 0; ttl = 0 };
}

abbrev pub multicast : SdConfig → Endpoint
multicast config = record { address = config.multicast_address; port = config.multicast_port }

abbrev pub offer_of : ServiceInstance → Ipv4EndpointOption → SdMessage → SdMessage
offer_of i option m = record m {
  entries = service (offer_entry i) ∷ [];
  options = ipv4_endpoint option ∷ [];
}

abbrev sent_to :
    ℕ → Endpoint → ServiceInstance → SdMessage → Option Ipv4EndpointOption → Option Sent
sent_to now receiver i m none = none
sent_to now receiver i m (some option) =
    some (record { message = sd_notification now (offer_of i option m); receiver = receiver })

unfoldable pub send_service_offer : Inet → ℕ → SdConfig → OfferedService → Option Sent
send_service_offer inet now config svc =
    sent_to now (multicast config) svc.service_instance new_message
      (endpoint_option inet svc.unicast_endpoint)

unfoldable pub send_service_offer_to_client : Inet → ℕ → Endpoint → OfferedService → Option Sent
unfolding set_unicast
send_service_offer_to_client inet now client svc =
    sent_to now client svc.service_instance (set_unicast true new_message)
      (endpoint_option inet svc.unicast_endpoint)

unfoldable pub send_service_stop_offer : ℕ → SdConfig → OfferedService → Sent
unfolding add_entry
send_service_stop_offer now config svc = record {
  message = sd_notification now (add_entry (service (stop_entry svc.service_instance)) new_message);
  receiver = multicast config;
}

unfoldable pub send_stop_offer_messages : ℕ → SdConfig → List OfferedService → List Sent
send_stop_offer_messages now config [] = []
send_stop_offer_messages now config (svc ∷ rest) =
    send_service_stop_offer now config svc ∷ send_stop_offer_messages now config rest

unfoldable pub shutdown : ℕ → SdServer → SdServer × List Sent
shutdown now s = if not s.running then (s, []) else (
  record s { running = false; offered_services = [] },
  send_stop_offer_messages now s.config s.offered_services,
)

abbrev pub has_ids : ℕ → ℕ → OfferedService → Bool
has_ids service_id instance_id svc = is_instance service_id instance_id svc.service_instance

-- The `find_if` of each method.
unfoldable pub find_offered : ℕ → ℕ → List OfferedService → Option OfferedService
find_offered service_id instance_id [] = none
find_offered service_id instance_id (svc ∷ rest) =
    let found = find_offered service_id instance_id rest in
    if has_ids service_id instance_id svc then some svc else found

-- `erase(begin())` of a list that is not empty.
abbrev pub without_first : List OfferedService → List OfferedService
without_first [] = []
without_first (svc ∷ rest) = rest

unfoldable pub evict : ℕ → List OfferedService → List OfferedService
evict max_services offered =
    if leb max_services (length offered) then without_first offered else offered

-- The value returned, `none` for the exception of a port that is no number, the server, which keeps
-- the new service all the same, and what is sent.
unfoldable pub offer_service :
    Inet → ℕ → ServiceInstance → Text → Text → SdServer → Option Bool × SdServer × List Sent
offer_service inet now i unicast_endpoint multicast_endpoint s =
    let offered : OfferedService = record {
      service_instance = i;
      unicast_endpoint = unicast_endpoint;
      multicast_endpoint = multicast_endpoint;
      last_offer_time = now;
    } in
    let s' = record s {
      offered_services = evict s.config.max_services s.offered_services ++ offered ∷ [];
    } in
    elim (find_offered i.service_id i.instance_id s.offered_services) [
      | some svc ↦ (some false, s, [])
      | none ↦ elim (send_service_offer inet now s.config offered) [
        | none ↦ (none, s', [])
        | some sent ↦ (some true, s', sent ∷ [])
      ]
    ]

-- `erase` of what the `find_if` has found.
unfoldable pub erase_offered : ℕ → ℕ → List OfferedService → List OfferedService
erase_offered service_id instance_id [] = []
erase_offered service_id instance_id (svc ∷ rest) =
    let others = erase_offered service_id instance_id rest in
    if has_ids service_id instance_id svc then rest else svc ∷ others

unfoldable pub stop_offer_service : ℕ → ℕ → ℕ → SdServer → Bool × SdServer × List Sent
stop_offer_service now service_id instance_id s =
    elim (find_offered service_id instance_id s.offered_services) [
      | none ↦ (false, s, [])
      | some svc ↦ (
        true,
        record s { offered_services = erase_offered service_id instance_id s.offered_services },
        send_service_stop_offer now s.config svc ∷ [],
      )
    ]

unfoldable pub with_ttl : ℕ → ℕ → ℕ → List OfferedService → List OfferedService
with_ttl service_id instance_id ttl [] = []
with_ttl service_id instance_id ttl (svc ∷ rest) =
    let others = with_ttl service_id instance_id ttl rest in
    if has_ids service_id instance_id svc
    then record svc { service_instance = record svc.service_instance { ttl_seconds = ttl } } ∷ rest
    else svc ∷ others

unfoldable pub update_service_ttl : ℕ → ℕ → ℕ → SdServer → Bool × SdServer
update_service_ttl service_id instance_id ttl s =
    elim (find_offered service_id instance_id s.offered_services) [
      | none ↦ (false, s)
      | some svc ↦ (
        true,
        record s { offered_services = with_ttl service_id instance_id ttl s.offered_services },
      )
    ]
