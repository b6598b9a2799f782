-- ===== src/Sd/Client.antt =====
-- `SdClientImpl` of src/sd/sd_client.cpp, up to the messages that come in, which Sd.Arrivals has. A
-- callback is a number, the identity of the function object, or `none` where it is empty. Whether the
-- transport takes a message is an argument. Nothing reads the start time of a pending search. The methods
-- run one after another, as the mutexes have it.
use opensomeip.Base.{
  ℕ, ◌+◌, ◌%◌, ◌^◌, Bool, true, false, ◌||◌, not, ◌==◌, if◌then◌else◌, List, [], ◌∷◌, Option, none,
  some,
}
use opensomeip.Base.Map.{find, insert, erase}
use opensomeip.Sd.Entries.{
  ServiceEntry, EventGroupEntry, service, event_group, find_service as find_type,
  subscribe_eventgroup as subscribe_type,
}
use opensomeip.Sd.Options.{Ipv4EndpointOption, ipv4_endpoint, new_endpoint_option}
use opensomeip.Sd.Messages.{new_message}
use opensomeip.Sd.Service.{
  Endpoint, Inet, ServiceInstance, SdConfig, address_from_string, sd_notification, Sent,
}

pub record ServiceSubscription : Type 0 where
  pub available_callback : Option ℕ
  pub unavailable_callback : Option ℕ

pub record PendingFind : Type 0 where
  pub service_id : ℕ
  pub callback : Option ℕ
  pub timeout : ℕ

pub record SdClient : Type 0 where
  pub config : SdConfig
  pub running : Bool
  pub service_subscriptions : List (ℕ × ServiceSubscription)
  pub available_services : List ServiceInstance
  pub pending_finds : List (ℕ × PendingFind)
  pub next_request_id : ℕ

abbrev pub new_client : SdConfig → SdClient
new_client config = record {
  config = config;
  running = false;
  service_subscriptions = [];
  available_services = [];
  pending_finds = [];
  next_request_id = 1;
}

unfoldable pub initialize : Bool → Bool → SdClient → Bool × SdClient
initialize starts joins c =
    if c.running
    then (true, c)
    else if not starts
    then (false, c)
    else if not joins
    then (false, c)
    else (true, record c { running = true })

unfoldable pub shutdown : SdClient → SdClient
shutdown c = if not c.running then c else record c { running = false; service_subscriptions = [] }

abbrev multicast : SdConfig → Endpoint
multicast config = record { address = config.multicast_address; port = config.multicast_port }

abbrev pub find_entry : ℕ → ServiceEntry
find_entry service_id = record {
  head = record { type = find_type; index1 = 0; index2 = 0; ttl = 3 };
  service_id = service_id;
  instance_id = 0xffff;
  major_version = 0xff;
  minor_version = 0;
}

abbrev pub find_request : ℕ → SdClient → ℕ → Sent
find_request now c service_id = record {
  message =
      sd_notification now (record new_message { entries = service (find_entry service_id) ∷ [] });
  receiver = multicast c.config;
}

unfoldable pub find_service :
    (Sent → Bool) → ℕ → ℕ → Option ℕ → ℕ → SdClient → Bool × SdClient × List Sent
find_service sends now service_id callback timeout c =
    let request = find_request now c service_id in
    if not c.running
    then (false, c, [])
    else if not (sends request)
    then (false, c, request ∷ [])
    else (
      true,
      record c {
        next_request_id = (c.next_request_id + 1) % 2 ^ 32;
        pending_finds =
            insert c.next_request_id
              (record {
                service_id = service_id;
                callback = callback;
                timeout = if timeout == 0 then 5000 else timeout;
              })
              c.pending_finds;
      },
      request ∷ [],
    )

unfoldable pub subscribe_service : ℕ → Option ℕ → Option ℕ → SdClient → Bool × SdClient
subscribe_service service_id available unavailable c =
    elim (find service_id c.service_subscriptions) [
      | some subscription ↦ (false, c)
      | none ↦ (
        true,
        record c {
          service_subscriptions =
              insert service_id
                (record { available_callback = available; unavailable_callback = unavailable })
                c.service_subscriptions;
        },
      )
    ]

unfoldable pub unsubscribe_service : ℕ → SdClient → Bool × SdClient
unsubscribe_service service_id c = elim (find service_id c.service_subscriptions) [
  | none ↦ (false, c)
  | some subscription ↦
      (true, record c { service_subscriptions = erase service_id c.service_subscriptions })
]

abbrev pub subscribe_entry : ℕ → ℕ → ℕ → ℕ → EventGroupEntry
subscribe_entry service_id instance_id eventgroup_id ttl = record {
  head = record { type = subscribe_type; index1 = 0; index2 = 0; ttl = ttl };
  service_id = service_id;
  instance_id = instance_id;
  eventgroup_id = eventgroup_id;
  major_version = 1;
}

-- With the port that the transport is bound to.
abbrev pub own_endpoint : Inet → SdConfig → ℕ → Ipv4EndpointOption
own_endpoint inet config local_port = record new_endpoint_option {
  ipv4_address = address_from_string inet config.unicast_address;
  port = local_port;
  protocol = 0x11;
}

abbrev pub subscription_request : Inet → ℕ → ℕ → ℕ → ℕ → ℕ → SdClient → Sent
subscription_request inet local_port now service_id instance_id eventgroup_id c = record {
  message = sd_notification now (record new_message {
    entries = event_group (subscribe_entry service_id instance_id eventgroup_id 3600) ∷ [];
    options = ipv4_endpoint (own_endpoint inet c.config local_port) ∷ [];
  });
  receiver = multicast c.config;
}

unfoldable pub subscribe_eventgroup :
    Inet → ℕ → (Sent → Bool) → ℕ → ℕ → ℕ → ℕ → SdClient → Bool × List Sent
subscribe_eventgroup inet local_port sends now service_id instance_id eventgroup_id c =
    let request = subscription_request inet local_port now service_id instance_id eventgroup_id c in
    if not c.running then (false, []) else (sends request, request ∷ [])

abbrev pub unsubscription_request : ℕ → ℕ → ℕ → ℕ → SdClient → Sent
unsubscription_request now service_id instance_id eventgroup_id c = record {
  message = sd_notification now (record new_message {
    entries = event_group (subscribe_entry service_id instance_id eventgroup_id 0) ∷ [];
  });
  receiver = multicast c.config;
}

unfoldable pub unsubscribe_eventgroup : (Sent → Bool) → ℕ → ℕ → ℕ → ℕ → SdClient → Bool × List Sent
unsubscribe_eventgroup sends now service_id instance_id eventgroup_id c =
    let request = unsubscription_request now service_id instance_id eventgroup_id c in
    if not c.running then (false, []) else (sends request, request ∷ [])

abbrev of_service : ℕ → List ServiceInstance → List ServiceInstance
of_service service_id [] = []
of_service service_id (i ∷ rest) =
    let others = of_service service_id rest in
    if service_id == 0 || i.service_id == service_id then i ∷ others else others

unfoldable pub get_available_services : ℕ → SdClient → List ServiceInstance
get_available_services service_id c = of_service service_id c.available_services
