-- ===== src/Sd/Arrivals.antt =====
-- What `SdClientImpl` of src/sd/sd_client.cpp does with a message that comes in, from
-- `on_message_received` on.
use opensomeip.Base.{
  ℕ, Bool, true, false, ◌&&◌, ◌==◌, ◌!=◌, if◌then◌else◌, List, [], ◌∷◌, ◌++◌, get_elem?, Option,
  none, some,
}
use opensomeip.Base.Map.{find}
use opensomeip.Message.{Message}
use opensomeip.Sd.Entries.{SdEntry, ServiceEntry, service, event_group, offer_service}
use opensomeip.Sd.Options.{
  SdOption, ipv4_endpoint, ipv4_multicast, configuration, ipv4_endpoint_type,
}
use opensomeip.Sd.Messages.{SdMessage, new_message, deserialize}
use opensomeip.Sd.Service.{Inet, ServiceInstance, new_instance, is_instance}
use opensomeip.Sd.Client.{SdClient, PendingFind, ServiceSubscription}

-- A call of a callback with the services it is given.
pub record Notice : Type 0 where
  pub callback : ℕ
  pub services : List ServiceInstance

abbrev pub notice : Option ℕ → ServiceInstance → List Notice
notice none i = []
notice (some callback) i = record { callback = callback; services = i ∷ [] } ∷ []

-- Where an instance is: an endpoint option at `index1`, if that is not 0.
abbrev with_endpoint : Inet → ℕ → Option SdOption → ServiceInstance → ServiceInstance
with_endpoint inet index1 none i = i
with_endpoint inet index1 (some (ipv4_endpoint o)) i =
    if index1 != 0 && o.head.type == ipv4_endpoint_type
    then record i {
      ip_address = inet.inet_ntop o.ipv4_address;
      port = o.port;
      protocol = o.protocol;
    }
    else i
with_endpoint inet index1 (some (ipv4_multicast o)) i = i
with_endpoint inet index1 (some (configuration o)) i = i

abbrev pub offered_instance : Inet → ServiceEntry → SdMessage → ServiceInstance
offered_instance inet e m =
    with_endpoint inet e.head.index1 (get_elem? m.options e.head.index1) (record new_instance {
      service_id = e.service_id;
      instance_id = e.instance_id;
      major_version = e.major_version;
      ttl_seconds = e.head.ttl;
    })

-- In place of the first instance with the ids, or at the end.
unfoldable pub update_available : ServiceInstance → List ServiceInstance → List ServiceInstance
update_available i [] = i ∷ []
update_available i (j ∷ rest) =
    let others = update_available i rest in
    if is_instance i.service_id i.instance_id j then i ∷ rest else j ∷ others

unfoldable pub remove_available : ℕ → ℕ → List ServiceInstance → List ServiceInstance
remove_available service_id instance_id [] = []
remove_available service_id instance_id (j ∷ rest) =
    let others = remove_available service_id instance_id rest in
    if is_instance service_id instance_id j then others else j ∷ others

abbrev available_notice : ServiceInstance → Option ServiceSubscription → List Notice
available_notice i none = []
available_notice i (some subscription) = notice subscription.available_callback i

abbrev unavailable_notice : ServiceInstance → Option ServiceSubscription → List Notice
unavailable_notice i none = []
unavailable_notice i (some subscription) = notice subscription.unavailable_callback i

-- The searches that stay, and the calls of the callbacks of the others.
unfoldable pub answer_finds :
    ServiceInstance → List (ℕ × PendingFind) → List (ℕ × PendingFind) × List Notice
answer_finds i [] = ([], [])
answer_finds i ((id, pending) ∷ rest) =
    let (waiting, notices) = answer_finds i rest in
    if pending.service_id == i.service_id
    then (waiting, notice pending.callback i ++ notices)
    else ((id, pending) ∷ waiting, notices)

unfoldable pub handle_service_offer :
    Inet → ServiceEntry → SdMessage → SdClient → SdClient × List Notice
handle_service_offer inet e m c =
    let i = offered_instance inet e m in
    let (waiting, notices) = answer_finds i c.pending_finds in
    (
      record c {
        available_services = update_available i c.available_services;
        pending_finds = waiting;
      },
      available_notice i (find i.service_id c.service_subscriptions) ++ notices,
    )

unfoldable pub handle_service_stop_offer : ServiceEntry → SdClient → SdClient × List Notice
handle_service_stop_offer e c = (
  record c {
    available_services = remove_available e.service_id e.instance_id c.available_services;
  },
  unavailable_notice
      (record new_instance { service_id = e.service_id; instance_id = e.instance_id })
      (find e.service_id c.service_subscriptions),
)

unfoldable pub handle_entry : Inet → SdEntry → SdMessage → SdClient → SdClient × List Notice
handle_entry inet (event_group e) m c = (c, [])
handle_entry inet (service e) m c =
    if e.head.type == offer_service
    then (if e.head.ttl == 0
        then handle_service_stop_offer e c
        else handle_service_offer inet e m c)
    else (c, [])

unfoldable pub process_sd_entries :
    Inet → List SdEntry → SdMessage → SdClient → SdClient × List Notice
process_sd_entries inet [] m c = (c, [])
process_sd_entries inet (e ∷ es) m c =
    let (c', notices) = handle_entry inet e m c in
    let (c'', more) = process_sd_entries inet es m c' in (c'', notices ++ more)

abbrev handled : Inet → SdClient → Option (Bool × SdMessage) → Option (SdClient × List Notice)
handled inet c none = none
handled inet c (some (false, m)) = some (c, [])
handled inet c (some (true, m)) = some (process_sd_entries inet m.entries m c)

-- The client and the callbacks called; `none` is an undefined read.
unfoldable pub on_message_received : Inet → Message → SdClient → Option (SdClient × List Notice)
on_message_received inet message c =
    if message.message_id.service_id != 0xffff
    then some (c, [])
    else handled inet c (deserialize message.payload new_message)
