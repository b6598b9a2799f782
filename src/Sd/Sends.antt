-- ===== src/Sd/Sends.antt =====
-- All that a server sends, and what a server answers to a client's messages.
use opensomeip.Base.{
  ℕ, ◌≡◌, inl, inr, refl, ap, Bool, Bool-cases, true, false, ◌!=◌, List, [], ◌∷◌, All, Option,
  Option-cases, none, some, some_inj,
}
use mathlib.Core.Path.{subst}
use opensomeip.Base.Map.{none-ne-some}
use opensomeip.Message.{Message, new_message, set_payload, update_length}
use opensomeip.Sd.Messages.{SdMessage, deserialize}
use opensomeip.Sd.Messages as Messages
use opensomeip.Sd.Service.{Inet, Text, Endpoint, ServiceInstance, Sent, sd_notification}
use opensomeip.Sd.Server.{
  SdServer, OfferedService, send_service_offer, shutdown, offer_service, stop_offer_service,
  find_offered,
}
use opensomeip.Sd.Requests.{
  handle_eventgroup_subscription, on_message_received, offer_tick, send_periodic_offers, handled,
}
use opensomeip.Sd.Client.{
  SdClient, find_request, subscription_request, find_entry, subscribe_entry, own_endpoint,
}
use opensomeip.Sd.Discovery.{IsRefused, bare-IsRefused, subscription-IsRefused}
use opensomeip.Sd.Unseen.{
  IsUnseen, AreUnseen, messages_of, none-IsUnseen, offered-IsUnseen, stopped-IsUnseen,
  messages-IsUnseen, answered-IsUnseen, requested-IsUnseen, periodic-IsUnseen,
}

-- One call of a server, and the messages that it gives to the transport.
pub data Sends (inet : Inet) (s : SdServer) : List Sent → Type 0 where
  offers :
      (now : ℕ) (i : ServiceInstance) (unicast_endpoint multicast_endpoint : Text)
      → Sends inet s (offer_service inet now i unicast_endpoint multicast_endpoint s).2
  stops :
      (now service_id instance_id : ℕ)
      → Sends inet s (stop_offer_service now service_id instance_id s).2
  shuts : (now : ℕ) → Sends inet s (shutdown now s).1
  ticks :
      {s' : SdServer} {sents : List Sent} (now : ℕ)
      → offer_tick inet now s ≡ some (s', sents)
      → Sends inet s sents
  acknowledges :
      {sent : Sent} (now service_id instance_id eventgroup_id : ℕ) (client_address : Text)
      (acknowledge : Bool)
      → handle_eventgroup_subscription inet now s.config service_id instance_id eventgroup_id
          client_address acknowledge
        ≡ some sent
      → Sends inet s (sent ∷ [])
  answers :
      {sents : List Sent} (now : ℕ) (message : Message) (sender : Endpoint)
      → on_message_received inet now message sender s ≡ some sents
      → Sends inet s sents

offer_service-AreUnseen :
    (inet : Inet) (s : SdServer) (now : ℕ) (i : ServiceInstance)
    (unicast_endpoint multicast_endpoint : Text)
    → All IsUnseen (offer_service inet now i unicast_endpoint multicast_endpoint s).2
unfolding offer_service
offer_service-AreUnseen inet s now i unicast_endpoint multicast_endpoint =
    elim (Option-cases (find_offered i.service_id i.instance_id s.offered_services)) [
      | inr (svc, held) ↦ rw (offer_service, held) tt
      | inl free ↦ elim (Option-cases (send_service_offer inet now s.config offered)) [
        | inl failed ↦ rw (offer_service, free, failed) tt
        | inr (sent, ok) ↦
            rw (offer_service, free, ok) (offered-IsUnseen inet now s.config offered sent ok, tt)
      ]
    ]
  where
    offered : OfferedService
    offered = record {
      service_instance = i;
      unicast_endpoint = unicast_endpoint;
      multicast_endpoint = multicast_endpoint;
      last_offer_time = now;
    }

stop_offer_service-AreUnseen :
    (inet : Inet) (s : SdServer) (now service_id instance_id : ℕ)
    → All IsUnseen (stop_offer_service now service_id instance_id s).2
unfolding stop_offer_service
stop_offer_service-AreUnseen inet s now service_id instance_id =
    elim (Option-cases (find_offered service_id instance_id s.offered_services)) [
      | inl absent ↦ rw (stop_offer_service, absent) tt
      | inr (svc, held) ↦ rw (stop_offer_service, held) (stopped-IsUnseen inet now s.config svc, tt)
    ]

shutdown-AreUnseen : (inet : Inet) (s : SdServer) (now : ℕ) → All IsUnseen (shutdown now s).1
unfolding shutdown
shutdown-AreUnseen inet s now = elim (Bool-cases s.running) [
  | inr off ↦ rw off tt
  | inl on ↦ rw on (messages-IsUnseen inet now s.config s.offered_services)
]

abbrev second : SdServer × List Sent → List Sent
second (s, sents) = sents

offer_tick-AreUnseen :
    (inet : Inet) (s s' : SdServer) (now : ℕ) (sents : List Sent)
    → offer_tick inet now s ≡ some (s', sents)
    → All IsUnseen sents
unfolding offer_tick
offer_tick-AreUnseen inet s s' now sents e = elim (Bool-cases s.running) [
  | inr off ↦ subst (All IsUnseen) (ap second (some_inj (rw off at e))) tt
  | inl on ↦ elim (Option-cases (send_periodic_offers inet now s.config s.offered_services)) [
    | inl failed ↦ absurd (none-ne-some (rw (on, offer_tick, failed) at e))
    | inr ((offered, messages), held) ↦
        subst (All IsUnseen) (ap second (some_inj (rw (on, offer_tick, held) at e)))
          (periodic-IsUnseen inet now s.config s.offered_services messages (ap messages_of held))
  ]
]

on_message_received-AreUnseen :
    (inet : Inet) (s : SdServer) (now : ℕ) (message : Message) (sender : Endpoint)
    → AreUnseen (on_message_received inet now message sender s)
unfolding on_message_received
on_message_received-AreUnseen inet s now message sender =
    elim (Bool-cases (message.message_id.service_id != 0xffff)) [
      | inl other ↦ rw other none-IsUnseen
      | inr ours ↦ rw ours (handled-IsUnseen (deserialize message.payload Messages.new_message))
    ]
  where
    handled-IsUnseen : (o : Option (Bool × SdMessage)) → AreUnseen (handled inet now sender s o)
    handled-IsUnseen none sents e = absurd (none-ne-some e)
    handled-IsUnseen (some (false, m)) sents e = none-IsUnseen sents e
    handled-IsUnseen (some (true, m)) sents e =
        requested-IsUnseen inet now m.entries m sender s sents e

-- Whatever a server does, every message that it sends, be it an offer, the end of one, the answer to a
-- search or to a subscription, leaves every client as it is, with no callback called.
pub Sends-IsUnseen :
    (inet : Inet) (s : SdServer) (sents : List Sent) → Sends inet s sents → All IsUnseen sents
Sends-IsUnseen inet s sents (offers now i unicast_endpoint multicast_endpoint) =
    offer_service-AreUnseen inet s now i unicast_endpoint multicast_endpoint
Sends-IsUnseen inet s sents (stops now service_id instance_id) =
    stop_offer_service-AreUnseen inet s now service_id instance_id
Sends-IsUnseen inet s sents (shuts now) = shutdown-AreUnseen inet s now
Sends-IsUnseen inet s sents (ticks {s'} now e) = offer_tick-AreUnseen inet s s' now sents e
Sends-IsUnseen inet s sents
      (acknowledges {sent} now service_id instance_id eventgroup_id client_address acknowledge e) =
    (
      answered-IsUnseen inet now s.config service_id instance_id eventgroup_id client_address
          acknowledge sent e,
      tt,
    )
Sends-IsUnseen inet s sents (answers now message sender e) =
    on_message_received-AreUnseen inet s now message sender sents e

unanswered :
    (inet : Inet) (now later : ℕ) (m : SdMessage) (sender : Endpoint) (s : SdServer)
    → IsRefused m
    → on_message_received inet later (sd_notification now m) sender s ≡ some []
unfolding on_message_received new_message set_payload update_length
unanswered inet now later m sender s (m', e) = rw e refl

-- No server answers a search of a client, or its subscription to an event group.
pub on_message_received_unanswered :
    (inet : Inet) (now later service_id instance_id eventgroup_id local_port : ℕ) (c : SdClient)
    (sender : Endpoint) (s : SdServer)
    → (on_message_received inet later (find_request now c service_id).message sender s ≡ some [])
      × (on_message_received inet later
            (subscription_request inet local_port now service_id instance_id eventgroup_id
              c).message
            sender
            s
          ≡ some [])
on_message_received_unanswered inet now later service_id instance_id eventgroup_id local_port c
      sender s =
    (
      unanswered inet now later _ sender s (bare-IsRefused 0 (find_entry service_id) (inl refl)),
      unanswered inet now later _ sender s (
          subscription-IsRefused 0 (subscribe_entry service_id instance_id eventgroup_id 3600)
            (own_endpoint inet c.config local_port) (inl refl)),
    )
