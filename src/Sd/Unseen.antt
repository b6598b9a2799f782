-- ===== src/Sd/Unseen.antt =====
-- What a server sends, as a client takes it.
use opensomeip.Base.{
  ℕ, ◌-◌, ◌≡◌, inl, inr, refl, Bool, Bool-cases, true, leb, ◌==◌, List, [], ◌∷◌, All, All-append,
  Option, Option-cases, none, some, some_inj,
}
use mathlib.Core.Path.{subst}
use opensomeip.Base.Map.{none-ne-some}
use opensomeip.Message.{new_message, set_payload, update_length}
use opensomeip.Sd.Entries.{SdEntry, service, event_group, find_service, subscribe_eventgroup}
use opensomeip.Sd.Messages.{SdMessage, deserialize, set_unicast, add_entry}
use opensomeip.Sd.Messages as Messages
use opensomeip.Sd.Service.{Inet, Text, Endpoint, SdConfig, Sent, sd_notification, endpoint_option}
use opensomeip.Sd.Server.{
  SdServer, OfferedService, offer_entry, stop_entry, offer_of, multicast, send_service_offer,
  send_service_offer_to_client, send_service_stop_offer, send_stop_offer_messages,
}
use opensomeip.Sd.Requests.{
  handle_eventgroup_subscription, handle_eventgroup_subscription_request, handle_find_service,
  handle_entry, process_sd_entries, send_periodic_offers, client_endpoint, answer_of, answer_entry,
  multicast_option, find_requested, one, both, joined, kept,
}
use opensomeip.Sd.Client.{SdClient}
use opensomeip.Sd.Arrivals as Arrivals
use opensomeip.Sd.Discovery.{IsRefused, offer-IsRefused, bare-IsRefused, answer-IsRefused}

-- Every client stays as it is, and calls no callback.
abbrev pub IsUnseen : Sent → Type 0
IsUnseen sent =
    (inet : Inet) (c : SdClient) → Arrivals.on_message_received inet sent.message c ≡ some (c, [])

pub refused-IsUnseen :
    (now : ℕ) (m : SdMessage) (receiver : Endpoint)
    → IsRefused m
    → IsUnseen (record { message = sd_notification now m; receiver = receiver })
unfolding Arrivals.on_message_received new_message set_payload update_length
refused-IsUnseen now m receiver (m', e) inet c = rw e refl

-- The same of a list of messages that may not have come about.
abbrev pub AreUnseen : Option (List Sent) → Type 0
AreUnseen o = (sents : List Sent) → o ≡ some sents → All IsUnseen sents

pub none-IsUnseen : AreUnseen (some [])
none-IsUnseen sents e = subst (All IsUnseen) (some_inj e) tt

one-IsUnseen :
    (o : Option Sent) → ((sent : Sent) → o ≡ some sent → IsUnseen sent) → AreUnseen (one o)
one-IsUnseen none h sents e = absurd (none-ne-some e)
one-IsUnseen (some sent) h sents e = subst (All IsUnseen) (some_inj e) (h sent refl, tt)

both-IsUnseen : (o p : Option (List Sent)) → AreUnseen o → AreUnseen p → AreUnseen (both o p)
both-IsUnseen none p h k sents e = absurd (none-ne-some e)
both-IsUnseen (some xs) none h k sents e = absurd (none-ne-some e)
both-IsUnseen (some xs) (some ys) h k sents e =
    subst (All IsUnseen) (some_inj e) (All-append IsUnseen xs ys (h xs refl) (k ys refl))

-- The messages of a round of offers.
abbrev pub messages_of : Option (List OfferedService × List Sent) → Option (List Sent)
messages_of none = none
messages_of (some (offered, sents)) = some sents

kept-IsUnseen :
    (svc : OfferedService) (o : Option (List OfferedService × List Sent))
    → AreUnseen (messages_of o)
    → AreUnseen (messages_of (kept svc o))
kept-IsUnseen svc none h = h
kept-IsUnseen svc (some (offered, sents)) h = h

joined-IsUnseen :
    (svc : OfferedService) (o : Option Sent) (p : Option (List OfferedService × List Sent))
    → ((sent : Sent) → o ≡ some sent → IsUnseen sent)
    → AreUnseen (messages_of p)
    → AreUnseen (messages_of (joined svc o p))
joined-IsUnseen svc none p h k sents e = absurd (none-ne-some e)
joined-IsUnseen svc (some sent) none h k sents e = absurd (none-ne-some e)
joined-IsUnseen svc (some sent) (some (offered, more)) h k sents e =
    subst (All IsUnseen) (some_inj e) (h sent refl, k more refl)

module _ (inet : Inet) (now : ℕ) where
  pub offered-IsUnseen :
      (config : SdConfig) (svc : OfferedService) (sent : Sent)
      → send_service_offer inet now config svc ≡ some sent
      → IsUnseen sent
  unfolding send_service_offer
  offered-IsUnseen config svc sent e =
      elim (Option-cases (endpoint_option inet svc.unicast_endpoint)) [
        | inl failed ↦ absurd (none-ne-some (rw failed at e))
        | inr (o, held) ↦ subst IsUnseen (some_inj (rw held at e)) (
            refused-IsUnseen now (offer_of svc.service_instance o Messages.new_message)
              (multicast config)
              (offer-IsRefused 0 (offer_entry svc.service_instance) o (inr refl)))
      ]

  found-IsUnseen :
      (client : Endpoint) (svc : OfferedService) (sent : Sent)
      → send_service_offer_to_client inet now client svc ≡ some sent
      → IsUnseen sent
  unfolding send_service_offer_to_client set_unicast
  found-IsUnseen client svc sent e =
      elim (Option-cases (endpoint_option inet svc.unicast_endpoint)) [
        | inl failed ↦ absurd (none-ne-some (rw failed at e))
        | inr (o, held) ↦ subst IsUnseen (some_inj (rw held at e)) (
            refused-IsUnseen now
              (offer_of svc.service_instance o (set_unicast true Messages.new_message)) client
              (offer-IsRefused 0x40 (offer_entry svc.service_instance) o (inr refl)))
      ]

  pub stopped-IsUnseen :
      (config : SdConfig) (svc : OfferedService) → IsUnseen (send_service_stop_offer now config svc)
  unfolding send_service_stop_offer add_entry
  stopped-IsUnseen config svc =
      refused-IsUnseen now
        (add_entry (service (stop_entry svc.service_instance)) Messages.new_message)
        (multicast config) (bare-IsRefused 0 (stop_entry svc.service_instance) (inr refl))

  pub messages-IsUnseen :
      (config : SdConfig) (offered : List OfferedService)
      → All IsUnseen (send_stop_offer_messages now config offered)
  unfolding send_stop_offer_messages
  messages-IsUnseen config [] = tt
  messages-IsUnseen config (svc ∷ rest) =
      (stopped-IsUnseen config svc, messages-IsUnseen config rest)

  pub answered-IsUnseen :
      (config : SdConfig) (service_id instance_id eventgroup_id : ℕ) (client_address : Text)
      (acknowledge : Bool) (sent : Sent)
      → handle_eventgroup_subscription inet now config service_id instance_id eventgroup_id
          client_address acknowledge
        ≡ some sent
      → IsUnseen sent
  unfolding handle_eventgroup_subscription
  answered-IsUnseen config service_id instance_id eventgroup_id client_address acknowledge sent e =
      elim (Option-cases (client_endpoint config client_address)) [
        | inl failed ↦ absurd (none-ne-some (rw (handle_eventgroup_subscription, failed) at e))
        | inr (receiver, held) ↦
            subst IsUnseen (some_inj (rw (handle_eventgroup_subscription, held) at e)) (
              refused-IsUnseen now
                (answer_of inet config service_id instance_id eventgroup_id acknowledge) receiver
                (answer-IsRefused 0 (answer_entry service_id instance_id eventgroup_id acknowledge)
                  (multicast_option inet config) (inr refl) refl))
      ]

  entry-IsUnseen :
      (x : SdEntry) (m : SdMessage) (sender : Endpoint) (s : SdServer)
      → AreUnseen (handle_entry inet now x m sender s)
  unfolding handle_entry handle_find_service handle_eventgroup_subscription_request
  entry-IsUnseen (service e) m sender s = elim (Bool-cases (e.head.type == find_service)) [
    | inr other ↦ rw other none-IsUnseen
    | inl search ↦ elim (Option-cases (find_requested e s.offered_services)) [
      | inl absent ↦ rw (search, handle_find_service, absent) none-IsUnseen
      | inr (svc, held) ↦
          rw (search, handle_find_service, held)
            (one-IsUnseen (send_service_offer_to_client inet now sender svc)
              (found-IsUnseen sender svc))
    ]
  ]
  entry-IsUnseen (event_group e) m sender s =
      elim (Bool-cases (e.head.type == subscribe_eventgroup)) [
        | inr other ↦ rw other none-IsUnseen
        | inl asks ↦ rw asks (
            one-IsUnseen (handle_eventgroup_subscription_request inet now e m sender s.config)
              (answered-IsUnseen s.config e.service_id e.instance_id e.eventgroup_id _ true))
      ]

  pub requested-IsUnseen :
      (es : List SdEntry) (m : SdMessage) (sender : Endpoint) (s : SdServer)
      → AreUnseen (process_sd_entries inet now es m sender s)
  unfolding process_sd_entries
  requested-IsUnseen [] m sender s = none-IsUnseen
  requested-IsUnseen (x ∷ es) m sender s =
      both-IsUnseen (handle_entry inet now x m sender s) (process_sd_entries inet now es m sender s)
        (entry-IsUnseen x m sender s) (requested-IsUnseen es m sender s)

  pub periodic-IsUnseen :
      (config : SdConfig) (offered : List OfferedService)
      → AreUnseen (messages_of (send_periodic_offers inet now config offered))
  unfolding send_periodic_offers
  periodic-IsUnseen config [] = none-IsUnseen
  periodic-IsUnseen config (svc ∷ rest) =
      elim (Bool-cases (leb config.cyclic_offer (now - svc.last_offer_time))) [
        | inl due ↦ rw due (
            joined-IsUnseen (record svc { last_offer_time = now })
              (send_service_offer inet now config svc) (send_periodic_offers inet now config rest)
              (offered-IsUnseen config svc) (periodic-IsUnseen config rest))
        | inr early ↦ rw early (
            kept-IsUnseen svc (send_periodic_offers inet now config rest)
              (periodic-IsUnseen config rest))
      ]
