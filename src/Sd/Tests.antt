-- ===== src/Sd/Tests.antt =====
-- Runs of src/sd/sd_message.cpp on small messages.
use opensomeip.Base.{◌≡◌, ◌↔◌, inl, inr, refl, arith, true, [], ◌∷◌, ◌++◌, All, some}
use opensomeip.Sd.{parsed}
use opensomeip.Sd.Entries.{
  serialize_service, deserialize_service, new_service_entry, ServiceEntry, EventGroupEntry,
}
use opensomeip.Sd.Messages.{new_message, serialize, deserialize}
use opensomeip.Sd.Misread.{misread_service, deserialize_service-serialize_service_iff}
use opensomeip.Sd.Accepted.{
  IsSubscription, subscription_message, received, deserialize-subscription_message,
}
use opensomeip.Sd.Refused.{IsOffer}
use opensomeip.Sd.Service.{
  stoi, decimal, Inet, Text, Endpoint, ServiceInstance, new_instance, SdConfig,
}
use opensomeip.Sd.Server.{SdServer, new_server, offer_service}
use opensomeip.Sd.Requests.{on_message_received}
use opensomeip.Sd.Client.{SdClient, new_client, find_request, subscription_request}
use opensomeip.Sd.Unseen.{IsUnseen}
use opensomeip.Sd.Sends.{offers, Sends-IsUnseen, on_message_received_unanswered}
use opensomeip.Sd.Offered.{Reach, here, next, IsWellFormed, Reach-new_server-IsWellFormed}
use opensomeip.Sd.Offered as Offered

abbrev subscription : EventGroupEntry
subscription = record {
  head = record { type = 0x06; index1 = 0; index2 = 0; ttl = 3600 };
  service_id = 0x1234;
  instance_id = 0x5678;
  eventgroup_id = 1;
  major_version = 1;
}

abbrev offer : ServiceEntry
offer = record {
  head = record { type = 0x01; index1 = 0; index2 = 0; ttl = 30 };
  service_id = 0x1234;
  instance_id = 1;
  major_version = 1;
  minor_version = 0;
}

subscription-IsSubscription : IsSubscription subscription
subscription-IsSubscription = record {
  fits = (
    (omega arith, omega arith, omega arith, omega arith),
    omega arith,
    omega arith,
    omega arith,
    omega arith,
  );
  kind = inl refl;
}

offer-IsOffer : IsOffer offer
offer-IsOffer = record {
  fits = (
    (omega arith, omega arith, omega arith, omega arith),
    omega arith,
    omega arith,
    omega arith,
    omega arith,
  );
  kind = inr refl;
}

misread_offer :
    misread_service offer
    ≡ record offer { service_id = 0x3400; instance_id = 0x101; major_version = 0 }
unfolding misread_service
misread_offer = refl

deserialize-subscription_message_example :
    deserialize (serialize (subscription_message 0xc0 0 (subscription ∷ []))) new_message
    ≡ some (true, received 0xc0 0 (subscription ∷ []) new_message)
deserialize-subscription_message_example =
    deserialize-subscription_message 0xc0 0 (subscription ∷ []) new_message (omega arith)
      (subscription-IsSubscription, tt) (omega arith)

deserialize_service-serialize_service_iff_example :
    (deserialize_service (serialize_service offer ++ (0 ∷ 8 ∷ [])) 0 (new_service_entry 0)
      ≡ parsed offer 14)
    ↔ ((offer.service_id ≡ 0)
        × (offer.instance_id ≡ 0)
        × (offer.major_version ≡ 0)
        × (offer.minor_version ≡ 0))
deserialize_service-serialize_service_iff_example =
    deserialize_service-serialize_service_iff [] (0 ∷ 8 ∷ []) offer (new_service_entry 0)
      offer-IsOffer.fits refl (omega arith)

-- An `Inet` that knows one address.
abbrev one_address : Inet
one_address = record {
  inet_pton = λ text. some 0x0100007f;
  inet_addr = λ text. 0x0100007f;
  inet_ntop = λ address. 49 ∷ [];
}

abbrev sd_config : SdConfig
sd_config = record {
  multicast_address = 50 ∷ [];
  multicast_port = 30490;
  unicast_address = 49 ∷ [];
  unicast_port = 0;
  initial_delay = 100;
  repetition_max = 3600000;
  repetition_multiplier = 2;
  cyclic_offer = 30000;
  max_services = 100;
}

abbrev sd_server : SdServer
sd_server = record (new_server sd_config) { running = true }

abbrev radio : ServiceInstance
radio = record new_instance { service_id = 0x1234; instance_id = 1; ttl_seconds = 30 }

-- "1:80"
abbrev radio_endpoint : Text
radio_endpoint = 49 ∷ 58 ∷ 56 ∷ 48 ∷ []

Sends-IsUnseen_example :
    All IsUnseen (offer_service one_address 5 radio radio_endpoint [] sd_server).2
Sends-IsUnseen_example =
    Sends-IsUnseen one_address sd_server
      (offer_service one_address 5 radio radio_endpoint [] sd_server).2
      (offers 5 radio radio_endpoint [])

Reach-new_server-IsWellFormed_example :
    IsWellFormed sd_config
      (offer_service one_address 5 radio radio_endpoint [] (new_server sd_config)).1
Reach-new_server-IsWellFormed_example =
    Reach-new_server-IsWellFormed sd_config
      (offer_service one_address 5 radio radio_endpoint [] (new_server sd_config)).1 (omega arith)
      (next here (Offered.offers one_address 5 radio radio_endpoint []))

abbrev sd_client : SdClient
sd_client = record (new_client sd_config) { running = true }

abbrev sd_sender : Endpoint
sd_sender = record { address = 49 ∷ []; port = 40000 }

on_message_received_unanswered_example :
    (on_message_received one_address 6 (find_request 5 sd_client 0x1234).message sd_sender sd_server
      ≡ some [])
    × (on_message_received one_address 6
          (subscription_request one_address 40000 5 0x1234 1 7 sd_client).message
          sd_sender
          sd_server
        ≡ some [])
on_message_received_unanswered_example =
    on_message_received_unanswered one_address 5 6 0x1234 1 7 40000 sd_client sd_sender sd_server

stoi_80 : stoi (56 ∷ 48 ∷ []) ≡ some 80
unfolding stoi
stoi_80 = refl

stoi_minus_one : stoi (32 ∷ 45 ∷ 49 ∷ []) ≡ some 65535
unfolding stoi
stoi_minus_one = refl

decimal_30490 : decimal 30490 ≡ 51 ∷ 48 ∷ 52 ∷ 57 ∷ 48 ∷ []
unfolding decimal
decimal_30490 = refl
