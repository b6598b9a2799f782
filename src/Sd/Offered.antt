-- ===== src/Sd/Offered.antt =====
-- The services that a server offers, whatever calls are made.
use opensomeip.Base.{
  ℕ, ◌≤◌, ◌≡◌, ◌⊎◌, inl, inr, refl, sym, ap, arith, Bool, Bool-cases, List, [], ◌∷◌, ◌++◌, length,
  length-append, Option-cases, none, some, some_inj,
}
use mathlib.Core.Path.{subst}
use opensomeip.Base.Map.{none-ne-some}
use opensomeip.Sd.Service.{Inet, Text, ServiceInstance, SdConfig, Sent}
use opensomeip.Sd.Server.{
  SdServer, OfferedService, new_server, initialize, shutdown, offer_service, stop_offer_service,
  update_service_ttl, find_offered, evict, erase_offered, with_ttl, send_service_offer,
}
use opensomeip.Sd.OfferedList.{
  Distinct, find_offered-listed, Distinct-append, evict-kept, Distinct-erase_offered,
  length-erase_offered, with_ttl-AreSame, send_periodic_offers-AreKept,
}
use opensomeip.Sd.Requests.{offer_tick, send_periodic_offers, next_delay}

-- One call of a server that may change it.
pub data Step (s : SdServer) : SdServer → Type 0 where
  initializes : (starts : Bool) → Step s (initialize starts s).1
  shuts : (now : ℕ) → Step s (shutdown now s).0
  offers :
      (inet : Inet) (now : ℕ) (i : ServiceInstance) (unicast_endpoint multicast_endpoint : Text)
      → Step s (offer_service inet now i unicast_endpoint multicast_endpoint s).1
  stops :
      (now service_id instance_id : ℕ) → Step s (stop_offer_service now service_id instance_id s).1
  updates :
      (service_id instance_id ttl : ℕ) → Step s (update_service_ttl service_id instance_id ttl s).1
  ticks :
      {s' : SdServer} (inet : Inet) (now : ℕ) (sents : List Sent)
      → offer_tick inet now s ≡ some (s', sents)
      → Step s s'

pub data Reach (s : SdServer) : SdServer → Type 0 where
  here : Reach s s
  next : {s' s'' : SdServer} → Reach s s' → Step s' s'' → Reach s s''

pub record IsWellFormed (config : SdConfig) (s : SdServer) : Type 0 where
  pub same_config : s.config ≡ config
  pub distinct : Distinct s.offered_services
  pub few : length s.offered_services ≤ config.max_services
  pub paced :
      (s.next_offer_delay ≤ config.initial_delay) ⊎ (s.next_offer_delay ≤ config.repetition_max)

offer_service-IsWellFormed :
    (config : SdConfig) (s : SdServer) (inet : Inet) (now : ℕ) (i : ServiceInstance)
    (unicast_endpoint multicast_endpoint : Text)
    → 1 ≤ config.max_services
    → IsWellFormed config s
    → IsWellFormed config (offer_service inet now i unicast_endpoint multicast_endpoint s).1
unfolding offer_service
offer_service-IsWellFormed config s inet now i unicast_endpoint multicast_endpoint some_room w =
    elim (Option-cases (find_offered i.service_id i.instance_id s.offered_services)) [
      | inr (svc, held) ↦ rw (offer_service, held) w
      | inl free ↦ elim (Option-cases (send_service_offer inet now s.config offered)) [
        | inl failed ↦ rw (offer_service, free, failed) (added free)
        | inr (sent, ok) ↦ rw (offer_service, free, ok) (added free)
      ]
    ]
  where
    offered : OfferedService
    offered = record {
      service_instance = i;
      unicast_endpoint = unicast_endpoint;
      multicast_endpoint = multicast_endpoint;
      last_offer_time = now;
    }

    rest : List OfferedService
    rest = evict s.config.max_services s.offered_services

    added :
        find_offered i.service_id i.instance_id s.offered_services ≡ none
        → IsWellFormed config (record s { offered_services = rest ++ offered ∷ [] })
    added free =
        let (d, l, fewer) = evict-kept s.config.max_services s.offered_services w.distinct in
        let max_same : s.config.max_services ≡ config.max_services =
          ap SdConfig.max_services w.same_config in
        record {
          same_config = w.same_config;
          distinct = Distinct-append rest offered d (
              l i.service_id i.instance_id
                (find_offered-listed i.service_id i.instance_id s.offered_services free));
          few =
              let smaller =
                fewer (omega (arith, max_same, some_room)) (omega (arith, max_same, w.few)) in
              omega (arith, length-append rest (offered ∷ []), smaller, max_same);
          paced = w.paced;
        }

with_offered :
    (config : SdConfig) (s : SdServer) (xs : List OfferedService)
    → IsWellFormed config s
    → Distinct xs
    → length xs ≤ length s.offered_services
    → IsWellFormed config (record s { offered_services = xs })
with_offered config s xs w d h = record {
  same_config = w.same_config;
  distinct = d;
  few = omega (arith, w.few, h);
  paced = w.paced;
}

stop_offer_service-IsWellFormed :
    (config : SdConfig) (s : SdServer) (now service_id instance_id : ℕ)
    → IsWellFormed config s
    → IsWellFormed config (stop_offer_service now service_id instance_id s).1
unfolding stop_offer_service
stop_offer_service-IsWellFormed config s now service_id instance_id w =
    elim (Option-cases (find_offered service_id instance_id s.offered_services)) [
      | inl absent ↦ rw (stop_offer_service, absent) w
      | inr (svc, held) ↦
          rw (stop_offer_service, held)
            (with_offered config s (erase_offered service_id instance_id s.offered_services) w
              (Distinct-erase_offered service_id instance_id s.offered_services w.distinct)
              (length-erase_offered service_id instance_id s.offered_services))
    ]

update_service_ttl-IsWellFormed :
    (config : SdConfig) (s : SdServer) (service_id instance_id ttl : ℕ)
    → IsWellFormed config s
    → IsWellFormed config (update_service_ttl service_id instance_id ttl s).1
unfolding update_service_ttl
update_service_ttl-IsWellFormed config s service_id instance_id ttl w =
    elim (Option-cases (find_offered service_id instance_id s.offered_services)) [
      | inl absent ↦ rw (update_service_ttl, absent) w
      | inr (svc, held) ↦
          let same = with_ttl-AreSame service_id instance_id ttl s.offered_services in
          rw (update_service_ttl, held)
            (with_offered config s (with_ttl service_id instance_id ttl s.offered_services) w
              (same.same_distinct w.distinct) (omega (arith, same.same_length)))
    ]

next_delay-paced :
    (config : SdConfig) (initial delay : ℕ)
    → (delay ≤ initial) ⊎ (delay ≤ config.repetition_max)
    → (next_delay config delay ≤ initial) ⊎ (next_delay config delay ≤ config.repetition_max)
unfolding next_delay
next_delay-paced config initial delay h = ground arith

-- The parts of a server that an operation leaves are all that counts.
again :
    (config : SdConfig) (s : SdServer)
    → IsWellFormed config s
    → {running : Bool} → IsWellFormed config (record s { running = running })
again config s w = record {
  same_config = w.same_config;
  distinct = w.distinct;
  few = w.few;
  paced = w.paced;
}

abbrev server_of : SdServer × List Sent → SdServer
server_of (s, sents) = s

initialize-IsWellFormed :
    (config : SdConfig) (s : SdServer) (starts : Bool)
    → IsWellFormed config s
    → IsWellFormed config (initialize starts s).1
unfolding initialize
initialize-IsWellFormed config s starts w = elim (Bool-cases s.running) [
  | inl on ↦ rw on (again config s w)
  | inr off ↦ elim (Bool-cases starts) [
    | inl ok ↦ rw (off, ok) (again config s w)
    | inr failed ↦ rw (off, failed) (again config s w)
  ]
]

shutdown-IsWellFormed :
    (config : SdConfig) (s : SdServer) (now : ℕ)
    → IsWellFormed config s
    → IsWellFormed config (shutdown now s).0
unfolding shutdown
shutdown-IsWellFormed config s now w = elim (Bool-cases s.running) [
  | inr off ↦ rw off (again config s w)
  | inl on ↦
      rw on
        (record { same_config = w.same_config; distinct = tt; few = omega arith; paced = w.paced })
]

offer_tick-IsWellFormed :
    (config : SdConfig) (s s' : SdServer) (inet : Inet) (now : ℕ) (sents : List Sent)
    → IsWellFormed config s
    → offer_tick inet now s ≡ some (s', sents)
    → IsWellFormed config s'
unfolding offer_tick
offer_tick-IsWellFormed config s s' inet now sents w e = elim (Bool-cases s.running) [
  | inr off ↦ subst (IsWellFormed config) (ap server_of (some_inj (rw off at e))) (again config s w)
  | inl on ↦ elim (Option-cases (send_periodic_offers inet now s.config s.offered_services)) [
    | inl failed ↦ absurd (none-ne-some (rw (on, offer_tick, failed) at e))
    | inr ((xs, messages), held) ↦
        let same =
          send_periodic_offers-AreKept inet now s.config s.offered_services xs messages held in
        subst (IsWellFormed config) (ap server_of (some_inj (rw (on, offer_tick, held) at e)))
          (record {
            same_config = w.same_config;
            distinct = same.same_distinct w.distinct;
            few = omega (arith, same.same_length, w.few);
            paced =
                subst
                  (λ c.
                    (next_delay c s.next_offer_delay ≤ config.initial_delay)
                    ⊎ (next_delay c s.next_offer_delay ≤ config.repetition_max))
                  (sym w.same_config)
                  (next_delay-paced config config.initial_delay s.next_offer_delay w.paced);
          })
  ]
]

Step-IsWellFormed :
    (config : SdConfig) (s s' : SdServer)
    → 1 ≤ config.max_services
    → IsWellFormed config s
    → Step s s'
    → IsWellFormed config s'
Step-IsWellFormed config s s' room w (initializes starts) =
    initialize-IsWellFormed config s starts w
Step-IsWellFormed config s s' room w (shuts now) = shutdown-IsWellFormed config s now w
Step-IsWellFormed config s s' room w (offers inet now i unicast_endpoint multicast_endpoint) =
    offer_service-IsWellFormed config s inet now i unicast_endpoint multicast_endpoint room w
Step-IsWellFormed config s s' room w (stops now service_id instance_id) =
    stop_offer_service-IsWellFormed config s now service_id instance_id w
Step-IsWellFormed config s s' room w (updates service_id instance_id ttl) =
    update_service_ttl-IsWellFormed config s service_id instance_id ttl w
Step-IsWellFormed config s s' room w (ticks inet now sents e) =
    offer_tick-IsWellFormed config s s' inet now sents w e

-- Whatever calls are made of a new server with room for a service or more, it offers no two services
-- with the same ids and at most as many as its configuration allows, and the delay between its
-- rounds of offers is never above the larger of the first delay and the maximum.
pub Reach-new_server-IsWellFormed :
    (config : SdConfig) (s : SdServer)
    → 1 ≤ config.max_services
    → Reach (new_server config) s
    → IsWellFormed config s
Reach-new_server-IsWellFormed config s room here = record {
  same_config = refl;
  distinct = tt;
  few = omega arith;
  paced = inl (omega arith);
}
Reach-new_server-IsWellFormed config s room (next {s' = s'} r step) =
    Step-IsWellFormed config s' s room (Reach-new_server-IsWellFormed config s' room r) step
