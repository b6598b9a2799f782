-- ===== src/Sd/Discovery.antt =====
-- A server and a client on one network: which of their messages reach the other.
use opensomeip.Base.{
  ℕ, ◌+◌, ◌≤◌, ◌<◌, ◌≡◌, ◌⊎◌, inl, refl, ap, ◌∙◌, arith, false, List, [], ◌∷◌, ◌++◌, length,
  length-append, some,
}
use opensomeip.Base.Bytes.{byte_at, byte_at-shift}
use opensomeip.Sd.Entries.{
  SdEntry, ServiceEntry, EventGroupEntry, service, event_group, serialize_service,
  serialize_event_group, serialize_head, new_service_entry, new_event_group_entry, find_service,
  subscribe_eventgroup,
}
use opensomeip.Sd.Entries as Entries
use opensomeip.Sd.Options.{
  SdOption, Ipv4EndpointOption, Ipv4MulticastOption, ipv4_endpoint, ipv4_multicast,
  serialize_endpoint, serialize_multicast,
}
use opensomeip.Sd.Options as Options
use opensomeip.Sd.Messages.{
  SdMessage, goes_on, parse_item, serialize_entries, serialize_options, serialize, deserialize,
  check_end, set_unicast, add_entry,
}
use opensomeip.Sd.Messages as Messages
use opensomeip.Sd.Frame.{
  front_of, with_front, deserialize-front_of, parse_items-step, parse_items-gives_up,
}
use opensomeip.Sd.Misread.{deserialize_service-parses, deserialize_event_group-parses}
use opensomeip.Sd.Refused.{parse_item-short}
use opensomeip.Sd.Refused as Refused
use opensomeip.Sd.Accepted as Accepted

-- A message that `deserialize` turns down.
abbrev pub IsRefused : SdMessage → Type 0
IsRefused m = (m' : SdMessage) × (deserialize (serialize m) Messages.new_message ≡ some (false, m'))

-- An entry of a service and an option that begins with a 0 byte.
service_first :
    (front back : List ℕ) (e : ServiceEntry) (m : SdMessage)
    → (e.head.type ≡ 0x00) ⊎ (e.head.type ≡ 0x01)
    → 2 ≤ length back
    → (m' : SdMessage) × (parse_item (front ++ (serialize_service e ++ back)) (length front) m
        ≡ goes_on (length front + 14) m')
unfolding parse_item
service_first front back e m k room =
    let (e'', parses) =
      deserialize_service-parses front back e (new_service_entry find_service) room in
    (
      record m { entries = m.entries ++ service e'' ∷ [] },
      rw
          (
            byte_at-shift front (serialize_service e ++ back) (length front) 0 (omega arith),
            Refused.first_byte e back,
            Refused.type_test e.head.type k,
            parses,
          )
          refl,
    )

event_group_first :
    (front back : List ℕ) (e : EventGroupEntry) (m : SdMessage)
    → (e.head.type ≡ 0x06) ⊎ (e.head.type ≡ 0x07)
    → (m' : SdMessage) × (parse_item (front ++ (serialize_event_group e ++ back)) (length front) m
        ≡ goes_on (length front + 16) m')
unfolding parse_item
event_group_first front back e m k =
    let (e'', parses) =
      deserialize_event_group-parses front back e (new_event_group_entry subscribe_eventgroup) in
    (
      record m { entries = m.entries ++ event_group e'' ∷ [] },
      rw
          (
            byte_at-shift front (serialize_event_group e ++ back) (length front) 0 (omega arith),
            Accepted.first_byte e back,
            (Accepted.type_test e.head.type k).0,
            (Accepted.type_test e.head.type k).1,
            parses,
          )
          refl,
    )

-- Behind the first item, up to 15 bytes that begin with a 0.
second_refused :
    (flags : ℕ) (first back : List ℕ) (m' : SdMessage)
    → 1 ≤ length back
    → length back < 16
    → length first ≤ 16
    → 1 ≤ length first
    → byte_at (front_of flags 0 (length (first ++ back)) ++ (first ++ back)) (8 + length first) ≡ 0
    → parse_item
        (front_of flags 0 (length (first ++ back)) ++ (first ++ back))
        8
        (with_front flags 0 Messages.new_message)
      ≡ goes_on (8 + length first) m'
    → deserialize
        (front_of flags 0 (length (first ++ back)) ++ (first ++ back))
        Messages.new_message
      ≡ some (false, m')
second_refused flags first back m' some_bytes few small one byte goes =
    let body = first ++ back in
    let d = front_of flags 0 (length body) ++ body in
    let size : length body ≡ length first + length back = length-append first back in
    deserialize-front_of flags 0 body Messages.new_message (omega arith)
      (omega (arith, size, few, small))
    ∙ ap (check_end (8 + length body)) (
        parse_items-step 99 d (8 + length body) 8 (8 + length first)
          (with_front flags 0 Messages.new_message) m' (omega (arith, size, one))
          (omega (arith, size, one)) goes
        ∙ parse_items-gives_up 98 d (8 + length body) (8 + length first) m' m'
            (omega (arith, size, some_bytes)) (omega (arith, size, some_bytes))
            (parse_item-short d (8 + length first) m' (inl byte) (omega (arith, size, few))))

module _ (flags : ℕ) where
  abbrev with_parts : List SdEntry → List SdOption → SdMessage
  with_parts entries options = record {
    flags = flags;
    reserved = 0;
    entries = entries;
    options = options;
  }

  pub offer-IsRefused :
      (e : ServiceEntry) (o : Ipv4EndpointOption)
      → (e.head.type ≡ 0x00) ⊎ (e.head.type ≡ 0x01)
      → IsRefused (with_parts (service e ∷ []) (ipv4_endpoint o ∷ []))
  unfolding serialize serialize_entries serialize_options Entries.serialize Options.serialize
      serialize_service serialize_head serialize_endpoint Options.serialize_head
  offer-IsRefused e o k =
      let m = with_front flags 0 Messages.new_message in
      let (m', goes) =
        service_first (front_of flags 0 26) (serialize_endpoint o) e m k (omega arith) in
      (
        m',
        second_refused flags (serialize_service e) (serialize_endpoint o) m' (omega arith)
            (omega arith) (omega arith) (omega arith) refl goes,
      )

  pub bare-IsRefused :
      (e : ServiceEntry)
      → (e.head.type ≡ 0x00) ⊎ (e.head.type ≡ 0x01)
      → IsRefused (with_parts (service e ∷ []) [])
  unfolding serialize serialize_entries serialize_options Entries.serialize serialize_service
      serialize_head
  bare-IsRefused e k =
      let m = with_front flags 0 Messages.new_message in
      let d = front_of flags 0 14 ++ serialize_service e in
      (
        m,
        deserialize-front_of flags 0 (serialize_service e) Messages.new_message (omega arith)
              (omega arith)
            ∙ ap (check_end 22) (
                parse_items-gives_up 99 d 22 8 m m (omega arith) (omega arith)
                  (parse_item-short d 8 m k (omega arith))),
      )

  pub subscription-IsRefused :
      (e : EventGroupEntry) (o : Ipv4EndpointOption)
      → (e.head.type ≡ 0x06) ⊎ (e.head.type ≡ 0x07)
      → IsRefused (with_parts (event_group e ∷ []) (ipv4_endpoint o ∷ []))
  unfolding serialize serialize_entries serialize_options Entries.serialize Options.serialize
      serialize_event_group serialize_head serialize_endpoint Options.serialize_head
  subscription-IsRefused e o k =
      let m = with_front flags 0 Messages.new_message in
      let (m', goes) = event_group_first (front_of flags 0 28) (serialize_endpoint o) e m k in
      (
        m',
        second_refused flags (serialize_event_group e) (serialize_endpoint o) m' (omega arith)
            (omega arith) (omega arith) (omega arith) refl goes,
      )

  pub answer-IsRefused :
      (e : EventGroupEntry) (o : Ipv4MulticastOption)
      → (e.head.type ≡ 0x06) ⊎ (e.head.type ≡ 0x07)
      → o.head.length ≡ 0
      → IsRefused (with_parts (event_group e ∷ []) (ipv4_multicast o ∷ []))
  unfolding serialize serialize_entries serialize_options Entries.serialize Options.serialize
      serialize_event_group serialize_head serialize_multicast Options.serialize_head
  answer-IsRefused e o k none_yet =
      let m = with_front flags 0 Messages.new_message in
      let (m', goes) = event_group_first (front_of flags 0 27) (serialize_multicast o) e m k in
      (
        m',
        second_refused flags (serialize_event_group e) (serialize_multicast o) m' (omega arith)
            (omega arith) (omega arith) (omega arith) (omega (arith, none_yet)) goes,
      )
