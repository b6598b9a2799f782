-- ===== src/Sd/Accepted.antt =====
-- A message of event group entries only, which `SdMessage::deserialize` accepts.
use opensomeip.Base.{
  ℕ, zero, suc, ◌+◌, ◌*◌, ◌%◌, ◌^◌, ◌≤◌, ◌<◌, ◌≡◌, ◌⊎◌, refl, sym, ap, ◌∙◌, arith, true, false,
  ◌==◌, ◌||◌, ==_refl, bit_and, List, [], ◌∷◌, ◌++◌, length, length-append, append_assoc,
  append_nil, All, map, some,
}
use mathlib.Core.Path.{ap₂}
use opensomeip.Base.Bytes.{byte_at, byte_at-shift}
use opensomeip.Sd.Entries.{
  SdEntry, EventGroupEntry, event_group, serialize_event_group, serialize_head,
  new_event_group_entry, subscribe_eventgroup,
}
use opensomeip.Sd.Entries as Entries
use opensomeip.Sd.Messages.{
  SdMessage, goes_on, parse_item, parse_items, serialize_entries, serialize_options, serialize,
  deserialize, check_end,
}
use opensomeip.Sd.Frame.{
  front_of, with_front, deserialize-front_of, parse_items-end, parse_items-step,
}
use opensomeip.Sd.Misread.{
  IsEventGroupEntry, misread_event_group, deserialize_event_group-serialize_event_group,
}

-- What a subscription or its answer is sent as.
pub record IsSubscription (e : EventGroupEntry) : Type 0 where
  pub fits : IsEventGroupEntry e
  pub kind : (e.head.type ≡ 0x06) ⊎ (e.head.type ≡ 0x07)

length-serialize_event_group : (e : EventGroupEntry) → length (serialize_event_group e) ≡ 16
unfolding serialize_event_group serialize_head
length-serialize_event_group e = refl

pub first_byte :
    (e : EventGroupEntry) (back : List ℕ)
    → byte_at (serialize_event_group e ++ back) 0 ≡ e.head.type
unfolding serialize_event_group serialize_head
first_byte e back = refl

abbrev sent : List EventGroupEntry → List ℕ
sent es = serialize_entries (map event_group es)

abbrev pub misread : EventGroupEntry → SdEntry
misread e = event_group (misread_event_group e)

pub type_test :
    (t : ℕ)
    → (t ≡ 0x06) ⊎ (t ≡ 0x07)
    → ((t == 0x00 || t == 0x01) ≡ false) × ((t == 0x06 || t == 0x07) ≡ true)
type_test t k = ground arith

parse_item-event_group :
    (front back : List ℕ) (e : EventGroupEntry) (m : SdMessage)
    → IsSubscription e
    → parse_item (front ++ (serialize_event_group e ++ back)) (length front) m
      ≡ goes_on (length front + 16) (record m { entries = m.entries ++ misread e ∷ [] })
unfolding parse_item
parse_item-event_group front back e m k =
    rw
      (
        byte_at-shift front (serialize_event_group e ++ back) (length front) 0 (omega arith),
        first_byte e back,
        (type_test e.head.type k.kind).0,
        (type_test e.head.type k.kind).1,
        deserialize_event_group-serialize_event_group front back e
            (new_event_group_entry subscribe_eventgroup) k.fits,
      )
      refl

length-sent : (es : List EventGroupEntry) → length (sent es) ≡ 16 * length es
unfolding serialize_entries Entries.serialize
length-sent [] = refl
length-sent (e ∷ es) = omega (
  arith,
  length-append (serialize_event_group e) (sent es),
  length-serialize_event_group e,
  length-sent es,
)

parse_items-sent :
    (es : List EventGroupEntry) (rounds : ℕ) (front : List ℕ) (m : SdMessage)
    → All IsSubscription es
    → length es ≤ rounds
    → parse_items rounds (front ++ sent es) (length front + 16 * length es) (length front) m
      ≡ goes_on (length front + 16 * length es) (record m { entries = m.entries ++ map misread es })
unfolding serialize_entries Entries.serialize
parse_items-sent [] rounds front m ks enough =
    parse_items-end rounds (front ++ []) (length front + 0) (length front) m (omega arith)
    ∙ ap₂ goes_on (omega arith) (ap (λ es. record m { entries = es }) (sym (append_nil m.entries)))
parse_items-sent (e ∷ es) zero front m ks enough = absurd (omega (arith, enough))
parse_items-sent (e ∷ es) (suc rounds) front m (k, ks) enough =
    let d = front ++ (serialize_event_group e ++ sent es) in
    let front' = front ++ serialize_event_group e in
    let m' = record m { entries = m.entries ++ misread e ∷ [] } in
    let longer : length front' ≡ length front + 16 =
      omega
        (arith, length-append front (serialize_event_group e), length-serialize_event_group e) in
    let total : length front + 16 * length (e ∷ es) ≡ length front' + 16 * length es =
      omega (arith, longer) in
    let here : length front < length d = omega (
      arith,
      length-append front (serialize_event_group e ++ sent es),
      length-append (serialize_event_group e) (sent es),
      length-serialize_event_group e,
    ) in
    parse_items-step rounds d (length front + 16 * length (e ∷ es)) (length front)
      (length front + 16) m m' (omega arith) here (parse_item-event_group front (sent es) e m k)
    ∙ rw (total, sym longer, sym (append_assoc front (serialize_event_group e) (sent es)))
        (parse_items-sent es rounds front' m' ks (omega (arith, enough))
          ∙ ap (λ x. goes_on (length front' + 16 * length es) (record m { entries = x }))
              (append_assoc m.entries (misread e ∷ []) (map misread es)))

-- The options' part is empty.
abbrev pub subscription_message : ℕ → ℕ → List EventGroupEntry → SdMessage
subscription_message flags reserved es = record {
  flags = flags;
  reserved = reserved;
  entries = map event_group es;
  options = [];
}

-- What the receiver makes of it.
abbrev pub received : ℕ → ℕ → List EventGroupEntry → SdMessage → SdMessage
received flags reserved es m = record m {
  flags = bit_and flags 0xc0;
  reserved = reserved;
  entries = m.entries ++ map misread es;
}

-- A message of at most a hundred subscriptions or answers and no options is accepted, all bytes
-- used, with the two flags and the reserved number as sent and each entry misread.
pub deserialize-subscription_message :
    (flags reserved : ℕ) (es : List EventGroupEntry) (m : SdMessage)
    → reserved < 2 ^ 24
    → All IsSubscription es
    → length es ≤ 100
    → deserialize (serialize (subscription_message flags reserved es)) m
      ≡ some (true, received flags reserved es m)
unfolding serialize serialize_options
deserialize-subscription_message flags reserved es m small ks few =
    let body = sent es ++ [] in
    let same : body ≡ sent es = append_nil (sent es) in
    let size : length body ≡ 16 * length es = ap length same ∙ length-sent es in
    let whole : length body % 2 ^ 32 ≡ length body = omega (arith, size, few) in
    let front = front_of flags reserved (length body) in
    let m' = with_front flags reserved m in
    let end = 8 + 16 * length es in
    rw (whole) (
      deserialize-front_of flags reserved body m small (omega (arith, size, few))
      ∙ ap₂ (λ b n. check_end n (parse_items 100 (front ++ b) n 8 m')) same (omega (arith, size))
      ∙ ap (check_end end) (parse_items-sent es 100 front m' ks few)
      ∙ ap (λ b. some (b, received flags reserved es m)) (==_refl end))
