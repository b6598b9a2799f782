-- ===== src/Sd/Misread.antt =====
-- What an entry is read back as: `serialize` puts the ids one byte further to the front than
-- `deserialize` looks for them.
use opensomeip.Base.{
  ℕ, ◌+◌, ◌*◌, ◌/◌, ◌%◌, ◌^◌, ◌≤◌, ◌<◌, ◌≡◌, ◌↔◌, refl, sym, ap, ◌∙◌, arith, false, ltb, ge→ltb,
  List, ◌++◌, length, length-append,
}
use opensomeip.Base.Bytes.{byte_at, read16, read32, byte_at-shift, read16-shift, read32-shift}
use opensomeip.Sd.{parsed}
use opensomeip.Sd.Entries.{
  EntryHead, ServiceEntry, EventGroupEntry, deserialize_service, deserialize_event_group,
  deserialize_head, serialize_service, serialize_event_group, serialize_head,
}

abbrev IsHead : EntryHead → Type 0
IsHead h = (h.type < 256) × (h.index1 < 256) × (h.index2 < 256) × (h.ttl < 2 ^ 32)

-- The ranges of the C++ types.
abbrev pub IsServiceEntry : ServiceEntry → Type 0
IsServiceEntry e =
    IsHead e.head
    × (e.service_id < 2 ^ 16)
    × (e.instance_id < 2 ^ 16)
    × (e.major_version < 256)
    × (e.minor_version < 256)

abbrev pub IsEventGroupEntry : EventGroupEntry → Type 0
IsEventGroupEntry e =
    IsHead e.head
    × (e.service_id < 2 ^ 16)
    × (e.instance_id < 2 ^ 16)
    × (e.eventgroup_id < 2 ^ 16)
    × (e.major_version < 256)

-- The ids that are read: the low byte of each with the high byte of what follows.
unfoldable pub misread_service : ServiceEntry → ServiceEntry
misread_service e = record e {
  service_id = e.service_id % 256 * 256 + e.instance_id / 256;
  instance_id = e.instance_id % 256 * 256 + e.major_version;
  major_version = 0;
  minor_version = 0;
}

unfoldable pub misread_event_group : EventGroupEntry → EventGroupEntry
misread_event_group e = record e {
  service_id = e.service_id % 256 * 256 + e.instance_id / 256;
  instance_id = e.instance_id % 256 * 256 + e.major_version;
  major_version = 0;
}

abbrev read_head : List ℕ → ℕ → EntryHead → EntryHead
read_head d offset h = record h {
  type = byte_at d offset;
  index1 = byte_at d (offset + 1);
  index2 = byte_at d (offset + 2);
  ttl = read32 d (offset + 5 + 5);
}

abbrev read_service : List ℕ → ℕ → ServiceEntry → ServiceEntry
read_service d offset e = record e {
  head = read_head d offset e.head;
  service_id = read16 d (offset + 5);
  instance_id = read16 d (offset + 5 + 2);
  major_version = byte_at d (offset + 5 + 4);
}

abbrev read_event_group : List ℕ → ℕ → EventGroupEntry → EventGroupEntry
read_event_group d offset e = record e {
  head = read_head d offset e.head;
  service_id = read16 d (offset + 5);
  instance_id = read16 d (offset + 5 + 2);
  major_version = byte_at d (offset + 5 + 4);
  eventgroup_id = read16 d (offset + 5 + 9);
}

module _ (front back : List ℕ) where
  at_0 : length front ≡ length front + 0
  at_0 = omega arith

  at_7 : length front + 5 + 2 ≡ length front + 7
  at_7 = omega arith

  at_9 : length front + 5 + 4 ≡ length front + 9
  at_9 = omega arith

  at_10 : length front + 5 + 5 ≡ length front + 10
  at_10 = omega arith

  at_14 : length front + 5 + 9 ≡ length front + 14
  at_14 = omega arith

  at_16 : length front + 5 + 11 ≡ length front + 16
  at_16 = omega arith

  inside :
      (b : List ℕ) (n : ℕ) → n ≤ length b → ltb (length (front ++ b)) (length front + n) ≡ false
  inside b n h = ge→ltb _ _ (omega (arith, length-append front b))

  within :
      (b : List ℕ) (n : ℕ)
      → 5 + n ≤ length b
      → ltb (length (front ++ b)) (length front + 5 + n) ≡ false
  within b n h = ge→ltb _ _ (omega (arith, length-append front b))

  pub deserialize_service-serialize_service :
      (e e' : ServiceEntry)
      → IsServiceEntry e
      → e'.minor_version ≡ 0
      → 2 ≤ length back
      → deserialize_service (front ++ (serialize_service e ++ back)) (length front) e'
        ≡ parsed (misread_service e) (length front + 14)
  unfolding deserialize_service deserialize_head serialize_service serialize_head misread_service
  deserialize_service-serialize_service e e' fits minor room =
      let b = serialize_service e ++ back in
      rw
        (
          inside b 16 (omega (arith, room, length-append (serialize_service e) back)),
          within b 9 (omega (arith, room, length-append (serialize_service e) back)),
          byte_at-shift front b (length front) 0 at_0,
          byte_at-shift front b (length front + 1) 1 refl,
          byte_at-shift front b (length front + 2) 2 refl,
          read16-shift front b (length front + 5) 5 refl,
          read16-shift front b (length front + 5 + 2) 7 at_7,
          byte_at-shift front b (length front + 5 + 4) 9 at_9,
          read32-shift front b (length front + 5 + 5) 10 at_10,
        )
        (ground (arith, at_14))

  pub deserialize_event_group-serialize_event_group :
      (e e' : EventGroupEntry)
      → IsEventGroupEntry e
      → deserialize_event_group (front ++ (serialize_event_group e ++ back)) (length front) e'
        ≡ parsed (misread_event_group e) (length front + 16)
  unfolding deserialize_event_group deserialize_head serialize_event_group serialize_head
      misread_event_group
  deserialize_event_group-serialize_event_group e e' fits =
      let b = serialize_event_group e ++ back in
      rw
        (
          inside b 16 (omega (arith, length-append (serialize_event_group e) back)),
          within b 11 (omega (arith, length-append (serialize_event_group e) back)),
          byte_at-shift front b (length front) 0 at_0,
          byte_at-shift front b (length front + 1) 1 refl,
          byte_at-shift front b (length front + 2) 2 refl,
          read16-shift front b (length front + 5) 5 refl,
          read16-shift front b (length front + 5 + 2) 7 at_7,
          byte_at-shift front b (length front + 5 + 4) 9 at_9,
          read32-shift front b (length front + 5 + 5) 10 at_10,
          read16-shift front b (length front + 5 + 9) 14 at_14,
        )
        (ground (arith, at_16))

  -- Whatever the fields, there are bytes enough.
  pub deserialize_service-parses :
      (e e' : ServiceEntry)
      → 2 ≤ length back
      → (e'' : ServiceEntry) × (deserialize_service
            (front ++ (serialize_service e ++ back))
            (length front)
            e'
          ≡ parsed e'' (length front + 14))
  unfolding deserialize_service deserialize_head serialize_service serialize_head
  deserialize_service-parses e e' room =
      let b = serialize_service e ++ back in
      (
        read_service (front ++ b) (length front) e',
        rw
            (
              inside b 16 (omega (arith, room, length-append (serialize_service e) back)),
              within b 9 (omega (arith, room, length-append (serialize_service e) back)),
            )
            (ap (parsed (read_service (front ++ b) (length front) e')) at_14),
      )

  pub deserialize_event_group-parses :
      (e e' : EventGroupEntry)
      → (e'' : EventGroupEntry) × (deserialize_event_group
            (front ++ (serialize_event_group e ++ back))
            (length front)
            e'
          ≡ parsed e'' (length front + 16))
  unfolding deserialize_event_group deserialize_head serialize_event_group serialize_head
  deserialize_event_group-parses e e' =
      let b = serialize_event_group e ++ back in
      (
        read_event_group (front ++ b) (length front) e',
        rw
            (
              inside b 16 (omega (arith, length-append (serialize_event_group e) back)),
              within b 11 (omega (arith, length-append (serialize_event_group e) back)),
            )
            (ap (parsed (read_event_group (front ++ b) (length front) e')) at_16),
      )

-- A service entry comes back unchanged only if all its ids and its versions are 0.
misread_service-eq-self_iff :
    (e : ServiceEntry)
    → IsServiceEntry e
    → (misread_service e ≡ e)
      ↔ ((e.service_id ≡ 0) × (e.instance_id ≡ 0) × (e.major_version ≡ 0) × (e.minor_version ≡ 0))
unfolding misread_service
misread_service-eq-self_iff e fits = (λ same. ground arith, λ zeros. ground arith)

parsed_inj : {a b : ServiceEntry} {i j : ℕ} → parsed a i ≡ parsed b j → a ≡ b
parsed_inj e = cc

-- A service entry with fields in range, wherever it is written, with two bytes or more behind it, is
-- read back as it was exactly if its ids and its versions are all 0.
pub deserialize_service-serialize_service_iff :
    (front back : List ℕ) (e e' : ServiceEntry)
    → IsServiceEntry e
    → e'.minor_version ≡ 0
    → 2 ≤ length back
    → (deserialize_service (front ++ (serialize_service e ++ back)) (length front) e'
        ≡ parsed e (length front + 14))
      ↔ ((e.service_id ≡ 0) × (e.instance_id ≡ 0) × (e.major_version ≡ 0) × (e.minor_version ≡ 0))
deserialize_service-serialize_service_iff front back e e' fits minor room =
    let read = deserialize_service-serialize_service front back e e' fits minor room in
    let same = misread_service-eq-self_iff e fits in
    (
      λ h. same.0 (parsed_inj (sym read ∙ h)),
      λ zeros. read ∙ ap (λ x. parsed x (length front + 14)) (same.1 zeros),
    )
