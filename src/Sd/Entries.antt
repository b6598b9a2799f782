-- ===== src/Sd/Entries.antt =====
-- The entries of src/sd/sd_message.cpp and include/sd/sd_message.h. The type of an entry is its byte.
-- Where `deserialize` returns `false` the only caller drops the object.
use opensomeip.Base.{ℕ, ◌+◌, ◌/◌, ◌%◌, ltb, if◌then◌else◌, List, [], ◌∷◌, ◌++◌, length}
use opensomeip.Base.Bytes.{be32, byte_at, read16, read32}
use opensomeip.Sd.{set, Parse, parsed, refused, fault}

-- `EntryType`, without the second names of its values.
abbrev pub find_service : ℕ
find_service = 0x00

abbrev pub offer_service : ℕ
offer_service = 0x01

abbrev pub subscribe_eventgroup : ℕ
subscribe_eventgroup = 0x06

abbrev pub subscribe_eventgroup_ack : ℕ
subscribe_eventgroup_ack = 0x07

pub record EntryHead : Type 0 where
  pub type : ℕ
  pub index1 : ℕ
  pub index2 : ℕ
  pub ttl : ℕ

pub record ServiceEntry : Type 0 where
  pub head : EntryHead
  pub service_id : ℕ
  pub instance_id : ℕ
  pub major_version : ℕ
  pub minor_version : ℕ

pub record EventGroupEntry : Type 0 where
  pub head : EntryHead
  pub service_id : ℕ
  pub instance_id : ℕ
  pub eventgroup_id : ℕ
  pub major_version : ℕ

pub data SdEntry : Type 0 where
  service : ServiceEntry → SdEntry
  event_group : EventGroupEntry → SdEntry

-- `ServiceEntry(type)` and `EventGroupEntry(type)`
abbrev pub new_head : ℕ → EntryHead
new_head type = record { type = type; index1 = 0; index2 = 0; ttl = 0 }

abbrev pub new_service_entry : ℕ → ServiceEntry
new_service_entry type = record {
  head = new_head type;
  service_id = 0;
  instance_id = 0;
  major_version = 0;
  minor_version = 0;
}

abbrev pub new_event_group_entry : ℕ → EventGroupEntry
new_event_group_entry type = record {
  head = new_head type;
  service_id = 0;
  instance_id = 0;
  eventgroup_id = 0;
  major_version = 0;
}

-- The fourteen bytes of `SdEntry::serialize`.
unfoldable pub serialize_head : EntryHead → List ℕ
serialize_head h = h.type ∷ h.index1 ∷ h.index2 ∷ 0 ∷ 0 ∷ 0 ∷ 0 ∷ 0 ∷ 0 ∷ 0 ∷ be32 h.ttl

-- Bytes 4 to 8 overwritten, for both kinds of entry.
abbrev put_ids : ℕ → ℕ → ℕ → List ℕ → List ℕ
put_ids service_id instance_id major_version bytes =
    set
      (set
        (set (set (set bytes 4 (service_id / 256 % 256)) 5 (service_id % 256)) 6
          (instance_id / 256 % 256))
        7 (instance_id % 256))
      8 major_version

unfoldable pub serialize_service : ServiceEntry → List ℕ
unfolding serialize_head
serialize_service e = put_ids e.service_id e.instance_id e.major_version (serialize_head e.head)

unfoldable pub serialize_event_group : EventGroupEntry → List ℕ
unfolding serialize_head
serialize_event_group e =
    put_ids e.service_id e.instance_id e.major_version (serialize_head e.head)
    ++ (e.eventgroup_id / 256 % 256) ∷ (e.eventgroup_id % 256) ∷ []

unfoldable pub serialize : SdEntry → List ℕ
unfolding serialize_service serialize_event_group
serialize (service e) = serialize_service e
serialize (event_group e) = serialize_event_group e

-- `SdEntry::deserialize`: the type and the indices, and the offset behind the counts of options.
unfoldable pub deserialize_head : List ℕ → ℕ → EntryHead → Parse EntryHead
deserialize_head d offset h =
    if ltb (length d) (offset + 16)
    then refused
    else parsed
        (record h {
          type = byte_at d offset;
          index1 = byte_at d (offset + 1);
          index2 = byte_at d (offset + 2);
        })
        (offset + 5)

abbrev service_fields : List ℕ → ServiceEntry → Parse EntryHead → Parse ServiceEntry
service_fields d e refused = refused
service_fields d e fault = fault
service_fields d e (parsed h offset) =
    if ltb (length d) (offset + 9)
    then refused
    else parsed
        (record e {
          head = record h { ttl = read32 d (offset + 5) };
          service_id = read16 d offset;
          instance_id = read16 d (offset + 2);
          major_version = byte_at d (offset + 4);
        })
        (offset + 9)

unfoldable pub deserialize_service : List ℕ → ℕ → ServiceEntry → Parse ServiceEntry
unfolding deserialize_head
deserialize_service d offset e = service_fields d e (deserialize_head d offset e.head)

abbrev event_group_fields : List ℕ → EventGroupEntry → Parse EntryHead → Parse EventGroupEntry
event_group_fields d e refused = refused
event_group_fields d e fault = fault
event_group_fields d e (parsed h offset) =
    if ltb (length d) (offset + 11)
    then refused
    else parsed
        (record e {
          head = record h { ttl = read32 d (offset + 5) };
          service_id = read16 d offset;
          instance_id = read16 d (offset + 2);
          major_version = byte_at d (offset + 4);
          eventgroup_id = read16 d (offset + 9);
        })
        (offset + 11)

unfoldable pub deserialize_event_group : List ℕ → ℕ → EventGroupEntry → Parse EventGroupEntry
unfolding deserialize_head
deserialize_event_group d offset e = event_group_fields d e (deserialize_head d offset e.head)
