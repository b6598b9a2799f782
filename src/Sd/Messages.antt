-- ===== src/Sd/Messages.antt =====
-- `SdMessage` of src/sd/sd_message.cpp and include/sd/sd_message.h.
use opensomeip.Base.{
  ℕ, zero, suc, ◌+◌, ◌*◌, ◌/◌, ◌%◌, ◌^◌, bit_and, bit_or, Bool, true, false, ◌&&◌, ◌||◌, ltb, ◌==◌,
  ◌!=◌, if◌then◌else◌, List, [], ◌∷◌, ◌++◌, length, Option, none, some,
}
use opensomeip.Base.Bytes.{be32, byte_at, read16, read32}
use opensomeip.Sd.{Parse, parsed, refused, fault}
use opensomeip.Sd.Entries.{
  SdEntry, service, event_group, new_service_entry, new_event_group_entry, find_service,
  subscribe_eventgroup, deserialize_service, deserialize_event_group,
}
use opensomeip.Sd.Entries
use opensomeip.Sd.Options.{
  SdOption, ipv4_endpoint, ipv4_multicast, configuration, configuration_type, ipv4_endpoint_type,
  ipv4_multicast_type, deserialize_endpoint, deserialize_multicast, deserialize_configuration,
}
use opensomeip.Sd.Options

pub record SdMessage : Type 0 where
  pub flags : ℕ
  pub reserved : ℕ
  pub entries : List SdEntry
  pub options : List SdOption

abbrev pub new_message : SdMessage
new_message = record { flags = 0; reserved = 0; entries = []; options = [] }

unfoldable pub add_entry : SdEntry → SdMessage → SdMessage
add_entry e m = record m { entries = m.entries ++ e ∷ [] }

unfoldable pub add_option : SdOption → SdMessage → SdMessage
add_option o m = record m { options = m.options ++ o ∷ [] }

unfoldable pub is_reboot : SdMessage → Bool
is_reboot m = bit_and m.flags 0x80 != 0

unfoldable pub is_unicast : SdMessage → Bool
is_unicast m = bit_and m.flags 0x40 != 0

-- `~0x80` and `~0x40` on the byte are 0x7f and 0xbf.
unfoldable pub set_reboot : Bool → SdMessage → SdMessage
set_reboot reboot m = record m {
  flags = if reboot then bit_or m.flags 0x80 else bit_and m.flags 0x7f;
}

unfoldable pub set_unicast : Bool → SdMessage → SdMessage
set_unicast unicast m = record m {
  flags = if unicast then bit_or m.flags 0x40 else bit_and m.flags 0xbf;
}

unfoldable pub serialize_entries : List SdEntry → List ℕ
serialize_entries [] = []
serialize_entries (e ∷ es) = Entries.serialize e ++ serialize_entries es

unfoldable pub serialize_options : List SdOption → List ℕ
serialize_options [] = []
serialize_options (o ∷ os) = Options.serialize o ++ serialize_options os

unfoldable pub serialize : SdMessage → List ℕ
serialize m =
    let body = serialize_entries m.entries ++ serialize_options m.options in
    bit_and m.flags 0xc0
    ∷ (m.reserved / 2 ^ 16 % 256)
    ∷ (m.reserved / 2 ^ 8 % 256)
    ∷ (m.reserved % 256)
    ∷ (be32 (length body % 2 ^ 32) ++ body)

-- How the loop goes on behind an item, how it ends, and how it is left by a return of `false` or an
-- undefined read, with the message as it stands.
pub data Progress : Type 0 where
  goes_on : ℕ → SdMessage → Progress
  gives_up : SdMessage → Progress
  breaks : Progress

abbrev with_service : SdMessage → Parse Entries.ServiceEntry → Progress
with_service m (parsed e offset) =
    goes_on offset (record m { entries = m.entries ++ service e ∷ [] })
with_service m refused = gives_up m
with_service m fault = breaks

abbrev with_event_group : SdMessage → Parse Entries.EventGroupEntry → Progress
with_event_group m (parsed e offset) =
    goes_on offset (record m { entries = m.entries ++ event_group e ∷ [] })
with_event_group m refused = gives_up m
with_event_group m fault = breaks

abbrev with_option {ℓ} : {A : Type ℓ} → (A → SdOption) → SdMessage → Parse A → Progress
with_option kind m (parsed o offset) =
    goes_on offset (record m { options = m.options ++ kind o ∷ [] })
with_option kind m refused = gives_up m
with_option kind m fault = breaks

-- An option of another type is passed over, by its first two bytes.
unfoldable pub skip_option : List ℕ → ℕ → SdMessage → Progress
skip_option d offset m =
    if ltb (length d) (offset + 4)
    then gives_up m
    else if ltb (length d) (offset + 4 + read16 d offset)
    then gives_up m
    else goes_on (offset + (4 + read16 d offset)) m

-- One round of the loop.
unfoldable pub parse_item : List ℕ → ℕ → SdMessage → Progress
parse_item d offset m =
    let type = byte_at d offset in
    if type == 0x00 || type == 0x01
    then with_service m (deserialize_service d offset (new_service_entry find_service))
    else if type == 0x06 || type == 0x07
    then with_event_group m
        (deserialize_event_group d offset (new_event_group_entry subscribe_eventgroup))
    else if type == configuration_type
    then with_option configuration m (deserialize_configuration d offset)
    else if type == ipv4_endpoint_type
    then with_option ipv4_endpoint m (deserialize_endpoint d offset)
    else if type == ipv4_multicast_type
    then with_option ipv4_multicast m (deserialize_multicast d offset)
    else skip_option d offset m

-- The loop, with the rounds that `max_iterations` leaves.
unfoldable pub parse_items : ℕ → List ℕ → ℕ → ℕ → SdMessage → Progress
parse_items zero d end offset m = goes_on offset m
parse_items (suc rounds) d end offset m = elim (ltb offset end && ltb offset (length d)) [
  | false ↦ goes_on offset m
  | true ↦ elim (parse_item d offset m) [
    | goes_on offset' m' ↦ parse_items rounds d end offset' m'
    | gives_up m' ↦ gives_up m'
    | breaks ↦ breaks
  ]
]

abbrev pub check_end : ℕ → Progress → Option (Bool × SdMessage)
check_end end (goes_on offset m) = some (offset == end, m)
check_end end (gives_up m) = some (false, m)
check_end end breaks = none

-- The value returned and the message as the call leaves it; `none` is an undefined read. Entries and
-- options are added to those that the message holds.
unfoldable pub deserialize : List ℕ → SdMessage → Option (Bool × SdMessage)
deserialize d m =
    let len = read32 d 4 in
    let m' = record m {
      flags = byte_at d 0;
      reserved = byte_at d 1 * 2 ^ 16 + byte_at d 2 * 2 ^ 8 + byte_at d 3;
    } in
    let end = (8 + len) % 2 ^ 32 in
    if ltb (length d) 8
    then some (false, m)
    else if ltb (length d) (8 + len)
    then some (false, m')
    else check_end end (parse_items 100 d end 8 m')
