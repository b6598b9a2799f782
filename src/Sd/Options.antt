-- ===== src/Sd/Options.antt =====
-- The options of src/sd/sd_message.cpp and include/sd/sd_message.h. The type of an option is its byte;
-- `inet_pton` and `inet_ntop`, which read and print an address, are not modelled.
use opensomeip.Base.{
  ℕ, ◌+◌, ◌/◌, ◌%◌, ◌^◌, ltb, if◌then◌else◌, List, [], ◌∷◌, ◌++◌, length, take, drop,
}
use opensomeip.Base.Bytes.{be32, byte_at, read16, read32}
use opensomeip.Sd.{set, swap16, Parse, parsed, refused, fault}

abbrev pub configuration_type : ℕ
configuration_type = 0x01

abbrev pub ipv4_endpoint_type : ℕ
ipv4_endpoint_type = 0x04

abbrev pub ipv4_multicast_type : ℕ
ipv4_multicast_type = 0x14

pub record OptionHead : Type 0 where
  pub type : ℕ
  pub length : ℕ

pub record Ipv4EndpointOption : Type 0 where
  pub head : OptionHead
  pub protocol : ℕ
  pub ipv4_address : ℕ
  pub port : ℕ

pub record Ipv4MulticastOption : Type 0 where
  pub head : OptionHead
  pub ipv4_address : ℕ
  pub port : ℕ

pub record ConfigurationOption : Type 0 where
  pub head : OptionHead
  pub config_string : List ℕ

pub data SdOption : Type 0 where
  ipv4_endpoint : Ipv4EndpointOption → SdOption
  ipv4_multicast : Ipv4MulticastOption → SdOption
  configuration : ConfigurationOption → SdOption

abbrev pub new_endpoint_option : Ipv4EndpointOption
new_endpoint_option = record {
  head = record { type = ipv4_endpoint_type; length = 0 };
  protocol = 0;
  ipv4_address = 0;
  port = 0;
}

abbrev pub new_multicast_option : Ipv4MulticastOption
new_multicast_option = record {
  head = record { type = ipv4_multicast_type; length = 0 };
  ipv4_address = 0;
  port = 0;
}

abbrev pub new_configuration_option : ConfigurationOption
new_configuration_option = record {
  head = record { type = configuration_type; length = 0 };
  config_string = [];
}

unfoldable pub serialize_head : OptionHead → List ℕ
serialize_head h = (h.length / 256 % 256) ∷ (h.length % 256) ∷ h.type ∷ 0 ∷ []

unfoldable pub serialize_endpoint : Ipv4EndpointOption → List ℕ
unfolding serialize_head
serialize_endpoint o =
    let network_port = swap16 o.port in
    let bytes =
      serialize_head o.head
      ++ (be32 o.ipv4_address
          ++ 0 ∷ o.protocol ∷ (network_port / 256 % 256) ∷ (network_port % 256) ∷ []) in
    set (set bytes 0 0) 1 8

-- The length goes where the type and the reserved byte stand.
unfoldable pub serialize_multicast : Ipv4MulticastOption → List ℕ
unfolding serialize_head
serialize_multicast o =
    let bytes =
      serialize_head o.head
      ++ (be32 o.ipv4_address ++ 0 ∷ (o.port / 256 % 256) ∷ (o.port % 256) ∷ []) in
    set (set bytes 2 0) 3 7

unfoldable pub serialize_configuration : ConfigurationOption → List ℕ
serialize_configuration o =
    let len = length o.config_string % 2 ^ 16 in
    set (set (configuration_type ∷ 0 ∷ 0 ∷ 0 ∷ o.config_string) 2 (len / 256 % 256)) 3 (len % 256)

unfoldable pub serialize : SdOption → List ℕ
unfolding serialize_endpoint serialize_multicast serialize_configuration
serialize (ipv4_endpoint o) = serialize_endpoint o
serialize (ipv4_multicast o) = serialize_multicast o
serialize (configuration o) = serialize_configuration o

unfoldable pub deserialize_head : List ℕ → ℕ → Parse OptionHead
deserialize_head d offset =
    if ltb (length d) (offset + 4)
    then refused
    else parsed (record { type = byte_at d (offset + 2); length = read16 d offset }) (offset + 4)

-- The check is of the length field, the reads are of eight bytes.
abbrev endpoint_fields : List ℕ → Parse OptionHead → Parse Ipv4EndpointOption
endpoint_fields d refused = refused
endpoint_fields d fault = fault
endpoint_fields d (parsed h offset) =
    if ltb (length d) (offset + h.length)
    then refused
    else if ltb (length d) (offset + 8)
    then fault
    else parsed
        (record {
          head = h;
          ipv4_address = read32 d offset;
          protocol = byte_at d (offset + 5);
          port = swap16 (read16 d (offset + 6));
        })
        (offset + 8)

unfoldable pub deserialize_endpoint : List ℕ → ℕ → Parse Ipv4EndpointOption
unfolding deserialize_head
deserialize_endpoint d offset = endpoint_fields d (deserialize_head d offset)

abbrev multicast_fields : List ℕ → Parse OptionHead → Parse Ipv4MulticastOption
multicast_fields d refused = refused
multicast_fields d fault = fault
multicast_fields d (parsed h offset) =
    if ltb (length d) (offset + h.length)
    then refused
    else if ltb (length d) (offset + 7)
    then fault
    else parsed (record { head = h; ipv4_address = read32 d offset; port = read16 d (offset + 5) })
        (offset + 7)

unfoldable pub deserialize_multicast : List ℕ → ℕ → Parse Ipv4MulticastOption
unfolding deserialize_head
deserialize_multicast d offset = multicast_fields d (deserialize_head d offset)

abbrev configuration_fields : List ℕ → Parse OptionHead → Parse ConfigurationOption
configuration_fields d refused = refused
configuration_fields d fault = fault
configuration_fields d (parsed h offset) =
    if ltb (length d) (offset + h.length)
    then refused
    else parsed (record { head = h; config_string = take h.length (drop offset d) })
        (offset + h.length)

unfoldable pub deserialize_configuration : List ℕ → ℕ → Parse ConfigurationOption
unfolding deserialize_head
deserialize_configuration d offset = configuration_fields d (deserialize_head d offset)
