-- ===== src/Sd/Service.antt =====
-- What the client and the server of src/sd share: include/sd/sd_types.h, the reading of an "ip:port"
-- and the message around an `SdMessage`. A text is the list of its characters' codes. The library
-- functions that read and print addresses are fields of an `Inet`.
use opensomeip.Base.{
  ℕ, zero, suc, ◌+◌, ◌-◌, ◌*◌, ◌/◌, ◌%◌, ◌^◌, Bool, ◌&&◌, ◌||◌, ◌==◌, ltb, leb, if◌then◌else◌, List,
  [], ◌∷◌, ◌++◌, Option, none, some,
}
use opensomeip.Types.MessageType.{notification}
use opensomeip.Types.ReturnCode.{e_ok}
use opensomeip.Message.{Message, new_message, set_payload}
use opensomeip.Sd.Options.{Ipv4EndpointOption, new_endpoint_option}
use opensomeip.Sd.Messages.{SdMessage, serialize}

abbrev pub Text : Type 0
Text = List ℕ

pub record Endpoint : Type 0 where
  pub address : Text
  pub port : ℕ

-- `inet_pton` for an IPv4 address, with `none` for a failure, `inet_addr`, and `inet_ntop`.
pub record Inet : Type 0 where
  pub inet_pton : Text → Option ℕ
  pub inet_addr : Text → ℕ
  pub inet_ntop : ℕ → Text

pub record ServiceInstance : Type 0 where
  pub service_id : ℕ
  pub instance_id : ℕ
  pub major_version : ℕ
  pub minor_version : ℕ
  pub ip_address : Text
  pub port : ℕ
  pub protocol : ℕ
  pub ttl_seconds : ℕ

abbrev pub new_instance : ServiceInstance
new_instance = record {
  service_id = 0;
  instance_id = 0;
  major_version = 0;
  minor_version = 0;
  ip_address = [];
  port = 0;
  protocol = 0x11;
  ttl_seconds = 0;
}

-- The fields that the code reads.
pub record SdConfig : Type 0 where
  pub multicast_address : Text
  pub multicast_port : ℕ
  pub unicast_address : Text
  pub unicast_port : ℕ
  pub initial_delay : ℕ
  pub repetition_max : ℕ
  pub repetition_multiplier : ℕ
  pub cyclic_offer : ℕ
  pub max_services : ℕ

abbrev pub is_instance : ℕ → ℕ → ServiceInstance → Bool
is_instance service_id instance_id i = i.service_id == service_id && i.instance_id == instance_id

-- `find(':')` with the two `substr` around it.
unfoldable pub split_colon : Text → Option (Text × Text)
split_colon [] = none
split_colon (x ∷ xs) =
    let rest = split_colon xs in
    if x == 58
    then some ([], xs)
    else elim rest [ none ↦ none | some (front, back) ↦ some (x ∷ front, back) ]

abbrev is_space : ℕ → Bool
is_space x = x == 32 || (leb 9 x && leb x 13)

abbrev is_digit : ℕ → Bool
is_digit x = leb 48 x && leb x 57

unfoldable skip_space : Text → Text
skip_space [] = []
skip_space (x ∷ xs) = let rest = skip_space xs in if is_space x then rest else x ∷ xs

-- The value of the digits at the front, behind a value.
unfoldable read_digits : ℕ → Text → ℕ
read_digits value [] = value
read_digits value (x ∷ xs) =
    let rest = read_digits (value * 10 + (x - 48)) xs in if is_digit x then rest else value

-- `some n` for digits at the front.
abbrev number : Text → Option ℕ
number [] = none
number (x ∷ xs) = if is_digit x then some (read_digits 0 (x ∷ xs)) else none

abbrev positive : Option ℕ → Option ℕ
positive none = none
positive (some n) = if ltb n (2 ^ 31) then some (n % 2 ^ 16) else none

abbrev negative : Option ℕ → Option ℕ
negative none = none
negative (some n) = if leb n (2 ^ 31) then some ((2 ^ 16 - n % 2 ^ 16) % 2 ^ 16) else none

abbrev signed : Text → Option ℕ
signed [] = none
signed (x ∷ xs) =
    if x == 43
    then positive (number xs)
    else if x == 45
    then negative (number xs)
    else positive (number (x ∷ xs))

-- `static_cast<uint16_t>(std::stoi(text))`; `none` is an exception.
unfoldable pub stoi : Text → Option ℕ
unfolding skip_space read_digits
stoi text = signed (skip_space text)

-- `set_ipv4_address_from_string`
abbrev pub address_from_string : Inet → Text → ℕ
address_from_string inet ip = elim (inet.inet_pton ip) [ none ↦ 0 | some a ↦ a ]

-- The option for an "ip:port"; `none` is the exception of `std::stoi`.
unfoldable pub endpoint_option : Inet → Text → Option Ipv4EndpointOption
endpoint_option inet text = elim (split_colon text) [
  | none ↦ some new_endpoint_option
  | some (ip, port) ↦ elim (stoi port) [
    | none ↦ none
    | some p ↦ some (record new_endpoint_option {
      ipv4_address = address_from_string inet ip;
      port = p;
      protocol = 0x11;
    })
  ]
]

-- The SOME/IP message around an SD message.
abbrev pub sd_notification : ℕ → SdMessage → Message
sd_notification now m = set_payload (serialize m) (
    new_message (record { service_id = 0xffff; method_id = 0x8100 })
      (record { client_id = 0; session_id = 0 }) notification e_ok now)

-- A message given to the transport, and for whom.
pub record Sent : Type 0 where
  pub message : Message
  pub receiver : Endpoint

unfoldable decimal_digits : ℕ → ℕ → Text
decimal_digits zero n = []
decimal_digits (suc places) n =
    let front = decimal_digits places (n / 10) in
    if ltb n 10 then (48 + n) ∷ [] else front ++ (48 + n % 10) ∷ []

-- `std::to_string` of a 16-bit number, which has at most five digits.
unfoldable pub decimal : ℕ → Text
unfolding decimal_digits
decimal n = decimal_digits 5 n
