-- ===== src/E2e/Profile.antt =====
-- include/e2e/e2e_config.h and src/e2e/e2e_profiles/standard_profile.cpp. The two maps are the
-- state of the profile object; each is guarded by its mutex while it is used. The clock, in
-- milliseconds, is an argument.
pub mod Counter
pub mod Freshness
pub mod Protects
pub mod Rejects
use opensomeip.Base.{
  ℕ, ◌+◌, ◌-◌, ◌%◌, ◌^◌, bit_and, Bool, true, false, ◌&&◌, ◌||◌, not, ltb, leb, ◌==◌, ◌!=◌,
  if◌then◌else◌, List, [], ◌∷◌, ◌++◌, length, Option, none, some,
}
use opensomeip.Base.Map.{find, insert}
use opensomeip.Base.Bytes.{be32}
use opensomeip.Result.{Result, success, invalid_argument, timeout}
use opensomeip.Types.{message_id_to_uint32, request_id_to_uint32}
use opensomeip.Message.{Message, set_e2e_header}
use opensomeip.E2e.Header.{E2eHeader, header_size}
use opensomeip.E2e.Crc.{calculate_crc}

pub record E2eConfig : Type 0 where
  pub profile_id : ℕ
  pub profile_name : List ℕ
  pub data_id : ℕ
  pub offset : ℕ
  pub enable_crc : Bool
  pub enable_counter : Bool
  pub enable_freshness : Bool
  pub max_counter_value : ℕ
  pub freshness_timeout_ms : ℕ
  pub crc_type : ℕ

pub record BasicE2eProfile : Type 0 where
  pub counters : List (ℕ × ℕ)
  pub freshness_values : List (ℕ × ℕ)

-- `counters_[data_id]`: a missing entry is made with the value 0, which no later read tells from a
-- missing one.
abbrev pub counter_of : ℕ → BasicE2eProfile → ℕ
counter_of data_id p = elim (find data_id p.counters) [ none ↦ 0 | some n ↦ n ]

-- What the checksum covers: the fixed header, with a given length field, and the payload.
unfoldable pub crc_data : ℕ → Message → List ℕ
crc_data len m =
    be32 (message_id_to_uint32 m.message_id)
    ++ (be32 len
        ++ (be32 (request_id_to_uint32 m.request_id)
            ++ (m.protocol_version ∷ m.interface_version ∷ m.message_type ∷ m.return_code
                ∷ m.payload)))

unfoldable pub crc_over : ℕ → Message → ℕ → ℕ
crc_over len m crc_type =
    let covered = crc_data len m in calculate_crc covered 0 (length covered) crc_type

unfoldable pub protect_crc : Message → E2eConfig → ℕ
protect_crc m c =
    if c.enable_crc
    then crc_over ((8 + header_size + length m.payload) % 2 ^ 32) m c.crc_type
    else 0

-- `last_counter++` and the rollover.
unfoldable pub next_counter : ℕ → ℕ → ℕ
next_counter max last = let n = (last + 1) % 2 ^ 32 in if ltb max n then 1 else n

-- `static_cast<uint16_t>(ms & 0xFFFF)`
unfoldable pub freshness_of : ℕ → ℕ
freshness_of ms = bit_and ms 0xffff

unfoldable pub protect :
    ℕ → Message → E2eConfig → BasicE2eProfile → Result × Message × BasicE2eProfile
protect now m c p =
    let crc = protect_crc m c in
    let counter =
      if c.enable_counter then next_counter c.max_counter_value (counter_of c.data_id p) else 0 in
    let counters = if c.enable_counter then insert c.data_id counter p.counters else p.counters in
    let freshness = if c.enable_freshness then freshness_of now else 0 in
    let freshness_values =
      if c.enable_freshness
      then insert c.data_id freshness p.freshness_values
      else p.freshness_values in
    let header : E2eHeader = record {
      crc = crc;
      counter = counter;
      data_id = c.data_id;
      freshness_value = freshness;
    } in
    (
      success,
      set_e2e_header header m,
      record { counters = counters; freshness_values = freshness_values },
    )

-- Both sides are masked by the width of the checksum.
unfoldable pub crc_matches : Message → E2eHeader → ℕ → Bool
crc_matches m h crc_type =
    let expected = crc_over m.length m crc_type in
    if crc_type == 0
    then bit_and h.crc 0xff == bit_and expected 0xff
    else if crc_type == 1
    then bit_and h.crc 0xffff == bit_and expected 0xffff
    else h.crc == expected

-- `config.max_counter_value - 10`, an unsigned difference.
unfoldable pub rollover_start : ℕ → ℕ
rollover_start max = (max + 2 ^ 32 - 10) % 2 ^ 32

unfoldable pub counter_valid : ℕ → ℕ → ℕ → Bool
unfolding rollover_start
counter_valid max last counter =
    if last == 0
    then leb 1 counter && leb counter max
    else if counter == last
    then true
    else if ltb last counter
    then true
    else if ltb (rollover_start max) last
    then leb 1 counter && leb counter 10
    else false

unfoldable pub updated_counter : ℕ → ℕ → ℕ → ℕ
unfolding rollover_start
updated_counter max last counter =
    if ltb last counter || ltb (rollover_start max) last && leb counter 10 then counter else last

-- `freshness_diff`, a `uint16_t`.
unfoldable pub freshness_diff : ℕ → ℕ → ℕ
freshness_diff current value =
    if leb value current then current - value else (0xffff - value + current + 1) % 2 ^ 16

unfoldable pub is_stale : ℕ → ℕ → ℕ → Bool
unfolding freshness_diff
is_stale timeout_ms current value =
    let diff = freshness_diff current value in
    let timeout_units = timeout_ms % 2 ^ 16 in
    ltb timeout_units diff && ltb diff (0xffff - timeout_units)

unfoldable pub check_freshness :
    ℕ → E2eHeader → E2eConfig → BasicE2eProfile → Result × BasicE2eProfile
check_freshness now h c p =
    if c.enable_freshness && is_stale c.freshness_timeout_ms (freshness_of now) h.freshness_value
    then (timeout, p)
    else (success, p)

unfoldable pub check_counter :
    ℕ → E2eHeader → E2eConfig → BasicE2eProfile → Result × BasicE2eProfile
check_counter now h c p =
    let last = counter_of c.data_id p in
    if c.enable_counter
    then (if counter_valid c.max_counter_value last h.counter
        then check_freshness now h c (record p {
          counters =
              insert c.data_id (updated_counter c.max_counter_value last h.counter) p.counters;
        })
        else (invalid_argument, p))
    else check_freshness now h c p

unfoldable pub check_header :
    ℕ → Message → E2eHeader → E2eConfig → BasicE2eProfile → Result × BasicE2eProfile
check_header now m h c p =
    if h.data_id != c.data_id
    then (invalid_argument, p)
    else if c.enable_crc && not (crc_matches m h c.crc_type)
    then (invalid_argument, p)
    else check_counter now h c p

unfoldable pub validate : ℕ → Message → E2eConfig → BasicE2eProfile → Result × BasicE2eProfile
validate now m c p = elim m.e2e_header [
  | none ↦ (invalid_argument, p)
  | some h ↦ check_header now m h c p
]
