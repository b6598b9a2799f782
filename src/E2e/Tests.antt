-- ===== src/E2e/Tests.antt =====
-- Runs of the end-to-end protection, and instances of its theorems.
use opensomeip.Base.{ℕ, ◌-◌, ◌%◌, ◌^◌, ◌<◌, ◌≡◌, ◌≢◌, refl, true, List, [], ◌∷◌, none, some, arith}
use opensomeip.Result.{success, invalid_argument}
use opensomeip.Message.{Message}
use opensomeip.Message.{IsTyped}
use opensomeip.E2e.Header.{E2eHeader}
use opensomeip.Base.Map.{find, insert}
use opensomeip.E2e.Crc.{
  calculate_crc16_itu_x25, crc16_loop, crc32_loop, shift_rounds, shift_round, calculate_crc,
}
use opensomeip.E2e.Crc.Table.{register, crc32_loop-register}
use opensomeip.E2e.Crc.Detect.{calculate_crc_detects}
use opensomeip.E2e.Profile.{E2eConfig, BasicE2eProfile, validate, is_stale, freshness_of}
use opensomeip.E2e.Registry.{
  E2eProfile, E2eProfileRegistry, new_registry, register_profile, select_profile, get_profile,
  get_profile_by_name,
}
use opensomeip.E2e.Registry.Names.{find_name, same_name, insert_name}
use opensomeip.E2e.Registry.Owned.{here, registers, select_profile-IsOwned}
use opensomeip.E2e.Profile.Freshness.{is_stale_iff}
use opensomeip.E2e.Profile.Protects.{protected, sender, validate-protect}
use opensomeip.E2e.Profile.Rejects.{validate_tampered, validate_replayed}
use mathlib.Core.Logic.{◌↔◌}

-- "123456789" under the first two checksums.
abbrev digits : List ℕ
digits = 0x31 ∷ 0x32 ∷ 0x33 ∷ 0x34 ∷ 0x35 ∷ 0x36 ∷ 0x37 ∷ 0x38 ∷ 0x39 ∷ []

check_crc16 : calculate_crc16_itu_x25 digits ≡ 0x29b1
unfolding calculate_crc16_itu_x25 crc16_loop shift_rounds shift_round
check_crc16 = refl

crc32_loop-register_example : crc32_loop 0xffffffff digits ≡ register 0xffffffff digits
crc32_loop-register_example = crc32_loop-register 0xffffffff digits (omega arith) (omega arith)

calculate_crc_detects_example :
    calculate_crc (1 ∷ 2 ∷ 3 ∷ []) 0 3 2 ≢ calculate_crc (1 ∷ 7 ∷ 3 ∷ []) 0 3 2
calculate_crc_detects_example =
    calculate_crc_detects (1 ∷ []) (3 ∷ []) 2 7 2 (omega arith) (omega arith) (omega arith)
      (omega arith) (omega arith) (omega arith)

abbrev config : E2eConfig
config = record {
  profile_id = 0;
  profile_name = 0x62 ∷ 0x61 ∷ 0x73 ∷ 0x69 ∷ 0x63 ∷ [];
  data_id = 7;
  offset = 8;
  enable_crc = true;
  enable_counter = true;
  enable_freshness = true;
  max_counter_value = 1000;
  freshness_timeout_ms = 5000;
  crc_type = 1;
}

abbrev fresh_profile : BasicE2eProfile
fresh_profile = record { counters = []; freshness_values = [] }

abbrev reading : Message
reading = record {
  message_id = record { service_id = 0x1234; method_id = 0x0001 };
  length = 11;
  request_id = record { client_id = 0x5678; session_id = 0x0009 };
  protocol_version = 1;
  interface_version = 1;
  message_type = 2;
  return_code = 0;
  payload = 1 ∷ 2 ∷ 3 ∷ [];
  e2e_header = none;
  timestamp = 5;
}

reading-IsTyped : IsTyped reading
reading-IsTyped = grind arith

is_stale_iff_example :
    (is_stale 5000 (freshness_of 70000) (freshness_of 1000) ≡ true)
    ↔ ((5000 < 69000 % 2 ^ 16) × (69000 % 2 ^ 16 < 65535 - 5000))
is_stale_iff_example = is_stale_iff 5000 1000 70000 (omega arith) (omega arith)

validate-protect_example :
    (validate 3000
      (protected 1000 reading config fresh_profile)
      config
      (sender 1000 reading config fresh_profile)).0
    ≡ success
unfolding find
validate-protect_example =
    validate-protect 1000 3000 reading config fresh_profile (omega arith) (omega arith)
      (omega arith) (omega arith)

validate_tampered_example :
    validate 3000
      (record (protected 1000 reading config fresh_profile) { payload = 1 ∷ 9 ∷ 3 ∷ [] })
      config
      fresh_profile
    ≡ (invalid_argument, fresh_profile)
validate_tampered_example =
    validate_tampered 1000 3000 reading config fresh_profile fresh_profile (1 ∷ []) (3 ∷ []) 2 9
      reading-IsTyped refl (omega arith) (omega arith) (omega arith) (omega arith) (omega arith)
      refl (omega arith)

abbrev old_header : E2eHeader
old_header = record { crc = 0; counter = 4; data_id = 7; freshness_value = 0 }

abbrev after_nine : BasicE2eProfile
after_nine = record { counters = (7, 9) ∷ []; freshness_values = [] }

validate_replayed_example :
    validate 3000 (record reading { e2e_header = some old_header }) config after_nine
    ≡ (invalid_argument, after_nine)
unfolding find
validate_replayed_example =
    validate_replayed 3000 (record reading { e2e_header = some old_header }) old_header config
      after_nine refl refl (omega arith) (omega arith) (omega arith) (omega arith)

abbrev basic : E2eProfile
basic = record { object = 1; profile_id = 0; profile_name = config.profile_name }

abbrev one_profile : E2eProfileRegistry
one_profile = (register_profile (some basic) new_registry).1

basic_selected : select_profile (record config { profile_id = 9 }) one_profile ≡ some basic
unfolding select_profile register_profile get_profile get_profile_by_name find_name same_name find
    insert insert_name
basic_selected = refl

select_profile-IsOwned_example :
    (get_profile 0 one_profile ≡ some basic)
    × (get_profile_by_name config.profile_name one_profile ≡ some basic)
select_profile-IsOwned_example =
    select_profile-IsOwned one_profile (record config { profile_id = 9 }) basic
      (registers (some basic) here) basic_selected
