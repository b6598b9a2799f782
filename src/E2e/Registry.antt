-- ===== src/E2e/Registry.antt =====
-- src/e2e/e2e_profile_registry.cpp and src/e2e/e2e_protection.cpp. A name is its bytes, and a profile
-- its identity with what `get_profile_id` and `get_profile_name` say, so that the raw pointer of the
-- second map is the profile itself. A call that holds the mutex is one step.
pub mod Names
pub mod Owned
use opensomeip.Base.{ℕ, Bool, true, false, if◌then◌else◌, List, [], Option, none, some}
use opensomeip.Base.Map.{find, insert, erase}
use opensomeip.Result.{Result, not_initialized}
use opensomeip.Message.{Message}
use opensomeip.E2e.Header.{E2eHeader}
use opensomeip.E2e.Profile.{E2eConfig}
use opensomeip.E2e.Registry.Names.{find_name, insert_name, erase_name}

pub record E2eProfile : Type 0 where
  pub object : ℕ
  pub profile_id : ℕ
  pub profile_name : List ℕ

pub record E2eProfileRegistry : Type 0 where
  pub profiles_by_id : List (ℕ × E2eProfile)
  pub profiles_by_name : List (List ℕ × E2eProfile)

abbrev pub new_registry : E2eProfileRegistry
new_registry = record { profiles_by_id = []; profiles_by_name = [] }

abbrev pub registered : E2eProfile → E2eProfileRegistry → E2eProfileRegistry
registered p r = record {
  profiles_by_id = insert p.profile_id p r.profiles_by_id;
  profiles_by_name = insert_name p.profile_name p r.profiles_by_name;
}

-- `none` is the null pointer.
unfoldable pub register_profile : Option E2eProfile → E2eProfileRegistry → Bool × E2eProfileRegistry
register_profile none r = (false, r)
register_profile (some p) r = elim (find p.profile_id r.profiles_by_id) [
  | some other ↦ (false, r)
  | none ↦ elim (find_name p.profile_name r.profiles_by_name) [
    | some other ↦ (false, r)
    | none ↦ (true, registered p r)
  ]
]

unfoldable pub get_profile : ℕ → E2eProfileRegistry → Option E2eProfile
get_profile profile_id r = find profile_id r.profiles_by_id

unfoldable pub get_profile_by_name : List ℕ → E2eProfileRegistry → Option E2eProfile
get_profile_by_name profile_name r = find_name profile_name r.profiles_by_name

abbrev pub unregistered : ℕ → E2eProfile → E2eProfileRegistry → E2eProfileRegistry
unregistered profile_id p r = record {
  profiles_by_id = erase profile_id r.profiles_by_id;
  profiles_by_name = erase_name p.profile_name r.profiles_by_name;
}

unfoldable pub unregister_profile : ℕ → E2eProfileRegistry → Bool × E2eProfileRegistry
unregister_profile profile_id r = elim (find profile_id r.profiles_by_id) [
  | none ↦ (false, r)
  | some p ↦ (true, unregistered profile_id p r)
]

unfoldable pub is_registered : ℕ → E2eProfileRegistry → Bool
is_registered profile_id r = elim (find profile_id r.profiles_by_id) [
  | none ↦ false
  | some p ↦ true
]

unfoldable pub get_default_profile : E2eProfileRegistry → Option E2eProfile
get_default_profile r = get_profile 0 r

-- The first of two pointers that is not null.
abbrev pub or_else : Option E2eProfile → Option E2eProfile → Option E2eProfile
or_else (some p) other = some p
or_else none other = other

-- By its id, or by its name, or the default.
unfoldable pub select_profile : E2eConfig → E2eProfileRegistry → Option E2eProfile
select_profile c r =
    or_else (get_profile c.profile_id r)
      (or_else (get_profile_by_name c.profile_name r) (get_default_profile r))

-- The virtual methods, on the state that the profiles have.
module _ {S : Type 0}
    (profile_protect : E2eProfile → Message → E2eConfig → S → Result × Message × S)
    (profile_validate : E2eProfile → Message → E2eConfig → S → Result × S) where
  unfoldable pub protect : E2eProfileRegistry → Message → E2eConfig → S → Result × Message × S
  protect r m c s = elim (select_profile c r) [
    | none ↦ (not_initialized, m, s)
    | some p ↦ profile_protect p m c s
  ]

  -- The profile works on a copy of the message.
  unfoldable pub validate : E2eProfileRegistry → Message → E2eConfig → S → Result × S
  validate r m c s = elim (select_profile c r) [
    | none ↦ (not_initialized, s)
    | some p ↦ profile_validate p m c s
  ]

unfoldable pub extract_header : Message → Option E2eHeader
extract_header m = m.e2e_header

unfoldable pub has_e2e_protection : Message → Bool
has_e2e_protection m = elim m.e2e_header [ none ↦ false | some h ↦ true ]
