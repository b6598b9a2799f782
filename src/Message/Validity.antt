-- ===== src/Message/Validity.antt =====
-- What `is_valid` accepts, stated without its tests.
use opensomeip.Base.{ℕ, ◌+◌, ◌≤◌, ◌≡◌, ◌≢◌, ◌⊎◌, ◌↔◌, true, arith, length}
use opensomeip.Message.{Message, is_valid, has_valid_message_type, e2e_size}

-- Plain requests and notifications, their segmented forms, acknowledged requests, and the two
-- kinds of answer, plain and acknowledged.
abbrev pub IsKnownType : ℕ → Type 0
IsKnownType t =
    (t ≤ 0x02)
    ⊎ ((0x20 ≤ t) × (t ≤ 0x22))
    ⊎ (t ≡ 0x40)
    ⊎ ((0x80 ≤ t) × (t ≤ 0x81))
    ⊎ ((0xc0 ≤ t) × (t ≤ 0xc1))

pub record IsValid (m : Message) : Type 0 where
  pub method_allowed : m.message_id.method_id ≢ 0xffff
  pub known_type : IsKnownType m.message_type
  pub protocol : m.protocol_version ≡ 1
  pub interface : m.interface_version ≡ 1
  pub known_code : m.return_code ≤ 0x0f
  pub length_exact : m.length ≡ 8 + e2e_size m.e2e_header + length m.payload
  pub payload_fits : length m.payload ≤ 65535

has_valid_message_type_iff :
    (m : Message) → (has_valid_message_type m ≡ true) ↔ IsKnownType m.message_type
unfolding has_valid_message_type
has_valid_message_type_iff m = (λ h. ground arith, λ h. ground arith)

pub is_valid_sound : (m : Message) → is_valid m ≡ true → IsValid m
unfolding is_valid
is_valid_sound m h = ground (arith, has_valid_message_type_iff m)

pub is_valid_complete : (m : Message) → IsValid m → is_valid m ≡ true
unfolding is_valid
is_valid_complete m v = ground (arith, has_valid_message_type_iff m)

-- `is_valid` accepts exactly the messages of a known type, with protocol and interface version 1 and a
-- return code of at most 0x0f, whatever the service id and whatever type goes with the code, whose
-- method is not 0xffff, whose length field counts what follows it and whose payload has at most 65535
-- bytes.
pub is_valid_iff : (m : Message) → (is_valid m ≡ true) ↔ IsValid m
is_valid_iff m = (is_valid_sound m, is_valid_complete m)
