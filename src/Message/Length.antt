-- ===== src/Message/Length.antt =====
-- The size of the byte image, and what a move leaves.
use opensomeip.Base.{
  ◌+◌, ◌≡◌, refl, true, false, ◌∙◌, Option, none, some, arith, length, length-append,
}
use opensomeip.E2e.Header.{E2eHeader}
use opensomeip.E2e.Header as Header
use opensomeip.Message.{
  Message, e2e_size, e2e_bytes, get_total_size, move_construct, serialize, is_valid,
}
use opensomeip.Message.Validity.{IsValid, is_valid_sound}

length-e2e_bytes : (h : Option E2eHeader) → length (e2e_bytes h) ≡ e2e_size h
length-e2e_bytes none = refl
length-e2e_bytes (some h) = Header.length-serialize h

length-serialize_total : (m : Message) → length (serialize m) ≡ get_total_size m
unfolding serialize get_total_size
length-serialize_total m =
    omega (arith, length-append (e2e_bytes m.e2e_header) m.payload, length-e2e_bytes m.e2e_header)

valid-total : (m : Message) → is_valid m ≡ true → get_total_size m ≡ 8 + m.length
unfolding get_total_size
valid-total m v = let valid = is_valid_sound m v in omega arith

-- `serialize` writes `get_total_size` bytes, and for a valid message 8 more than its length field.
pub length-serialize :
    (m : Message)
    → (length (serialize m) ≡ get_total_size m)
      × (is_valid m ≡ true → length (serialize m) ≡ 8 + m.length)
length-serialize m = (length-serialize_total m, λ v. length-serialize_total m ∙ valid-total m v)

moved_from-invalid : (m : Message) → is_valid (move_construct m).1 ≡ false
unfolding move_construct is_valid
moved_from-invalid m = ground arith

move_construct-same : (m : Message) → IsValid m → (move_construct m).0 ≡ m
unfolding move_construct
move_construct-same m v = ground arith

-- A move hands a valid message over unchanged, and leaves one that no longer passes `is_valid`.
pub move_construct_lem :
    (m : Message)
    → (is_valid m ≡ true → (move_construct m).0 ≡ m) × (is_valid (move_construct m).1 ≡ false)
move_construct_lem m = (λ v. move_construct-same m (is_valid_sound m v), moved_from-invalid m)
