-- ===== src/Serialization/Writer.antt =====
-- `Serializer`: each operation as a function of the buffer.
use opensomeip.Base.{
  ℕ, ◌-◌, ◌/◌, ◌%◌, ◌^◌, Bool, if◌then◌else◌, List, [], ◌∷◌, ◌++◌, length, replicate,
}
use opensomeip.Base.Bytes.{be16, be32}

abbrev pub Buffer : Type 0
Buffer = List ℕ

abbrev pub new_serializer : Buffer
new_serializer = []

abbrev pub be64 : ℕ → List ℕ
be64 v = be32 (v / 2 ^ 32) ++ be32 (v % 2 ^ 32)

unfoldable pub append_be_uint16 : ℕ → Buffer → Buffer
append_be_uint16 value s = s ++ be16 value

unfoldable pub append_be_uint32 : ℕ → Buffer → Buffer
append_be_uint32 value s = s ++ be32 value

unfoldable pub append_be_uint64 : ℕ → Buffer → Buffer
append_be_uint64 value s = s ++ be64 value

unfoldable pub serialize_bool : Bool → Buffer → Buffer
serialize_bool value s = s ++ ((if value then 0x01 else 0x00) ∷ [])

-- Also `serialize_int8`.
unfoldable pub serialize_uint8 : ℕ → Buffer → Buffer
serialize_uint8 value s = s ++ (value ∷ [])

-- Also `serialize_int16`.
unfoldable pub serialize_uint16 : ℕ → Buffer → Buffer
unfolding append_be_uint16
serialize_uint16 value s = append_be_uint16 value s

-- Also `serialize_int32` and `serialize_float`.
unfoldable pub serialize_uint32 : ℕ → Buffer → Buffer
unfolding append_be_uint32
serialize_uint32 value s = append_be_uint32 value s

-- Also `serialize_int64` and `serialize_double`.
unfoldable pub serialize_uint64 : ℕ → Buffer → Buffer
unfolding append_be_uint64
serialize_uint64 value s = append_be_uint64 value s

abbrev pub padding_needed : ℕ → ℕ → ℕ
padding_needed alignment size = (alignment - size % alignment) % alignment

unfoldable pub align_to : ℕ → Buffer → Buffer
align_to alignment s = s ++ replicate (padding_needed alignment (length s)) 0x00

unfoldable pub add_padding : ℕ → Buffer → Buffer
add_padding bytes s = s ++ replicate bytes 0x00

unfoldable pub serialize_string : List ℕ → Buffer → Buffer
unfolding serialize_uint32 align_to
serialize_string value s = align_to 4 (serialize_uint32 (length value % 2 ^ 32) s ++ value)

module _ {ℓ} {A : Type ℓ} (serialize : A → Buffer → Buffer) where
  unfoldable pub serialize_elements : List A → Buffer → Buffer
  serialize_elements [] s = s
  serialize_elements (element ∷ array) s = serialize_elements array (serialize element s)

  -- For the operation that the element type chooses.
  unfoldable pub serialize_array : List A → Buffer → Buffer
  unfolding serialize_elements serialize_uint32
  serialize_array array s = serialize_elements array (serialize_uint32 (length array % 2 ^ 32) s)
