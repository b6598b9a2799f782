-- ===== src/Serialization/Reader.antt =====
-- `Deserializer`: each operation as a function of the buffer and the position.
use opensomeip.Base.{
  ℕ, zero, suc, ◌+◌, ◌*◌, ◌/◌, ◌%◌, ◌^◌, ◌≤◌, min, Bool, true, false, ltb, leb, ◌!=◌, if◌then◌else◌,
  List, [], ◌∷◌, length, take, drop, Option, none, some,
}
use opensomeip.Base.Bytes.{byte_at, read16, read32}
use opensomeip.Result.{Result, malformed_message}
use opensomeip.Serialization.Writer.{padding_needed}

pub data DeserializationResult {ℓ} (A : Type ℓ) : Type ℓ where
  success : A → DeserializationResult A
  error : Result → DeserializationResult A

pub record Deserializer : Type 0 where
  pub buffer : List ℕ
  pub position : ℕ

abbrev pub new_deserializer : List ℕ → Deserializer
new_deserializer bytes = record { buffer = bytes; position = 0 }

abbrev pub advanced : ℕ → Deserializer → Deserializer
advanced n d = record d { position = d.position + n }

abbrev pub IsValid : Deserializer → Type 0
IsValid d = d.position ≤ length d.buffer

-- `position_ + size > buffer_.size()`
abbrev pub lacks : ℕ → Deserializer → Bool
lacks size d = ltb (length d.buffer) (d.position + size)

unfoldable pub read_be_uint16 : Deserializer → Option ℕ × Deserializer
read_be_uint16 d =
    if lacks 2 d then (none, d) else (some (read16 d.buffer d.position), advanced 2 d)

unfoldable pub read_be_uint32 : Deserializer → Option ℕ × Deserializer
read_be_uint32 d =
    if lacks 4 d then (none, d) else (some (read32 d.buffer d.position), advanced 4 d)

unfoldable pub read_be_uint64 : Deserializer → Option ℕ × Deserializer
read_be_uint64 d = if lacks 8 d then (none, d) else (
  some (read32 d.buffer d.position * 2 ^ 32 + read32 d.buffer (d.position + 4)),
  advanced 8 d,
)

abbrev or_malformed : Option ℕ × Deserializer → DeserializationResult ℕ × Deserializer
or_malformed (none, d) = (error malformed_message, d)
or_malformed (some v, d) = (success v, d)

unfoldable pub deserialize_bool : Deserializer → DeserializationResult Bool × Deserializer
deserialize_bool d =
    if lacks 1 d
    then (error malformed_message, d)
    else (success (byte_at d.buffer d.position != 0x00), advanced 1 d)

-- Also `deserialize_int8`.
unfoldable pub deserialize_uint8 : Deserializer → DeserializationResult ℕ × Deserializer
deserialize_uint8 d =
    if lacks 1 d
    then (error malformed_message, d)
    else (success (byte_at d.buffer d.position), advanced 1 d)

-- Also `deserialize_int16`.
unfoldable pub deserialize_uint16 : Deserializer → DeserializationResult ℕ × Deserializer
unfolding read_be_uint16
deserialize_uint16 d = or_malformed (read_be_uint16 d)

-- Also `deserialize_int32` and `deserialize_float`.
unfoldable pub deserialize_uint32 : Deserializer → DeserializationResult ℕ × Deserializer
unfolding read_be_uint32
deserialize_uint32 d = or_malformed (read_be_uint32 d)

-- Also `deserialize_int64` and `deserialize_double`.
unfoldable pub deserialize_uint64 : Deserializer → DeserializationResult ℕ × Deserializer
unfolding read_be_uint64
deserialize_uint64 d = or_malformed (read_be_uint64 d)

unfoldable pub set_position : ℕ → Deserializer → Bool × Deserializer
set_position pos d =
    if leb pos (length d.buffer) then (true, record d { position = pos }) else (false, d)

-- The sum is a `size_t`. A buffer has fewer than 2 ^ 64 bytes, so that no sum within it wraps.
unfoldable pub skip : ℕ → Deserializer → Deserializer
skip bytes d =
    let sum = d.position + bytes in
    if leb sum (length d.buffer)
    then record d { position = sum }
    else record d { position = min (sum % 2 ^ 64) (length d.buffer) }

unfoldable pub align_to : ℕ → Deserializer → Deserializer
unfolding skip
align_to alignment d = skip (padding_needed alignment d.position) d

abbrev pub read_string :
    DeserializationResult ℕ × Deserializer → DeserializationResult (List ℕ) × Deserializer
read_string (error e, d) = (error e, d)
read_string (success len, d) =
    if lacks len d
    then (error malformed_message, d)
    else (success (take len (drop d.position d.buffer)), align_to 4 (advanced len d))

unfoldable pub deserialize_string : Deserializer → DeserializationResult (List ℕ) × Deserializer
unfolding deserialize_uint32
deserialize_string d = read_string (deserialize_uint32 d)

module _ {ℓ} {A : Type ℓ}
    (deserialize : Deserializer → DeserializationResult A × Deserializer) where
  abbrev cons_result :
      A
      → DeserializationResult (List A) × Deserializer
      → DeserializationResult (List A) × Deserializer
  cons_result a (error e, d) = (error e, d)
  cons_result a (success rest, d) = (success (a ∷ rest), d)

  -- For the operation that the element type chooses.
  unfoldable pub deserialize_array :
      ℕ → Deserializer → DeserializationResult (List A) × Deserializer
  deserialize_array zero d = (success [], d)
  deserialize_array (suc len) d =
      let (element, d') = deserialize d in
      let rest = deserialize_array len d' in
      elim element [ error e ↦ (error e, d') | success a ↦ cons_result a rest ]

  -- The length is read as a number of bytes; `element_size` is `sizeof(T)`.
  unfoldable pub deserialize_dynamic_array :
      ℕ → Deserializer → DeserializationResult (List A) × Deserializer
  unfolding deserialize_uint32
  deserialize_dynamic_array element_size d =
      let (byte_length, d') = deserialize_uint32 d in
      elim byte_length [
        | error e ↦ (error e, d')
        | success n ↦
            if n % element_size != 0
            then (error malformed_message, d')
            else deserialize_array (n / element_size) d'
      ]
