-- ===== src/Serialization/Tests.antt =====
-- Runs of the writer and the reader, and instances of the theorems.
use opensomeip.Base.{ℕ, ◌<◌, ◌^◌, ◌≡◌, List, [], ◌∷◌, ◌++◌, length, arith}
use opensomeip.Serialization.Writer.{serialize_uint16, serialize_array}
use opensomeip.Serialization.Reader.{
  Deserializer, success, deserialize_uint16, deserialize_uint32, deserialize_uint64,
  deserialize_string, deserialize_array, deserialize_dynamic_array,
}
use opensomeip.Serialization.Reader.{
  IsValid, deserialize_bool, deserialize_uint8, set_position, skip, align_to,
}
use opensomeip.Serialization.Position.{deserialize_string-IsValid, reads-IsValid}
use opensomeip.Serialization.RoundTrip.{at, uint16-Codec}
use opensomeip.Serialization.Arrays.{
  deserialize_array-serialize_array, deserialize_dynamic_array-serialize_array,
}

abbrev words : List ℕ
words = 1 ∷ 2 ∷ 3 ∷ 4 ∷ []

deserialize_array-serialize_array_example :
    (d : Deserializer) × (deserialize_uint32
        (at (serialize_array serialize_uint16 words [] ++ []) 0)
      ≡ (success 4, d))
    × (deserialize_array deserialize_uint16 4 d ≡ (
      success words,
      at
          (serialize_array serialize_uint16 words [] ++ [])
          (length (serialize_array serialize_uint16 words [])),
    ))
deserialize_array-serialize_array_example =
    deserialize_array-serialize_array (λ v. v < 2 ^ 16) serialize_uint16 deserialize_uint16
      uint16-Codec words (omega arith) (omega arith) [] []

-- Four numbers of two bytes each: two come back.
deserialize_dynamic_array-serialize_array_example :
    (deserialize_dynamic_array deserialize_uint16 2
      (at (serialize_array serialize_uint16 words [] ++ []) 0)).0
    ≡ success (1 ∷ 2 ∷ [])
deserialize_dynamic_array-serialize_array_example =
    deserialize_dynamic_array-serialize_array (λ v. v < 2 ^ 16) serialize_uint16 deserialize_uint16
      uint16-Codec words (omega arith) (omega arith) [] [] 2 (omega arith)

-- A string whose length goes past the end of the buffer.
abbrev cut_string : Deserializer
cut_string = at (0 ∷ 0 ∷ 0 ∷ 9 ∷ 0x61 ∷ []) 0

reads-IsValid_example :
    IsValid (deserialize_bool cut_string).1
    × IsValid (deserialize_uint8 cut_string).1
    × IsValid (deserialize_uint16 cut_string).1
    × IsValid (deserialize_uint32 cut_string).1
    × IsValid (deserialize_uint64 cut_string).1
    × IsValid (deserialize_string cut_string).1
    × IsValid (deserialize_array deserialize_string 7 cut_string).1
    × IsValid (deserialize_dynamic_array deserialize_string 7 cut_string).1
    × IsValid (set_position 7 cut_string).1
    × IsValid (skip 7 cut_string)
    × IsValid (align_to 7 cut_string)
reads-IsValid_example =
    reads-IsValid deserialize_string deserialize_string-IsValid cut_string 7 (omega arith)
