-- ===== src/Serialization/Position.antt =====
-- The reader's position stays in its buffer.
use opensomeip.Base.{ℕ, zero, suc, ◌%◌, ◌/◌, ◌!=◌, Bool-cases, inl, inr, if◌then◌else◌, List, arith}
use opensomeip.Result.{malformed_message}
use opensomeip.Serialization.Writer.{padding_needed}
use opensomeip.Serialization.Reader.{
  DeserializationResult, success, error, Deserializer, IsValid, deserialize_array,
  deserialize_dynamic_array, deserialize_bool, deserialize_uint8, deserialize_uint16,
  deserialize_uint32, deserialize_uint64, deserialize_string, read_be_uint16, read_be_uint32,
  read_be_uint64, skip, set_position, align_to,
}

skip-IsValid : (n : ℕ) (d : Deserializer) → IsValid (skip n d)
unfolding skip
skip-IsValid n d = ground arith

align_to-IsValid : (n : ℕ) (d : Deserializer) → IsValid (align_to n d)
unfolding align_to
align_to-IsValid n d = skip-IsValid (padding_needed n d.position) d

set_position-IsValid : (n : ℕ) (d : Deserializer) → IsValid d → IsValid (set_position n d).1
unfolding set_position
set_position-IsValid n d valid = ground arith

deserialize_bool-IsValid : (d : Deserializer) → IsValid d → IsValid (deserialize_bool d).1
unfolding deserialize_bool
deserialize_bool-IsValid d valid = ground arith

deserialize_uint8-IsValid : (d : Deserializer) → IsValid d → IsValid (deserialize_uint8 d).1
unfolding deserialize_uint8
deserialize_uint8-IsValid d valid = ground arith

deserialize_uint16-IsValid : (d : Deserializer) → IsValid d → IsValid (deserialize_uint16 d).1
unfolding deserialize_uint16 read_be_uint16
deserialize_uint16-IsValid d valid = ground arith

deserialize_uint64-IsValid : (d : Deserializer) → IsValid d → IsValid (deserialize_uint64 d).1
unfolding deserialize_uint64 read_be_uint64
deserialize_uint64-IsValid d valid = ground arith

pub deserialize_string-IsValid : (d : Deserializer) → IsValid d → IsValid (deserialize_string d).1
unfolding deserialize_string deserialize_uint32 read_be_uint32 align_to skip
deserialize_string-IsValid d valid = ground arith

deserialize_uint32-IsValid : (d : Deserializer) → IsValid d → IsValid (deserialize_uint32 d).1
unfolding deserialize_uint32 read_be_uint32
deserialize_uint32-IsValid d valid = ground arith

module _ {ℓ} {A : Type ℓ} (deserialize : Deserializer → DeserializationResult A × Deserializer)
    (keeps : (d : Deserializer) → IsValid d → IsValid (deserialize d).1) where
  deserialize_array-IsValid :
      (n : ℕ) (d : Deserializer) → IsValid d → IsValid (deserialize_array deserialize n d).1
  unfolding deserialize_array
  deserialize_array-IsValid zero d valid = valid
  deserialize_array-IsValid (suc n) d valid =
      ground (arith, deserialize_array-IsValid n (deserialize d).1 (keeps d valid), keeps d valid)

  deserialize_dynamic_array-IsValid :
      (n : ℕ) (d : Deserializer) → IsValid d → IsValid (deserialize_dynamic_array deserialize n d).1
  unfolding deserialize_dynamic_array
  deserialize_dynamic_array-IsValid n d valid =
      decided (deserialize_uint32 d).0 (deserialize_uint32 d).1 (deserialize_uint32-IsValid d valid)
    where
      decided :
          (read : DeserializationResult ℕ) (d' : Deserializer)
          → IsValid d'
          → IsValid
              (elim read as (λ r. DeserializationResult (List A) × Deserializer) [
                | error e ↦ (error e, d')
                | success k ↦
                    if k % n != 0
                    then (error malformed_message, d')
                    else deserialize_array deserialize (k / n) d'
              ]).1
      decided (error e) d' ends = ends
      decided (success k) d' ends = elim (Bool-cases (k % n != 0)) [
        | inl odd ↦ rw odd ends
        | inr even ↦ rw even (deserialize_array-IsValid (k / n) d' ends)
      ]

  -- From a position in the buffer, its end included, every read and every move ends at one, with an
  -- error or without; the reads of an array do for every element whose read does.
  pub reads-IsValid :
      (d : Deserializer) (n : ℕ)
      → IsValid d
      → IsValid (deserialize_bool d).1
        × IsValid (deserialize_uint8 d).1
        × IsValid (deserialize_uint16 d).1
        × IsValid (deserialize_uint32 d).1
        × IsValid (deserialize_uint64 d).1
        × IsValid (deserialize_string d).1
        × IsValid (deserialize_array deserialize n d).1
        × IsValid (deserialize_dynamic_array deserialize n d).1
        × IsValid (set_position n d).1
        × IsValid (skip n d)
        × IsValid (align_to n d)
  reads-IsValid d n valid = (
    deserialize_bool-IsValid d valid,
    deserialize_uint8-IsValid d valid,
    deserialize_uint16-IsValid d valid,
    deserialize_uint32-IsValid d valid,
    deserialize_uint64-IsValid d valid,
    deserialize_string-IsValid d valid,
    deserialize_array-IsValid n d valid,
    deserialize_dynamic_array-IsValid n d valid,
    set_position-IsValid n d valid,
    skip-IsValid n d,
    align_to-IsValid n d,
  )
