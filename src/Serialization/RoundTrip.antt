-- ===== src/Serialization/RoundTrip.antt =====
-- What the reader gets back of what the writer has written, value by value.
use opensomeip.Base.{
  ℕ, ◌+◌, ◌*◌, ◌/◌, ◌%◌, ◌^◌, ◌≤◌, ◌<◌, ◌≡◌, refl, sym, ap, ◌∙◌, arith, Bool, true, false, ge→ltb,
  leb, le→leb, ◌!=◌, if◌then◌else◌, List, [], ◌∷◌, ◌++◌, length, length-append, append_assoc,
  take-length-append, drop-length-append, replicate, length-replicate,
}
use mathlib.Core.Path.{ap₂}
use opensomeip.Base.Bytes.{be16, be32, read32, read16-behind, read32-behind, byte_at-end}
use opensomeip.Serialization.Writer.{
  Buffer, serialize_bool, serialize_uint8, serialize_uint16, serialize_uint32, serialize_uint64,
  serialize_string, append_be_uint16, append_be_uint32, append_be_uint64, padding_needed, be64,
}
use opensomeip.Serialization.Writer as Writer
use opensomeip.Serialization.Reader.{
  DeserializationResult, Deserializer, success, error, deserialize_bool, deserialize_uint8,
  deserialize_uint16, deserialize_uint32, deserialize_uint64, deserialize_string, read_be_uint16,
  read_be_uint32, read_be_uint64, advanced, lacks, skip, read_string,
}
use opensomeip.Serialization.Reader as Reader

-- The reader that stands at a position in a buffer.
abbrev pub at : List ℕ → ℕ → Deserializer
at buffer position = record { buffer = buffer; position = position }

-- A writer appends, and the reader, standing where the value was written, whatever precedes and
-- follows it, returns the value and stands behind it.
pub record Codec {ℓ} {A : Type ℓ} (Fits : A → Type 0) (serialize : A → Buffer → Buffer)
    (deserialize : Deserializer → DeserializationResult A × Deserializer) : Type ℓ where
  pub appends : (v : A) (s : Buffer) → (t : Buffer) × (serialize v s ≡ s ++ t)
  pub reads :
      (v : A)
      → Fits v
      → (s back : Buffer)
      → deserialize (at (serialize v s ++ back) (length s))
        ≡ (success v, at (serialize v s ++ back) (length (serialize v s)))

-- The bytes that a read needs are there.
has_room :
    (s t back : List ℕ) (n : ℕ) → n ≤ length t → lacks n (at ((s ++ t) ++ back) (length s)) ≡ false
has_room s t back n h = ge→ltb _ _ (omega (arith, length-append (s ++ t) back, length-append s t))

abbrev bool_byte : Bool → ℕ
bool_byte v = if v then 0x01 else 0x00

bool_byte-test : (v : Bool) → (bool_byte v != 0x00) ≡ v
bool_byte-test true = refl
bool_byte-test false = refl

pub bool-Codec : Codec (λ v. Unit) serialize_bool deserialize_bool
unfolding serialize_bool deserialize_bool
bool-Codec = record {
  appends = λ v s. (_, refl);
  reads = λ v fits s back.
      rw
        (
          has_room s (bool_byte v ∷ []) back 1 (omega arith),
          append_assoc s (bool_byte v ∷ []) back,
          byte_at-end s (bool_byte v ∷ back),
          length-append s (bool_byte v ∷ []),
          bool_byte-test v,
        )
        refl;
}

pub uint8-Codec : Codec (λ v. v < 256) serialize_uint8 deserialize_uint8
unfolding serialize_uint8 deserialize_uint8
uint8-Codec = record {
  appends = λ v s. (_, refl);
  reads = λ v fits s back.
      rw
        (
          has_room s (v ∷ []) back 1 (omega arith),
          append_assoc s (v ∷ []) back,
          byte_at-end s (v ∷ back),
          length-append s (v ∷ []),
        )
        refl;
}

pub uint16-Codec : Codec (λ v. v < 2 ^ 16) serialize_uint16 deserialize_uint16
unfolding serialize_uint16 deserialize_uint16 append_be_uint16 read_be_uint16
uint16-Codec = record {
  appends = λ v s. (_, refl);
  reads = λ v fits s back.
      rw
        (
          has_room s (be16 v) back 2 (omega arith),
          append_assoc s (be16 v) back,
          read16-behind s back v fits,
          length-append s (be16 v),
        )
        refl;
}

pub uint32-Codec : Codec (λ v. v < 2 ^ 32) serialize_uint32 deserialize_uint32
unfolding serialize_uint32 deserialize_uint32 append_be_uint32 read_be_uint32
uint32-Codec = record {
  appends = λ v s. (_, refl);
  reads = λ v fits s back.
      rw
        (
          has_room s (be32 v) back 4 (omega arith),
          append_assoc s (be32 v) back,
          read32-behind s back v fits,
          length-append s (be32 v),
        )
        refl;
}

-- The eight bytes as two words.
read64-behind :
    (s back : List ℕ) (v : ℕ)
    → v < 2 ^ 64
    → read32 (s ++ (be64 v ++ back)) (length s) * 2 ^ 32
        + read32 (s ++ (be64 v ++ back)) (length s + 4)
      ≡ v
read64-behind s back v fits =
    ap₂ (λ (hi lo : ℕ). hi * 2 ^ 32 + lo)
      (read32-behind s (be32 (v % 2 ^ 32) ++ back) (v / 2 ^ 32) (omega arith)) low
    ∙ omega arith
  where
    low : read32 (s ++ (be64 v ++ back)) (length s + 4) ≡ v % 2 ^ 32
    low =
        ap₂ read32 (sym (append_assoc s (be32 (v / 2 ^ 32)) (be32 (v % 2 ^ 32) ++ back)))
          (sym (length-append s (be32 (v / 2 ^ 32))))
        ∙ read32-behind (s ++ be32 (v / 2 ^ 32)) back (v % 2 ^ 32) (omega arith)

pub uint64-Codec : Codec (λ v. v < 2 ^ 64) serialize_uint64 deserialize_uint64
unfolding serialize_uint64 deserialize_uint64 append_be_uint64 read_be_uint64
uint64-Codec = record {
  appends = λ v s. (_, refl);
  reads = λ v fits s back.
      rw
        (
          has_room s (be64 v) back 8 (omega arith),
          append_assoc s (be64 v) back,
          read64-behind s back v fits,
          length-append s (be64 v),
        )
        refl;
}

-- A 64-bit value comes back, whatever precedes and follows it, and the reader stands behind it.
pub deserialize_uint64-serialize_uint64 :
    (v : ℕ) (s back : Buffer)
    → v < 2 ^ 64
    → deserialize_uint64 (at (serialize_uint64 v s ++ back) (length s))
      ≡ (success v, at (serialize_uint64 v s ++ back) (length (serialize_uint64 v s)))
deserialize_uint64-serialize_uint64 v s back fits = uint64-Codec.reads v fits s back

-- The characters and the padding, for a length that has been read.
read_string-behind :
    (front v back : List ℕ) (pads : List ℕ)
    → length pads ≡ padding_needed 4 (length front + length v)
    → read_string (success (length v), at (front ++ (v ++ (pads ++ back))) (length front))
      ≡ (success v, at (front ++ (v ++ (pads ++ back))) (length front + length v + length pads))
unfolding Reader.align_to skip
read_string-behind front v back pads e =
    rw
      (
        enough,
        drop-length-append front (v ++ (pads ++ back)),
        take-length-append v (pads ++ back),
        sym e,
        inside,
      )
      refl
  where
    sizes :
        length (front ++ (v ++ (pads ++ back)))
        ≡ length front + (length v + (length pads + length back))
    sizes = omega (
      arith,
      length-append front (v ++ (pads ++ back)),
      length-append v (pads ++ back),
      length-append pads back,
    )

    enough : lacks (length v) (at (front ++ (v ++ (pads ++ back))) (length front)) ≡ false
    enough = ge→ltb _ _ (omega (arith, sizes))

    inside :
        leb (length front + length v + length pads) (length (front ++ (v ++ (pads ++ back)))) ≡ true
    inside = le→leb _ _ (omega (arith, sizes))

module _ (v : List ℕ) (fits : length v < 2 ^ 32) (s back : Buffer) where
  abbrev front : Buffer
  front = serialize_uint32 (length v) s

  abbrev pads : List ℕ
  pads = replicate (padding_needed 4 (length (front ++ v))) 0x00

  layout : serialize_string v s ≡ (front ++ v) ++ pads
  unfolding serialize_string Writer.align_to
  layout =
      ap
        (λ (n : ℕ).
          (serialize_uint32 n s ++ v)
          ++ replicate (padding_needed 4 (length (serialize_uint32 n s ++ v))) 0x00)
        narrow
    where
      narrow : length v % 2 ^ 32 ≡ length v
      narrow = omega arith

  buffer_layout : serialize_string v s ++ back ≡ front ++ (v ++ (pads ++ back))
  buffer_layout =
      ap (λ b. b ++ back) layout
      ∙ append_assoc (front ++ v) pads back
      ∙ append_assoc front v (pads ++ back)

  pub deserialize_string-serialize_string :
      deserialize_string (at (serialize_string v s ++ back) (length s))
      ≡ (success v, at (serialize_string v s ++ back) (length (serialize_string v s)))
  unfolding deserialize_string
  deserialize_string-serialize_string =
      ap (λ b. deserialize_string (at b (length s))) buffer_layout
      ∙ ap read_string (uint32-Codec.reads (length v) fits s (v ++ (pads ++ back)))
      ∙ read_string-behind front v back pads padded
      ∙ ap₂ (λ (b : List ℕ) (i : ℕ). (success v, at b i)) (sym buffer_layout) ends
    where
      padded : length pads ≡ padding_needed 4 (length front + length v)
      padded =
          length-replicate (padding_needed 4 (length (front ++ v))) 0x00
          ∙ ap (padding_needed 4) (length-append front v)

      ends : length front + length v + length pads ≡ length (serialize_string v s)
      ends =
          omega (arith, length-append front v, length-append (front ++ v) pads)
          ∙ sym (ap length layout)

pub string-Codec : Codec (λ v. length v < 2 ^ 32) serialize_string deserialize_string
string-Codec = record {
  appends = λ v s. string-appends v s;
  reads = λ v fits s back. deserialize_string-serialize_string v fits s back;
}
  where
    string-appends : (v : List ℕ) (s : Buffer) → (t : Buffer) × (serialize_string v s ≡ s ++ t)
    string-appends v s =
        unfold serialize_string serialize_uint32 append_be_uint32 Writer.align_to in
        (
          _,
          append_assoc (s ++ be32 (length v % 2 ^ 32)) v _
              ∙ append_assoc s (be32 (length v % 2 ^ 32)) _,
        )
