-- ===== src/Serialization/Arrays.antt =====
-- Arrays of any element type that has a codec.
use opensomeip.Base.{
  ℕ, suc, ◌/◌, ◌%◌, ◌^◌, ◌≤◌, ◌<◌, ◌≡◌, refl, sym, ap, ◌∙◌, arith, true, false, ◌!=◌, ◌==◌,
  Bool-cases, inl, inr, if◌then◌else◌, List, [], ◌∷◌, ◌++◌, length, take, drop, append_assoc,
  append_nil, All, All-take, take-append-drop, length-take,
}
use mathlib.Core.Path.{ap₂}
use opensomeip.Result.{malformed_message}
use opensomeip.Serialization.Writer.{Buffer, serialize_elements, serialize_array, serialize_uint32}
use opensomeip.Serialization.Reader.{
  DeserializationResult, Deserializer, success, error, deserialize_uint32, deserialize_array,
  deserialize_dynamic_array,
}
use opensomeip.Serialization.RoundTrip.{Codec, at, uint32-Codec}

unequal : (a : ℕ) → (a == 0) ≡ false → (a != 0) ≡ true
unequal a h = ground arith

equal : (a : ℕ) → (a == 0) ≡ true → (a != 0) ≡ false
equal a h = ground arith

quotient_le : (n size : ℕ) → 0 < size → n / size ≤ n
quotient_le n size pos = grind arith

module _ {ℓ} {A : Type ℓ} (Fits : A → Type 0) (serialize : A → Buffer → Buffer)
    (deserialize : Deserializer → DeserializationResult A × Deserializer)
    (codec : Codec Fits serialize deserialize) where
  elements-append :
      (array : List A) (s : Buffer) → (t : Buffer) × (serialize_elements serialize array s ≡ s ++ t)
  unfolding serialize_elements
  elements-append [] s = ([], sym (append_nil s))
  elements-append (a ∷ array) s =
      let (t, e) = codec.appends a s in
      let (u, f) = elements-append array (serialize a s) in
      (t ++ u, f ∙ ap (λ b. b ++ u) e ∙ append_assoc s t u)

  read_step :
      (n : ℕ) (a : A) (rest : List A) (d d' d'' : Deserializer)
      → deserialize d ≡ (success a, d')
      → deserialize_array deserialize n d' ≡ (success rest, d'')
      → deserialize_array deserialize (suc n) d ≡ (success (a ∷ rest), d'')
  unfolding deserialize_array
  read_step n a rest d d' d'' one others =
      rw
        (
          deserialize_array,
          one,
          ap (λ (r : DeserializationResult A × Deserializer). r.1) one,
          others,
        )
        refl

  -- The first element of those that were written.
  read_first :
      (a : A) (array : List A)
      → Fits a
      → (s back : Buffer)
      → deserialize (at (serialize_elements serialize array (serialize a s) ++ back) (length s)) ≡ (
        success a,
        at (serialize_elements serialize array (serialize a s) ++ back) (length (serialize a s)),
      )
  read_first a array fits s back =
      let (u, f) = elements-append array (serialize a s) in
      let e : serialize_elements serialize array (serialize a s) ++ back
          ≡ serialize a s ++ (u ++ back) =
        ap (λ b. b ++ back) f ∙ append_assoc (serialize a s) u back in
      ap (λ b. deserialize (at b (length s))) e
      ∙ codec.reads a fits s (u ++ back)
      ∙ ap (λ b. (success a, at b (length (serialize a s)))) (sym e)

  -- The elements come back one by one.
  elements_read :
      (array : List A)
      → All Fits array
      → (s back : Buffer)
      → deserialize_array deserialize
          (length array)
          (at (serialize_elements serialize array s ++ back) (length s))
        ≡ (
          success array,
          at
              (serialize_elements serialize array s ++ back)
              (length (serialize_elements serialize array s)),
        )
  unfolding serialize_elements deserialize_array
  elements_read [] fits s back = refl
  elements_read (a ∷ array) fits s back =
      read_step (length array) a array _ _ _ (read_first a array fits.0 s back)
        (elements_read array fits.1 (serialize a s) back)

  length_read :
      (array : List A)
      → length array < 2 ^ 32
      → (s back : Buffer)
      → deserialize_uint32 (at (serialize_array serialize array s ++ back) (length s)) ≡ (
        success (length array),
        at
            (serialize_array serialize array s ++ back)
            (length (serialize_uint32 (length array % 2 ^ 32) s)),
      )
  unfolding serialize_array
  length_read array small s back =
      ap (λ (n : ℕ). deserialize_uint32 (at (written n ++ back) (length s))) narrow
      ∙ ap (λ b. deserialize_uint32 (at b (length s))) e
      ∙ uint32-Codec.reads (length array) small s (u ++ back)
      ∙ ap (λ b. (success (length array), at b (length (serialize_uint32 (length array) s))))
          (sym e)
      ∙ ap
          (λ (n : ℕ).
            (success (length array), at (written n ++ back) (length (serialize_uint32 n s))))
          (sym narrow)
    where
      written : ℕ → Buffer
      written n = serialize_elements serialize array (serialize_uint32 n s)

      narrow : length array % 2 ^ 32 ≡ length array
      narrow = omega arith

      u : Buffer
      u = (elements-append array (serialize_uint32 (length array) s)).0

      e : written (length array) ++ back ≡ serialize_uint32 (length array) s ++ (u ++ back)
      e =
          ap (λ b. b ++ back) (elements-append array (serialize_uint32 (length array) s)).1
          ∙ append_assoc (serialize_uint32 (length array) s) u back

  -- An array that was written with its length comes back whole, by a read of the length and one of
  -- that many elements, whatever precedes and follows it.
  pub deserialize_array-serialize_array :
      (array : List A)
      → All Fits array
      → length array < 2 ^ 32
      → (s back : Buffer)
      → (d : Deserializer) × (deserialize_uint32
            (at (serialize_array serialize array s ++ back) (length s))
          ≡ (success (length array), d))
        × (deserialize_array deserialize (length array) d ≡ (
          success array,
          at
              (serialize_array serialize array s ++ back)
              (length (serialize_array serialize array s)),
        ))
  unfolding serialize_array
  deserialize_array-serialize_array array fits small s back = (
    _,
    length_read array small s back,
    elements_read array fits (serialize_uint32 (length array % 2 ^ 32) s) back,
  )

  serialize_elements-append :
      (xs ys : List A) (s : Buffer)
      → serialize_elements serialize (xs ++ ys) s
        ≡ serialize_elements serialize ys (serialize_elements serialize xs s)
  unfolding serialize_elements
  serialize_elements-append [] ys s = refl
  serialize_elements-append (x ∷ xs) ys s = serialize_elements-append xs ys (serialize x s)

  -- A read of fewer elements than were written.
  elements_read_front :
      (k : ℕ) (array : List A)
      → k ≤ length array
      → All Fits array
      → (s back : Buffer)
      → (deserialize_array deserialize k
          (at (serialize_elements serialize array s ++ back) (length s))).0
        ≡ success (take k array)
  elements_read_front k array le fits s back =
      ap₂ (λ (n : ℕ) b. (deserialize_array deserialize n (at b (length s))).0) (sym taken) split
      ∙ ap (λ (r : DeserializationResult (List A) × Deserializer). r.0)
          (elements_read (take k array) (All-take Fits k array fits) s (u ++ back))
    where
      taken : length (take k array) ≡ k
      taken = omega (arith, length-take k array)

      after : Buffer
      after = serialize_elements serialize (take k array) s

      u : Buffer
      u = (elements-append (drop k array) after).0

      split : serialize_elements serialize array s ++ back ≡ after ++ (u ++ back)
      split =
          ap (λ xs. serialize_elements serialize xs s ++ back) (sym (take-append-drop k array))
          ∙ ap (λ b. b ++ back)
              (serialize_elements-append (take k array) (drop k array) s
                ∙ (elements-append (drop k array) after).1)
          ∙ append_assoc after u back

  dynamic_step :
      (size n : ℕ) (d d' : Deserializer)
      → deserialize_uint32 d ≡ (success n, d')
      → deserialize_dynamic_array deserialize size d ≡ (
          if n % size != 0
          then (error malformed_message, d')
          else deserialize_array deserialize (n / size) d')
  unfolding deserialize_dynamic_array deserialize_array
  dynamic_step size n d d' e =
      rw (deserialize_dynamic_array, e, ap (λ (r : DeserializationResult ℕ × Deserializer). r.1) e)
        refl

  -- The dynamic read takes the number of elements that was written for a number of bytes: for an
  -- element size that does not divide it the array is refused, and for one that does, only that
  -- fraction of the elements comes back.
  pub deserialize_dynamic_array-serialize_array :
      (array : List A)
      → All Fits array
      → length array < 2 ^ 32
      → (s back : Buffer) (size : ℕ) → 0 < size
      → (deserialize_dynamic_array deserialize size
          (at (serialize_array serialize array s ++ back) (length s))).0
        ≡ (if length array % size == 0
            then success (take (length array / size) array)
            else error malformed_message)
  unfolding serialize_array
  deserialize_dynamic_array-serialize_array array fits small s back size pos =
      ap (λ (r : DeserializationResult (List A) × Deserializer). r.0)
        (dynamic_step size (length array) _ _ (length_read array small s back))
      ∙ elim (Bool-cases (length array % size == 0)) [
        | inl even ↦
            rw (even, equal (length array % size) even)
              (elements_read_front (length array / size) array (quotient_le (length array) size pos)
                fits (serialize_uint32 (length array % 2 ^ 32) s) back)
        | inr odd ↦ rw (odd, unequal (length array % size) odd) refl
      ]
