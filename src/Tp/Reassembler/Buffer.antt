-- ===== src/Tp/Reassembler/Buffer.antt =====
-- A reassembly buffer that has received the payload up to an offset.
use opensomeip.Base.{
  ℕ, zero, suc, ◌+◌, ◌-◌, ◌%◌, ◌^◌, ◌<◌, ◌≡◌, refl, sym, ap, ◌∙◌, arith, Bool, true, false, ltb,
  ◌==◌, List, [], ◌∷◌, ◌++◌, length, take, drop, get_or, replicate, length-take, length-drop,
  length-replicate, length-append, append_nil, append_assoc, take-length-append,
}
use mathlib.Core.Path.{ap₂}
use native.Mathlib.Numerals.{unary_clauses}
use opensomeip.Tp.{TpSegment}
use opensomeip.Tp.Reassembler.{
  TpReassemblyBuffer, add_segment_to_buffer, header_overhead, copy_position, copy_to,
  is_segment_received, mark_segment_received, all_received, set_flag, set_flags, resize_flags,
  all_true, is_complete, new_buffer,
}

suc_shift : (a b : ℕ) → suc a + b ≡ suc (a + b)
suc_shift a b = omega arith

shift_suc : (a b : ℕ) → suc a + b ≡ a + suc b
shift_suc a b = omega arith

none_left : (n : ℕ) → 0 ≡ 0 - suc n
none_left n = omega arith

module _ {ℓ} {A : Type ℓ} where
  replicate_shift :
      (n : ℕ) (a : A) (xs : List A) → replicate n a ++ (a ∷ xs) ≡ a ∷ (replicate n a ++ xs)
  replicate_shift zero a xs = refl
  replicate_shift (suc n) a xs = ap (◌∷◌ a) (replicate_shift n a xs)

  get_or-replicate :
      (n : ℕ) (a d : A) (xs : List A) → get_or (replicate n a ++ xs) n d ≡ get_or xs 0 d
  get_or-replicate zero a d xs = refl
  get_or-replicate (suc n) a d xs = get_or-replicate n a d xs

  drop_nil : (n : ℕ) → ◌≡◌ {A = List A} (drop n []) []
  drop_nil zero = refl
  drop_nil (suc n) = refl

  take_nil : (n : ℕ) → ◌≡◌ {A = List A} (take n []) []
  take_nil zero = refl
  take_nil (suc n) = refl

  drop-drop : (n k : ℕ) (xs : List A) → drop n (drop k xs) ≡ drop (k + n) xs
  drop-drop n zero xs = ground arith
  drop-drop n (suc k) [] = drop_nil n ∙ sym (drop_nil _)
  drop-drop n (suc k) (x ∷ xs) =
      drop-drop n k xs ∙ sym (ap (λ (i : ℕ). drop i (x ∷ xs)) (suc_shift k n))

  take-add : (n k : ℕ) (xs : List A) → take n xs ++ take k (drop n xs) ≡ take (n + k) xs
  take-add zero k xs = ap (λ (i : ℕ). take i xs) (omega arith)
  take-add (suc n) k [] = rw (take_nil k, take_nil (suc n + k)) refl
  take-add (suc n) k (x ∷ xs) =
      ap (◌∷◌ x) (take-add n k xs) ∙ sym (ap (λ (i : ℕ). take i (x ∷ xs)) (suc_shift n k))

  drop-append : (n : ℕ) (xs ys : List A) → drop (length xs + n) (xs ++ ys) ≡ drop n ys
  drop-append n [] ys = ap (λ (i : ℕ). drop i ys) (omega arith)
  drop-append n (x ∷ xs) ys =
      ap (λ (i : ℕ). drop i (x ∷ (xs ++ ys))) (suc_shift (length xs) n) ∙ drop-append n xs ys

  drop-replicate : (n k : ℕ) (a : A) → drop n (replicate k a) ≡ replicate (k - n) a
  drop-replicate zero k a = ap (λ (i : ℕ). replicate i a) (omega arith)
  drop-replicate (suc n) zero a = ap (λ (i : ℕ). replicate i a) (none_left n)
  drop-replicate (suc n) (suc k) a = simp unary_clauses (drop-replicate n k a)

set_flag-front :
    (o : ℕ) (f : Bool) (fs : List Bool)
    → set_flag o (replicate o true ++ (f ∷ fs)) ≡ replicate o true ++ (true ∷ fs)
unfolding set_flag
set_flag-front zero f fs = refl
set_flag-front (suc o) f fs = ap (◌∷◌ true) (set_flag-front o f fs)

-- The flags of a buffer that holds the first `o` bytes and lacks `k`.
abbrev pub flags_at : ℕ → ℕ → List Bool
flags_at o k = replicate o true ++ replicate k false

set_flags-front : (n o k : ℕ) → set_flags o n (flags_at o (n + k)) ≡ flags_at (o + n) k
unfolding set_flags
set_flags-front zero o k = ap₂ (λ (i j : ℕ). flags_at i j) (omega arith) (omega arith)
set_flags-front (suc n) o k =
    ap (λ (i : ℕ). set_flags (suc o) n (set_flag o (flags_at o i))) (suc_shift n k)
    ∙ ap (set_flags (suc o) n) (
        set_flag-front o false (replicate (n + k) false)
        ∙ replicate_shift o true (replicate (n + k) false))
    ∙ set_flags-front n (suc o) k
    ∙ ap (λ (i : ℕ). flags_at i k) (shift_suc o n)

all_true-front : (o k : ℕ) → all_true (flags_at o k) ≡ (k == 0)
unfolding all_true
all_true-front zero zero = refl
all_true-front zero (suc k) = ground arith
all_true-front (suc o) k = all_true-front o k

all_received-front : (o k n : ℕ) → 0 < n → all_received (flags_at o k) o n ≡ false
unfolding all_received
all_received-front o k zero pos = absurd (omega arith)
all_received-front o zero (suc n) pos = ground (arith, get_or-replicate o true false [])
all_received-front o (suc k) (suc n) pos =
    ground (arith, get_or-replicate o true false (false ∷ replicate k false))

-- A copy of `n` bytes of the payload behind those that are there.
copy_to-front :
    (o n k : ℕ) (p : List ℕ)
    → length p ≡ o + (n + k)
    → copy_to o (take n (drop o p)) (take o p ++ replicate (n + k) 0)
      ≡ take (o + n) p ++ replicate k 0
copy_to-front o n k p h =
    ap₂ (◌++◌)
      (ap (λ (i : ℕ). take i (take o p ++ replicate (n + k) 0)) (sym front)
        ∙ take-length-append (take o p) _)
      (ap (λ (i : ℕ). take n (drop o p) ++ drop i (take o p ++ replicate (n + k) 0)) ends
        ∙ ap (◌++◌ (take n (drop o p))) (
            drop-append n (take o p) (replicate (n + k) 0)
            ∙ drop-replicate n (n + k) 0
            ∙ ap (λ (i : ℕ). replicate i 0) (omega arith)))
    ∙ sym (append_assoc (take o p) (take n (drop o p)) (replicate k 0))
    ∙ ap (λ q. q ++ replicate k 0) (take-add o n p)
  where
    front : length (take o p) ≡ o
    front = omega (arith, length-take o p)

    ends : o + length (take n (drop o p)) ≡ length (take o p) + n
    ends = omega (arith, length-take o p, length-take n (drop o p), length-drop o p)

-- A buffer that was made at `t` and holds the first `o` bytes of `p`, with `k` to come.
abbrev pub buffer_at : ℕ → ℕ → List ℕ → ℕ → ℕ → ℕ → TpReassemblyBuffer
buffer_at sequence t p o k last = record {
  message_id = sequence;
  total_length = length p;
  received_data = take o p ++ replicate k 0;
  received_segments = flags_at o k;
  start_time = t;
  last_sequence_number = last;
  complete = false;
}

-- A segment that carries the `n` bytes of `p` from `o` on.
pub record Carries (p : List ℕ) (sequence o n : ℕ) (s : TpSegment) : Type 0 where
  pub offset : s.header.segment_offset ≡ o
  pub position : copy_position s.header ≡ o
  pub bytes : drop (header_overhead s.header.message_type) s.payload ≡ take n (drop o p)
  pub number : s.header.sequence_number ≡ sequence

module _ (p : List ℕ) (sequence t o n k : ℕ) (s : TpSegment) (carries : Carries p sequence o n s)
    (pos : 0 < n) (whole : length p ≡ o + (n + k)) (small : length p < 2 ^ 16) where
  carried : length (take n (drop o p)) ≡ n
  carried = omega (arith, length-take n (drop o p), length-drop o p)

  -- The flags may not have been made yet.
  add_segment-flags :
      (last : ℕ) (flags : List Bool)
      → all_received flags o n ≡ false
      → resize_flags (length p) flags ≡ flags_at o (n + k)
      → add_segment_to_buffer s
          (record (buffer_at sequence t p o (n + k) last) { received_segments = flags })
        ≡ (true, buffer_at sequence t p (o + n) k sequence)
  unfolding add_segment_to_buffer is_segment_received mark_segment_received
  add_segment-flags last flags missing resized =
      rw
        (
          carries.bytes, carries.position, carries.offset, carries.number, carried, narrow, missing,
          inside, resized,
        )
        (ap₂
          (λ d f. (
            true,
            record (buffer_at sequence t p (o + n) k sequence) {
              received_data = d;
              received_segments = f;
            },
          ))
          copied (set_flags-front n o k))
    where
      copied :
          take o (take o p ++ replicate (n + k) 0)
            ++ (take n (drop o p) ++ drop (o + n) (take o p ++ replicate (n + k) 0))
          ≡ take (o + n) p ++ replicate k 0
      copied =
          ap
            (λ (i : ℕ).
              take o (take o p ++ replicate (n + k) 0)
              ++ (take n (drop o p) ++ drop (o + i) (take o p ++ replicate (n + k) 0)))
            (sym carried)
          ∙ copy_to-front o n k p whole

      narrow : n % 2 ^ 16 ≡ n
      narrow = omega arith

      inside : ltb (length p) (o + n) ≡ false
      inside = ground arith

  pub add_segment-front :
      (last : ℕ)
      → add_segment_to_buffer s (buffer_at sequence t p o (n + k) last)
        ≡ (true, buffer_at sequence t p (o + n) k sequence)
  add_segment-front last =
      add_segment-flags last (flags_at o (n + k)) (all_received-front o (n + k) n pos) (
        ap (λ (i : ℕ). flags_at o (n + k) ++ replicate i false) full
        ∙ append_nil (flags_at o (n + k)))
    where
      full : length p - length (flags_at o (n + k)) ≡ 0
      full = omega (
        arith,
        length-append (replicate o true) (replicate (n + k) false),
        length-replicate o true,
        length-replicate (n + k) false,
      )

-- The first segment of a message, in a new buffer.
pub add_segment-new :
    (p : List ℕ) (sequence t n k : ℕ) (s : TpSegment)
    → Carries p sequence 0 n s
    → 0 < n
    → length p ≡ n + k
    → length p < 2 ^ 16
    → add_segment_to_buffer s (new_buffer t sequence (length p))
      ≡ (true, buffer_at sequence t p n k sequence)
unfolding new_buffer
add_segment-new p sequence t n k s carries pos whole small =
    ap
      (λ (i : ℕ).
        add_segment_to_buffer s (record (buffer_at sequence t p 0 i 0) { received_segments = [] }))
      whole
    ∙ add_segment-flags p sequence t 0 n k s carries pos (omega arith) small 0 [] (none_yet n pos)
        (ap (λ (i : ℕ). replicate i false) (omega arith))
    ∙ ap (λ (i : ℕ). (true, buffer_at sequence t p i k sequence)) (omega arith)
  where
    none_yet : (n : ℕ) → 0 < n → all_received [] 0 n ≡ false
    none_yet zero pos = absurd (omega arith)
    none_yet (suc n) pos = unfold all_received in refl

pub is_complete-front :
    (sequence t o k last : ℕ) (p : List ℕ)
    → is_complete (buffer_at sequence t p o k last) ≡ (k == 0)
unfolding is_complete
is_complete-front sequence t o k last p = all_true-front o k
