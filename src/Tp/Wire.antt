-- ===== src/Tp/Wire.antt =====
-- The word behind the fixed header of a segment.
use opensomeip.Base.{
  ℕ, ◌+◌, ◌-◌, ◌*◌, ◌/◌, ◌%◌, ◌^◌, ◌≤◌, ◌<◌, ◌≡◌, sym, ap, ◌∙◌, arith, bit_or, bit_and, Bool, true,
  false, ltb, ge→ltb, ◌!=◌, if◌then◌else◌, List, ◌++◌, length, length-append, length-take, take,
  drop, Option, some,
}
use opensomeip.Base.Bits.{bit_or_fields, bit_and_mask}
use opensomeip.Base.Bytes.{be32, be32_sum, byte_at, byte_at-behind}
use opensomeip.Tp.Segmenter.{tp_header, serialize_tp_header}
use opensomeip.Tp.Reassembler.{parse_tp_header}

abbrev flag_bit : Bool → ℕ
flag_bit more = if more then 1 else 0

flag_bit-lt : (more : Bool) → flag_bit more < 2 ^ 4
flag_bit-lt true = omega arith
flag_bit-lt false = omega arith

tp_header_sum :
    (offset : ℕ) (more : Bool) → tp_header offset more ≡ offset / 16 * 2 ^ 4 + flag_bit more
unfolding tp_header
tp_header_sum offset more = bit_or_fields 4 (offset / 16) (flag_bit more) (flag_bit-lt more)

-- The four bytes joined by shifts.
joined :
    (a b c d : ℕ)
    → a < 256
    → b < 256
    → c < 256
    → d < 256
    → bit_or (bit_or (bit_or (a * 2 ^ 24) (b * 2 ^ 16)) (c * 2 ^ 8)) d
      ≡ a * 2 ^ 24 + b * 2 ^ 16 + c * 2 ^ 8 + d
joined a b c d ha hb hc hd =
    ap (λ x. bit_or (bit_or x (c * 2 ^ 8)) d) (bit_or_fields 24 a (b * 2 ^ 16) (omega arith) ∙ one)
    ∙ ap (λ x. bit_or x d) (bit_or_fields 16 (a * 2 ^ 8 + b) (c * 2 ^ 8) (omega arith) ∙ two)
    ∙ bit_or_fields 8 (a * 2 ^ 16 + b * 2 ^ 8 + c) d (omega arith)
    ∙ omega arith
  where
    one : a * 2 ^ 24 + b * 2 ^ 16 ≡ (a * 2 ^ 8 + b) * 2 ^ 16
    one = omega arith

    two : (a * 2 ^ 8 + b) * 2 ^ 16 + c * 2 ^ 8 ≡ (a * 2 ^ 16 + b * 2 ^ 8 + c) * 2 ^ 8
    two = omega arith

word_of :
    (front rest : List ℕ) (w : ℕ)
    → length front ≡ 16
    → w < 2 ^ 32
    → bit_or
        (bit_or
          (bit_or
            (byte_at (front ++ (be32 w ++ rest)) 16 * 2 ^ 24)
            (byte_at (front ++ (be32 w ++ rest)) 17 * 2 ^ 16))
          (byte_at (front ++ (be32 w ++ rest)) 18 * 2 ^ 8))
        (byte_at (front ++ (be32 w ++ rest)) 19)
      ≡ w
word_of front rest w e fits =
    rw (byte 0, byte 1, byte 2, byte 3)
      (joined (w / 2 ^ 24 % 256) (w / 2 ^ 16 % 256) (w / 2 ^ 8 % 256) (w % 256) (omega arith)
          (omega arith) (omega arith) (omega arith)
        ∙ be32_sum w fits)
  where
    byte : (i : ℕ) → byte_at (front ++ (be32 w ++ rest)) (16 + i) ≡ byte_at (be32 w ++ rest) i
    byte i =
        ap (λ (n : ℕ). byte_at (front ++ (be32 w ++ rest)) (n + i)) (sym e)
        ∙ byte_at-behind front (be32 w ++ rest) i

-- Of a 16-bit offset that is put behind a fixed header, the receiver reads the multiple of 16 at or
-- below it, and the flag as it was.
pub parse_tp_header-serialize_tp_header :
    (bytes : List ℕ) (offset : ℕ) (more : Bool)
    → 16 ≤ length bytes
    → offset < 2 ^ 16
    → parse_tp_header (serialize_tp_header bytes offset more) ≡ some (offset - offset % 16, more)
unfolding parse_tp_header serialize_tp_header
parse_tp_header-serialize_tp_header bytes offset more long small =
    rw
      (
        enough,
        word_of (take 16 bytes) (drop 16 bytes) (tp_header offset more) front fits,
        tp_header_sum offset more,
      )
      (by_flag more)
  where
    front : length (take 16 bytes) ≡ 16
    front = omega (arith, length-take 16 bytes)

    fits : tp_header offset more < 2 ^ 32
    fits = omega (arith, tp_header_sum offset more, flag_bit-lt more)

    enough :
        ltb (length (take 16 bytes ++ (be32 (tp_header offset more) ++ drop 16 bytes))) 20 ≡ false
    enough = ge→ltb _ _ (
        omega (
          arith,
          front,
          length-append (take 16 bytes) (be32 (tp_header offset more) ++ drop 16 bytes),
        ))

    by_flag :
        (more : Bool)
        → ◌≡◌ {A = Option (ℕ × Bool)}
            (some (
              (offset / 16 * 2 ^ 4 + flag_bit more) / 2 ^ 4 * 16 % 2 ^ 16,
              bit_and (offset / 16 * 2 ^ 4 + flag_bit more) 1 != 0,
            ))
            (some (offset - offset % 16, more))
    by_flag true = ground (arith, bit_and_mask 1 (offset / 16 * 2 ^ 4 + 1))
    by_flag false = ground (arith, bit_and_mask 1 (offset / 16 * 2 ^ 4 + 0))
