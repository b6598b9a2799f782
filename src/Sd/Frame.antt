-- ===== src/Sd/Frame.antt =====
-- The eight bytes that `SdMessage::serialize` puts before the entries, as `SdMessage::deserialize`
-- reads them, and the rounds of its loop.
use opensomeip.Base.{
  ℕ, zero, suc, ◌≤◌, lt→ltb, ◌+◌, ◌*◌, ◌/◌, ◌%◌, ◌^◌, ◌<◌, ◌≡◌, refl, ap, arith, ge→ltb, bit_and,
  List, ◌∷◌, ◌++◌, length,
}
use opensomeip.Base.Bytes.{be32, be32_sum}
use opensomeip.Sd.Messages.{
  SdMessage, goes_on, gives_up, parse_item, parse_items, check_end, deserialize,
}

abbrev pub front_of : ℕ → ℕ → ℕ → List ℕ
front_of flags reserved n =
    bit_and flags 0xc0
    ∷ (reserved / 2 ^ 16 % 256)
    ∷ (reserved / 2 ^ 8 % 256)
    ∷ (reserved % 256)
    ∷ be32 n

abbrev pub with_front : ℕ → ℕ → SdMessage → SdMessage
with_front flags reserved m = record m { flags = bit_and flags 0xc0; reserved = reserved }

reserved_sum :
    (v : ℕ) → v < 2 ^ 24 → v / 2 ^ 16 % 256 * 2 ^ 16 + v / 2 ^ 8 % 256 * 2 ^ 8 + v % 256 ≡ v
reserved_sum v h = omega arith

-- Behind a front with the right length the loop runs over the body.
pub deserialize-front_of :
    (flags reserved : ℕ) (body : List ℕ) (m : SdMessage)
    → reserved < 2 ^ 24
    → 8 + length body < 2 ^ 32
    → deserialize (front_of flags reserved (length body) ++ body) m
      ≡ check_end (8 + length body) (
          parse_items 100
            (front_of flags reserved (length body) ++ body)
            (8 + length body)
            8
            (with_front flags reserved m))
unfolding deserialize
deserialize-front_of flags reserved body m small fits =
    let d = front_of flags reserved (length body) ++ body in
    rw
      (
        be32_sum (length body) (omega (arith, fits)),
        reserved_sum reserved small,
        ge→ltb (length d) 8 (omega arith),
        ge→ltb (length d) (8 + length body) (omega arith),
      )
      (ap (λ end. check_end end (parse_items 100 d end 8 (with_front flags reserved m)))
        (omega (arith, fits)))

pub parse_items-end :
    (rounds : ℕ) (d : List ℕ) (end offset : ℕ) (m : SdMessage)
    → end ≤ offset
    → parse_items rounds d end offset m ≡ goes_on offset m
unfolding parse_items
parse_items-end zero d end offset m h = refl
parse_items-end (suc rounds) d end offset m h = rw (parse_items, ge→ltb offset end h) refl

pub parse_items-step :
    (rounds : ℕ) (d : List ℕ) (end offset offset' : ℕ) (m m' : SdMessage)
    → offset < end
    → offset < length d
    → parse_item d offset m ≡ goes_on offset' m'
    → parse_items (suc rounds) d end offset m ≡ parse_items rounds d end offset' m'
unfolding parse_items
parse_items-step rounds d end offset offset' m m' h k e =
    rw (parse_items, lt→ltb offset end h, lt→ltb offset (length d) k, e) refl

pub parse_items-gives_up :
    (rounds : ℕ) (d : List ℕ) (end offset : ℕ) (m m' : SdMessage)
    → offset < end
    → offset < length d
    → parse_item d offset m ≡ gives_up m'
    → parse_items (suc rounds) d end offset m ≡ gives_up m'
unfolding parse_items
parse_items-gives_up rounds d end offset m m' h k e =
    rw (parse_items, lt→ltb offset end h, lt→ltb offset (length d) k, e) refl
