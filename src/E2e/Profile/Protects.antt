-- ===== src/E2e/Profile/Protects.antt =====
-- `validate` behind `protect`.
use opensomeip.Base.{
  ℕ, ◌-◌, ◌^◌, ◌≤◌, ◌<◌, ◌≡◌, refl, ap, ◌∙◌, true, false, arith, !=_refl, if◌then◌else◌, ◌!=◌,
  Bool-cases, inl, inr,
}
use opensomeip.Base.Map.{find-insert}
use opensomeip.Result.{Result, success}
use opensomeip.Message.{Message, set_e2e_header}
use opensomeip.E2e.Header.{E2eHeader}
use opensomeip.E2e.Profile.{
  E2eConfig, BasicE2eProfile, protect, protect_crc, validate, check_header, check_counter,
  check_freshness, crc_over, crc_data, crc_matches, counter_of, next_counter, counter_valid,
  freshness_of,
}
use opensomeip.E2e.Profile.Counter.{next_counter-pos, counter_valid_self}
use opensomeip.E2e.Profile.Freshness.{is_stale_fresh}

abbrev pub protected : ℕ → Message → E2eConfig → BasicE2eProfile → Message
protected now m c p = (protect now m c p).1

abbrev pub sender : ℕ → Message → E2eConfig → BasicE2eProfile → BasicE2eProfile
sender now m c p = (protect now m c p).2

-- The header that `protect` stores.
unfoldable pub header_of : ℕ → Message → E2eConfig → BasicE2eProfile → E2eHeader
header_of now m c p = record {
  crc = protect_crc m c;
  counter =
      if c.enable_counter then next_counter c.max_counter_value (counter_of c.data_id p) else 0;
  data_id = c.data_id;
  freshness_value = if c.enable_freshness then freshness_of now else 0;
}

validate-protected :
    (now later : ℕ) (m : Message) (c : E2eConfig) (p q : BasicE2eProfile)
    → validate later (protected now m c p) c q
      ≡ check_header later (protected now m c p) (header_of now m c p) c q
unfolding validate protect set_e2e_header header_of
validate-protected now later m c p q = refl

crc_matches-protected :
    (now : ℕ) (m : Message) (c : E2eConfig) (p : BasicE2eProfile)
    → c.enable_crc ≡ true
    → crc_matches (protected now m c p) (header_of now m c p) c.crc_type ≡ true
unfolding crc_matches protect set_e2e_header header_of protect_crc crc_over crc_data
crc_matches-protected now m c p on = rw on (ground arith)

counter_of-sender :
    (now : ℕ) (m : Message) (c : E2eConfig) (p : BasicE2eProfile)
    → c.enable_counter ≡ true
    → counter_of c.data_id (sender now m c p)
      ≡ next_counter c.max_counter_value (counter_of c.data_id p)
unfolding protect
counter_of-sender now m c p on = ground (
  arith,
  find-insert c.data_id c.data_id (next_counter c.max_counter_value (counter_of c.data_id p))
      p.counters,
)

-- A header made at `now` is fresh at `later`.
check_freshness-protected :
    (now later : ℕ) (m : Message) (c : E2eConfig) (p q : BasicE2eProfile)
    → now ≤ later
    → later - now ≤ c.freshness_timeout_ms
    → c.freshness_timeout_ms < 2 ^ 16
    → check_freshness later (header_of now m c p) c q ≡ (success, q)
unfolding check_freshness header_of
check_freshness-protected now later m c p q h young fits =
    ground (arith, is_stale_fresh c.freshness_timeout_ms now later h young fits)

header_counter :
    (now : ℕ) (m : Message) (c : E2eConfig) (p : BasicE2eProfile)
    → c.enable_counter ≡ true
    → (header_of now m c p).counter ≡ next_counter c.max_counter_value (counter_of c.data_id p)
unfolding header_of
header_counter now m c p on = ground arith

check_counter_passes :
    (later : ℕ) (h : E2eHeader) (c : E2eConfig) (q : BasicE2eProfile)
    → (c.enable_counter ≡ true
        → counter_valid c.max_counter_value (counter_of c.data_id q) h.counter ≡ true)
    → ((r : BasicE2eProfile) → (check_freshness later h c r).0 ≡ success)
    → (check_counter later h c q).0 ≡ success
unfolding check_counter
check_counter_passes later h c q ok fresh = elim (Bool-cases c.enable_counter) [
  | inl on ↦ simp (on, ok on) (fresh _)
  | inr off ↦ simp off (fresh q)
]

-- A receiver whose last counter allows the next one accepts.
check_counter-protected :
    (now later : ℕ) (m : Message) (c : E2eConfig) (p q : BasicE2eProfile)
    → now ≤ later
    → later - now ≤ c.freshness_timeout_ms
    → c.freshness_timeout_ms < 2 ^ 16
    → (c.enable_counter ≡ true
        → counter_valid c.max_counter_value
            (counter_of c.data_id q)
            (next_counter c.max_counter_value (counter_of c.data_id p))
          ≡ true)
    → (check_counter later (header_of now m c p) c q).0 ≡ success
check_counter-protected now later m c p q h young fits ok =
    check_counter_passes later (header_of now m c p) c q
      (λ on. rw (header_counter now m c p on) (ok on))
      (λ r.
        ap (λ (x : Result × BasicE2eProfile). x.0)
          (check_freshness-protected now later m c p r h young fits))

check_header-protected :
    (now later : ℕ) (m : Message) (c : E2eConfig) (p q : BasicE2eProfile)
    → check_header later (protected now m c p) (header_of now m c p) c q
      ≡ check_counter later (header_of now m c p) c q
check_header-protected now later m c p q = elim (Bool-cases c.enable_crc) [
  | inl on ↦ unfold check_header in rw (same_id, crc_matches-protected now m c p on, on)
  | inr off ↦ unfold check_header in rw (same_id, off)
]
  where
    same_id : ((header_of now m c p).data_id != c.data_id) ≡ false
    same_id = unfold header_of in !=_refl c.data_id

-- What `protect` has made, the same profile object accepts within the freshness timeout, below
-- 2 ^ 16, whatever mechanisms are enabled, unless the counter has just wrapped to 0.
pub validate-protect :
    (now later : ℕ) (m : Message) (c : E2eConfig) (p : BasicE2eProfile)
    → now ≤ later
    → later - now ≤ c.freshness_timeout_ms
    → c.freshness_timeout_ms < 2 ^ 16
    → counter_of c.data_id p < 2 ^ 32 - 1
    → (validate later (protected now m c p) c (sender now m c p)).0 ≡ success
validate-protect now later m c p h young fits room =
    ap (λ (r : Result × BasicE2eProfile). r.0)
      (validate-protected now later m c p (sender now m c p)
        ∙ check_header-protected now later m c p (sender now m c p))
    ∙ check_counter-protected now later m c p (sender now m c p) h young fits (λ on.
      rw (counter_of-sender now m c p on)
        (counter_valid_self c.max_counter_value _ (next_counter-pos c.max_counter_value _ room)))
