-- ===== src/Sd/Refused.antt =====
-- Messages that `SdMessage::deserialize` turns down, though `SdMessage::serialize` made them, and
-- where an option's length leads to a read past the end.
use opensomeip.Base.{
  ℕ, ◌+◌, ◌^◌, ◌≤◌, ◌<◌, ◌≡◌, ◌⊎◌, inl, refl, ap, ◌∙◌, arith, true, false, lt→ltb, ◌==◌, ◌||◌, List,
  [], ◌∷◌, ◌++◌, length, some,
}
use opensomeip.Base.Bytes.{byte_at, byte_at-shift}
use opensomeip.Sd.Entries.{
  SdEntry, ServiceEntry, service, serialize_service, serialize_head, new_service_entry,
  find_service, deserialize_service, deserialize_head,
}
use opensomeip.Sd.Entries as Entries
use opensomeip.Sd.Options.{
  Ipv4EndpointOption, ipv4_endpoint, serialize_endpoint, deserialize_endpoint,
}
use opensomeip.Sd.Options as Options
use opensomeip.Sd.Messages.{
  SdMessage, goes_on, gives_up, parse_item, serialize_entries, serialize_options, serialize,
  deserialize, check_end,
}
use opensomeip.Sd.Frame.{
  front_of, with_front, deserialize-front_of, parse_items-step, parse_items-gives_up,
}
use opensomeip.Sd.Misread.{IsServiceEntry, misread_service, deserialize_service-serialize_service}

-- What a search or an offer is sent as.
pub record IsOffer (e : ServiceEntry) : Type 0 where
  pub fits : IsServiceEntry e
  pub kind : (e.head.type ≡ 0x00) ⊎ (e.head.type ≡ 0x01)

pub type_test : (t : ℕ) → (t ≡ 0x00) ⊎ (t ≡ 0x01) → (t == 0x00 || t == 0x01) ≡ true
type_test t k = ground arith

abbrev pub with_entry : ServiceEntry → SdMessage → SdMessage
with_entry e m = record m { entries = m.entries ++ service e ∷ [] }

length-serialize_service : (e : ServiceEntry) → length (serialize_service e) ≡ 14
unfolding serialize_service serialize_head
length-serialize_service e = refl

pub first_byte :
    (e : ServiceEntry) (back : List ℕ) → byte_at (serialize_service e ++ back) 0 ≡ e.head.type
unfolding serialize_service serialize_head
first_byte e back = refl

parse_item-service :
    (front back : List ℕ) (e : ServiceEntry) (m : SdMessage)
    → IsOffer e
    → 2 ≤ length back
    → parse_item (front ++ (serialize_service e ++ back)) (length front) m
      ≡ goes_on (length front + 14) (with_entry (misread_service e) m)
unfolding parse_item
parse_item-service front back e m k room =
    rw
      (
        byte_at-shift front (serialize_service e ++ back) (length front) 0 (omega arith),
        first_byte e back,
        type_test e.head.type k.kind,
        deserialize_service-serialize_service front back e (new_service_entry find_service) k.fits
            refl room,
      )
      refl

-- A service entry is looked for where the buffer has fewer than sixteen bytes.
pub parse_item-short :
    (d : List ℕ) (offset : ℕ) (m : SdMessage)
    → (byte_at d offset ≡ 0x00) ⊎ (byte_at d offset ≡ 0x01)
    → length d < offset + 16
    → parse_item d offset m ≡ gives_up m
unfolding parse_item deserialize_service deserialize_head
parse_item-short d offset m k h =
    rw (type_test (byte_at d offset) k, lt→ltb (length d) (offset + 16) h) refl

abbrev pub offer_message : ℕ → ℕ → ServiceEntry → Ipv4EndpointOption → SdMessage
offer_message flags reserved e o = record {
  flags = flags;
  reserved = reserved;
  entries = service e ∷ [];
  options = ipv4_endpoint o ∷ [];
}

abbrev pub bare_message : ℕ → ℕ → ServiceEntry → SdMessage
bare_message flags reserved e = record {
  flags = flags;
  reserved = reserved;
  entries = service e ∷ [];
  options = [];
}

-- A search or an offer without an option behind it, which is also how an offer is taken back, is
-- refused with no entry read.
pub deserialize-bare_message :
    (flags reserved : ℕ) (e : ServiceEntry) (m : SdMessage)
    → reserved < 2 ^ 24
    → IsOffer e
    → deserialize (serialize (bare_message flags reserved e)) m
      ≡ some (false, with_front flags reserved m)
unfolding serialize serialize_entries serialize_options Entries.serialize serialize_service
    serialize_head
deserialize-bare_message flags reserved e m small k =
    let body = serialize_service e in
    let m' = with_front flags reserved m in
    let d = front_of flags reserved 14 ++ body in
    deserialize-front_of flags reserved body m small (omega arith)
    ∙ ap (check_end 22) (
        parse_items-gives_up 99 d 22 8 m' m' (omega arith) (omega arith)
          (parse_item-short d 8 m' k.kind (omega arith)))

-- A search or an offer with the option that says where the service is, as the server sends it, is
-- refused once the entry is read: the first byte of the option is taken for the type of a search.
pub deserialize-offer_message :
    (flags reserved : ℕ) (e : ServiceEntry) (o : Ipv4EndpointOption) (m : SdMessage)
    → reserved < 2 ^ 24
    → IsOffer e
    → deserialize (serialize (offer_message flags reserved e o)) m
      ≡ some (false, with_entry (misread_service e) (with_front flags reserved m))
unfolding serialize serialize_entries serialize_options Entries.serialize Options.serialize
    serialize_service serialize_head serialize_endpoint Options.serialize_head
deserialize-offer_message flags reserved e o m small k =
    let back = serialize_endpoint o in
    let body = serialize_service e ++ back in
    let d = front_of flags reserved 26 ++ body in
    let m' = with_front flags reserved m in
    let m'' = with_entry (misread_service e) m' in
    deserialize-front_of flags reserved body m small (omega arith)
    ∙ ap (check_end 34) (
        parse_items-step 99 d 34 8 22 m' m'' (omega arith) (omega arith)
          (parse_item-service (front_of flags reserved 26) back e m' k (omega arith))
        ∙ parse_items-gives_up 98 d 34 22 m'' m'' (omega arith) (omega arith)
            (parse_item-short d 22 m'' (inl refl) (omega arith)))
