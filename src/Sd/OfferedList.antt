-- ===== src/Sd/OfferedList.antt =====
-- Lists of offered services with distinct ids.
use opensomeip.Base.{
  ℕ, suc, ◌-◌, ◌≤◌, ◌<◌, ◌≡◌, inl, inr, refl, ap, ◌∙◌, arith, Bool, Bool-cases, false, ◌==◌, ◌&&◌,
  ◌||◌, leb, List, [], ◌∷◌, ◌++◌, length, Option, none, some, some_inj,
}
use mathlib.Core.Path.{subst}
use opensomeip.Base.Map.{none-ne-some}
use opensomeip.Sd.Service.{Inet, ServiceInstance, SdConfig, Sent}
use opensomeip.Sd.Server.{
  OfferedService, find_offered, evict, erase_offered, with_ttl, send_service_offer,
}
use opensomeip.Sd.Requests.{send_periodic_offers, joined, kept}

-- Whether a service has the two ids.
abbrev pub listed : ℕ → ℕ → List OfferedService → Bool
listed service_id instance_id [] = false
listed service_id instance_id (svc ∷ rest) =
    let others = listed service_id instance_id rest in
    (svc.service_instance.service_id == service_id
      && svc.service_instance.instance_id == instance_id)
    || others

-- No two services have the same ids.
abbrev pub Distinct : List OfferedService → Type 0
Distinct [] = Unit
Distinct (svc ∷ rest) =
    (listed svc.service_instance.service_id svc.service_instance.instance_id rest ≡ false)
    × Distinct rest

pub find_offered-listed :
    (a b : ℕ) (xs : List OfferedService) → find_offered a b xs ≡ none → listed a b xs ≡ false
unfolding find_offered
find_offered-listed a b [] e = refl
find_offered-listed a b (x ∷ xs) e = ground (arith, find_offered-listed a b xs)

listed-append :
    (a b : ℕ) (xs : List OfferedService) (y : OfferedService)
    → listed a b xs ≡ false
    → (y.service_instance.service_id == a && y.service_instance.instance_id == b) ≡ false
    → listed a b (xs ++ y ∷ []) ≡ false
listed-append a b [] y e f = ground (arith, f)
listed-append a b (x ∷ xs) y e f = ground (arith, listed-append a b xs y)

pub Distinct-append :
    (xs : List OfferedService) (y : OfferedService)
    → Distinct xs
    → listed y.service_instance.service_id y.service_instance.instance_id xs ≡ false
    → Distinct (xs ++ y ∷ [])
Distinct-append [] y d e = (refl, tt)
Distinct-append (x ∷ xs) y d e = (
  listed-append x.service_instance.service_id x.service_instance.instance_id xs y d.0
      (ground (arith, e)),
  Distinct-append xs y d.1 (ground (arith, e)),
)

pub evict-kept :
    (n : ℕ) (xs : List OfferedService)
    → Distinct xs
    → Distinct (evict n xs)
      × ((a b : ℕ) → listed a b xs ≡ false → listed a b (evict n xs) ≡ false)
      × (1 ≤ n → length xs ≤ n → length (evict n xs) < n)
unfolding evict
evict-kept n [] d = ground arith
evict-kept n (x ∷ xs) d = ground arith

listed-erase_offered :
    (a b c e : ℕ) (xs : List OfferedService)
    → listed a b xs ≡ false
    → listed a b (erase_offered c e xs) ≡ false
unfolding erase_offered
listed-erase_offered a b c e [] h = refl
listed-erase_offered a b c e (x ∷ xs) h = ground (arith, listed-erase_offered a b c e xs)

pub Distinct-erase_offered :
    (c e : ℕ) (xs : List OfferedService) → Distinct xs → Distinct (erase_offered c e xs)
unfolding erase_offered
Distinct-erase_offered c e [] d = tt
Distinct-erase_offered c e (x ∷ xs) d = ground (
  arith,
  Distinct-erase_offered c e xs d.1,
  listed-erase_offered x.service_instance.service_id x.service_instance.instance_id c e xs d.0,
)

pub length-erase_offered :
    (c e : ℕ) (xs : List OfferedService) → length (erase_offered c e xs) ≤ length xs
unfolding erase_offered
length-erase_offered c e [] = omega arith
length-erase_offered c e (x ∷ xs) = ground (arith, length-erase_offered c e xs)

-- Another list with the same ids.
pub record AreSame (xs ys : List OfferedService) : Type 0 where
  pub same_listed : (a b : ℕ) → listed a b ys ≡ listed a b xs
  pub same_length : length ys ≡ length xs
  pub same_distinct : Distinct xs → Distinct ys

cons-AreSame :
    (x y : OfferedService) (xs ys : List OfferedService)
    → x.service_instance.service_id ≡ y.service_instance.service_id
    → x.service_instance.instance_id ≡ y.service_instance.instance_id
    → AreSame xs ys
    → AreSame (x ∷ xs) (y ∷ ys)
cons-AreSame x y xs ys e f same = record {
  same_listed = λ a b. rw (e, f, same.same_listed a b) refl;
  same_length = ap suc same.same_length;
  same_distinct = λ d. (
    same.same_listed y.service_instance.service_id y.service_instance.instance_id ∙ rw⁻¹ (e, f) d.0,
    same.same_distinct d.1,
  );
}

refl-AreSame : (xs : List OfferedService) → AreSame xs xs
refl-AreSame xs = record { same_listed = λ a b. refl; same_length = refl; same_distinct = λ d. d }

pub with_ttl-AreSame : (c e ttl : ℕ) (xs : List OfferedService) → AreSame xs (with_ttl c e ttl xs)
unfolding with_ttl
with_ttl-AreSame c e ttl [] = refl-AreSame []
with_ttl-AreSame c e ttl (x ∷ xs) =
    elim (Bool-cases (x.service_instance.service_id == c && x.service_instance.instance_id == e)) [
      | inl same ↦ rw same (cons-AreSame x _ xs xs refl refl (refl-AreSame xs))
      | inr other ↦
          rw other
            (cons-AreSame x x xs (with_ttl c e ttl xs) refl refl (with_ttl-AreSame c e ttl xs))
    ]

-- The services that a round of offers leaves.
abbrev AreKept : List OfferedService → Option (List OfferedService × List Sent) → Type 0
AreKept xs o = (ys : List OfferedService) (sents : List Sent) → o ≡ some (ys, sents) → AreSame xs ys

abbrev first : List OfferedService × List Sent → List OfferedService
first (ys, sents) = ys

joined-AreKept :
    (x y : OfferedService) (xs : List OfferedService) (o : Option Sent)
    (p : Option (List OfferedService × List Sent))
    → x.service_instance ≡ y.service_instance
    → AreKept xs p
    → AreKept (x ∷ xs) (joined y o p)
joined-AreKept x y xs none p e h ys sents f = absurd (none-ne-some f)
joined-AreKept x y xs (some sent) none e h ys sents f = absurd (none-ne-some f)
joined-AreKept x y xs (some sent) (some (zs, more)) e h ys sents f =
    subst (AreSame (x ∷ xs)) (ap first (some_inj f)) (
      cons-AreSame x y xs zs (ap ServiceInstance.service_id e) (ap ServiceInstance.instance_id e)
        (h zs more refl))

kept-AreKept :
    (x : OfferedService) (xs : List OfferedService) (p : Option (List OfferedService × List Sent))
    → AreKept xs p
    → AreKept (x ∷ xs) (kept x p)
kept-AreKept x xs none h ys sents f = absurd (none-ne-some f)
kept-AreKept x xs (some (zs, more)) h ys sents f =
    subst (AreSame (x ∷ xs)) (ap first (some_inj f))
      (cons-AreSame x x xs zs refl refl (h zs more refl))

pub send_periodic_offers-AreKept :
    (inet : Inet) (now : ℕ) (config : SdConfig) (xs : List OfferedService)
    → AreKept xs (send_periodic_offers inet now config xs)
unfolding send_periodic_offers
send_periodic_offers-AreKept inet now config [] =
    λ ys sents f. subst (AreSame []) (ap first (some_inj f)) (refl-AreSame [])
send_periodic_offers-AreKept inet now config (x ∷ xs) =
    elim (Bool-cases (leb config.cyclic_offer (now - x.last_offer_time))) [
      | inl due ↦ rw due (
          joined-AreKept x (record x { last_offer_time = now }) xs
            (send_service_offer inet now config x) (send_periodic_offers inet now config xs) refl
            (send_periodic_offers-AreKept inet now config xs))
      | inr early ↦ rw early (
          kept-AreKept x xs (send_periodic_offers inet now config xs)
            (send_periodic_offers-AreKept inet now config xs))
    ]
