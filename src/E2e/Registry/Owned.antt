-- ===== src/E2e/Registry/Owned.antt =====
-- The two maps of the registry: which profiles they name.
use opensomeip.Base.{
  ℕ, ◌≡◌, ◌≢◌, refl, sym, ap, ◌∙◌, Bool-cases, inl, inr, true, ◌==◌, ==_iff, List, Option,
  Option-cases, none, some, some_inj,
}
use mathlib.Core.Path.{subst}
use opensomeip.Base.Map.{
  find, find-insert, find-insert_self, find-insert_other, find-erase, none-ne-some,
}
use opensomeip.E2e.Profile.{E2eConfig}
use opensomeip.E2e.Registry.{
  E2eProfile, E2eProfileRegistry, new_registry, registered, unregistered, register_profile,
  unregister_profile, get_profile, get_profile_by_name, get_default_profile, select_profile,
  or_else,
}
use opensomeip.E2e.Registry.Names.{
  same_name, same_name_refl, same_name_eq, differ, find_name, find_name-insert_name,
  find_name-insert_other, find_name-erase_name,
}

pub data Reach : E2eProfileRegistry → Type 0 where
  here : Reach new_registry
  registers :
      {r : E2eProfileRegistry} (p : Option E2eProfile) → Reach r → Reach (register_profile p r).1
  unregisters :
      {r : E2eProfileRegistry} (profile_id : ℕ)
      → Reach r
      → Reach (unregister_profile profile_id r).1

abbrev IsHeld : E2eProfile → E2eProfileRegistry → Type 0
IsHeld p r =
    (find p.profile_id r.profiles_by_id ≡ some p)
    × (find_name p.profile_name r.profiles_by_name ≡ some p)

record IsOwned (r : E2eProfileRegistry) : Type 0 where
  by_id :
      (k : ℕ) (p : E2eProfile) → find k r.profiles_by_id ≡ some p → (p.profile_id ≡ k) × IsHeld p r
  by_name :
      (n : List ℕ) (p : E2eProfile)
      → find_name n r.profiles_by_name ≡ some p
      → (p.profile_name ≡ n) × IsHeld p r

-- Two profiles that are held under one id, or one name, are the same.
same_id :
    (p q : E2eProfile) (r : E2eProfileRegistry)
    → IsHeld p r
    → IsHeld q r
    → p.profile_id == q.profile_id ≡ true
    → p ≡ q
same_id p q r hp hq same = some_inj (
    sym hp.0
    ∙ ap (λ (k : ℕ). find k r.profiles_by_id) ((==_iff p.profile_id q.profile_id).0 same)
    ∙ hq.0)

same_name_of :
    (p q : E2eProfile) (r : E2eProfileRegistry)
    → IsHeld p r
    → IsHeld q r
    → same_name p.profile_name q.profile_name ≡ true
    → p ≡ q
same_name_of p q r hp hq same = some_inj (
    sym hp.1
    ∙ ap (λ (n : List ℕ). find_name n r.profiles_by_name)
        (same_name_eq p.profile_name q.profile_name same)
    ∙ hq.1)

registered-IsHeld :
    (p q : E2eProfile) (r : E2eProfileRegistry)
    → find p.profile_id r.profiles_by_id ≡ none
    → find_name p.profile_name r.profiles_by_name ≡ none
    → IsHeld q r
    → IsHeld q (registered p r)
registered-IsHeld p q r free unused (at_id, at_name) = (
  find-insert_other p.profile_id q.profile_id p q r.profiles_by_id free at_id,
  find_name-insert_other p.profile_name q.profile_name p q r.profiles_by_name unused at_name,
)

registered_self-IsHeld : (p : E2eProfile) (r : E2eProfileRegistry) → IsHeld p (registered p r)
registered_self-IsHeld p r = (
  find-insert_self p.profile_id p r.profiles_by_id,
  rw (find_name-insert_name, same_name_refl p.profile_name) refl,
)

registered-IsOwned :
    (p : E2eProfile) (r : E2eProfileRegistry)
    → find p.profile_id r.profiles_by_id ≡ none
    → find_name p.profile_name r.profiles_by_name ≡ none
    → IsOwned r
    → IsOwned (registered p r)
registered-IsOwned p r free unused o = record {
  by_id = λ k q e. elim (Bool-cases (p.profile_id == k)) [
    | inl same ↦
        subst (λ (x : E2eProfile). (x.profile_id ≡ k) × IsHeld x (registered p r))
          (some_inj (rw (find-insert, same) at e))
          ((==_iff p.profile_id k).0 same, registered_self-IsHeld p r)
    | inr other ↦
        let old = o.by_id k q (rw (find-insert, other) at e) in
        (old.0, registered-IsHeld p q r free unused old.1)
  ];
  by_name = λ n q e. elim (Bool-cases (same_name p.profile_name n)) [
    | inl same ↦
        subst (λ (x : E2eProfile). (x.profile_name ≡ n) × IsHeld x (registered p r))
          (some_inj (rw (find_name-insert_name, same) at e))
          (same_name_eq p.profile_name n same, registered_self-IsHeld p r)
    | inr other ↦
        let old = o.by_name n q (rw (find_name-insert_name, other) at e) in
        (old.0, registered-IsHeld p q r free unused old.1)
  ];
}

-- Of the profiles that are held, all but one stay.
unregistered-IsHeld :
    (p q : E2eProfile) (r : E2eProfileRegistry)
    → IsHeld p r
    → IsHeld q r
    → p ≢ q
    → IsHeld q (unregistered p.profile_id p r)
unregistered-IsHeld p q r hp hq differs = (
  elim (Bool-cases (p.profile_id == q.profile_id)) [
    | inl same ↦ absurd (differs (same_id p q r hp hq same))
    | inr other ↦ rw (find-erase, other) hq.0
  ],
  elim (Bool-cases (same_name p.profile_name q.profile_name)) [
    | inl same ↦ absurd (differs (same_name_of p q r hp hq same))
    | inr other ↦ rw (find_name-erase_name, other) hq.1
  ],
)

unregistered-IsOwned :
    (p : E2eProfile) (r : E2eProfileRegistry)
    → IsHeld p r
    → IsOwned r
    → IsOwned (unregistered p.profile_id p r)
unregistered-IsOwned p r hp o = record {
  by_id = λ k q e. elim (Bool-cases (p.profile_id == k)) [
    | inl same ↦ absurd (none-ne-some (rw (find-erase, same) at e))
    | inr other ↦
        let old = o.by_id k q (rw (find-erase, other) at e) in
        (
          old.0,
          unregistered-IsHeld p q r hp old.1 (λ (same : p ≡ q).
              differ (sym other ∙ (==_iff p.profile_id k).1 (ap (λ x. x.profile_id) same ∙ old.0))),
        )
  ];
  by_name = λ n q e. elim (Bool-cases (same_name p.profile_name n)) [
    | inl same ↦ absurd (none-ne-some (rw (find_name-erase_name, same) at e))
    | inr other ↦
        let old = o.by_name n q (rw (find_name-erase_name, other) at e) in
        (
          old.0,
          unregistered-IsHeld p q r hp old.1 (λ (same : p ≡ q). differ (
              sym other
              ∙ ap (same_name p.profile_name) (sym (ap (λ x. x.profile_name) same ∙ old.0))
              ∙ same_name_refl p.profile_name)),
        )
  ];
}

register_profile-IsOwned :
    (p : Option E2eProfile) (r : E2eProfileRegistry) → IsOwned r → IsOwned (register_profile p r).1
unfolding register_profile
register_profile-IsOwned none r o = o
register_profile-IsOwned (some p) r o = elim (Option-cases (find p.profile_id r.profiles_by_id)) [
  | inr (other, held) ↦ rw (register_profile, held) o
  | inl free ↦ elim (Option-cases (find_name p.profile_name r.profiles_by_name)) [
    | inr (other, held) ↦ rw (register_profile, free, held) o
    | inl unused ↦ rw (register_profile, free, unused) (registered-IsOwned p r free unused o)
  ]
]

unregister_profile-IsOwned :
    (profile_id : ℕ) (r : E2eProfileRegistry)
    → IsOwned r
    → IsOwned (unregister_profile profile_id r).1
unfolding unregister_profile
unregister_profile-IsOwned profile_id r o = elim (Option-cases (find profile_id r.profiles_by_id)) [
  | inl absent ↦ rw (unregister_profile, absent) o
  | inr (p, held) ↦
      let own = o.by_id profile_id p held in
      rw (unregister_profile, held)
        (subst (λ (k : ℕ). IsOwned (unregistered k p r)) own.0 (unregistered-IsOwned p r own.1 o))
]

Reach-IsOwned : (r : E2eProfileRegistry) → Reach r → IsOwned r
unfolding find find_name
Reach-IsOwned r here = record {
  by_id = λ k p e. absurd (none-ne-some e);
  by_name = λ n p e. absurd (none-ne-some e);
}
Reach-IsOwned r (registers {r = r'} p h) = register_profile-IsOwned p r' (Reach-IsOwned r' h)
Reach-IsOwned r (unregisters {r = r'} profile_id h) =
    unregister_profile-IsOwned profile_id r' (Reach-IsOwned r' h)

either :
    (P : E2eProfile → Type 0) (first second : Option E2eProfile) (p : E2eProfile)
    → ((q : E2eProfile) → first ≡ some q → P q)
    → ((q : E2eProfile) → second ≡ some q → P q)
    → or_else first second ≡ some p
    → P p
either P (some q) second p f g e = f p e
either P none second p f g e = g p e

-- Whatever profiles have been registered and unregistered, a profile that protect and validate select,
-- by its id, by its name or as the default, is one that the registry owns: it is found under its own id
-- and under its own name.
pub select_profile-IsOwned :
    (r : E2eProfileRegistry) (c : E2eConfig) (p : E2eProfile)
    → Reach r
    → select_profile c r ≡ some p
    → (get_profile p.profile_id r ≡ some p) × (get_profile_by_name p.profile_name r ≡ some p)
unfolding select_profile get_profile get_profile_by_name get_default_profile
select_profile-IsOwned r c p h e =
    let o = Reach-IsOwned r h in
    either (λ q. IsHeld q r) (find c.profile_id r.profiles_by_id) _ p
      (λ q e'. (o.by_id c.profile_id q e').1)
      (λ q e'.
        either (λ q'. IsHeld q' r) (find_name c.profile_name r.profiles_by_name)
          (find 0 r.profiles_by_id) q (λ q' e''. (o.by_name c.profile_name q' e'').1)
          (λ q' e''. (o.by_id 0 q' e'').1) e')
      e
