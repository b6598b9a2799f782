-- ===== src/Session/Allocation.antt =====
-- The search for a free session id: when it ends, and what it finds.
use opensomeip.Base.{
  ℕ, zero, suc, ◌+◌, ◌-◌, ◌%◌, ◌^◌, ◌≤◌, ◌<◌, ◌≡◌, ◌≢◌, refl, ap, List, [], ◌∷◌, none, some, arith,
  Option-cases, inl, inr, length, All,
}
use opensomeip.Base.Map.{find, erase, find-erase, length-erase}
use opensomeip.Session.{Session, bump, search_free}

-- Session ids are the numbers from 1 to 65535.
abbrev pub IsSessionId : ℕ → Type 0
IsSessionId i = (1 ≤ i) × (i < 2 ^ 16)

-- The candidates of the first `n` rounds.
abbrev pub candidates : ℕ → ℕ → List ℕ
candidates zero c = []
candidates (suc n) c = c ∷ candidates n (bump c)

pub bump-IsSessionId : (c : ℕ) → IsSessionId (bump c)
unfolding bump
bump-IsSessionId c = ground arith

-- `bump` counts in the ring of the 65535 ids.
pub bump_ring : (c : ℕ) → IsSessionId c → bump c ≡ c % 65535 + 1
unfolding bump
bump_ring c h = ground arith

-- No candidate `d` rounds ahead is `c`, unless `d` rounds go all the way round.
abbrev Avoids : ℕ → List ℕ → Type 0
Avoids c = All (λ x. x ≢ c)

ahead :
    (n d c x : ℕ)
    → IsSessionId c
    → IsSessionId x
    → x ≡ (c - 1 + d) % 65535 + 1
    → 0 < d
    → d + n ≤ 65535
    → Avoids c (candidates n x)
ahead zero d c x hc hx e pos fits = tt
ahead (suc n) d c x hc hx e pos fits = (
  omega arith,
  ahead n (d + 1) c (bump x) hc (bump-IsSessionId x) (omega (arith, bump_ring x hx)) (omega arith)
      (omega arith),
)

abbrev Occupied : List (ℕ × Session) → List ℕ → Type 0
Occupied m = All (λ k. find k m ≢ none)

length-erase-lt : (k : ℕ) (m : List (ℕ × Session)) → find k m ≢ none → length (erase k m) < length m
unfolding find erase
length-erase-lt k [] h = absurd (h refl)
length-erase-lt k ((j, s) ∷ m) h = ground (arith, length-erase-lt k m, length-erase k m)

abbrev Distinct : List ℕ → Type 0
Distinct [] = Unit
Distinct (x ∷ xs) = Avoids x xs × Distinct xs

Occupied-erase :
    (k : ℕ) (m : List (ℕ × Session)) (ks : List ℕ)
    → Avoids k ks
    → Occupied m ks
    → Occupied (erase k m) ks
Occupied-erase k m [] a o = tt
Occupied-erase k m (j ∷ ks) a o =
    (rw find-erase (ground (arith, o.0)), Occupied-erase k m ks a.1 o.1)

-- Distinct keys that all have an entry are no more than the entries.
pigeonhole :
    (ks : List ℕ) (m : List (ℕ × Session)) → Distinct ks → Occupied m ks → length ks ≤ length m
pigeonhole [] m d o = omega arith
pigeonhole (k ∷ ks) m d o =
    omega (
      arith,
      length-erase-lt k m o.0,
      pigeonhole ks (erase k m) d.1 (Occupied-erase k m ks d.0 o.1),
    )

candidates-Distinct : (n c : ℕ) → IsSessionId c → n ≤ 65535 → Distinct (candidates n c)
candidates-Distinct zero c h fits = tt
candidates-Distinct (suc n) c h fits = (
  ahead n 1 c (bump c) h (bump-IsSessionId c) (omega (arith, bump_ring c h)) (omega arith)
      (omega arith),
  candidates-Distinct n (bump c) (bump-IsSessionId c) (omega arith),
)

length-candidates : (n c : ℕ) → length (candidates n c) ≡ n
length-candidates zero c = refl
length-candidates (suc n) c = ap suc (length-candidates n (bump c))

search_free-none :
    (n c : ℕ) (m : List (ℕ × Session)) → search_free n m c ≡ none → Occupied m (candidates n c)
unfolding search_free
search_free-none zero c m e = tt
search_free-none (suc n) c m e = elim (Option-cases (find c m)) [
  | inl free ↦ absurd (ground arith)
  | inr (s, held) ↦ (λ free. cc, search_free-none n (bump c) m (rw (held, search_free) at e))
]

-- An id that the search returns is an id from 1 to 65535 with no session.
pub search_free-free :
    (n c x : ℕ) (m : List (ℕ × Session))
    → IsSessionId c
    → search_free n m c ≡ some x
    → (find x m ≡ none) × IsSessionId x
unfolding search_free
search_free-free zero c x m h e = cc
search_free-free (suc n) c x m h e = elim (Option-cases (find c m)) [
  | inl free ↦ ground (arith, free)
  | inr (s, held) ↦
      search_free-free n (bump c) x m (bump-IsSessionId c) (rw (held, search_free) at e)
]

-- More rounds than sessions are enough, and more than 65535 are never needed.
pub search_free_enough :
    (n c : ℕ) (m : List (ℕ × Session))
    → IsSessionId c
    → length m < n
    → n ≤ 65535
    → (x : ℕ) × (search_free n m c ≡ some x)
search_free_enough n c m h room fits = elim (Option-cases (search_free n m c)) [
  | inr found ↦ found
  | inl e ↦ absurd (
      omega (
        arith,
        length-candidates n c,
        pigeonhole (candidates n c) m (candidates-Distinct n c h fits) (search_free-none n c m e),
      ))
]

-- With a session under every id the search goes on for ever.
pub search_free_full :
    (n c : ℕ) (m : List (ℕ × Session))
    → IsSessionId c
    → ((k : ℕ) → IsSessionId k → find k m ≢ none)
    → search_free n m c ≡ none
unfolding search_free
search_free_full zero c m h full = refl
search_free_full (suc n) c m h full = elim (Option-cases (find c m)) [
  | inl free ↦ absurd (full c h free)
  | inr (s, held) ↦ rw (held, search_free) (search_free_full n (bump c) m (bump-IsSessionId c) full)
]
