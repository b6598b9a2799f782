-- ===== src/Base/Map.antt =====
-- `std::unordered_map` with numeric keys, as an association list. Nothing in the sources depends on
-- the order of iteration but what the theorems name.
use opensomeip.Base.Tests.{◌==◌, ==_iff, ==_refl, if◌then◌else◌, Bool-cases, some_inj}
use mathlib.Core.Logic.{inl, inr}
use opensomeip.Base.Lists.{length}
use Prim.Native.Nat.{ℕ, ◌+◌, ◌≤◌}
use mathlib.Core.Path.{◌≡◌, refl, sym, ap, subst, ◌∙◌}
use mathlib.Core.Bool.{Bool}
use mathlib.Core.List.{List, [], ◌∷◌}
use mathlib.Core.Option.{Option, none, some}
use native.Mathlib.Omega.{arith}

pub none-ne-some {ℓ} : {V : Type ℓ} {v : V} → none ≡ some v → ⊥
none-ne-some e = cc

module _ {ℓ} {V : Type ℓ} where
  unfoldable pub find : ℕ → List (ℕ × V) → Option V
  find k [] = none
  find k ((j, v) ∷ m) = if j == k then some v else find k m

  unfoldable pub insert : ℕ → V → List (ℕ × V) → List (ℕ × V)
  insert k v [] = (k, v) ∷ []
  insert k v ((j, w) ∷ m) = if j == k then (k, v) ∷ m else (j, w) ∷ insert k v m

  -- Every entry with the key goes, as `erase(key)` does.
  unfoldable pub erase : ℕ → List (ℕ × V) → List (ℕ × V)
  erase k [] = []
  erase k ((j, w) ∷ m) = let rest = erase k m in if j == k then rest else (j, w) ∷ rest

  unfoldable pub retain : (V → Bool) → List (ℕ × V) → List (ℕ × V)
  retain keep [] = []
  retain keep ((j, w) ∷ m) = let rest = retain keep m in if keep w then (j, w) ∷ rest else rest

  pub find-insert :
      (k j : ℕ) (v : V) (m : List (ℕ × V))
      → find j (insert k v m) ≡ (if k == j then some v else find j m)
  unfolding find insert
  find-insert k j v [] = refl
  find-insert k j v ((i, w) ∷ m) = ground (arith, find-insert k j v m)

  pub find-insert_self : (k : ℕ) (v : V) (m : List (ℕ × V)) → find k (insert k v m) ≡ some v
  find-insert_self k v m =
      find-insert k k v m ∙ ap (λ (same : Bool). if same then some v else find k m) (==_refl k)

  pub find-insert_other :
      (k j : ℕ) (v w : V) (m : List (ℕ × V))
      → find k m ≡ none
      → find j m ≡ some w
      → find j (insert k v m) ≡ some w
  find-insert_other k j v w m free held = elim (Bool-cases (k == j)) [
    | inl same ↦
        absurd (none-ne-some (sym free ∙ ap (λ (n : ℕ). find n m) ((==_iff k j).0 same) ∙ held))
    | inr other ↦ rw (find-insert, other) held
  ]

  pub find-erase :
      (k j : ℕ) (m : List (ℕ × V)) → find j (erase k m) ≡ (if k == j then none else find j m)
  unfolding find erase
  find-erase k j [] = ground arith
  find-erase k j ((i, w) ∷ m) = ground (arith, find-erase k j m)

  pub insert-insert :
      (k : ℕ) (v w : V) (m : List (ℕ × V)) → insert k v (insert k w m) ≡ insert k v m
  unfolding insert
  insert-insert k v w [] = ground arith
  insert-insert k v w ((i, u) ∷ m) = ground (arith, insert-insert k v w m)

  pub erase-absent : (k : ℕ) (m : List (ℕ × V)) → find k m ≡ none → erase k m ≡ m
  unfolding find erase
  erase-absent k [] free = refl
  erase-absent k ((i, u) ∷ m) free = ground (arith, erase-absent k m)

  pub erase-insert :
      (k : ℕ) (v : V) (m : List (ℕ × V)) → find k m ≡ none → erase k (insert k v m) ≡ m
  unfolding find insert erase
  erase-insert k v [] free = ground arith
  erase-insert k v ((i, u) ∷ m) free = ground (arith, erase-insert k v m)

  pub length-insert : (k : ℕ) (v : V) (m : List (ℕ × V)) → length (insert k v m) ≤ length m + 1
  unfolding insert
  length-insert k v [] = omega arith
  length-insert k v ((i, w) ∷ m) = ground (arith, length-insert k v m)

  pub length-insert_present :
      (k : ℕ) (v w : V) (m : List (ℕ × V)) → find k m ≡ some w → length (insert k v m) ≡ length m
  unfolding find insert
  length-insert_present k v w [] e = absurd (none-ne-some e)
  length-insert_present k v w ((i, u) ∷ m) e = ground (arith, length-insert_present k v w m)

  pub length-retain : (p : V → Bool) (m : List (ℕ × V)) → length (retain p m) ≤ length m
  unfolding retain
  length-retain p [] = omega arith
  length-retain p ((i, w) ∷ m) = ground (arith, length-retain p m)

  pub length-erase : (k : ℕ) (m : List (ℕ × V)) → length (erase k m) ≤ length m
  unfolding erase
  length-erase k [] = omega arith
  length-erase k ((i, w) ∷ m) = ground (arith, length-erase k m)

module _ {ℓ κ} {V : Type ℓ} (P : ℕ → V → Type κ) where
  -- Every entry satisfies a predicate of its key and its value.
  abbrev pub Entries : List (ℕ × V) → Type κ
  Entries [] = Unit
  Entries ((k, v) ∷ m) = P k v × Entries m

  pub Entries-insert :
      (k : ℕ) (v : V) (m : List (ℕ × V)) → P k v → Entries m → Entries (insert k v m)
  unfolding insert
  Entries-insert k v [] h es = (h, tt)
  Entries-insert k v ((j, w) ∷ m) h es = elim (Bool-cases (j == k)) [
    | inl same ↦ rw same (h, es.1)
    | inr other ↦ rw other (es.0, Entries-insert k v m h es.1)
  ]

  pub Entries-erase : (k : ℕ) (m : List (ℕ × V)) → Entries m → Entries (erase k m)
  unfolding erase
  Entries-erase k [] es = tt
  Entries-erase k ((j, w) ∷ m) es = elim (Bool-cases (j == k)) [
    | inl same ↦ rw same (Entries-erase k m es.1)
    | inr other ↦ rw other (es.0, Entries-erase k m es.1)
  ]

  pub Entries-find : (k : ℕ) (v : V) (m : List (ℕ × V)) → Entries m → find k m ≡ some v → P k v
  unfolding find
  Entries-find k v [] es e = absurd (none-ne-some e)
  Entries-find k v ((j, w) ∷ m) es e = elim (Bool-cases (j == k)) [
    | inl same ↦
        subst (λ (i : ℕ). P i v) ((==_iff j k).0 same)
          (subst (P j) (some_inj (ap (λ (b : Bool). if b then some w else find k m) (sym same) ∙ e))
            es.0)
    | inr other ↦
        Entries-find k v m es.1 (ap (λ (b : Bool). if b then some w else find k m) (sym other) ∙ e)
  ]
