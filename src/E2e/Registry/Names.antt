-- ===== src/E2e/Registry/Names.antt =====
-- `std::unordered_map` with strings as keys, as an association list.
use opensomeip.Base.{
  ℕ, ◌≡◌, refl, sym, ap, ◌∙◌, arith, Bool, true, false, ◌&&◌, ◌==◌, ==_iff, ==_refl, Bool-cases,
  inl, inr, if◌then◌else◌, List, [], ◌∷◌, Option, none, some,
}
use mathlib.Core.Path.{ap₂, subst}
use opensomeip.Base.Map.{none-ne-some}

-- `operator==` of two strings.
unfoldable pub same_name : List ℕ → List ℕ → Bool
same_name [] [] = true
same_name [] (b ∷ ys) = false
same_name (a ∷ xs) [] = false
same_name (a ∷ xs) (b ∷ ys) = let rest = same_name xs ys in a == b && rest

pub same_name_refl : (n : List ℕ) → same_name n n ≡ true
unfolding same_name
same_name_refl [] = refl
same_name_refl (a ∷ xs) = rw (==_refl a, same_name_refl xs) refl

pub differ : false ≡ true → ⊥
differ e = cc

pub same_name_eq : (n m : List ℕ) → same_name n m ≡ true → n ≡ m
unfolding same_name
same_name_eq [] [] e = refl
same_name_eq [] (b ∷ ys) e = cc
same_name_eq (a ∷ xs) [] e = cc
same_name_eq (a ∷ xs) (b ∷ ys) e = elim (Bool-cases (a == b)) [
  | inl same ↦
      ap₂ (λ (x : ℕ) (l : List ℕ). x ∷ l) ((==_iff a b).0 same) (same_name_eq xs ys (rw same at e))
  | inr other ↦ absurd (differ (rw other at e))
]

-- Two strings that equal a third are equal.
apart : (i k j : List ℕ) → same_name i k ≡ false → same_name i j ≡ true → same_name k j ≡ true → ⊥
apart i k j other hit both =
    let met : i ≡ k = same_name_eq i j hit ∙ sym (same_name_eq k j both) in
    let met_true : same_name i k ≡ true =
      ap (λ (h : List ℕ). same_name h k) met ∙ same_name_refl k in
    cc

module _ {ℓ} {V : Type ℓ} where
  unfoldable pub find_name : List ℕ → List (List ℕ × V) → Option V
  find_name k [] = none
  find_name k ((j, v) ∷ m) = if same_name j k then some v else find_name k m

  unfoldable pub insert_name : List ℕ → V → List (List ℕ × V) → List (List ℕ × V)
  insert_name k v [] = (k, v) ∷ []
  insert_name k v ((j, w) ∷ m) =
      let rest = insert_name k v m in if same_name j k then (k, v) ∷ m else (j, w) ∷ rest

  unfoldable pub erase_name : List ℕ → List (List ℕ × V) → List (List ℕ × V)
  erase_name k [] = []
  erase_name k ((j, w) ∷ m) =
      let rest = erase_name k m in if same_name j k then rest else (j, w) ∷ rest

  pub find_name-insert_name :
      (k j : List ℕ) (v : V) (m : List (List ℕ × V))
      → find_name j (insert_name k v m) ≡ (if same_name k j then some v else find_name j m)
  unfolding find_name insert_name
  find_name-insert_name k j v [] = refl
  find_name-insert_name k j v ((i, w) ∷ m) = elim (Bool-cases (same_name i k)) [
    | inl same ↦ rw same (
        subst
          (λ (h : List ℕ).
            (if same_name k j then some v else find_name j m)
            ≡ (if same_name k j then some v else if same_name h j then some w else find_name j m))
          (sym (same_name_eq i k same)) (ground arith))
    | inr other ↦ elim (Bool-cases (same_name i j)) [
      | inl hit ↦
          rw (other, hit, find_name)
            (elim (Bool-cases (same_name k j)) [
              | inl both ↦ absurd (apart i k j other hit both)
              | inr far ↦ rw far refl
            ])
      | inr miss ↦ rw (other, find_name, miss) (find_name-insert_name k j v m)
    ]
  ]

  pub find_name-insert_other :
      (k j : List ℕ) (v w : V) (m : List (List ℕ × V))
      → find_name k m ≡ none
      → find_name j m ≡ some w
      → find_name j (insert_name k v m) ≡ some w
  find_name-insert_other k j v w m free held = elim (Bool-cases (same_name k j)) [
    | inl same ↦ absurd (
        none-ne-some (sym free ∙ ap (λ (n : List ℕ). find_name n m) (same_name_eq k j same) ∙ held))
    | inr other ↦ rw (find_name-insert_name, other) held
  ]

  pub find_name-erase_name :
      (k j : List ℕ) (m : List (List ℕ × V))
      → find_name j (erase_name k m) ≡ (if same_name k j then none else find_name j m)
  unfolding find_name erase_name
  find_name-erase_name k j [] = ground arith
  find_name-erase_name k j ((i, w) ∷ m) = elim (Bool-cases (same_name i k)) [
    | inl same ↦ rw same (
        subst
          (λ (h : List ℕ).
            find_name j (erase_name k m)
            ≡ (if same_name k j then none else if same_name h j then some w else find_name j m))
          (sym (same_name_eq i k same)) (ground (arith, find_name-erase_name k j m)))
    | inr other ↦ elim (Bool-cases (same_name i j)) [
      | inl hit ↦
          rw (other, hit, find_name)
            (elim (Bool-cases (same_name k j)) [
              | inl both ↦ absurd (apart i k j other hit both)
              | inr far ↦ rw far refl
            ])
      | inr miss ↦ rw (other, find_name, miss) (find_name-erase_name k j m)
    ]
  ]
