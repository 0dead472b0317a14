-- ===== src/Model/Mixer/Merge.antt =====
-- The merge of two lists by a choice between their first elements.
use logrange.Prelude.{◌≡◌, refl, Bool, true, false, List, [], ◌∷◌, if◌then◌else◌}

module _ {A : Type 0} where
  -- The one that `choose` prefers comes first.
  pub merge : (A → A → Bool) → List A → List A → List A
  merge choose [] ys = ys
  merge choose (x ∷ xs) [] = x ∷ xs
  merge choose (x ∷ xs) (y ∷ ys) =
      let left = merge choose xs (y ∷ ys) in
      let right = merge choose (x ∷ xs) ys in if choose x y then x ∷ left else y ∷ right

  pub merge-nil : (choose : A → A → Bool) (xs : List A) → merge choose xs [] ≡ xs
  unfolding merge
  merge-nil choose [] = refl
  merge-nil choose (x ∷ xs) = refl

  pub merge-left :
      (choose : A → A → Bool) (x y : A) (xs ys : List A)
      → choose x y ≡ true
      → merge choose (x ∷ xs) (y ∷ ys) ≡ x ∷ merge choose xs (y ∷ ys)
  unfolding merge
  merge-left choose x y xs ys e = rw (merge, e) refl

  pub merge-right :
      (choose : A → A → Bool) (x y : A) (xs ys : List A)
      → choose x y ≡ false
      → merge choose (x ∷ xs) (y ∷ ys) ≡ y ∷ merge choose (x ∷ xs) ys
  unfolding merge
  merge-right choose x y xs ys e = rw (merge, e) refl

  pub nil-merge : (choose : A → A → Bool) (ys : List A) → merge choose [] ys ≡ ys
  unfolding merge
  nil-merge choose ys = refl
