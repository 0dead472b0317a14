-- ===== src/Prelude/Texts.antt =====
-- Go's comparison of strings, which are lists of bytes.
use logrange.Prelude.{
  ℕ, ◌≡◌, ◌↔◌, refl, subst, Bool, true, false, ◌&&◌, ◌==◌, List, [], ◌∷◌, arith, Option, none, some,
  if◌then◌else◌,
}

abbrev pub eq_str : List ℕ → List ℕ → Bool
eq_str [] [] = true
eq_str [] (y ∷ ys) = false
eq_str (x ∷ xs) [] = false
eq_str (x ∷ xs) (y ∷ ys) = (x == y) && eq_str xs ys

pub eq_str_refl : (xs : List ℕ) → eq_str xs xs ≡ true
eq_str_refl [] = refl
eq_str_refl (x ∷ xs) = ground (arith, eq_str_refl xs)

pub eq_of-eq_str : (xs ys : List ℕ) → eq_str xs ys ≡ true → xs ≡ ys
eq_of-eq_str [] [] h = refl
eq_of-eq_str [] (y ∷ ys) h = ground arith
eq_of-eq_str (x ∷ xs) [] h = ground arith
eq_of-eq_str (x ∷ xs) (y ∷ ys) h = ground (arith, eq_of-eq_str xs ys)

pub eq_str_iff : (xs ys : List ℕ) → (eq_str xs ys ≡ true) ↔ (xs ≡ ys)
eq_str_iff xs ys = (eq_of-eq_str xs ys, λ e. subst (λ z. eq_str xs z ≡ true) e (eq_str_refl xs))

pub eq_str_comm : (xs ys : List ℕ) → eq_str xs ys ≡ eq_str ys xs
eq_str_comm xs ys = ground (arith, eq_str_iff xs ys, eq_str_iff ys xs)

-- Go's maps with strings for keys.
module _ {V : Type 0} where
  -- `m[k]`
  unfoldable pub lookup_str : List (List ℕ × V) → List ℕ → Option V
  lookup_str [] k = none
  lookup_str ((k', v) ∷ m) k = let rest = lookup_str m k in if eq_str k' k then some v else rest

  -- `m[k] = v`
  unfoldable pub insert_str : List (List ℕ × V) → List ℕ → V → List (List ℕ × V)
  insert_str [] k v = (k, v) ∷ []
  insert_str ((k', w) ∷ m) k v =
      let rest = insert_str m k v in if eq_str k' k then (k, v) ∷ m else (k', w) ∷ rest

  pub lookup-insert_str :
      (m : List (List ℕ × V)) (k j : List ℕ) (v : V)
      → lookup_str (insert_str m k v) j ≡ (if eq_str k j then some v else lookup_str m j)
  unfolding lookup_str insert_str
  lookup-insert_str [] k j v = refl
  lookup-insert_str ((i, w) ∷ m) k j v =
      let ih = lookup-insert_str m k j v in
      ground (arith, eq_str_iff i k, eq_str_iff k j, eq_str_iff i j)
