-- ===== src/Prelude/Assoc.antt =====
-- Go's maps with keys that are compared only: association lists with numbers for keys.
use logrange.Prelude.{
  ℕ, ◌≡◌, ◌≢◌, refl, List, [], ◌∷◌, Option, none, some, arith, ◌==◌, if◌then◌else◌,
}

module _ {V : Type 0} where
  -- `m[k]`
  unfoldable pub lookup : List (ℕ × V) → ℕ → Option V
  lookup [] k = none
  lookup ((k', v) ∷ m) k = let rest = lookup m k in if k' == k then some v else rest

  -- `m[k] = v`
  unfoldable pub insert : List (ℕ × V) → ℕ → V → List (ℕ × V)
  insert [] k v = (k, v) ∷ []
  insert ((k', v') ∷ m) k v =
      let rest = insert m k v in if k' == k then (k, v) ∷ m else (k', v') ∷ rest

  -- `delete(m, k)`
  unfoldable pub erase : List (ℕ × V) → ℕ → List (ℕ × V)
  erase [] k = []
  erase ((k', v) ∷ m) k = let rest = erase m k in if k' == k then rest else (k', v) ∷ rest

  pub lookup-insert :
      (m : List (ℕ × V)) (k k' : ℕ) (v : V)
      → lookup (insert m k v) k' ≡ (if k == k' then some v else lookup m k')
  unfolding lookup insert
  lookup-insert [] k k' v = refl
  lookup-insert ((a, b) ∷ m) k k' v = let ih = lookup-insert m k k' v in ground arith

  pub lookup-erase :
      (m : List (ℕ × V)) (k k' : ℕ)
      → lookup (erase m k) k' ≡ (if k == k' then none else lookup m k')
  unfolding lookup erase
  lookup-erase [] k k' = ground arith
  lookup-erase ((a, b) ∷ m) k k' = let ih = lookup-erase m k k' in ground arith

  pub lookup_of-erase :
      (m : List (ℕ × V)) (k k' : ℕ) (v : V)
      → lookup (erase m k) k' ≡ some v
      → (k ≢ k') × (lookup m k' ≡ some v)
  lookup_of-erase m k k' v e = let l = lookup-erase m k k' in (λ h. ground arith, ground arith)

  pub insert-insert :
      (m : List (ℕ × V)) (k : ℕ) (v v' : V) → insert (insert m k v) k v' ≡ insert m k v'
  unfolding insert
  insert-insert [] k v v' = ground arith
  insert-insert ((a, b) ∷ m) k v v' = let ih = insert-insert m k v v' in ground arith

  pub insert_same : (m : List (ℕ × V)) (k : ℕ) (v : V) → lookup m k ≡ some v → insert m k v ≡ m
  unfolding insert lookup
  insert_same [] k v e = absurd (ground arith)
  insert_same ((a, b) ∷ m) k v e = let ih = insert_same m k v in ground arith

  pub lookup-insert_self : (m : List (ℕ × V)) (k : ℕ) (v : V) → lookup (insert m k v) k ≡ some v
  lookup-insert_self m k v = let l = lookup-insert m k k v in ground arith

  pub erase-insert : (m : List (ℕ × V)) (k : ℕ) (v : V) → erase (insert m k v) k ≡ erase m k
  unfolding insert erase
  erase-insert [] k v = ground arith
  erase-insert ((a, b) ∷ m) k v = let ih = erase-insert m k v in ground arith
