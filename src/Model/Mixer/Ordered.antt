-- ===== src/Model/Mixer/Ordered.antt =====
-- Mixing by `GetEarliest` keeps the order of time and loses no event.
use mathlib.Core.List.{Perm, perm_middle, append-nil}
use mathlib.Core.List.Perm
use logrange.Prelude.{◌≡◌, inl, inr, Bool, false, List, [], ◌∷◌, ◌++◌, arith, Bool-cases}
use logrange.Prelude.Int.{ℤ, ◌≤ℤ◌}
use logrange.Model.Iterator.{Event, Iterator}
use logrange.Model.Mixer.{get_earliest, test_func}
use logrange.Model.Mixer.Merge.{merge, merge-nil, nil-merge, merge-left, merge-right}

-- The timestamps of the events do not fall, from `t` on.
abbrev pub IsOrderedFrom : ℤ → List Event → Type 0
IsOrderedFrom t [] = t ≡ t
IsOrderedFrom t (e ∷ es) = (t ≤ℤ e.le.timestamp) × IsOrderedFrom e.le.timestamp es

module _ {S1 S2 : Type 0} (it1 : Iterator S1) (it2 : Iterator S2) where
  abbrev earliest : Event → Event → Bool
  earliest = test_func it1 it2 get_earliest false

  -- Going forward, the mixer of two iterators in the order of time by `GetEarliest` answers events
  -- in the order of time.
  pub merge-IsOrderedFrom :
      (t : ℤ) (xs ys : List Event)
      → IsOrderedFrom t xs
      → IsOrderedFrom t ys
      → IsOrderedFrom t (merge (test_func it1 it2 get_earliest false) xs ys)
  unfolding test_func get_earliest
  merge-IsOrderedFrom t [] ys a b = rw nil-merge b
  merge-IsOrderedFrom t (x ∷ xs) [] a b = rw merge-nil a
  merge-IsOrderedFrom t (x ∷ xs) (y ∷ ys) (tx, a) (ty, b) = elim (Bool-cases (earliest x y)) [
    | inl e ↦
        let le : x.le.timestamp ≤ℤ y.le.timestamp = ground arith in
        rw (merge-left earliest x y xs ys e)
          (tx, merge-IsOrderedFrom x.le.timestamp xs (y ∷ ys) a (le, b))
    | inr e ↦
        let le : y.le.timestamp ≤ℤ x.le.timestamp = ground arith in
        rw (merge-right earliest x y xs ys e)
          (ty, merge-IsOrderedFrom y.le.timestamp (x ∷ xs) ys (le, a) b)
  ]

-- The mixer answers the events of both sources, each as often as they do, whatever it selects by.
pub merge-Perm :
    {A : Type 0} (choose : A → A → Bool) (xs ys : List A) → Perm (merge choose xs ys) (xs ++ ys)
merge-Perm choose [] ys = rw nil-merge (Perm.refl ys)
merge-Perm choose (x ∷ xs) [] = rw (merge-nil, append-nil) (Perm.refl (x ∷ xs))
merge-Perm choose (x ∷ xs) (y ∷ ys) = elim (Bool-cases (choose x y)) [
  | inl e ↦ rw (merge-left choose x y xs ys e) (Perm.cons x (merge-Perm choose xs (y ∷ ys)))
  | inr e ↦ rw (merge-right choose x y xs ys e) (
      Perm.trans (Perm.cons y (merge-Perm choose (x ∷ xs) ys))
        (Perm.symm (perm_middle (x ∷ xs) ys)))
]
