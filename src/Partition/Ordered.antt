-- ===== src/Partition/Ordered.antt =====
-- The insertion into a slice that is kept ordered: sort.Search finds the place, append makes room,
-- and copy moves what is behind it.
use mathlib.Core.Bool.{not}
use mathlib.Core.Option.{some-injective}
use mathlib.Core.List.{Perm, perm_middle}
use logrange.Prelude.{
  ℕ, zero, suc, ◌+◌, ◌≤◌, ◌<◌, ◌≡◌, refl, sym, subst, List, [], ◌∷◌, ◌++◌, none, some, Bool, true,
  false, if◌then◌else◌, length, get_elem?, get_elem?_of_lt, take, drop, arith, ap, take-append-drop,
  length-append,
}
use logrange.Prelude.Bisect.{bisect, bisect_splits, bisect-Cut}
use logrange.Prelude.Cases.{if_case}

module _ {A : Type 0} where
  -- What sort.Search asks of the element at an index, in the form of Bisect.
  abbrev pub goes_on : (A → Bool) → List A → ℕ → Bool
  goes_on stops xs i = elim (get_elem? xs i) [ none ↦ false | some a ↦ not (stops a) ]

  -- The place is where `stops` holds first.
  unfoldable pub insert_ordered : (A → Bool) → A → List A → List A
  unfolding bisect
  insert_ordered stops x xs =
      let idx = bisect (goes_on stops xs) (length xs) in take idx xs ++ x ∷ drop idx xs

  -- Every element stands before all later ones by `R`.
  abbrev pub All : (A → Type 0) → List A → Type 0
  All P [] = Unit {0}
  All P (x ∷ xs) = P x × All P xs

  abbrev pub IsOrdered : (A → A → Type 0) → List A → Type 0
  IsOrdered R [] = Unit {0}
  IsOrdered R (x ∷ xs) = All (R x) xs × IsOrdered R xs

  -- The plain insertion, which walks from the front.
  abbrev pub insert_walking : (A → Bool) → A → List A → List A
  insert_walking stops x [] = x ∷ []
  insert_walking stops x (y ∷ ys) =
      let rest = insert_walking stops x ys in if stops y then x ∷ y ∷ ys else y ∷ rest

  -- Where the elements before the place go on and the one at it stops, both insertions agree.
  at_place :
      (stops : A → Bool) (x : A) (xs : List A) (r : ℕ)
      → r ≤ length xs
      → ((k : ℕ) → k < r → goes_on stops xs k ≡ true)
      → (r < length xs → goes_on stops xs r ≡ false)
      → take r xs ++ x ∷ drop r xs ≡ insert_walking stops x xs
  at_place stops x [] zero h before at_end = refl
  at_place stops x [] (suc r) h before at_end = absurd (omega arith)
  at_place stops x (y ∷ ys) zero h before at_end = ground (arith, at_end (omega arith))
  at_place stops x (y ∷ ys) (suc r) h before at_end =
      let ih =
        at_place stops x ys r (omega arith) (λ k lt. before (suc k) (omega arith))
          (λ lt. at_end (omega arith)) in
      ground (arith, before 0 (omega arith))

  map_All : {P Q : A → Type 0} → ((a : A) → P a → Q a) → (xs : List A) → All P xs → All Q xs
  map_All f [] h = h
  map_All f (x ∷ xs) h = (f x h.0, map_All f xs h.1)

  All_at : (P : A → Type 0) (xs : List A) (i : ℕ) (a : A) → All P xs → get_elem? xs i ≡ some a → P a
  All_at P [] i a h e = absurd (ground arith)
  All_at P (x ∷ xs) zero a h e = subst P (some-injective x a e) h.0
  All_at P (x ∷ xs) (suc i) a h e = All_at P xs i a h.1 e

  -- What an insertion into an ordered list is to know of the order and of the test.
  pub record IsTestFor (R : A → A → Type 0) (stops : A → Bool) (x : A) : Type 0 where
    pub trans : (a b c : A) → R a b → R b c → R a c
    pub stays : (a b : A) → R a b → stops a ≡ true → stops b ≡ true
    pub behind : (a : A) → stops a ≡ true → R x a
    pub before : (a : A) → stops a ≡ false → R a x

  module _ (R : A → A → Type 0) (stops : A → Bool) (x : A) (t : IsTestFor R stops x) where
    goes_on_mono :
        (xs : List A) (a b : ℕ)
        → IsOrdered R xs
        → a ≤ b
        → b < length xs
        → goes_on stops xs b ≡ true
        → goes_on stops xs a ≡ true
    goes_on_mono [] a b o h lt e = absurd (omega arith)
    goes_on_mono (y ∷ ys) zero zero o h lt e = e
    goes_on_mono (y ∷ ys) zero (suc b) o h lt e =
        let (z, at) = get_elem?_of_lt ys b (omega arith) in
        let r = All_at (R y) ys b z o.0 at in let stays = t.stays y z r in ground arith
    goes_on_mono (y ∷ ys) (suc a) zero o h lt e = absurd (omega arith)
    goes_on_mono (y ∷ ys) (suc a) (suc b) o h lt e =
        goes_on_mono ys a b o.1 (omega arith) (omega arith) e

    -- The halving search finds the place where a walk from the front would insert.
    pub insert_ordered-insert_walking :
        (xs : List A) → IsOrdered R xs → insert_ordered stops x xs ≡ insert_walking stops x xs
    unfolding insert_ordered
    insert_ordered-insert_walking xs o =
        let test = goes_on stops xs in
        let n = length xs in
        let cut = bisect-Cut test n in
        at_place stops x xs (bisect test n) cut.inside
          (λ k lt.
            (bisect_splits test n (λ a b h below e. goes_on_mono xs a b o h below e) k
                (omega (arith, cut.inside))).1
              lt)
          cut.at_end

    All-insert_walking :
        (P : A → Type 0) (ys : List A) → P x → All P ys → All P (insert_walking stops x ys)
    All-insert_walking P [] p h = (p, tt)
    All-insert_walking P (y ∷ ys) p h =
        if_case (All P) (stops y) (λ s. (p, h)) (λ s. (h.0, All-insert_walking P ys p h.1))

    insert_walking-IsOrdered :
        (xs : List A) → IsOrdered R xs → IsOrdered R (insert_walking stops x xs)
    insert_walking-IsOrdered [] o = (tt, tt)
    insert_walking-IsOrdered (y ∷ ys) o =
        if_case (IsOrdered R) (stops y)
          (λ s.
            let front = t.behind y s in ((front, map_All (λ z r. t.trans x y z front r) ys o.0), o))
          (λ s. (All-insert_walking (R y) ys (t.before y s) o.0, insert_walking-IsOrdered ys o.1))

    pub insert_ordered-IsOrdered :
        (xs : List A) → IsOrdered R xs → IsOrdered R (insert_ordered stops x xs)
    insert_ordered-IsOrdered xs o =
        subst (IsOrdered R) (sym (insert_ordered-insert_walking xs o))
          (insert_walking-IsOrdered xs o)

  -- The insertion adds the element, and nothing else changes.
  pub insert_ordered-perm :
      (stops : A → Bool) (x : A) (xs : List A) → Perm (insert_ordered stops x xs) (x ∷ xs)
  unfolding insert_ordered
  insert_ordered-perm stops x xs =
      let idx = bisect (goes_on stops xs) (length xs) in
      subst (λ (l : List A). Perm (take idx xs ++ x ∷ drop idx xs) (x ∷ l))
        (take-append-drop idx xs) (perm_middle (take idx xs) (drop idx xs))

  pub length-insert_ordered :
      (stops : A → Bool) (x : A) (xs : List A) → length (insert_ordered stops x xs) ≡ length xs + 1
  unfolding insert_ordered
  length-insert_ordered stops x xs =
      let idx = bisect (goes_on stops xs) (length xs) in
      let whole = ap length (take-append-drop idx xs) in
      omega (
        arith,
        length-append {0} (take idx xs) (x ∷ drop idx xs),
        length-append {0} (take idx xs) (drop idx xs),
        whole,
      )
