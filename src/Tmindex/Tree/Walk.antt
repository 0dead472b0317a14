-- ===== src/Tmindex/Tree/Walk.antt =====
-- `traversal` and `count` walk the same intervals, a chain from the first to the last point.
use mathlib.Core.List.{append_assoc, append-nil}
use native.Mathlib.Nat.{zero-add}
use logrange.Prelude.{
  ℕ, zero, suc, ◌+◌, ◌-◌, ◌≤◌, ◌<◌, ◌≡◌, ◌≢◌, refl, sym, ◌∙◌, ap, Option, some, arith, List, [],
  ◌∷◌, ◌++◌, length, length-append,
}
use logrange.Tmindex.Block.{Record, Interval, Buf, intervals, read_record}
use logrange.Tmindex.Tree.{
  ok, sum_children, count_int, append_intervals, walk_children, traversal_int,
}
use logrange.Tmindex.Tree.Shape.{◌⊑◌, IsTree, leaf, node}

-- Intervals that lead from `lo` to `hi` without a gap, each from an earlier to a later point.
abbrev pub Chain : Record → List Interval → Record → Type 0
Chain lo [] hi = lo ≡ hi
Chain lo (it ∷ its) hi = (it.p0 ≡ lo) × (it.p0 ⊑ it.p1) × Chain it.p1 its hi

Chain-append :
    (lo mid hi : Record) (xs ys : List Interval)
    → Chain lo xs mid
    → Chain mid ys hi
    → Chain lo (xs ++ ys) hi
Chain-append lo mid hi [] ys h k = rw h k
Chain-append lo mid hi (x ∷ xs) ys (e, o, h) k = (e, o, Chain-append x.p1 mid hi xs ys h k)

-- the intervals of a block of level 0, from `i` on
block_intervals : Buf → ℕ → ℕ → List Interval
block_intervals b zero i = []
block_intervals b (suc n) i =
    record { p0 = b.places i; p1 = b.places (suc i) } ∷ block_intervals b n (suc i)

append_intervals-eq :
    (b : Buf) (n i : ℕ) (res : List Interval)
    → append_intervals b n i res ≡ res ++ block_intervals b n i
unfolding append_intervals block_intervals
append_intervals-eq b zero i res = sym (append-nil res)
append_intervals-eq b (suc n) i res =
    let q : i + 1 ≡ suc i = omega arith in
    rw q (append_intervals-eq b n (suc i) _ ∙ append_assoc res _ _)

length-block_intervals : (b : Buf) (n i : ℕ) → length (block_intervals b n i) ≡ n
unfolding block_intervals
length-block_intervals b zero i = refl
length-block_intervals b (suc n) i = ap suc (length-block_intervals b n (suc i))

block_intervals-Chain :
    (b : Buf) (n i j : ℕ)
    → j ≡ n + i
    → ((k : ℕ) → k < j → b.places k ⊑ b.places (suc k))
    → Chain (b.places i) (block_intervals b n i) (b.places j)
unfolding block_intervals
block_intervals-Chain b zero i j e ord = let q : j ≡ i = omega arith in rw q
block_intervals-Chain b (suc n) i j e ord =
    (refl, ord i (omega arith), block_intervals-Chain b n (suc i) j (omega arith) ord)

module _ (read : ℕ → Option Buf) where
  -- What a walk of the tree under `idx` does.
  pub record Walked (f idx : ℕ) (lo hi : Record) (its : List Interval) : Type 0 where
    pub walk : (res : List Interval) → traversal_int read f idx res ≡ ok (res ++ its)
    pub number : count_int read f idx ≡ ok (length its)
    pub chain : Chain lo its hi

  module _ (f : ℕ) (b : Buf) (edge : ℕ → Record)
      (child : (k : ℕ)
        → suc k < b.recs
        → (its : List Interval) × Walked f (b.places k).idx (edge k) (edge (suc k)) its) where
    walk_children_lem :
        (n i j : ℕ)
        → j ≡ n + i
        → suc j ≤ b.recs
        → (its : List Interval) × ((res : List Interval)
            → walk_children (traversal_int read f) b n i res ≡ ok (res ++ its))
          × ((c : ℕ) → sum_children (count_int read f) b n i c ≡ ok (c + length its))
          × Chain (edge i) its (edge j)
    unfolding walk_children sum_children read_record
    walk_children_lem zero i j e lt = (
      [],
      λ res. ap ok (sym (append-nil res)),
      λ c. ap ok (omega arith),
      let q : j ≡ i = omega arith in rw q,
    )
    walk_children_lem (suc n) i j e lt =
        let (its, w) = child i (omega arith) in
        let (its', walk', sum', chain') = walk_children_lem n (suc i) j (omega arith) lt in
        let q : i + 1 ≡ suc i = omega arith in
        (
          its ++ its',
          λ res. rw (w.walk res, q, walk' (res ++ its), append_assoc),
          λ c.
              rw (w.number, q, sum' (c + length its))
                (ap ok (omega (arith, length-append its its'))),
          Chain-append (edge i) (edge (suc i)) (edge j) its its' w.chain chain',
        )

  module _ (f idx : ℕ) (b : Buf) (e : read idx ≡ some b) where
    traversal_leaf :
        (res : List Interval)
        → b.lvl ≡ 0
        → traversal_int read (suc f) idx res ≡ ok (append_intervals b (intervals b) 0 res)
    unfolding traversal_int
    traversal_leaf res l0 = ground arith

    count_leaf : b.lvl ≡ 0 → count_int read (suc f) idx ≡ ok (intervals b)
    unfolding count_int
    count_leaf l0 = ground arith

    traversal_node :
        (res : List Interval)
        → b.lvl ≢ 0
        → traversal_int read (suc f) idx res
          ≡ walk_children (traversal_int read f) b (b.recs - 1) 0 res
    unfolding traversal_int
    traversal_node res n0 = ground arith

    count_node :
        b.lvl ≢ 0
        → 2 ≤ b.recs
        → count_int read (suc f) idx ≡ sum_children (count_int read f) b (b.recs - 1) 0 0
    unfolding count_int intervals
    count_node n0 fill = ground arith

  -- In a tree, with more fuel than levels, `traversal` appends a chain of intervals that leads from
  -- the first to the last point without a gap, and `count` is their number.
  pub traversal_int-Walked :
      (f : ℕ) {idx l : ℕ} {lo hi : Record}
      → IsTree read idx l lo hi
      → l < f
      → (its : List Interval) × Walked f idx lo hi its
  traversal_int-Walked zero t lt = absurd (omega arith)
  traversal_int-Walked (suc f) {idx} (leaf b e l0 fill ord elo ehi) lt =
      let q : intervals b ≡ b.recs - 1 = unfold intervals in ground arith in
      (
        block_intervals b (intervals b) 0,
        record {
          walk = λ res. rw (traversal_leaf f idx b e res l0, append_intervals-eq b);
          number = rw (count_leaf f idx b e l0, length-block_intervals);
          chain =
              rw (elo, ehi)
                (block_intervals-Chain b (intervals b) 0 (b.recs - 1) (omega arith)
                  (λ k lk. ord k (suc k) (omega arith) (omega arith)));
        },
      )
  traversal_int-Walked (suc f) {idx} (node b edge e lv fill ord same child elo ehi) lt =
      let (its, walk, number, chain) =
        walk_children_lem f b edge (λ k lk. traversal_int-Walked f (child k lk) (omega arith))
          (b.recs - 1) 0 (b.recs - 1) (omega arith) (omega arith) in
      (
        its,
        record {
          walk = λ res. rw (traversal_node f idx b e res (omega arith)) (walk res);
          number =
              rw (count_node f idx b e (omega arith) fill)
                (number 0 ∙ ap ok (zero-add (length its)));
          chain = rw (elo, ehi) chain;
        },
      )
