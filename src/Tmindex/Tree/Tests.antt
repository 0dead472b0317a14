-- ===== src/Tmindex/Tree/Tests.antt =====
-- Runs of the queries on a tree of two levels, and the theorems there.
use logrange.Prelude.{
  ℕ, zero, suc, ◌+◌, ◌/◌, ◌≤◌, ◌<◌, ◌≡◌, refl, List, Option, none, some, arith, ◌==◌, if◌then◌else◌,
}
use logrange.Prelude.Int.{ℤ, pos}
use logrange.Prelude.Bisect.{bisect}
use logrange.Tmindex.Block.{Record, Interval, Buf, zero_record, find_interval_idx, intervals}
use logrange.Tmindex.Block.Covers.{Covers}
use logrange.Tmindex.Tree.{ok, err, all_matches, gr_eq_int, less_int, count_int}
use logrange.Tmindex.Tree.Shape.{IsTree, leaf, node, here, below}
use logrange.Tmindex.Tree.Query.{GrEqAnswer, LessAnswer}
use logrange.Tmindex.Tree.GrEq.{gr_eq_int-answers}
use logrange.Tmindex.Tree.Less.{less_int-answers}
use logrange.Tmindex.Tree.Walk.{Walked, traversal_int-Walked}
use logrange.Tmindex.Tree.Sound.{lookup_sound, gr_eq_int_skips}

abbrev at_ts : ℕ → ℕ → Record
at_ts t i = record { ts = pos t; idx = i }

abbrev block_of : ℕ → ℕ → Record → Record → Record → Buf
block_of n l r0 r1 r2 = record {
  recs = n;
  lvl = l;
  places = λ k. if k == 0 then r0 else if k == 1 then r1 else if k == 2 then r2 else zero_record;
}

abbrev left_block : Buf
left_block = block_of 3 0 (at_ts 10 0) (at_ts 20 250) (at_ts 30 500)

abbrev right_block : Buf
right_block = block_of 2 0 (at_ts 30 500) (at_ts 40 750) zero_record

abbrev root_of_both : Buf
root_of_both = block_of 3 1 (at_ts 10 1) (at_ts 30 2) (at_ts 40 750)

-- the root is the block 0
abbrev storage : ℕ → Option Buf
storage i =
    if i == 0
    then some root_of_both
    else if i == 1
    then some left_block
    else if i == 2
    then some right_block
    else none

abbrev edges : ℕ → Record
edges i = if i == 0 then at_ts 10 0 else if i == 1 then at_ts 30 500 else at_ts 40 750

left-IsTree : IsTree storage 1 0 (at_ts 10 0) (at_ts 30 500)
left-IsTree = leaf left_block refl refl (omega arith) (λ i j ij jn. ground arith) refl refl

right-IsTree : IsTree storage 2 0 (at_ts 30 500) (at_ts 40 750)
right-IsTree = leaf right_block refl refl (omega arith) (λ i j ij jn. ground arith) refl refl

child-IsTree :
    (i : ℕ) → suc i < 3 → IsTree storage (root_of_both.places i).idx 0 (edges i) (edges (suc i))
child-IsTree zero lt = left-IsTree
child-IsTree (suc zero) lt = right-IsTree
child-IsTree (suc (suc i)) lt = absurd (omega arith)

root-IsTree : IsTree storage 0 1 (at_ts 10 0) (at_ts 40 750)
root-IsTree =
    node root_of_both edges refl refl (omega arith) (λ i j ij jn. ground arith)
      (λ i lt. ground arith) child-IsTree refl refl

answers_25 :
    (gr_eq_int storage 2 0 (pos 25) ≡ ok (at_ts 20 250))
    × (less_int storage 2 0 (pos 25) ≡ ok (at_ts 30 500))
unfolding gr_eq_int less_int find_interval_idx intervals bisect
answers_25 = (refl, refl)

answers_outside :
    (gr_eq_int storage 2 0 (pos 5) ≡ err all_matches)
    × (less_int storage 2 0 (pos 40) ≡ err all_matches)
unfolding gr_eq_int less_int find_interval_idx intervals bisect
answers_outside = (refl, refl)

count_both : count_int storage 2 0 ≡ ok 3
unfolding count_int
count_both = refl

gr_eq_int-answers_example : GrEqAnswer storage 0 (pos 25) (gr_eq_int storage 2 0 (pos 25))
gr_eq_int-answers_example = gr_eq_int-answers storage 2 (pos 25) root-IsTree (omega arith)

less_int-answers_example : LessAnswer storage 0 (pos 25) (less_int storage 2 0 (pos 25))
less_int-answers_example = less_int-answers storage 2 (pos 25) root-IsTree (omega arith)

traversal_int-Walked_example :
    (its : List Interval) × Walked storage 2 0 (at_ts 10 0) (at_ts 40 750) its
traversal_int-Walked_example = traversal_int-Walked storage 2 root-IsTree (omega arith)

-- the records are stamped 10, 10, ..., and one more each 25 positions
abbrev clock : ℕ → ℤ
clock x = pos (10 + x / 25)

left-Covers : Covers clock 0 501 left_block
left-Covers = record {
  ordered = record { sorted = λ i j ij jn. ground arith };
  filled = omega arith;
  fits = omega arith;
  start = refl;
  positions = λ i j ij jn. ground arith;
  idx_in = λ i lt. ground arith;
  lowest = λ x sx xm. omega arith;
  highest = λ x sx xm. omega arith;
  before = λ i x lt sx xi. ground arith;
  after = λ i x lt ix xm. ground arith;
}

left_answers :
    (gr_eq_int storage 1 1 (pos 15) ≡ ok (at_ts 10 0))
    × (less_int storage 1 1 (pos 19) ≡ ok (at_ts 20 250))
unfolding gr_eq_int less_int find_interval_idx intervals bisect
left_answers = (refl, refl)

-- the record at 200 is stamped 18
lookup_sound_example : (0 ≤ 200) × (200 ≤ 250)
lookup_sound_example =
    lookup_sound storage clock 0 501 1 left_block (pos 15) (pos 19) (at_ts 10 0) (at_ts 20 250) refl
      refl left-Covers left_answers.0 left_answers.1 200 (omega arith) (omega arith) (omega arith)
      (omega arith)

gr_eq_at_point : gr_eq_int storage 2 0 (pos 20) ≡ ok (at_ts 20 250)
unfolding gr_eq_int find_interval_idx intervals bisect
gr_eq_at_point = refl

gr_eq_int_skips_example : 249 < 250
gr_eq_int_skips_example =
    gr_eq_int_skips storage 2 (at_ts 20 250) (at_ts 20 250) 249 root-IsTree (omega arith)
      (below root_of_both 0 refl (omega arith) (omega arith)
        (here left_block 1 refl refl (omega arith) refl))
      (omega arith) gr_eq_at_point
