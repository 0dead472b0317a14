-- ===== src/Tmindex/Tree.antt =====
-- pkg/tmindex/ckindex.go: the queries on the tree of blocks. The tree lies in a block storage
-- (bstorage, a package of another repository), of which the queries use `Block(idx)` only: `read`
-- is that function, `none` its error. The calls go down one level each, so they take fuel, and
-- more fuel than the root's level is enough (Tree/Query).
pub mod Shape
pub mod Ends
pub mod Query
pub mod GrEq
pub mod Less
pub mod Walk
pub mod Sound
mod Tests
use logrange.Prelude.{
  ℕ, zero, suc, ◌+◌, ◌-◌, List, [], ◌∷◌, ◌++◌, Option, none, some, ◌==◌, if◌then◌else◌,
}
use logrange.Prelude.Int.{ℤ, pos, negsuc}
use logrange.Tmindex.Block.{
  Record, Interval, Buf, zero_record, intervals, read_record, find_interval_idx,
}

-- The errors of ckindex.go that the queries return, and the end of the fuel.
pub data Err : Type 0 where
  all_matches : Err
  corrupted : Err
  out_of_fuel : Err

pub data Result (A : Type 0) : Type 0 where
  ok : A → Result A
  err : Err → Result A

infixl 5 ◌>>=◌
abbrev pub ◌>>=◌ : {A B : Type 0} → Result A → (A → Result B) → Result B
ok a >>= f = f a
err e >>= f = err e

-- The loop `for i := 0; i < n; i++` over the children of a block, from `i` with `n` rounds left.
pub sum_children : (ℕ → Result ℕ) → Buf → ℕ → ℕ → ℕ → Result ℕ
unfolding read_record
sum_children count_child b zero i cnt = ok cnt
sum_children count_child b (suc n) i cnt = do
  c ← count_child (read_record b i).idx
  sum_children count_child b n (i + 1) (cnt + c)

-- The intervals of a block of level 0, from `i` with `n` rounds left.
pub append_intervals : Buf → ℕ → ℕ → List Interval → List Interval
unfolding read_record
append_intervals b zero i res = res
append_intervals b (suc n) i res =
    append_intervals b n (i + 1)
      (res ++ record { p0 = read_record b i; p1 = read_record b (i + 1) } ∷ [])

pub walk_children :
    (ℕ → List Interval → Result (List Interval))
    → Buf
    → ℕ
    → ℕ
    → List Interval
    → Result (List Interval)
unfolding read_record
walk_children walk b zero i res = ok res
walk_children walk b (suc n) i res = do
  res' ← walk (read_record b i).idx res
  walk_children walk b n (i + 1) res'

module _ (read : ℕ → Option Buf) where
  -- Any error of the storage is reported as a corrupted index.
  pub read_block : ℕ → Result Buf
  read_block idx = elim (read idx) [ none ↦ err corrupted | some b ↦ ok b ]

  pub read_first_record_in_the_tree : ℕ → Buf → Result Record
  unfolding read_record
  read_first_record_in_the_tree zero b = err out_of_fuel
  read_first_record_in_the_tree (suc f) b =
      let below : Result Record = elim (read (read_record b 0).idx) [
        | some bl ↦ read_first_record_in_the_tree f bl
        | none ↦ ok zero_record
      ] in
      if b.recs == 0 then ok zero_record else if b.lvl == 0 then ok (read_record b 0) else below

  pub read_last_record_in_the_tree : ℕ → Buf → Result Record
  unfolding read_record
  read_last_record_in_the_tree zero b = err out_of_fuel
  read_last_record_in_the_tree (suc f) b =
      let below : Result Record = elim (read (read_record b (b.recs - 2)).idx) [
        | some bl ↦ read_last_record_in_the_tree f bl
        | none ↦ ok zero_record
      ] in
      if b.recs == 0
      then ok zero_record
      else if b.lvl == 0
      then ok (read_record b (b.recs - 1))
      else below

  pub gr_eq_int : ℕ → ℕ → ℤ → Result Record
  unfolding read_block read_record
  gr_eq_int zero idx ts = err out_of_fuel
  gr_eq_int (suc f) idx ts = do
    b ← read_block idx
    elim (find_interval_idx b ts) [
      | negsuc _ ↦ err all_matches
      | pos int_idx ↦
          let below = gr_eq_int f (read_record b int_idx).idx ts in
          if int_idx == intervals b
          then read_last_record_in_the_tree (suc f) b
          else if b.lvl == 0
          then ok (read_record b int_idx)
          else below
    ]

  pub less_int : ℕ → ℕ → ℤ → Result Record
  unfolding read_block read_record
  less_int zero idx ts = err out_of_fuel
  less_int (suc f) idx ts = do
    b ← read_block idx
    elim (find_interval_idx b ts) [
      | negsuc _ ↦ read_first_record_in_the_tree (suc f) b
      | pos int_idx ↦
          let below = less_int f (read_record b int_idx).idx ts in
          if int_idx == intervals b
          then err all_matches
          else if b.lvl == 0
          then ok (read_record b (int_idx + 1))
          else below
    ]

  pub count_int : ℕ → ℕ → Result ℕ
  unfolding read_block sum_children intervals
  count_int zero idx = err out_of_fuel
  count_int (suc f) idx = do
    b ← read_block idx
    if b.lvl == 0 then ok (intervals b) else sum_children (count_int f) b (intervals b) 0 0

  pub traversal_int : ℕ → ℕ → List Interval → Result (List Interval)
  unfolding read_block append_intervals walk_children intervals
  traversal_int zero root res = err out_of_fuel
  traversal_int (suc f) root res = do
    b ← read_block root
    if b.lvl == 0
        then ok (append_intervals b (intervals b) 0 res)
        else walk_children (traversal_int f) b (b.recs - 1) 0 res
