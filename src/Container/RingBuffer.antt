-- ===== src/Container/RingBuffer.antt =====
-- pkg/container/ring_buffer.go: the ring buffer of fixed capacity, in which a push onto a full
-- buffer drops the oldest element. A panic of the source is `none`.
pub mod Window
pub mod Refine
pub mod History
mod Tests
use mathlib.Core.Bool.{◌||◌}
use logrange.Prelude.{
  ℕ, suc, ◌+◌, ◌-◌, ◌≤◌, ◌<◌, List, Option, none, some, Bool, ltb, leb, ◌==◌, if◌then◌else◌, length,
  get_elem?, set, replicate,
}
use logrange.Prelude.Int.{ℤ, pos, negsuc, sub_ℕ}

-- `v`, `h` and `n` of the struct: the storage, the index of the head and the number of elements.
pub record RingBuffer (A : Type 0) : Type 0 where
  pub v : List A
  pub h : ℕ
  pub n : ℕ

module _ {A : Type 0} where
  -- `make([]interface{}, size, size)` holds the zero value `nil_val` in each cell.
  pub new_ring_buffer : A → ℤ → Option (RingBuffer A)
  new_ring_buffer nil_val (negsuc size) = none
  new_ring_buffer nil_val (pos size) =
      if ltb size 1 then none else some (record { v = replicate size nil_val; h = 0; n = 0 })

  -- An index below `-len(rb.v)` would stay negative and fault; no method passes one.
  pub get_idx : RingBuffer A → ℤ → ℕ
  get_idx rb (pos i) = if leb (length rb.v) i then i - length rb.v else i
  get_idx rb (negsuc i) = length rb.v - suc i

  -- `true` where `checkIdx` returns, `false` where it panics.
  pub check_idx : RingBuffer A → ℤ → Bool
  check_idx rb (pos i) = ltb i rb.n
  check_idx rb (negsuc i) = Bool.false

  -- the cell of the last element, `rb.getIdx(rb.h+rb.n-1)`
  pub tail_idx : RingBuffer A → ℕ
  unfolding get_idx
  tail_idx rb = get_idx rb (sub_ℕ (rb.h + rb.n) 1)

  pub head : RingBuffer A → Option A
  head rb = if rb.n == 0 then none else get_elem? rb.v rb.h

  pub tail : RingBuffer A → Option A
  unfolding tail_idx
  tail rb = if rb.n == 0 then none else get_elem? rb.v (tail_idx rb)

  -- the cell of the element `i`, counted from the head
  pub cell : RingBuffer A → ℤ → ℕ
  unfolding get_idx
  cell rb (pos i) = get_idx rb (pos (rb.h + i))
  cell rb (negsuc i) = get_idx rb (sub_ℕ rb.h (suc i))

  pub at : RingBuffer A → ℤ → Option A
  unfolding check_idx cell
  at rb i = if check_idx rb i then get_elem? rb.v (cell rb i) else none

  pub set_at : RingBuffer A → ℤ → A → Option (RingBuffer A)
  unfolding check_idx cell
  set_at rb i x = if check_idx rb i then some (record rb { v = set rb.v (cell rb i) x }) else none

  pub len : RingBuffer A → ℕ
  len rb = rb.n

  pub capacity : RingBuffer A → ℕ
  capacity rb = length rb.v

  -- The new buffer and the element that the new tail cell holds.
  pub advance_tail : RingBuffer A → RingBuffer A × Option A
  unfolding get_idx tail_idx
  advance_tail rb =
      let rb' =
        if rb.n == length rb.v
        then record rb { h = get_idx rb (pos (rb.h + 1)) }
        else record rb { n = rb.n + 1 } in
      (rb', get_elem? rb'.v (tail_idx rb'))

  pub advance_head : RingBuffer A → Option (RingBuffer A × Option A)
  unfolding get_idx
  advance_head rb =
      if ltb rb.n 1
      then none
      else some (record rb { h = get_idx rb (pos (rb.h + 1)); n = rb.n - 1 }, get_elem? rb.v rb.h)

  pub push : RingBuffer A → A → RingBuffer A × Option A
  unfolding advance_tail tail_idx
  push rb x = let (rb', r) = advance_tail rb in (record rb' { v = set rb'.v (tail_idx rb') x }, r)

  pub is_full : RingBuffer A → Bool
  is_full rb = rb.n == length rb.v

  pub clear : RingBuffer A → RingBuffer A
  clear rb = record rb { h = 0; n = 0 }
