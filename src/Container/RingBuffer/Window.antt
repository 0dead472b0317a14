-- ===== src/Container/RingBuffer/Window.antt =====
-- The invariant of the ring buffer, and what each position holds after each method.
use logrange.Prelude.{
  ℕ, ◌+◌, ◌≤◌, ◌<◌, ◌≡◌, ◌≢◌, some, arith, length, set, length-set, length-replicate,
}
use logrange.Prelude.Int.{pos}
use logrange.Container.RingBuffer.{
  RingBuffer, new_ring_buffer, get_idx, tail_idx, cell, advance_tail, push,
}

-- The head lies in the storage, and no more elements are held than fit.
pub record IsValid {A : Type 0} (rb : RingBuffer A) : Type 0 where
  pub head_in : rb.h < length rb.v
  pub len_in : rb.n ≤ length rb.v

module _ {A : Type 0} where
  pub new_ring_buffer-IsValid :
      (nil_val : A) (size : ℕ) (rb : RingBuffer A)
      → new_ring_buffer nil_val (pos size) ≡ some rb
      → IsValid rb × (rb.n ≡ 0) × (length rb.v ≡ size)
  unfolding new_ring_buffer
  new_ring_buffer-IsValid nil_val size rb e = ground (arith, length-replicate size nil_val)

  pub push-IsValid : (rb : RingBuffer A) (x : A) → IsValid rb → IsValid (push rb x).0
  unfolding push
  push-IsValid rb x ok = ground (arith, length-set rb.v (tail_idx (advance_tail rb).0) x)

  -- The cells of two elements differ.
  pub cell_ne :
      (rb : RingBuffer A) (i j : ℕ)
      → IsValid rb
      → i < length rb.v
      → j < length rb.v
      → i ≢ j
      → cell rb (pos i) ≢ cell rb (pos j)
  unfolding cell
  cell_ne rb i j ok hi hj ne = ground arith

  -- What a push leaves: on a full buffer it writes the old head's cell and moves the head on.
  pub push_full :
      (rb : RingBuffer A) (x : A)
      → IsValid rb
      → rb.n ≡ length rb.v
      → (push rb x).0 ≡ record rb { v = set rb.v rb.h x; h = get_idx rb (pos (rb.h + 1)) }
  unfolding push get_idx
  push_full rb x ok full = ground arith

  pub push_free :
      (rb : RingBuffer A) (x : A)
      → IsValid rb
      → rb.n < length rb.v
      → (push rb x).0 ≡ record rb { v = set rb.v (cell rb (pos rb.n)) x; n = rb.n + 1 }
  unfolding push cell
  push_free rb x ok free = ground arith

  pub length-push : (rb : RingBuffer A) (x : A) → length (push rb x).0.v ≡ length rb.v
  unfolding push
  length-push rb x = ground (arith, length-set rb.v (tail_idx (advance_tail rb).0) x)
