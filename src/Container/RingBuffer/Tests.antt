-- ===== src/Container/RingBuffer/Tests.antt =====
-- Runs of the ring buffer, and its theorems at concrete buffers.
use logrange.Prelude.{ℕ, zero, suc, ◌<◌, ◌≡◌, refl, [], ◌∷◌, none, some, arith, get_elem?}
use logrange.Prelude.Int.{pos, negsuc}
use logrange.Container.RingBuffer.{RingBuffer, new_ring_buffer, push, cell, get_idx}
use logrange.Container.RingBuffer.Window.{IsValid}
use logrange.Container.RingBuffer.Refine.{Shows}
use logrange.Container.RingBuffer.History.{push_all, push_all-Shows}

-- 8 and 9 round the end of the storage
abbrev wrapped : RingBuffer ℕ
wrapped = record { v = 9 ∷ 7 ∷ 8 ∷ []; h = 2; n = 2 }

abbrev full_buffer : RingBuffer ℕ
full_buffer = record { v = 9 ∷ 10 ∷ 8 ∷ []; h = 2; n = 3 }

wrapped-IsValid : IsValid wrapped
wrapped-IsValid = omega arith

full_buffer-IsValid : IsValid full_buffer
full_buffer-IsValid = omega arith

wrapped_items :
    (i : ℕ) → i < 2 → get_elem? wrapped.v (cell wrapped (pos i)) ≡ get_elem? {A = ℕ} (8 ∷ 9 ∷ []) i
unfolding cell get_idx
wrapped_items zero lt = refl
wrapped_items (suc zero) lt = refl
wrapped_items (suc (suc i)) lt = absurd (omega arith)

wrapped-Shows : Shows wrapped (8 ∷ 9 ∷ [])
wrapped-Shows = record { count = refl; items = wrapped_items }

full_buffer_items :
    (i : ℕ)
    → i < 3
    → get_elem? full_buffer.v (cell full_buffer (pos i)) ≡ get_elem? {A = ℕ} (8 ∷ 9 ∷ 10 ∷ []) i
unfolding cell get_idx
full_buffer_items zero lt = refl
full_buffer_items (suc zero) lt = refl
full_buffer_items (suc (suc zero)) lt = refl
full_buffer_items (suc (suc (suc i))) lt = absurd (omega arith)

full_buffer-Shows : Shows full_buffer (8 ∷ 9 ∷ 10 ∷ [])
full_buffer-Shows = record { count = refl; items = full_buffer_items }

push_onto_full : push full_buffer 11 ≡ (record { v = 9 ∷ 10 ∷ 11 ∷ []; h = 0; n = 3 }, some 8)
unfolding push
push_onto_full = refl

new_refuses :
    (new_ring_buffer {A = ℕ} 0 (pos 0) ≡ none) × (new_ring_buffer {A = ℕ} 0 (negsuc 2) ≡ none)
unfolding new_ring_buffer
new_refuses = (refl, refl)

push_all-Shows_example : Shows (push_all wrapped (1 ∷ 2 ∷ [])) (9 ∷ 1 ∷ 2 ∷ [])
push_all-Shows_example =
    push_all-Shows wrapped (8 ∷ 9 ∷ []) (1 ∷ 2 ∷ []) wrapped-IsValid wrapped-Shows
