-- ===== src/Cursor/Mixing.antt =====
-- pkg/cursor/cursor.go, newCursor: the iterators of the cursor's partitions are mixed to one, two by
-- two, by the mixer of pkg/model/mixer.go. Each round writes its mixers into the front of the slice
-- that it reads from; here it makes a new list.
pub mod Readers
mod Tests
use logrange.Prelude.{
  ℕ, zero, suc, List, [], ◌∷◌, Option, none, some, true, false, ltb, length, get_elem?,
}

module _ {ℓ} {A : Type ℓ} (init_mixer : A → A → A) where
  -- One round of the loop: neighbours are mixed, and an odd one at the end is kept.
  pub mix_round : List A → List A
  mix_round [] = []
  mix_round (a ∷ []) = a ∷ []
  mix_round (a ∷ b ∷ mxs) = init_mixer a b ∷ mix_round mxs

  -- `for len(mxs) > 1`, on fuel; the number of iterators is enough.
  pub mix_loop : ℕ → List A → List A
  unfolding mix_round
  mix_loop zero mxs = mxs
  mix_loop (suc fuel) mxs = elim (ltb 1 (length mxs)) [
    | true ↦ mix_loop fuel (mix_round mxs)
    | false ↦ mxs
  ]

  -- `mxs[0]` after the loop. A cursor without partitions is an error before (`none`).
  pub mix_all : List A → Option A
  unfolding mix_loop
  mix_all mxs = get_elem? (mix_loop (length mxs) mxs) 0
