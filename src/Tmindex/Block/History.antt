-- ===== src/Tmindex/Block/History.antt =====
-- A history of writes into a block of level 0.
use mathlib.Core.Option.{some-injective}
use logrange.Prelude.{ℕ, suc, ◌≡◌, subst, List, [], ◌∷◌, Option, none, some}
use logrange.Prelude.Int.{ℤ}
use logrange.Tmindex.Block.{Interval, Buf, Added, added, full, add_interval_0}
use logrange.Tmindex.Block.Covers.{Covers, IsWrite}
use logrange.Tmindex.Block.Insert.{Answers, add_interval_0-Answers}

-- What a write leaves in a block: `none` if the block was full.
after_write : Added → Option Buf
after_write (added b lr) = some b
after_write (full lr) = none

-- the writes in their order, as long as the block is not full
unfoldable pub write_all : Buf → List Interval → Option Buf
unfolding after_write
write_all b [] = some b
write_all b (it ∷ its) = elim (after_write (add_interval_0 b it)) [
  | none ↦ none
  | some b' ↦ write_all b' its
]

-- The writes follow one another in the chunk, from the position `m` up to `m'`.
abbrev pub IsHistory : (ℕ → ℤ) → ℕ → List Interval → ℕ → Type 0
IsHistory time m [] m' = m ≡ m'
IsHistory time m (it ∷ its) m' =
    (it.p0.idx ≡ m) × IsWrite time it × IsHistory time (suc it.p1.idx) its m'

-- A block of level 0 that covers a chunk and takes a whole history of writes to it covers the chunk
-- with all of their records, and stays on its level.
pub write_all-Covers :
    (time : ℕ → ℤ) (s m m' : ℕ) (b b' : Buf) (its : List Interval)
    → b.lvl ≡ 0
    → Covers time s m b
    → IsHistory time m its m'
    → write_all b its ≡ some b'
    → Covers time s m' b' × (b'.lvl ≡ 0)
unfolding write_all
write_all-Covers time s m m' b b' [] l c h e =
    subst (λ z. Covers time s m' z × (z.lvl ≡ 0)) (some-injective b b' e)
      (subst (λ k. Covers time s k b) h c, l)
write_all-Covers time s m m' b b' (it ∷ its) l c (h0, w, h) e =
    go (add_interval_0 b it) (add_interval_0-Answers time s b it l (rw h0 c) w) e
      λ b1 l1 c1 e1. write_all-Covers time s (suc it.p1.idx) m' b1 b' its l1 c1 h e1
  where
    go :
        (res : Added)
        → Answers time s b it res
        → (elim (after_write res) [ none ↦ none | some b1 ↦ write_all b1 its ]) ≡ some b'
        → ((b1 : Buf)
            → b1.lvl ≡ 0
            → Covers time s (suc it.p1.idx) b1
            → write_all b1 its ≡ some b'
            → Covers time s m' b' × (b'.lvl ≡ 0))
        → Covers time s m' b' × (b'.lvl ≡ 0)
    go (added b1 lr) (c1, l1, q) e1 rest = rest b1 l1 c1 e1
    go (full lr) q e1 rest = cc
