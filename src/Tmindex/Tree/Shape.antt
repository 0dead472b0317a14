-- ===== src/Tmindex/Tree/Shape.antt =====
-- The shape of a tree of index blocks, and the points that it holds.
use logrange.Prelude.{ℕ, suc, ◌-◌, ◌≤◌, ◌<◌, ◌≡◌, ◌≢◌, Option, some, arith}
use logrange.Prelude.Int.{◌≤ℤ◌}
use logrange.Tmindex.Block.{Record, Buf}

-- No later, and at no later position.
infix 50 ◌⊑◌
abbrev pub ◌⊑◌ : Record → Record → Type 0
r ⊑ r' = (r.ts ≤ℤ r'.ts) × (r.idx ≤ r'.idx)

module _ (read : ℕ → Option Buf) where
  -- The tree under the block `idx`, with its level, its first and its last point. The children of a
  -- block leave no gap: one ends with the point with which the next one starts.
  pub data IsTree : ℕ → ℕ → Record → Record → Type 0 where
    leaf :
        {idx : ℕ} {lo hi : Record} (b : Buf)
        → read idx ≡ some b
        → b.lvl ≡ 0
        → 2 ≤ b.recs
        → ((i j : ℕ) → i ≤ j → j < b.recs → b.places i ⊑ b.places j)
        → lo ≡ b.places 0
        → hi ≡ b.places (b.recs - 1)
        → IsTree idx 0 lo hi
    node :
        {idx l : ℕ} {lo hi : Record} (b : Buf) (edge : ℕ → Record)
        → read idx ≡ some b
        → b.lvl ≡ suc l
        → 2 ≤ b.recs
        → ((i j : ℕ) → i ≤ j → j < b.recs → edge i ⊑ edge j)
        → ((i : ℕ) → i < b.recs → (b.places i).ts ≡ (edge i).ts)
        → ((i : ℕ) → suc i < b.recs → IsTree (b.places i).idx l (edge i) (edge (suc i)))
        → lo ≡ edge 0
        → hi ≡ edge (b.recs - 1)
        → IsTree idx (suc l) lo hi

  -- The records of the blocks of level 0.
  pub data Point (r : Record) : ℕ → Type 0 where
    here :
        {idx : ℕ} (b : Buf) (k : ℕ)
        → read idx ≡ some b
        → b.lvl ≡ 0
        → k < b.recs
        → r ≡ b.places k
        → Point r idx
    below :
        {idx : ℕ} (b : Buf) (k : ℕ)
        → read idx ≡ some b
        → b.lvl ≢ 0
        → suc k < b.recs
        → Point r (b.places k).idx
        → Point r idx

  pub same_block : {idx : ℕ} (b b' : Buf) → read idx ≡ some b → read idx ≡ some b' → b' ≡ b
  same_block b b' e e' = cc

  pub Point-leaf :
      {idx : ℕ} {r : Record} (b : Buf)
      → read idx ≡ some b
      → b.lvl ≡ 0
      → Point r idx
      → (k : ℕ) × (k < b.recs) × (r ≡ b.places k)
  Point-leaf b e l0 (here b' k e' l0' lt er) =
      let q = same_block b b' e e' in (k, rw q at lt, rw q at er)
  Point-leaf b e l0 (below b' k e' ne lt p) = let q = same_block b b' e e' in absurd (ne (rw q l0))

  pub Point-node :
      {idx : ℕ} {r : Record} (b : Buf)
      → read idx ≡ some b
      → b.lvl ≢ 0
      → Point r idx
      → (k : ℕ) × (suc k < b.recs) × Point r (b.places k).idx
  Point-node b e n0 (here b' k e' l0' lt er) =
      let q = same_block b b' e e' in absurd (n0 (rw q at l0'))
  Point-node b e n0 (below b' k e' ne lt p) =
      let q = same_block b b' e e' in (k, rw q at lt, rw q at p)

  -- Every point lies between the first and the last one.
  pub Point-between :
      {idx l : ℕ} {lo hi r : Record} → IsTree idx l lo hi → Point r idx → (lo ⊑ r) × (r ⊑ hi)
  Point-between {lo = lo} {hi = hi} {r = r} (leaf b e l0 fill ord elo ehi) p =
      let (k, lt, er) = Point-leaf b e l0 p in
      (
        rw (elo, er) (ord 0 k (omega arith) lt),
        rw (ehi, er) (ord k (b.recs - 1) (omega arith) (omega arith)),
      )
  Point-between (node b edge e lv fill ord same child elo ehi) p =
      let (k, lt, q) = Point-node b e (omega arith) p in
      let (above, under) = Point-between (child k lt) q in
      (
        rw elo (let o = ord 0 k (omega arith) (omega arith) in omega arith),
        rw ehi (let o = ord (suc k) (b.recs - 1) (omega arith) (omega arith) in omega arith),
      )
