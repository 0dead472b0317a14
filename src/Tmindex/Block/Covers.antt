-- ===== src/Tmindex/Block/Covers.antt =====
-- What the records of a block of level 0 say about the chunk, and the two ways in which a write
-- changes them.
use logrange.Prelude.{ℕ, suc, ◌-◌, ◌≤◌, ◌<◌, ◌≡◌, ℕ_discrete, arith}
use logrange.Prelude.Int.{ℤ, ◌≤ℤ◌}
use logrange.Tmindex.Block.{Interval, Buf, max_recs_per_block}
use logrange.Tmindex.Block.Search.{IsOrdered}

-- `time x` is the timestamp of the record at position `x` of the chunk; the block covers the
-- positions from `s` up to `m`.
pub record Covers (time : ℕ → ℤ) (s m : ℕ) (b : Buf) : Type 0 where
  pub ordered : IsOrdered b
  pub filled : 2 ≤ b.recs
  pub fits : b.recs ≤ max_recs_per_block
  pub start : (b.places 0).idx ≡ s
  pub positions : (i j : ℕ) → i ≤ j → j < b.recs → (b.places i).idx ≤ (b.places j).idx
  pub idx_in : (i : ℕ) → i < b.recs → (b.places i).idx < m
  pub lowest : (x : ℕ) → s ≤ x → x < m → (b.places 0).ts ≤ℤ time x
  pub highest : (x : ℕ) → s ≤ x → x < m → time x ≤ℤ (b.places (b.recs - 1)).ts
  pub before : (i x : ℕ) → i < b.recs → s ≤ x → x < (b.places i).idx → time x ≤ℤ (b.places i).ts
  pub after : (i x : ℕ) → i < b.recs → (b.places i).idx < x → x < m → (b.places i).ts ≤ℤ time x

-- The interval of a write: its records stand at the positions from `p0.idx` to `p1.idx`, with
-- timestamps from `p0.ts` to `p1.ts`.
pub record IsWrite (time : ℕ → ℤ) (it : Interval) : Type 0 where
  pub some_records : it.p0.idx ≤ it.p1.idx
  pub low : (x : ℕ) → it.p0.idx ≤ x → x ≤ it.p1.idx → it.p0.ts ≤ℤ time x
  pub high : (x : ℕ) → it.p0.idx ≤ x → x ≤ it.p1.idx → time x ≤ℤ it.p1.ts

module _ (b : Buf) (it : Interval) (b' : Buf) where
  -- `b'` keeps the first `n` records of `b` and ends with one for the write.
  pub record Extends (n : ℕ) : Type 0 where
    pub some_kept : 1 ≤ n
    pub within : n ≤ b.recs
    pub room : suc n ≤ max_recs_per_block
    pub count : b'.recs ≡ suc n
    pub kept : (j : ℕ) → j < n → b'.places j ≡ b.places j
    pub last_idx : (b'.places n).idx ≡ it.p1.idx
    pub reaches : it.p1.ts ≤ℤ (b'.places n).ts
    pub keeps_max : (b.places (b.recs - 1)).ts ≤ℤ (b'.places n).ts
    pub in_order : (b.places (n - 1)).ts ≤ℤ it.p0.ts

  -- `b'` is one interval that starts with the block's first record, lowered to the write.
  pub record Restarts : Type 0 where
    pub count : b'.recs ≡ 2
    pub first_idx : (b'.places 0).idx ≡ (b.places 0).idx
    pub lowers : (b'.places 0).ts ≤ℤ it.p0.ts
    pub lowers_first : (b'.places 0).ts ≤ℤ (b.places 0).ts
    pub last_idx : (b'.places 1).idx ≡ it.p1.idx
    pub reaches : it.p1.ts ≤ℤ (b'.places 1).ts
    pub keeps_max : (b.places (b.recs - 1)).ts ≤ℤ (b'.places 1).ts

  module _ (time : ℕ → ℤ) (s : ℕ) (c : Covers time s it.p0.idx b) (w : IsWrite time it) where
    module _ (n : ℕ) (e : Extends n) where
      Extends-sorted : (i j : ℕ) → i ≤ j → j < b'.recs → (b'.places i).ts ≤ℤ (b'.places j).ts
      Extends-sorted i j ij jn = elim (ℕ_discrete j n) [
        | yes last ↦ elim (ℕ_discrete i n) [
          | yes same ↦ ground arith
          | no ne ↦ ground (
            arith,
            last,
            e.count,
            e.within,
            e.keeps_max,
            e.kept i,
            c.ordered.sorted i (b.recs - 1),
          )
        ]
        | no ne ↦ ground (arith, e.count, e.within, e.kept i, e.kept j, c.ordered.sorted i j)
      ]

      Extends-before :
          (i x : ℕ) → i < b'.recs → s ≤ x → x < (b'.places i).idx → time x ≤ℤ (b'.places i).ts
      Extends-before i x lt lo hi = elim (ℕ_discrete i n) [
        | yes last ↦ ground (arith, e.last_idx, e.reaches, e.keeps_max, c.highest x lo, w.high x)
        | no ne ↦ ground (arith, e.count, e.within, e.kept i, c.before i x)
      ]

      Extends-after :
          (i x : ℕ)
          → i < b'.recs
          → (b'.places i).idx < x
          → x < suc it.p1.idx
          → (b'.places i).ts ≤ℤ time x
      Extends-after i x lt lo hi = elim (ℕ_discrete i n) [
        | yes last ↦ ground (arith, e.last_idx)
        | no ne ↦ ground (
          arith,
          e.count,
          e.within,
          e.kept i,
          e.in_order,
          c.after i x,
          w.low x,
          c.ordered.sorted i (n - 1),
        )
      ]

      pub Extends-Covers : Covers time s (suc it.p1.idx) b'
      Extends-Covers = record {
        ordered = record { sorted = Extends-sorted };
        filled = omega (arith, e.count, e.some_kept);
        fits = omega (arith, e.count, e.room);
        start = ground (arith, e.kept 0, e.some_kept, c.start);
        positions = λ i j ij jn. elim (ℕ_discrete j n) [
          | yes last ↦ elim (ℕ_discrete i n) [
            | yes same ↦ ground arith
            | no ne ↦
                ground
                  (arith, last, e.count, e.within, e.last_idx, e.kept i, c.idx_in i, w.some_records)
          ]
          | no ne ↦ ground (arith, e.count, e.within, e.kept i, e.kept j, c.positions i j)
        ];
        idx_in = λ i lt. elim (ℕ_discrete i n) [
          | yes last ↦ ground (arith, e.last_idx)
          | no ne ↦ ground (arith, e.count, e.within, e.kept i, c.idx_in i, w.some_records)
        ];
        lowest = λ x lo hi. ground (
          arith,
          e.kept 0,
          e.some_kept,
          e.within,
          e.in_order,
          c.lowest x lo,
          w.low x,
          c.ordered.sorted 0 (n - 1),
        );
        highest =
            λ x lo hi. ground (arith, e.count, e.reaches, e.keeps_max, c.highest x lo, w.high x);
        before = Extends-before;
        after = Extends-after;
      }

    pub Restarts-Covers : Restarts → Covers time s (suc it.p1.idx) b'
    Restarts-Covers e = record {
      ordered = record {
        sorted = λ i j ij jn. elim (ℕ_discrete i j) [
          | yes same ↦ ground arith
          | no ne ↦
              let i0 : i ≡ 0 = omega (arith, e.count) in
              let j1 : j ≡ 1 = omega (arith, e.count) in
              ground (arith, c.ordered.sorted 0 (b.recs - 1), c.filled)
        ];
      };
      filled = omega (arith, e.count);
      fits = omega (arith, e.count);
      start = ground (arith, e.first_idx, c.start);
      positions = λ i j ij jn. elim (ℕ_discrete i j) [
        | yes same ↦ ground arith
        | no ne ↦
            let i0 : i ≡ 0 = omega (arith, e.count) in
            let j1 : j ≡ 1 = omega (arith, e.count) in
            ground (arith, e.first_idx, e.last_idx, c.idx_in 0, c.filled, w.some_records)
      ];
      idx_in = λ i lt. elim (ℕ_discrete i 0) [
        | yes first ↦ ground (arith, e.first_idx, c.idx_in 0, c.filled, w.some_records)
        | no ne ↦ let one : i ≡ 1 = omega (arith, e.count) in ground (arith, e.last_idx)
      ];
      lowest = λ x lo hi. ground (arith, e.lowers, e.lowers_first, c.lowest x lo, w.low x);
      highest =
          λ x lo hi. ground (arith, e.count, e.reaches, e.keeps_max, c.highest x lo, w.high x);
      before = λ i x lt lo hi. elim (ℕ_discrete i 0) [
        | yes first ↦ absurd (ground (arith, e.first_idx, c.start))
        | no ne ↦
            let one : i ≡ 1 = omega (arith, e.count) in ground (arith, c.highest x lo, w.high x)
      ];
      after = λ i x lt lo hi. elim (ℕ_discrete i 0) [
        | yes first ↦ ground (arith, e.first_idx, c.start, c.lowest x, w.low x)
        | no ne ↦ let one : i ≡ 1 = omega (arith, e.count) in absurd (ground arith)
      ];
    }
