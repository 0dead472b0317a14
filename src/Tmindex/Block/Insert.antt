-- ===== src/Tmindex/Block/Insert.antt =====
-- `addInterval` on a block of level 0: it keeps the block ordered, and the points that it leaves
-- still say the truth about the positions and timestamps of the records in the chunk.
use logrange.Prelude.{
  ℕ, suc, ◌+◌, ◌-◌, ◌%◌, ◌≤◌, ◌<◌, ◌≡◌, ◌≢◌, ℕ_discrete, true, false, arith, ◌==◌, refl,
}
use logrange.Prelude.Int.{ℤ, ◌≤ℤ◌}
use logrange.Tmindex.Block.{
  Interval, Buf, Added, added, full, read_record, write_record, records_until, add_interval_0,
  append_interval, set_last_interval, extend_last, reduce, max_recs_per_block,
}
use logrange.Tmindex.Block.Search.{records_until-le, until_le}
use logrange.Tmindex.Block.Covers.{
  Covers, IsWrite, Extends, Extends-Covers, Restarts, Restarts-Covers,
}

abbrev insert_at : Buf → ℕ → Interval → Interval
insert_at b k it = record (extend_last b it) { p0 = read_record b k }

module _ (b : Buf) (it : Interval) (l : b.lvl ≡ 0) (filled : 2 ≤ b.recs) where
  add_at_end : records_until b it.p0.ts ≡ b.recs → add_interval_0 b it ≡ append_interval b it
  unfolding add_interval_0
  add_at_end e = ground arith

  add_inside :
      (k : ℕ)
      → records_until b it.p0.ts ≡ suc k
      → suc k < b.recs
      → add_interval_0 b it
        ≡ added
            (set_last_interval (record b { recs = (k + 2) % 256 }) (insert_at b k it))
            (insert_at b k it).p1
  unfolding add_interval_0
  add_inside k e lt = ground arith

  add_before :
      records_until b it.p0.ts ≡ 0
      → add_interval_0 b it
        ≡ added
            (set_last_interval
              (record b { recs = 0 })
              (record (extend_last b it) { p0 = reduce it.p0 (read_record b 0) }))
            (extend_last b it).p1
  unfolding add_interval_0
  add_before e = ground arith

-- What the last record of a write becomes is no earlier than the write and the block.
extend_last-reaches :
    (b : Buf) (it : Interval)
    → 2 ≤ b.recs
    → (it.p1.ts ≤ℤ (extend_last b it).p1.ts)
      × ((b.places (b.recs - 1)).ts ≤ℤ (extend_last b it).p1.ts)
      × ((extend_last b it).p1.idx ≡ it.p1.idx)
unfolding extend_last
extend_last-reaches b it filled = ground arith

-- What `addInterval` answers on a block of level 0.
abbrev pub Answers : (ℕ → ℤ) → ℕ → Buf → Interval → Added → Type 0
Answers time s b it (added b' lr) =
    Covers time s (suc it.p1.idx) b' × (b'.lvl ≡ 0) × (lr ≡ b'.places (b'.recs - 1))
Answers time s b it (full lr) =
    (b.recs ≡ max_recs_per_block) × (lr ≡ b.places (b.recs - 1)) × (lr.ts ≤ℤ it.p0.ts)

module _ (time : ℕ → ℤ) (s : ℕ) (b : Buf) (it : Interval) (l : b.lvl ≡ 0)
    (c : Covers time s it.p0.idx b) (w : IsWrite time it) where
  append-Extends :
      b.recs ≢ max_recs_per_block
      → records_until b it.p0.ts ≡ b.recs
      → Extends b it (write_record b b.recs it.p1) b.recs
  unfolding write_record
  append-Extends ne e =
      let last = until_le b it.p0.ts c.ordered (b.recs - 1) (omega (arith, c.filled)) in
      record {
        some_kept = omega (arith, c.filled);
        within = omega arith;
        room = omega (arith, c.fits);
        count = omega (arith, c.fits);
        kept = λ j lt. ground arith;
        last_idx = ground arith;
        reaches = ground arith;
        keeps_max = ground (arith, w.low it.p0.idx, w.high it.p0.idx, w.some_records, last);
        in_order = last;
      }

  inside-Extends :
      (k : ℕ)
      → records_until b it.p0.ts ≡ suc k
      → suc k < b.recs
      → Extends b it
          (set_last_interval (record b { recs = (k + 2) % 256 }) (insert_at b k it))
          (suc k)
  unfolding set_last_interval read_record
  inside-Extends k e lt =
      let (r1, r2, r3) = extend_last-reaches b it c.filled in
      record {
        some_kept = omega arith;
        within = omega arith;
        room = omega (arith, c.fits);
        count = ground (arith, c.fits);
        kept = λ j lj. ground (arith, c.fits);
        last_idx = ground (arith, c.fits, r3);
        reaches = ground (arith, c.fits, r1);
        keeps_max = ground (arith, c.fits, r2);
        in_order =
            let q : suc k - 1 ≡ k = omega arith in
            rw q (until_le b it.p0.ts c.ordered k (omega arith));
      }

  before-Restarts :
      records_until b it.p0.ts ≡ 0
      → Restarts b it (
          set_last_interval
            (record b { recs = 0 })
            (record (extend_last b it) { p0 = reduce it.p0 (read_record b 0) }))
  unfolding set_last_interval reduce read_record
  before-Restarts e =
      let (r1, r2, r3) = extend_last-reaches b it c.filled in
      record {
        count = refl;
        first_idx = ground (arith, c.idx_in 0, c.filled);
        lowers = ground arith;
        lowers_first = ground arith;
        last_idx = r3;
        reaches = r1;
        keeps_max = r2;
      }

  append-Answers : records_until b it.p0.ts ≡ b.recs → Answers time s b it (append_interval b it)
  unfolding append_interval
  append-Answers e = elim (ℕ_discrete b.recs max_recs_per_block) [
    | yes f ↦
        let t : (b.recs == max_recs_per_block) ≡ true = ground arith in
        rw t (f, refl, until_le b it.p0.ts c.ordered (b.recs - 1) (omega (arith, c.filled)))
    | no ne ↦
        let t : (b.recs == max_recs_per_block) ≡ false = ground arith in
        let u : (b.recs == 0) ≡ false = ground (arith, c.filled) in
        rw (t, u)
          (
            Extends-Covers b it (write_record b b.recs it.p1) time s c w b.recs
                (append-Extends ne e),
            l,
            (let q : (b.recs + 1) % 256 - 1 ≡ b.recs = omega (arith, c.fits) in
                rw q (ground arith)),
          )
  ]

  inside_last :
      (k : ℕ)
      → suc k < b.recs
      → let b' = set_last_interval (record b { recs = (k + 2) % 256 }) (insert_at b k it) in
        (b'.lvl ≡ 0) × ((insert_at b k it).p1 ≡ b'.places (b'.recs - 1))
  unfolding set_last_interval
  inside_last k lt = let f = c.fits in (ground arith, ground arith)

  -- On a block that covers the chunk up to a write, `addInterval` at level 0 leaves a block that
  -- covers the chunk with the write and returns its last record, or it answers that the block is
  -- full, with the last record, and the write lies behind that one.
  pub add_interval_0-Answers : Answers time s b it (add_interval_0 b it)
  unfolding set_last_interval
  add_interval_0-Answers = elim (ℕ_discrete (records_until b it.p0.ts) b.recs) [
    | yes e ↦ rw (add_at_end b it l c.filled e) (append-Answers e)
    | no ne ↦ elim (ℕ_discrete (records_until b it.p0.ts) 0) [
      | yes e ↦
          rw (add_before b it l c.filled e)
            (Restarts-Covers b it _ time s c w (before-Restarts e), l, refl)
      | no ne' ↦
          let k = records_until b it.p0.ts - 1 in
          let e : records_until b it.p0.ts ≡ suc k = omega arith in
          let lt : suc k < b.recs = omega (arith, records_until-le b it.p0.ts) in
          rw (add_inside b it l c.filled k e lt) (
            Extends-Covers b it _ time s c w (suc k) (inside-Extends k e lt),
            (inside_last k lt).0,
            (inside_last k lt).1,
          )
    ]
  ]

-- The first write, on an empty block.
add_first :
    (b : Buf) (it : Interval)
    → b.lvl ≡ 0
    → b.recs ≡ 0
    → add_interval_0 b it ≡ added (write_record (write_record b 0 it.p0) 1 it.p1) it.p1
unfolding add_interval_0 append_interval
add_first b it l empty = ground arith

-- On an empty block `addInterval` leaves a block that covers the records of the write.
pub add_interval_0_first :
    (time : ℕ → ℤ) (b : Buf) (it : Interval)
    → b.lvl ≡ 0
    → b.recs ≡ 0
    → IsWrite time it
    → (b' : Buf) × (add_interval_0 b it ≡ added b' it.p1) × Covers time it.p0.idx (suc it.p1.idx) b'
unfolding write_record
add_interval_0_first time b it l empty w = (
  write_record (write_record b 0 it.p0) 1 it.p1,
  add_first b it l empty,
  record {
    ordered = record {
      sorted = λ i j ij jn. ground (arith, w.low it.p0.idx, w.high it.p0.idx, w.some_records);
    };
    filled = omega arith;
    fits = omega arith;
    start = refl;
    positions = λ i j ij jn. ground (arith, w.some_records);
    idx_in = λ i lt. ground (arith, w.some_records);
    lowest = λ x lo hi. w.low x lo (omega arith);
    highest = λ x lo hi. w.high x lo (omega arith);
    before = λ i x lt lo hi. ground (arith, w.high x);
    after = λ i x lt lo hi. ground (arith, w.low x);
  },
)
