-- ===== src/Tmindex/Block.antt =====
-- pkg/tmindex/ckindex.go: the blocks of the time index and the methods that touch one block only.
-- A block is 512 bytes: a counter, a level and 41 places for records of 12 bytes. The code reads
-- and writes the places with readRecord and writeRecord only, so a place is the record that it
-- encodes; the 2 + 41 * 12 bytes do not overlap.
pub mod Search
pub mod Covers
pub mod Insert
pub mod History
mod Tests
use logrange.Prelude.{
  ℕ, suc, ◌+◌, ◌-◌, ◌%◌, ◌≤◌, ◌<◌, Option, none, some, Bool, true, false, ltb, leb, ◌==◌,
  if◌then◌else◌,
}
use logrange.Prelude.Int.{ℤ, pos, negsuc, sub_ℕ, leb_ℤ, ltb_ℤ}
use logrange.Prelude.Bisect.{bisect}

-- `record`: a timestamp in nanoseconds, and a position in the chunk or a block's index.
pub record Record : Type 0 where
  pub ts : ℤ
  pub idx : ℕ

pub record Interval : Type 0 where
  pub p0 : Record
  pub p1 : Record

-- The bytes of a block: `buf[hdrRecCountOffs]`, `buf[hdrLevelOffset]` and the records.
pub record Buf : Type 0 where
  pub recs : ℕ
  pub lvl : ℕ
  pub places : ℕ → Record

abbrev pub zero_record : Record
zero_record = record { ts = pos 0; idx = 0 }

-- `emptyBlock`
abbrev pub empty_block : Buf
empty_block = record { recs = 0; lvl = 0; places = λ _. zero_record }

abbrev pub max_recs_per_block : ℕ
max_recs_per_block = 41

unfoldable pub max_int64 : ℤ → ℤ → ℤ
max_int64 i1 i2 = if ltb_ℤ i2 i1 then i1 else i2

unfoldable pub min_int64 : ℤ → ℤ → ℤ
min_int64 i1 i2 = if ltb_ℤ i1 i2 then i1 else i2

unfoldable pub min_uint32 : ℕ → ℕ → ℕ
min_uint32 i1 i2 = if ltb i1 i2 then i1 else i2

unfoldable pub reduce : Record → Record → Record
unfolding min_int64 min_uint32
reduce r r1 = record { ts = min_int64 r.ts r1.ts; idx = min_uint32 r.idx r1.idx }

unfoldable pub apply_prev_record : Interval → Record → Interval
apply_prev_record it r = record it { p0 = r }

pub records : Buf → ℕ
records b = b.recs

unfoldable pub intervals : Buf → ℕ
intervals b = if leb b.recs 1 then 0 else b.recs - 1

unfoldable pub level : Buf → ℕ
level b = b.lvl

unfoldable pub read_record : Buf → ℕ → Record
read_record b ridx = b.places ridx

-- The counter is a byte.
unfoldable pub write_record : Buf → ℕ → Record → Buf
write_record b ridx r = record b {
  recs = (ridx + 1) % 256;
  places = λ k. if k == ridx then r else b.places k;
}

unfoldable pub read_interval : Buf → ℕ → Interval
unfolding read_record
read_interval b iidx = record { p0 = read_record b iidx; p1 = read_record b (iidx + 1) }

-- The number of leading records with a timestamp up to `ts`, by the binary search that both
-- methods below begin with.
pub records_until : Buf → ℤ → ℕ
unfolding bisect read_record
records_until b ts = bisect (λ h. leb_ℤ (read_record b h).ts ts) b.recs

-- The result is -1 if `ts` lies before the block, and the number of intervals if it lies at its
-- end or after.
unfoldable pub find_interval_idx : Buf → ℤ → ℤ
unfolding records_until
find_interval_idx b ts = if b.recs == 0 then pos 0 else sub_ℕ (records_until b ts) 1

unfoldable pub find_interval_insert_idx : Buf → ℤ → ℤ
unfolding records_until
find_interval_insert_idx b ts =
    let i = records_until b ts in
    if b.recs == 0
    then pos 0
    else if b.lvl == 0
    then sub_ℕ i 1
    else if i == b.recs
    then sub_ℕ b.recs 2
    else pos (i - 1)

-- `none` is the panic on an empty block.
unfoldable pub the_block_interval : ℕ → Buf → Option Interval
unfolding read_record
the_block_interval idx b =
    if b.recs == 0
    then none
    else some
        (record { p0 = record (read_record b 0) { idx = idx }; p1 = read_record b (b.recs - 1) })

-- A block never holds one record alone, for which `recs-2` would be negative.
unfoldable pub set_last_interval : Buf → Interval → Buf
unfolding write_record
set_last_interval b it =
    if b.recs == 0
    then write_record (write_record b 0 it.p0) 1 it.p1
    else write_record (write_record b (b.recs - 2) it.p0) (b.recs - 1) it.p1

-- What `appendInterval` and `addInterval` return on a block: the block with the last record, or
-- `errFullBlock`, with the last record too.
pub data Added : Type 0 where
  added : Buf → Record → Added
  full : Record → Added

unfoldable pub append_interval : Buf → Interval → Added
unfolding read_record write_record
append_interval b it =
    if b.recs == max_recs_per_block
    then full (read_record b (b.recs - 1))
    else if b.recs == 0
    then added (write_record (write_record b 0 it.p0) 1 it.p1) it.p1
    else added (write_record b b.recs it.p1) it.p1

-- the timestamp of `it.p1` raised to that of the block's last record, if it has an interval
unfoldable pub extend_last : Buf → Interval → Interval
unfolding intervals read_record max_int64
extend_last b it =
    if ltb 0 (intervals b)
    then record it {
      p1 = record it.p1 { ts = max_int64 it.p1.ts (read_record b (intervals b)).ts };
    }
    else it

-- `addInterval` on a block of level 0
unfoldable pub add_interval_0 : Buf → Interval → Added
unfolding find_interval_insert_idx append_interval extend_last set_last_interval intervals reduce
add_interval_0 b it = elim (find_interval_insert_idx b it.p0.ts) [
  | pos ins_idx ↦
      if ins_idx == intervals b
      then append_interval b it
      else (let it' = record (extend_last b it) { p0 = read_record b ins_idx } in
          added (set_last_interval (record b { recs = (ins_idx + 2) % 256 }) it') it'.p1)
  | negsuc _ ↦
      (let it1 = extend_last b it in
        let it' =
          if ltb 0 (intervals b)
          then record it1 { p0 = reduce it1.p0 (read_record b 0) }
          else it1 in
        added (set_last_interval (record b { recs = 0 }) it') it'.p1)
]
