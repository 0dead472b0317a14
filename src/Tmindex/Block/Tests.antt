-- ===== src/Tmindex/Block/Tests.antt =====
-- Runs of the methods of a block, and the theorems at a concrete block.
use logrange.Prelude.{ℕ, ◌+◌, ◌≡◌, refl, [], ◌∷◌, some, arith, ◌==◌, if◌then◌else◌}
use logrange.Prelude.Int.{ℤ, pos}
use logrange.Tmindex.Block.{
  Record, Interval, Buf, zero_record, add_interval_0, set_last_interval, write_record,
}
use logrange.Tmindex.Block.Covers.{Covers, IsWrite}
use logrange.Tmindex.Block.Insert.{Answers, add_interval_0-Answers}
use logrange.Tmindex.Block.History.{write_all, write_all-Covers}

abbrev at_ts : ℕ → ℕ → Record
at_ts t i = record { ts = pos t; idx = i }

abbrev write_of : Record → Record → Interval
write_of r r' = record { p0 = r; p1 = r' }

-- the records of the chunk are stamped 10, 11, 12, ...
abbrev pub clock : ℕ → ℤ
clock x = pos (x + 10)

-- the positions 0 to 4
abbrev pub five : Buf
five = record {
  recs = 2;
  lvl = 0;
  places = λ k. if k == 0 then at_ts 10 0 else if k == 1 then at_ts 20 4 else zero_record;
}

pub five-Covers : Covers clock 0 5 five
five-Covers = record {
  ordered = record { sorted = λ i j ij jn. ground arith };
  filled = omega arith;
  fits = omega arith;
  start = refl;
  positions = λ i j ij jn. ground arith;
  idx_in = λ i lt. ground arith;
  lowest = λ x sx xm. omega arith;
  highest = λ x sx xm. omega arith;
  before = λ i x lt sx xi. ground arith;
  after = λ i x lt ix xm. ground arith;
}

-- the positions 5 and 6, stamped 15 and 16: before the end of the block
abbrev late_write : Interval
late_write = write_of (at_ts 15 5) (at_ts 16 6)

late_write-IsWrite : IsWrite clock late_write
late_write-IsWrite = record {
  some_records = omega arith;
  low = λ x lo hi. omega arith;
  high = λ x lo hi. omega arith;
}

add_interval_0-Answers_example : Answers clock 0 five late_write (add_interval_0 five late_write)
add_interval_0-Answers_example =
    add_interval_0-Answers clock 0 five late_write refl five-Covers late_write-IsWrite

-- It replaces the interval, and the block still ends at 20.
abbrev after_late : Buf
after_late = record {
  recs = 2;
  lvl = 0;
  places = λ k. if k == 1 then at_ts 20 6 else if k == 0 then at_ts 10 0 else five.places k;
}

write_all-five : write_all five (late_write ∷ []) ≡ some after_late
unfolding write_all add_interval_0 set_last_interval write_record
write_all-five = refl

write_all-Covers_example : Covers clock 0 7 after_late × (after_late.lvl ≡ 0)
write_all-Covers_example =
    write_all-Covers clock 0 5 7 five after_late (late_write ∷ []) refl five-Covers
      (refl, late_write-IsWrite, refl) write_all-five
