-- ===== src/Tmindex/Access/Tests.antt =====
-- Runs of the access protocol, and its theorems there.
use logrange.Prelude.{◌+◌, ◌≡◌, ◌<◌, refl, arith}
use logrange.Tmindex.Access.{acquire, exclusive, closing, step, start, at_start, by_step}
use logrange.Tmindex.Access.Safety.{IsConsistent, Reachable-IsConsistent, exclusive_overlaps}

reader_first : (step exclusive (step acquire start)).writers ≡ 0
unfolding step
reader_first = refl

writer_blocks : (step acquire (step exclusive start)).readers ≡ 0
unfolding step
writer_blocks = refl

runs : 0 < (step exclusive start).writers
unfolding step
runs = omega arith

Reachable-IsConsistent_example : IsConsistent (step closing (step acquire start))
Reachable-IsConsistent_example =
    Reachable-IsConsistent (step closing (step acquire start))
      (by_step closing (step acquire start) (by_step acquire start at_start refl) refl)

exclusive_overlaps_example :
    ((step exclusive (step exclusive (step exclusive start))).writers
      ≡ (step exclusive start).writers + 1)
    × ((step closing (step closing (step exclusive start))).closes
        ≡ (step exclusive start).closes + 1)
    × ((step closing (step closing (step exclusive start))).writers
        ≡ (step exclusive start).writers)
unfolding step
exclusive_overlaps_example = exclusive_overlaps (step exclusive start) refl refl
