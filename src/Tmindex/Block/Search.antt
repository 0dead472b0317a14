-- ===== src/Tmindex/Block/Search.antt =====
-- What the binary searches of a block find.
use logrange.Prelude.{ℕ, suc, ◌-◌, ◌≤◌, ◌<◌, ◌≡◌, ◌↔◌, ◌⊎◌, inl, inr, ℕ_discrete, true, arith}
use logrange.Prelude.Int.{ℤ, pos, negsuc, leb_ℤ, ◌≤ℤ◌, ◌<ℤ◌}
use logrange.Prelude.Bisect.{bisect-Cut, bisect_splits}
use logrange.Tmindex.Block.{Buf, read_record, intervals, records_until, find_interval_idx}

-- The records of a block stand in the order of their timestamps.
pub record IsOrdered (b : Buf) : Type 0 where
  pub sorted : (i j : ℕ) → i ≤ j → j < b.recs → (b.places i).ts ≤ℤ (b.places j).ts

pub leb_ℤ_iff : (a b : ℤ) → (leb_ℤ a b ≡ true) ↔ (a ≤ℤ b)
leb_ℤ_iff a b = ground arith

pub records_until-le : (b : Buf) (ts : ℤ) → records_until b ts ≤ b.recs
unfolding records_until
records_until-le b ts = (bisect-Cut (λ h. leb_ℤ (read_record b h).ts ts) b.recs).inside

module _ (b : Buf) (ts : ℤ) (ordered : IsOrdered b) where
  until_iff :
      (k : ℕ) → k < b.recs → (leb_ℤ (read_record b k).ts ts ≡ true) ↔ (k < records_until b ts)
  unfolding records_until read_record
  until_iff k h =
      bisect_splits (λ h. leb_ℤ (read_record b h).ts ts) b.recs
        (λ i j ij jn e.
          (leb_ℤ_iff (b.places i).ts ts).1
            (omega (arith, ordered.sorted i j ij jn, (leb_ℤ_iff (b.places j).ts ts).0 e)))
        k h

  -- In an ordered block the search separates the records up to `ts` from the later ones.
  pub until_le : (k : ℕ) → k < records_until b ts → (b.places k).ts ≤ℤ ts
  unfolding read_record
  until_le k h =
      (leb_ℤ_iff (b.places k).ts ts).0 ((until_iff k (omega (arith, records_until-le b ts))).1 h)

  pub until_gt : (k : ℕ) → records_until b ts ≤ k → k < b.recs → ts <ℤ (b.places k).ts
  unfolding read_record
  until_gt k h lt = ground (arith, until_iff k)

  -- In an ordered block of two records or more `findIntervalIdx` answers -1 exactly before the block and `intervals()` exactly at its end or
  -- after, and else the interval that holds the timestamp.
  pub find_interval_idx_lem :
      2 ≤ b.recs
      → (find_interval_idx b ts ≡ negsuc 0) × (ts <ℤ (b.places 0).ts)
        ⊎ (find_interval_idx b ts ≡ pos (intervals b)) × ((b.places (b.recs - 1)).ts ≤ℤ ts)
        ⊎ ((k : ℕ) × (find_interval_idx b ts ≡ pos k)
            × (k < intervals b)
            × ((b.places k).ts ≤ℤ ts)
            × (ts <ℤ (b.places (suc k)).ts))
  unfolding find_interval_idx intervals
  find_interval_idx_lem filled =
      let c = records_until b ts in
      elim (ℕ_discrete c 0) [
        | yes e ↦
            inl (ground (arith, records_until-le b ts), until_gt 0 (omega arith) (omega arith))
        | no ne ↦ elim (ℕ_discrete c b.recs) [
          | yes e ↦
              inr (inl (ground (arith, records_until-le b ts), until_le (b.recs - 1) (omega arith)))
          | no ne' ↦ inr (
              inr (
                c - 1,
                ground (arith, records_until-le b ts),
                ground (arith, records_until-le b ts),
                until_le (c - 1) (omega arith),
                (let e : suc (c - 1) ≡ c = omega arith in
                    rw e (until_gt c (omega arith) (omega (arith, records_until-le b ts)))),
              ))
        ]
      ]
