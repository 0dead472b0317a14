-- ===== src/Partition/Truncate/ByAge.antt =====
-- What the loop by the time cuts off, and that it stays within the chunks.
use mathlib.Core.Option.{some-injective}
use logrange.Prelude.{
  subst, ℕ, suc, ◌≤◌, ◌<◌, ◌≡◌, ◌⊎◌, refl, List, [], ◌∷◌, Option, some, ◌&&◌, leb, length,
  get_elem?, drop, arith,
}
use logrange.Prelude.Int.{leb_ℤ, ◌≤ℤ◌, ◌<ℤ◌}
use logrange.Prelude.Cases.{if_case, below_suc}
use logrange.Partition.Selector.{RecordsInfo}
use logrange.Partition.Truncate.{word64, sub_uint64, Chunk, TruncateParams, cut_by_age}
use logrange.Partition.Truncate.BySize.{total, sub_uint64_lem}

-- No record of the chunk `k` is later than `oldest_ts`.
abbrev pub IsOutdated : TruncateParams → List RecordsInfo → ℕ → Type 0
IsOutdated tp sc k = (r : RecordsInfo) × (get_elem? sc k ≡ some r) × (r.max_ts ≤ℤ tp.oldest_ts)

pub record IsOldCut (tp : TruncateParams) (sc : List RecordsInfo) (cks : List Chunk) (r : ℕ × ℕ)
    : Type 0 where
  pub inside : r.0 ≤ length cks
  pub left : r.1 ≡ total (drop r.0 cks)
  pub leaves : (k : ℕ) → k < r.0 → tp.min_src_size ≤ total (drop (suc k) cks)
  pub outdated : (k : ℕ) → k < r.0 → IsOutdated tp sc k
  pub stops :
      (i : RecordsInfo)
      → get_elem? sc r.0 ≡ some i
      → (tp.oldest_ts <ℤ i.max_ts) ⊎ (total (drop (suc r.0) cks) < tp.min_src_size)

-- The loop answers, and what it answers is such a cut.
abbrev pub OldCut : TruncateParams → List RecordsInfo → List Chunk → Option (ℕ × ℕ) → Type 0
OldCut tp sc cks o = (r : ℕ × ℕ) × (o ≡ some r) × IsOldCut tp sc cks r

module _ (tp : TruncateParams) where
  stopped-OldCut :
      (size : ℕ) (sc : List RecordsInfo) (cks : List Chunk)
      → size ≡ total cks
      → ((i : RecordsInfo)
          → get_elem? sc 0 ≡ some i
          → (tp.oldest_ts <ℤ i.max_ts) ⊎ (total (drop 1 cks) < tp.min_src_size))
      → OldCut tp sc cks (some (0, size))
  stopped-OldCut size sc cks e why = (
    (0, size),
    refl,
    record {
      inside = omega arith;
      left = e;
      leaves = λ k h. absurd (omega arith);
      outdated = λ k h. absurd (omega arith);
      stops = why;
    },
  )

  pub cut_by_age-OldCut :
      (size : ℕ) (sc : List RecordsInfo) (cks : List Chunk)
      → length sc ≤ length cks
      → size ≡ total cks
      → size < word64
      → OldCut tp sc cks (cut_by_age tp size sc cks)
  unfolding cut_by_age
  cut_by_age-OldCut size [] cks fits e small = stopped-OldCut size [] cks e (λ i h. ground arith)
  cut_by_age-OldCut size (r ∷ sc) [] fits e small = absurd (omega arith)
  cut_by_age-OldCut size (r ∷ sc) (c ∷ cks) fits e small =
      let left = sub_uint64 size c.size in
      let l : left ≡ total cks = ground (arith, sub_uint64_lem size c.size) in
      let (n, eq, ih) = cut_by_age-OldCut left sc cks (omega arith) l (omega arith) in
      if_case (λ (o : Option (ℕ × ℕ)). OldCut tp (r ∷ sc) (c ∷ cks) o)
        (leb_ℤ r.max_ts tp.oldest_ts && leb tp.min_src_size left)
        (λ go. (
          (suc n.0, n.1),
          rw eq,
          record {
            inside = omega (arith, ih.inside);
            left = ih.left;
            leaves =
                below_suc (λ k. tp.min_src_size ≤ total (drop (suc k) (c ∷ cks))) _ (ground arith)
                  ih.leaves;
            outdated = below_suc (IsOutdated tp (r ∷ sc)) _ (r, refl, ground arith) ih.outdated;
            stops = ih.stops;
          },
        ))
        (λ stop. stopped-OldCut size (r ∷ sc) (c ∷ cks) e (λ i h.
          subst (λ (i' : RecordsInfo). (tp.oldest_ts <ℤ i'.max_ts) ⊎ (total cks < tp.min_src_size))
            (some-injective r i h) (ground arith)))
