-- ===== src/Partition/Truncate/BySize.antt =====
-- What the loop by the size cuts off.
use logrange.Prelude.{
  ℕ, suc, ◌+◌, ◌-◌, ◌≤◌, ◌<◌, ◌≡◌, ◌⊎◌, List, [], ◌∷◌, ◌&&◌, ltb, leb, length, drop, arith,
}
use logrange.Prelude.Cases.{if_case, below_suc}
use logrange.Partition.Truncate.{word64, sub_uint64, Chunk, TruncateParams, cut_by_size}

-- The bytes in a list of chunks.
abbrev pub total : List Chunk → ℕ
total [] = 0
total (c ∷ cks) = c.size + total cks

pub sub_uint64_lem : (a b : ℕ) → b ≤ a → a < word64 → sub_uint64 a b ≡ a - b
unfolding sub_uint64
sub_uint64_lem a b h small = omega arith

-- The first `n` chunks are removable in turn, and those that are left are `size` bytes.
pub record IsBigCut (tp : TruncateParams) (cks : List Chunk) (r : ℕ × ℕ) : Type 0 where
  pub inside : r.0 ≤ length cks
  pub left : r.1 ≡ total (drop r.0 cks)
  pub leaves : (k : ℕ) → k < r.0 → tp.min_src_size ≤ total (drop (suc k) cks)
  pub over : (k : ℕ) → k < r.0 → tp.max_src_size < total (drop k cks)
  pub stops :
      r.0 < length cks
      → (total (drop r.0 cks) ≤ tp.max_src_size) ⊎ (total (drop (suc r.0) cks) < tp.min_src_size)

pub cut_by_size-IsBigCut :
    (tp : TruncateParams) (size : ℕ) (cks : List Chunk)
    → size ≡ total cks
    → size < word64
    → IsBigCut tp cks (cut_by_size tp size cks)
unfolding cut_by_size
cut_by_size-IsBigCut tp size [] e small = record {
  inside = omega arith;
  left = e;
  leaves = λ k h. absurd (omega arith);
  over = λ k h. absurd (omega arith);
  stops = λ h. absurd (omega arith);
}
cut_by_size-IsBigCut tp size (c ∷ cks) e small =
    let left = sub_uint64 size c.size in
    let l : left ≡ total cks = ground (arith, sub_uint64_lem size c.size) in
    let ih = cut_by_size-IsBigCut tp left cks l (omega arith) in
    if_case (λ (r : ℕ × ℕ). IsBigCut tp (c ∷ cks) r)
      (ltb tp.max_src_size size && leb tp.min_src_size left)
      (λ go. record {
        inside = omega (arith, ih.inside);
        left = ih.left;
        leaves =
            below_suc (λ k. tp.min_src_size ≤ total (drop (suc k) (c ∷ cks))) _ (ground arith)
              ih.leaves;
        over = below_suc (λ k. tp.max_src_size < total (drop k (c ∷ cks))) _ (ground arith) ih.over;
        stops = λ h. ih.stops (omega arith);
      })
      (λ stop. record {
        inside = omega arith;
        left = e;
        leaves = λ k h. absurd (omega arith);
        over = λ k h. absurd (omega arith);
        stops = λ h. ground arith;
      })
