-- ===== src/Partition/Selector/Status.antt =====
-- `checkPosOrAdvance` and `checkPosOrReduce` find the nearest allowed position.
use logrange.Prelude.{
  ℕ, ◌≤◌, ◌<◌, ◌≡◌, refl, ◌⊎◌, inl, inr, true, false, arith, ltb, leb, if◌then◌else◌, Bool-cases,
  ◌&&◌, ◌||◌,
}
use logrange.Partition.Selector.{ChkStatus, check_pos_or_advance, check_pos_or_reduce, pred_uint32}

-- The status of a chunk allows a position.
pub record IsAllowed (st : ChkStatus) (x : ℕ) : Type 0 where
  pub low : st.min_pos ≤ x
  pub high : x ≤ st.max_pos
  pub inside : x < st.count

-- `checkPosOrAdvance` answers the first allowed position from the given one on; it says `false`
-- exactly if there is none, with the end of the chunk.
pub check_pos_or_advance_lem :
    (st : ChkStatus) (p : ℕ)
    → ((check_pos_or_advance st p).1 ≡ true)
        × IsAllowed st (check_pos_or_advance st p).0
        × (p ≤ (check_pos_or_advance st p).0)
        × ((x : ℕ) → IsAllowed st x → p ≤ x → (check_pos_or_advance st p).0 ≤ x)
      ⊎ ((check_pos_or_advance st p).1 ≡ false)
        × ((check_pos_or_advance st p).0 ≡ st.count)
        × ((x : ℕ) → IsAllowed st x → x < p)
unfolding check_pos_or_advance
check_pos_or_advance_lem st p =
    let p' = if ltb p st.min_pos then st.min_pos else p in
    let bound : (p ≤ p') × (st.min_pos ≤ p') × ((x : ℕ) → st.min_pos ≤ x → p ≤ x → p' ≤ x) =
      (ground arith, ground arith, λ x a b. ground arith) in
    elim (Bool-cases (leb st.count p' || ltb st.max_pos p')) [
      | inl e ↦ rw e (inr (refl, refl, λ x a. ground (arith, a.low, a.high, a.inside, bound.2 x)))
      | inr e ↦ rw e (
          inl (
            refl,
            record { low = bound.1; high = ground arith; inside = ground arith },
            bound.0,
            λ x a. bound.2 x a.low,
          ))
    ]

-- `checkPosOrReduce` answers the last allowed position up to the given one; it says `false`
-- exactly if there is none.
pub check_pos_or_reduce_lem :
    (st : ChkStatus) (p : ℕ)
    → ((check_pos_or_reduce st p).1 ≡ true)
        × IsAllowed st (check_pos_or_reduce st p).0
        × ((check_pos_or_reduce st p).0 ≤ p)
        × ((x : ℕ) → IsAllowed st x → x ≤ p → x ≤ (check_pos_or_reduce st p).0)
      ⊎ ((check_pos_or_reduce st p).1 ≡ false) × ((x : ℕ) → IsAllowed st x → p < x)
unfolding check_pos_or_reduce
check_pos_or_reduce_lem st p =
    let p1 = if ltb st.max_pos p then st.max_pos else p in
    let bound : (p1 ≤ p) × (p1 ≤ st.max_pos) × ((x : ℕ) → x ≤ st.max_pos → x ≤ p → x ≤ p1) =
      (ground arith, ground arith, λ x a b. ground arith) in
    let p2 = if leb st.count p1 then pred_uint32 st.count else p1 in
    elim (Bool-cases (leb st.min_pos p2 && ltb 0 st.count)) [
      | inl e ↦ rw e (
          inl (
            refl,
            record { low = ground arith; high = ground arith; inside = ground arith },
            ground arith,
            λ x a h. ground (arith, a.low, a.high, a.inside, bound.2 x),
          ))
      | inr e ↦ rw e (inr (refl, λ x a. ground (arith, a.low, a.high, a.inside, bound.2 x)))
    ]
