-- ===== src/Prelude/Bisect.antt =====
-- The halving loop that the index and the partition packages write out for themselves:
--   i, j := 0, n; for i < j { h := int(uint(i+j) >> 1); if test(h) { i = h + 1 } else { j = h } }
-- `bisect` is that loop over its test, on fuel; `n` rounds are enough, since each one shortens
-- the range.
use mathlib.Core.Logic.{◌↔◌}
use logrange.Prelude.{
  ℕ, zero, suc, ◌+◌, ◌-◌, ◌/◌, ◌≤◌, ◌<◌, ◌≡◌, Bool, true, false, arith, ltb, ltb→lt, Bool-cases,
  inl, inr,
}

pub bisect_loop : (ℕ → Bool) → ℕ → ℕ → ℕ → ℕ
bisect_loop test zero i j = i
bisect_loop test (suc f) i j = elim (ltb i j) [
  | true ↦ elim (test ((i + j) / 2)) [
    | true ↦ bisect_loop test f ((i + j) / 2 + 1) j
    | false ↦ bisect_loop test f i ((i + j) / 2)
  ]
  | false ↦ i
]

unfoldable pub bisect : (ℕ → Bool) → ℕ → ℕ
unfolding bisect_loop
bisect test n = bisect_loop test n 0 n

-- Where the loop stops: the test holds just before `r` and fails at `r`.
pub record Cut (test : ℕ → Bool) (n r : ℕ) : Type 0 where
  pub inside : r ≤ n
  pub before : (k : ℕ) → suc k ≡ r → test k ≡ true
  pub at_end : r < n → test r ≡ false

module _ (test : ℕ → Bool) (n : ℕ) where
  bisect_loop-Cut :
      (f i j : ℕ)
      → i ≤ j
      → j ≤ n
      → j ≤ i + f
      → ((k : ℕ) → suc k ≡ i → test k ≡ true)
      → (j < n → test j ≡ false)
      → Cut test n (bisect_loop test f i j)
  unfolding bisect_loop
  bisect_loop-Cut zero i j h jn fits lo hi = record {
    inside = omega arith;
    before = lo;
    at_end = λ lt. let e : i ≡ j = omega arith in rw e (hi (omega arith));
  }
  bisect_loop-Cut (suc f) i j h jn fits lo hi =
      let m = (i + j) / 2 in
      elim (Bool-cases (ltb i j)) [
        | inr done ↦
            rw (done, bisect_loop)
              (record {
                inside = omega arith;
                before = lo;
                at_end = λ lt. let e : i ≡ j = ground arith in rw e (hi (omega arith));
              })
        | inl more ↦
            let lt : i < j = ltb→lt i j more in
            rw (more, bisect_loop)
              (elim (Bool-cases (test m)) [
                | inl up ↦
                    rw (up, bisect_loop)
                      (bisect_loop-Cut f (m + 1) j (omega arith) jn (omega arith)
                        (λ k e. let e' : k ≡ m = omega arith in rw e' up) hi)
                | inr down ↦
                    rw (down, bisect_loop)
                      (bisect_loop-Cut f i m (omega arith) (omega arith) (omega arith) lo
                        (λ _. down))
              ])
      ]

  -- The loop always ends at a cut, whatever the test is.
  pub bisect-Cut : Cut test n (bisect test n)
  unfolding bisect
  bisect-Cut =
      bisect_loop-Cut n 0 n (omega arith) (omega arith) (omega arith) (λ k e. absurd (omega arith))
        (λ lt. absurd (omega arith))

-- A test that holds below wherever it holds is split by the cut: it holds before, and fails from
-- there on.
pub bisect_splits :
    (test : ℕ → Bool) (n : ℕ)
    → ((a b : ℕ) → a ≤ b → b < n → test b ≡ true → test a ≡ true)
    → (k : ℕ) → k < n
    → (test k ≡ true) ↔ (k < bisect test n)
bisect_splits test n mono k lt =
    let cut = bisect-Cut test n in
    (
      λ holds. elim (Bool-cases (ltb k (bisect test n))) [
        | inl e ↦ ltb→lt _ _ e
        | inr e ↦ ground (arith, cut.at_end, mono (bisect test n) k)
      ],
      λ below. ground (arith, cut.before (bisect test n - 1), mono k (bisect test n - 1)),
    )
