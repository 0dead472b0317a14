-- ===== src/Prelude/Cases.antt =====
-- Case distinction on a value that a definition branches on, where a property `P` of the outcome is
-- to be shown: the cases carry the equation that the branch stands for.
use logrange.Prelude.{
  ℕ, zero, suc, ◌<◌, arith, ◌≡◌, refl, Bool, true, false, Option, none, some, if◌then◌else◌,
}

module _ {B : Type 0} (P : B → Type 0) where
  pub option_case :
      {A : Type 0} {n : B} {s : A → B} (o : Option A)
      → (o ≡ none → P n)
      → ((a : A) → o ≡ some a → P (s a))
      → P (elim o [ none ↦ n | some a ↦ s a ])
  option_case none on_none on_some = on_none refl
  option_case (some a) on_none on_some = on_some a refl

  pub if_case : {x y : B} (b : Bool) → (b ≡ true → P x) → (b ≡ false → P y) → P (if b then x else y)
  if_case true on_true on_false = on_true refl
  if_case false on_true on_false = on_false refl

  -- The same where both branches are recursive calls, which `elim` does not compute before.
  pub bool_case :
      {x y : B} (b : Bool)
      → (b ≡ true → P x)
      → (b ≡ false → P y)
      → P (elim b [ true ↦ x | false ↦ y ])
  bool_case true on_true on_false = on_true refl
  bool_case false on_true on_false = on_false refl

-- The numbers below `suc n` are 0 and the successors of the numbers below `n`.
pub below_suc :
    (Q : ℕ → Type 0) (n : ℕ) → Q 0 → ((k : ℕ) → k < n → Q (suc k)) → (k : ℕ) → k < suc n → Q k
below_suc Q n q0 qs zero h = q0
below_suc Q n q0 qs (suc k) h = qs k (omega arith)
