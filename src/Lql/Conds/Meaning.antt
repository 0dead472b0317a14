-- ===== src/Lql/Conds/Meaning.antt =====
-- What the compiled function of joined conditions is to answer.
use mathlib.Core.Bool.{not}
use logrange.Prelude.{Bool, true, false, ◌||◌, ◌&&◌, if◌then◌else◌, some, ◌≡◌, refl, arith, ap, ◌∙◌}
use logrange.Lql.Conds.{
  Condition, OrConds, no_or, or_cond, XConds, no_and, and_cond, XCondition, single, group, ExpFunc,
  or_func, and_func, Built, negated, joined, build_or_conds, build_x_conds, build_x_cond,
}

-- The joined conditions as Boolean algebra.
module _ (holds : Condition → Bool) where
  abbrev mutual
    pub all_or : OrConds → Bool
    all_or no_or = true
    all_or (or_cond xs ors) = all_and xs && all_or ors

    pub all_and : XConds → Bool
    all_and no_and = true
    all_and (and_cond x xs) = all_x x && all_and xs

    pub all_x : XCondition → Bool
    all_x (single is_not c) = holds c
    all_x (group is_not ors) = all_or ors

  -- Whether an event fits, by what it answers to each condition.
  abbrev mutual
    pub eval_or : OrConds → Bool
    eval_or no_or = true
    eval_or (or_cond xs no_or) = eval_and xs
    eval_or (or_cond xs (or_cond ys ors)) = eval_and xs || eval_or (or_cond ys ors)

    pub eval_and : XConds → Bool
    eval_and no_and = true
    eval_and (and_cond x xs) = eval_x x && eval_and xs

    pub eval_x : XCondition → Bool
    eval_x (single is_not c) = if is_not then not (holds c) else holds c
    eval_x (group is_not ors) = if is_not then not (eval_or ors) else eval_or ors

module _ {E : Type 0} where
  -- The builder accepts what it should, and then keeps the function with the meaning `g`.
  pub record IsBuilt (accepted : Bool) (g : E → Bool) (b : Built E) : Type 0 where
    pub accepts : b.ok ≡ accepted
    pub means : accepted ≡ true → (e : E) → b.func e ≡ some (g e)

  pub if-IsBuilt :
      (t a a' : Bool) (g g' : E → Bool) (b b' : Built E)
      → IsBuilt a g b
      → IsBuilt a' g' b'
      → IsBuilt (if t then a else a') (λ e. if t then g e else g' e) (if t then b else b')
  if-IsBuilt true a a' g g' b b' i i' = i
  if-IsBuilt false a a' g g' b b' i i' = i'

  pub negated-IsBuilt :
      (is_not accepted : Bool) (g : E → Bool) (b : Built E)
      → IsBuilt accepted g b
      → IsBuilt accepted (λ e. if is_not then not (g e) else g e) (negated is_not b)
  negated-IsBuilt is_not accepted g b i = record {
    accepts = let a = i.accepts in ground arith;
    means = λ h e. let a = i.accepts in let m = i.means h e in ground arith;
  }

  and-IsBuilt :
      (accepted accepted' : Bool) (g g' : E → Bool) (b : Built E) (next_one : ExpFunc E → Built E)
      → IsBuilt accepted g b
      → IsBuilt accepted' g' (next_one b.func)
      → IsBuilt (accepted && accepted') (λ e. g e && g' e) (joined and_func b next_one)
  and-IsBuilt accepted accepted' g g' b next_one i i' = record {
    accepts = let a = i.accepts in let a' = i'.accepts in ground arith;
    means = λ h e.
        let a = i.accepts in
        let a' = i'.accepts in
        let m = i.means (ground arith) e in let m' = i'.means (ground arith) e in ground arith;
  }

  or-IsBuilt :
      (accepted accepted' : Bool) (g g' : E → Bool) (b : Built E) (next_one : ExpFunc E → Built E)
      → IsBuilt accepted g b
      → IsBuilt accepted' g' (next_one b.func)
      → IsBuilt (accepted && accepted') (λ e. g e || g' e) (joined or_func b next_one)
  or-IsBuilt accepted accepted' g g' b next_one i i' = record {
    accepts = let a = i.accepts in let a' = i'.accepts in ground arith;
    means = λ h e.
        let a = i.accepts in
        let a' = i'.accepts in
        let m = i.means (ground arith) e in let m' = i'.means (ground arith) e in ground arith;
  }

  pub same-IsBuilt :
      (accepted accepted' : Bool) (g g' : E → Bool) (b : Built E)
      → accepted ≡ accepted'
      → ((e : E) → g e ≡ g' e)
      → IsBuilt accepted g b
      → IsBuilt accepted' g' b
  same-IsBuilt accepted accepted' g g' b same_a same_g i = record {
    accepts = i.accepts ∙ same_a;
    means = λ h e. i.means (same_a ∙ h) e ∙ ap some (same_g e);
  }

  module _ (build_cond : Condition → ExpFunc E → Built E) (good accepts : Condition → Bool)
      (holds : E → Condition → Bool)
      (one : (c : Condition) (wef : ExpFunc E)
        → good c ≡ true
        → IsBuilt (accepts c) (λ e. holds e c) (build_cond c wef)) where
    mutual
      unfolding build_or_conds

      pub build_or_conds-IsBuilt :
          (ors : OrConds) (wef : ExpFunc E)
          → all_or good ors ≡ true
          → IsBuilt
              (all_or accepts ors)
              (λ e. eval_or (holds e) ors)
              (build_or_conds build_cond ors wef)
      build_or_conds-IsBuilt no_or wef h = record { accepts = refl; means = λ a e. refl }
      build_or_conds-IsBuilt (or_cond xs no_or) wef h =
          same-IsBuilt (all_and accepts xs) _ (λ e. eval_and (holds e) xs) _ _ (ground arith)
            (λ e. refl) (build_x_conds-IsBuilt xs wef (ground arith))
      build_or_conds-IsBuilt (or_cond xs (or_cond ys ors)) wef h =
          or-IsBuilt (all_and accepts xs) (all_or accepts (or_cond ys ors))
            (λ e. eval_and (holds e) xs) (λ e. eval_or (holds e) (or_cond ys ors))
            (build_x_conds build_cond xs wef) (build_or_conds build_cond (or_cond ys ors))
            (build_x_conds-IsBuilt xs wef (ground arith))
            (build_or_conds-IsBuilt (or_cond ys ors) _ (ground arith))

      pub build_x_conds-IsBuilt :
          (xs : XConds) (wef : ExpFunc E)
          → all_and good xs ≡ true
          → IsBuilt
              (all_and accepts xs)
              (λ e. eval_and (holds e) xs)
              (build_x_conds build_cond xs wef)
      build_x_conds-IsBuilt no_and wef h = record { accepts = refl; means = λ a e. refl }
      build_x_conds-IsBuilt (and_cond x no_and) wef h =
          same-IsBuilt (all_x accepts x) _ (λ e. eval_x (holds e) x) _ _ (ground arith)
            (λ e. ground arith) (build_x_cond-IsBuilt x wef (ground arith))
      build_x_conds-IsBuilt (and_cond x (and_cond y xs)) wef h =
          and-IsBuilt (all_x accepts x) (all_and accepts (and_cond y xs)) (λ e. eval_x (holds e) x)
            (λ e. eval_and (holds e) (and_cond y xs)) (build_x_cond build_cond x wef)
            (build_x_conds build_cond (and_cond y xs)) (build_x_cond-IsBuilt x wef (ground arith))
            (build_x_conds-IsBuilt (and_cond y xs) _ (ground arith))

      pub build_x_cond-IsBuilt :
          (x : XCondition) (wef : ExpFunc E)
          → all_x good x ≡ true
          → IsBuilt (all_x accepts x) (λ e. eval_x (holds e) x) (build_x_cond build_cond x wef)
      build_x_cond-IsBuilt (single is_not c) wef h =
          negated-IsBuilt is_not (accepts c) (λ e. holds e c) (build_cond c wef) (one c wef h)
      build_x_cond-IsBuilt (group is_not ors) wef h =
          negated-IsBuilt is_not (all_or accepts ors) (λ e. eval_or (holds e) ors)
            (build_or_conds build_cond ors wef) (build_or_conds-IsBuilt ors wef h)
