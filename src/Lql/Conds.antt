-- ===== src/Lql/Conds.antt =====
-- pkg/lql/parser.go, whereeval.go, tagseval.go: conditions joined by OR, AND and NOT, compiled to a
-- function. The two files join them by the same text, over their own builder of one condition.
-- The builder keeps the last function in a field, which is nil at first: a function of the model
-- answers `none` where Go would call nil. A string is the list of its bytes.
pub mod Meaning
use mathlib.Core.Bool.{not}
use logrange.Prelude.{
  ℕ, Bool, true, false, ◌||◌, ◌&&◌, if◌then◌else◌, List, [], ◌∷◌, Option, none, some,
}

abbrev pub Str : Type 0
Str = List ℕ

mutual
  pub data Identifier : Type 0 where
    identifier : Str → Params → Identifier

  pub data Params : Type 0 where
    no_params : Params
    param : Identifier → Params → Params

-- The operators by what strings.ToUpper makes of them.
pub data Op : Type 0 where
  op_lt : Op
  op_gt : Op
  op_le : Op
  op_ge : Op
  op_ne : Op
  op_eq : Op
  op_contains : Op
  op_prefix : Op
  op_suffix : Op
  op_like : Op
  op_other : Op

pub record Condition : Type 0 where
  pub ident : Identifier
  pub op : Op
  pub value : Str

-- An expression is its list of OR conditions, each a list of AND conditions.
mutual
  pub data OrConds : Type 0 where
    no_or : OrConds
    or_cond : XConds → OrConds → OrConds

  pub data XConds : Type 0 where
    no_and : XConds
    and_cond : XCondition → XConds → XConds

  -- Whether it stands under NOT, and a condition or an expression.
  pub data XCondition : Type 0 where
    single : Bool → Condition → XCondition
    group : Bool → OrConds → XCondition

-- The compiled function, which may be nil.
abbrev pub ExpFunc : Type 0 → Type 0
ExpFunc E = E → Option Bool

abbrev pub nil_func : {E : Type 0} → ExpFunc E
nil_func e = none

abbrev pub positive_func : {E : Type 0} → ExpFunc E
positive_func e = some true

abbrev pub or_func : {E : Type 0} → ExpFunc E → ExpFunc E → ExpFunc E
or_func efd0 efd1 e = elim (efd0 e) [ none ↦ none | some b ↦ if b then some true else efd1 e ]

abbrev pub and_func : {E : Type 0} → ExpFunc E → ExpFunc E → ExpFunc E
and_func efd0 efd1 e = elim (efd0 e) [ none ↦ none | some b ↦ if b then efd1 e else some false ]

abbrev pub not_func : {E : Type 0} → ExpFunc E → ExpFunc E
not_func efd e = elim (efd e) [ none ↦ none | some b ↦ some (not b) ]

-- Whether there was no error, and the function that the builder keeps.
pub record Built (E : Type 0) : Type 0 where
  pub ok : Bool
  pub func : ExpFunc E

abbrev pub negated : {E : Type 0} → Bool → Built E → Built E
negated is_not b = if b.ok then if is_not then record b { func = not_func b.func } else b else b

-- The second of two conditions is built after the first.
abbrev pub joined :
    {E : Type 0} → (ExpFunc E → ExpFunc E → ExpFunc E) → Built E → (ExpFunc E → Built E) → Built E
joined join b next_one =
    let b' = next_one b.func in
    if b.ok then if b'.ok then record b' { func = join b.func b'.func } else b' else b

module _ {E : Type 0} (build_cond : Condition → ExpFunc E → Built E) where
  unfoldable mutual
    pub build_or_conds : OrConds → ExpFunc E → Built E
    build_or_conds no_or wef = record { ok = true; func = positive_func }
    build_or_conds (or_cond xs no_or) wef = build_x_conds xs wef
    build_or_conds (or_cond xs (or_cond ys ocn)) wef =
        joined or_func (build_x_conds xs wef) (build_or_conds (or_cond ys ocn))

    pub build_x_conds : XConds → ExpFunc E → Built E
    build_x_conds no_and wef = record { ok = true; func = positive_func }
    build_x_conds (and_cond x no_and) wef = build_x_cond x wef
    build_x_conds (and_cond x (and_cond y cn)) wef =
        joined and_func (build_x_cond x wef) (build_x_conds (and_cond y cn))

    pub build_x_cond : XCondition → ExpFunc E → Built E
    build_x_cond (single is_not c) wef = negated is_not (build_cond c wef)
    build_x_cond (group is_not ors) wef = negated is_not (build_or_conds ors wef)

  -- BuildWhereExpFuncByExpression and buildTagsExpFunc: `none` is an error.
  unfoldable pub build_by_expression : Option OrConds → Option (ExpFunc E)
  unfolding build_or_conds
  build_by_expression none = some positive_func
  build_by_expression (some ors) =
      let b = build_or_conds ors nil_func in if b.ok then some b.func else none
