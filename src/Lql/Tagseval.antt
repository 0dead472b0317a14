-- ===== src/Lql/Tagseval.antt =====
-- pkg/lql/tagseval.go: the conditions on the tags of a partition. Package tag is a parameter: `tag`
-- is Set.Tag, and `subset_of` Set.SubsetOf.
pub mod Sound
use mathlib.Core.Bool.{not}
use logrange.Prelude.{Bool, true, false, if◌then◌else◌, Option, none, some}
use logrange.Lql.Conds.{
  Str, Identifier, identifier, no_params, param, Op, op_lt, op_gt, op_le, op_ge, op_ne, op_eq,
  op_contains, op_prefix, op_suffix, op_like, op_other, Condition, OrConds, ExpFunc, positive_func,
  Built, build_by_expression,
}
use logrange.Lql.Strings.{
  eq_str, lt_str, has_prefix, has_suffix, contains, Packages, upper_name, lower_name, trial,
}

-- A source is nil, a set of tags, or an expression, which may be nil.
pub data Source (T : Type 0) : Type 0 where
  no_source : Source T
  by_tags : T → Source T
  by_expr : Option OrConds → Source T

module _ (go : Packages) {T : Type 0} (tag : T → Str → Str) (subset_of : T → T → Bool) where
  pub build_tag_ident : Identifier → Option (T → Str)
  build_tag_ident (identifier operand no_params) = some (λ tags. tag tags operand)
  build_tag_ident (identifier operand (param id no_params)) = elim (build_tag_ident id) [
    | none ↦ none
    | some fint ↦
        if eq_str (go.to_upper operand) upper_name
        then some (λ tags. go.to_upper (fint tags))
        else if eq_str (go.to_upper operand) lower_name
        then some (λ tags. go.to_lower (fint tags))
        else none
  ]
  build_tag_ident (identifier operand (param id (param id' ids))) = none

  -- The switch of buildTagCond. A pattern that path.Match refuses is no error here either.
  pub tag_switch : Op → Str → (T → Str) → ExpFunc T → Built T
  tag_switch op_lt val tvf tef = record { ok = true; func = λ tags. some (lt_str (tvf tags) val) }
  tag_switch op_gt val tvf tef = record { ok = true; func = λ tags. some (lt_str val (tvf tags)) }
  tag_switch op_le val tvf tef = record {
    ok = true;
    func = λ tags. some (not (lt_str val (tvf tags)));
  }
  tag_switch op_ge val tvf tef = record {
    ok = true;
    func = λ tags. some (not (lt_str (tvf tags) val));
  }
  tag_switch op_ne val tvf tef = record {
    ok = true;
    func = λ tags. some (not (eq_str (tvf tags) val));
  }
  tag_switch op_eq val tvf tef = record { ok = true; func = λ tags. some (eq_str (tvf tags) val) }
  tag_switch op_like val tvf tef = elim (go.path_match val trial) [
    | none ↦ record { ok = true; func = tef }
    | some matched ↦ record {
      ok = true;
      func = λ tags. some (elim (go.path_match val (tvf tags)) [ none ↦ false | some res ↦ res ]);
    }
  ]
  tag_switch op_contains val tvf tef = record {
    ok = true;
    func = λ tags. some (contains (tvf tags) val);
  }
  tag_switch op_prefix val tvf tef = record {
    ok = true;
    func = λ tags. some (has_prefix (tvf tags) val);
  }
  tag_switch op_suffix val tvf tef = record {
    ok = true;
    func = λ tags. some (has_suffix (tvf tags) val);
  }
  tag_switch op_other val tvf tef = record { ok = false; func = tef }

  pub build_tag_cond : Condition → ExpFunc T → Built T
  unfolding build_tag_ident tag_switch
  build_tag_cond cn tef = elim (build_tag_ident cn.ident) [
    | none ↦ record { ok = false; func = tef }
    | some tvf ↦ tag_switch cn.op cn.value tvf tef
  ]

  -- buildTagsExpFunc
  pub build_tags_exp_func : Option OrConds → Option (ExpFunc T)
  unfolding build_tag_cond build_by_expression
  build_tags_exp_func exp = build_by_expression build_tag_cond exp

  pub build_tags_exp_func_by_source : Source T → Option (ExpFunc T)
  unfolding build_tags_exp_func
  build_tags_exp_func_by_source no_source = some positive_func
  build_tags_exp_func_by_source (by_tags ts) = some (λ tags. some (subset_of ts tags))
  build_tags_exp_func_by_source (by_expr exp) = build_tags_exp_func exp
