-- ===== src/Lql/Where.antt =====
-- pkg/lql/whereeval.go: the conditions of WHERE on the timestamp, the message and the fields.
pub mod Meaning
pub mod Sound
pub mod BadLike
use logrange.Prelude.{
  ℕ, Bool, true, false, ◌||◌, ◌&&◌, ltb, ◌==◌, if◌then◌else◌, List, [], ◌∷◌, Option, none, some,
  length, drop,
}
use mathlib.Core.Bool.{not}
use logrange.Prelude.Int.{ℤ, ltb_ℤ, leb_ℤ}
use logrange.Lql.Conds.{
  Str, Identifier, identifier, Params, no_params, param, Op, op_lt, op_gt, op_le, op_ge, op_ne,
  op_eq, op_contains, op_prefix, op_suffix, op_like, op_other, Condition, OrConds, ExpFunc, Built,
  build_by_expression,
}
use logrange.Lql.Strings.{
  eq_str, lt_str, has_prefix, has_suffix, contains, Packages, upper_name, lower_name, trial,
}

-- What the conditions read of a LogEvent: `value` is Fields.Value.
pub record Event : Type 0 where
  pub timestamp : ℤ
  pub msg : Str
  pub value : Str → Str

abbrev pub ts_name : Str
ts_name = 116 ∷ 115 ∷ []

abbrev pub msg_name : Str
msg_name = 109 ∷ 115 ∷ 103 ∷ []

-- "fields:"
abbrev pub fields_name : Str
fields_name = 102 ∷ 105 ∷ 101 ∷ 108 ∷ 100 ∷ 115 ∷ 58 ∷ []

unfoldable pub get_first_param_name : Identifier → Str
get_first_param_name (identifier operand no_params) = operand
get_first_param_name (identifier operand (param id ids)) = get_first_param_name id

abbrev pub built : ExpFunc Event → Built Event
built f = record { ok = true; func = f }

-- An error: the function that was kept is kept.
abbrev pub refused : ExpFunc Event → Built Event
refused wef = record { ok = false; func = wef }

module _ (go : Packages) (parse_lql_date_time : Str → Option ℤ) where
  pub build_msg_le_str_fld_f : Identifier → Option (Str → Str)
  build_msg_le_str_fld_f (identifier operand no_params) = some (λ str. str)
  build_msg_le_str_fld_f (identifier operand (param id no_params)) =
      elim (build_msg_le_str_fld_f id) [
        | none ↦ none
        | some inf ↦
            if eq_str (go.to_upper operand) upper_name
            then some (λ str. go.to_upper (inf str))
            else if eq_str (go.to_upper operand) lower_name
            then some (λ str. go.to_lower (inf str))
            else none
      ]
  build_msg_le_str_fld_f (identifier operand (param id (param id' ids))) = none

  -- The switch of buildTsCond.
  pub ts_switch : Op → ℤ → ExpFunc Event → Built Event
  ts_switch op_lt tm wef = built (λ le. some (ltb_ℤ le.timestamp tm))
  ts_switch op_gt tm wef = built (λ le. some (ltb_ℤ tm le.timestamp))
  ts_switch op_le tm wef = built (λ le. some (leb_ℤ le.timestamp tm))
  ts_switch op_ge tm wef = built (λ le. some (leb_ℤ tm le.timestamp))
  ts_switch op tm wef = refused wef

  pub build_ts_cond : Condition → ExpFunc Event → Built Event
  unfolding ts_switch
  build_ts_cond cn wef =
      let by_time : Built Event = elim (parse_lql_date_time cn.value) [
        | none ↦ refused wef
        | some tm ↦ ts_switch cn.op tm wef
      ] in
      elim cn.ident [
        | identifier operand params ↦ elim params [
          | no_params ↦ by_time
          | param id ids ↦ refused wef
        ]
      ]

  -- LIKE, on a text of the event. The error of a pattern that path.Match refuses is assigned to a
  -- variable of the case, so none is returned, and the function that was kept is kept.
  pub like_case : Str → (Event → Str) → ExpFunc Event → Built Event
  like_case pattern text wef = elim (go.path_match pattern trial) [
    | none ↦ built wef
    | some matched ↦
        built
          (λ le. some (elim (go.path_match pattern (text le)) [ none ↦ false | some res ↦ res ]))
  ]

  -- The switch of buildMsgCond, on the text of the message.
  pub msg_switch : Op → Str → (Event → Str) → ExpFunc Event → Built Event
  unfolding like_case
  msg_switch op_contains val text wef = built (λ le. some (contains (text le) val))
  msg_switch op_prefix val text wef = built (λ le. some (has_prefix (text le) val))
  msg_switch op_suffix val text wef = built (λ le. some (has_suffix (text le) val))
  msg_switch op_like val text wef = like_case val text wef
  msg_switch op val text wef = refused wef

  -- The switch of buildFldCond, on the text of the field.
  pub fld_switch : Op → Str → (Event → Str) → ExpFunc Event → Built Event
  unfolding like_case
  fld_switch op_contains val text wef = built (λ le. some (contains (text le) val))
  fld_switch op_prefix val text wef = built (λ le. some (has_prefix (text le) val))
  fld_switch op_suffix val text wef = built (λ le. some (has_suffix (text le) val))
  fld_switch op_like val text wef = like_case val text wef
  fld_switch op_eq val text wef = built (λ le. some (eq_str (text le) val))
  fld_switch op_ne val text wef = built (λ le. some (not (eq_str (text le) val)))
  fld_switch op_gt val text wef = built (λ le. some (lt_str val (text le)))
  fld_switch op_lt val text wef = built (λ le. some (lt_str (text le) val))
  fld_switch op_ge val text wef = built (λ le. some (not (lt_str (text le) val)))
  fld_switch op_le val text wef = built (λ le. some (not (lt_str val (text le))))
  fld_switch op_other val text wef = refused wef

  pub build_msg_cond : Condition → ExpFunc Event → Built Event
  unfolding build_msg_le_str_fld_f msg_switch
  build_msg_cond cn wef = elim (build_msg_le_str_fld_f cn.ident) [
    | none ↦ refused wef
    | some lsf ↦ msg_switch cn.op cn.value (λ le. lsf le.msg) wef
  ]

  pub build_fld_cond : Condition → Str → ExpFunc Event → Built Event
  unfolding build_msg_le_str_fld_f fld_switch
  build_fld_cond cn fld_name wef = elim (build_msg_le_str_fld_f cn.ident) [
    | none ↦ refused wef
    | some lsf ↦ fld_switch cn.op cn.value (λ le. lsf (le.value (drop 7 fld_name))) wef
  ]

  pub build_cond : Condition → ExpFunc Event → Built Event
  unfolding get_first_param_name build_ts_cond build_msg_cond build_fld_cond
  build_cond cn wef =
      let fld_name = get_first_param_name cn.ident in
      let op = go.to_lower fld_name in
      if eq_str op ts_name
      then build_ts_cond cn wef
      else if eq_str op msg_name
      then build_msg_cond cn wef
      else if not (has_prefix op fields_name) || ltb (length op) 8
      then refused wef
      else build_fld_cond cn fld_name wef

  -- BuildWhereExpFuncByExpression: `none` is an error.
  pub build_where_exp_func : Option OrConds → Option (ExpFunc Event)
  unfolding build_cond build_by_expression
  build_where_exp_func exp = build_by_expression build_cond exp
