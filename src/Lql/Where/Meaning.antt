-- ===== src/Lql/Where/Meaning.antt =====
-- What the conditions of WHERE mean, apart from how they are compiled.
use mathlib.Core.Bool.{not}
use logrange.Prelude.{
  Bool, true, false, ◌||◌, ◌&&◌, ltb, if◌then◌else◌, Option, none, some, length, drop,
}
use logrange.Prelude.Int.{ℤ, ltb_ℤ, leb_ℤ}
use logrange.Lql.Conds.{
  Str, Identifier, identifier, no_params, param, Op, op_lt, op_gt, op_le, op_ge, op_ne, op_eq,
  op_contains, op_prefix, op_suffix, op_like, op_other, Condition,
}
use logrange.Lql.Strings.{
  eq_str, lt_str, has_prefix, has_suffix, contains, Packages, upper_name, lower_name, trial,
}
use logrange.Lql.Where.{Event, ts_name, msg_name, fields_name, get_first_param_name}

abbrev pub is_some : {A : Type 0} → Option A → Bool
is_some none = false
is_some (some a) = true

module _ (go : Packages) where
  -- Whether the functions of an operand are UPPER and LOWER with one parameter each.
  abbrev pub is_known : Identifier → Bool
  is_known (identifier operand no_params) = true
  is_known (identifier operand (param id no_params)) =
      is_known id
      && (eq_str (go.to_upper operand) upper_name || eq_str (go.to_upper operand) lower_name)
  is_known (identifier operand (param id (param id' ids))) = false

  abbrev pub applied : Identifier → Str → Str
  applied (identifier operand no_params) str = str
  applied (identifier operand (param id ids)) str =
      if eq_str (go.to_upper operand) upper_name
      then go.to_upper (applied id str)
      else go.to_lower (applied id str)

  abbrev pub matches : Str → Str → Bool
  matches pattern text = elim (go.path_match pattern text) [ none ↦ false | some res ↦ res ]

  -- A comparison of a text with the value of the condition.
  abbrev pub text_holds : Op → Str → Str → Bool
  text_holds op_lt val text = lt_str text val
  text_holds op_gt val text = lt_str val text
  text_holds op_le val text = not (lt_str val text)
  text_holds op_ge val text = not (lt_str text val)
  text_holds op_ne val text = not (eq_str text val)
  text_holds op_eq val text = eq_str text val
  text_holds op_contains val text = contains text val
  text_holds op_prefix val text = has_prefix text val
  text_holds op_suffix val text = has_suffix text val
  text_holds op_like val text = matches val text
  text_holds op_other val text = false

  -- LIKE is used with patterns that path.Match takes.
  abbrev pub is_fit : Condition → Bool
  is_fit c = elim c.op [ op_like ↦ is_some (go.path_match c.value trial) | _ ↦ true ]

abbrev pub time_holds : Op → ℤ → ℤ → Bool
time_holds op_lt tm ts = ltb_ℤ ts tm
time_holds op_gt tm ts = ltb_ℤ tm ts
time_holds op_le tm ts = leb_ℤ ts tm
time_holds op_ge tm ts = leb_ℤ tm ts
time_holds op tm ts = false

abbrev pub on_times : Op → Bool
on_times op = elim op [ op_lt ↦ true | op_gt ↦ true | op_le ↦ true | op_ge ↦ true | _ ↦ false ]

abbrev pub on_messages : Op → Bool
on_messages op = elim op [
  | op_contains ↦ true
  | op_prefix ↦ true
  | op_suffix ↦ true
  | op_like ↦ true
  | _ ↦ false
]

abbrev pub on_fields : Op → Bool
on_fields op = elim op [ op_other ↦ false | _ ↦ true ]

abbrev pub has_no_params : Identifier → Bool
has_no_params (identifier operand no_params) = true
has_no_params (identifier operand (param id ids)) = false

module _ (go : Packages) (parse_lql_date_time : Str → Option ℤ) where
  -- The conditions that the builder takes, and what they say of an event.
  abbrev pub accepts : Condition → Bool
  accepts c =
      let op = go.to_lower (get_first_param_name c.ident) in
      if eq_str op ts_name
      then has_no_params c.ident && (is_some (parse_lql_date_time c.value) && on_times c.op)
      else if eq_str op msg_name
      then is_known go c.ident && on_messages c.op
      else if not (has_prefix op fields_name) || ltb (length op) 8
      then false
      else is_known go c.ident && on_fields c.op

  abbrev pub time_of : Condition → Op → Event → Bool
  time_of c op e = elim (parse_lql_date_time c.value) [
    | none ↦ false
    | some tm ↦ time_holds op tm e.timestamp
  ]

  abbrev pub holds : Event → Condition → Bool
  holds e c =
      let fld_name = get_first_param_name c.ident in
      let op = go.to_lower fld_name in
      if eq_str op ts_name
      then time_of c c.op e
      else if eq_str op msg_name
      then text_holds go c.op c.value (applied go c.ident e.msg)
      else if not (has_prefix op fields_name) || ltb (length op) 8
      then false
      else text_holds go c.op c.value (applied go c.ident (e.value (drop 7 fld_name)))
