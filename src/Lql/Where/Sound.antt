-- ===== src/Lql/Where/Sound.antt =====
-- What the compiled WHERE condition answers.
use mathlib.Core.Bool.{not}
use logrange.Prelude.{
  Bool, true, false, ◌&&◌, Option, none, some, drop, ◌≡◌, refl, sym, ap, ◌∙◌, arith, subst,
}
use logrange.Prelude.Int.{ℤ, ltb_ℤ, leb_ℤ}
use logrange.Prelude.Cases.{option_case, if_case}
use logrange.Lql.Conds.{
  Str, Identifier, identifier, no_params, param, Op, op_lt, op_gt, op_le, op_ge, op_ne, op_eq,
  op_contains, op_prefix, op_suffix, op_like, op_other, Condition, OrConds, ExpFunc, Built,
  build_by_expression, build_or_conds, nil_func,
}
use logrange.Lql.Conds.Meaning.{
  IsBuilt, all_or, eval_or, build_or_conds-IsBuilt, same-IsBuilt, if-IsBuilt,
}
use logrange.Lql.Strings.{
  eq_str, lt_str, has_prefix, has_suffix, contains, Packages, upper_name, lower_name, trial,
}
use logrange.Lql.Where.{
  Event, get_first_param_name, build_msg_le_str_fld_f, ts_switch, build_ts_cond, like_case,
  msg_switch, fld_switch, build_msg_cond, build_fld_cond, build_cond, build_where_exp_func,
}
use logrange.Lql.Where.Meaning.{
  is_some, is_known, applied, matches, text_holds, is_fit, time_holds, on_times, on_messages,
  on_fields, has_no_params, accepts, time_of, holds,
}

module _ (go : Packages) where
  abbrev pub IsText : Identifier → Option (Str → Str) → Type 0
  IsText id o = elim o [
    | none ↦ is_known go id ≡ false
    | some f ↦ (is_known go id ≡ true) × ((str : Str) → f str ≡ applied go id str)
  ]

  module _ (parse_lql_date_time : Str → Option ℤ) where
    pub build_msg_le_str_fld_f-IsText :
        (id : Identifier) → IsText id (build_msg_le_str_fld_f go parse_lql_date_time id)
    unfolding build_msg_le_str_fld_f
    build_msg_le_str_fld_f-IsText (identifier operand no_params) = (refl, λ str. refl)
    build_msg_le_str_fld_f-IsText (identifier operand (param id no_params)) =
        let text = build_msg_le_str_fld_f go parse_lql_date_time id in
        let ih = build_msg_le_str_fld_f-IsText id in
        let P = IsText (identifier operand (param id no_params)) in
        option_case P text (λ e. let unknown = subst (IsText id) e ih in ground arith)
          λ inf e.
            let (known, same) = subst (IsText id) e ih in
            if_case P (eq_str (go.to_upper operand) upper_name)
              (λ h. (ground arith, λ str. (ap go.to_upper (same str)) ∙ (ground arith)))
              λ h.
                if_case P (eq_str (go.to_upper operand) lower_name)
                  (λ h'. (ground arith, λ str. (ap go.to_lower (same str)) ∙ (ground arith)))
                  (λ h'. ground arith)
    build_msg_le_str_fld_f-IsText (identifier operand (param id (param id' ids))) = refl

    total-IsBuilt :
        (f : Event → Bool) → IsBuilt true f (record { ok = true; func = λ e. some (f e) })
    total-IsBuilt f = record { accepts = refl; means = λ h e. refl }

    refused-IsBuilt :
        (f : Event → Bool) (wef : ExpFunc Event)
        → IsBuilt false f (record { ok = false; func = wef })
    refused-IsBuilt f wef = record { accepts = refl; means = λ h e. absurd (ground arith) }

    like_case-IsBuilt :
        (val : Str) (text : Event → Str) (wef : ExpFunc Event)
        → is_some (go.path_match val trial) ≡ true
        → IsBuilt true
            (λ e. matches go val (text e))
            (like_case go parse_lql_date_time val text wef)
    unfolding like_case
    like_case-IsBuilt val text wef fit =
        option_case (IsBuilt true (λ e. matches go val (text e))) (go.path_match val trial)
          (λ e. absurd (ground arith)) (λ matched e. total-IsBuilt (λ e. matches go val (text e)))

    msg_switch-IsBuilt :
        (op : Op) (val : Str) (text : Event → Str) (wef : ExpFunc Event)
        → (op ≡ op_like → is_some (go.path_match val trial) ≡ true)
        → IsBuilt
            (on_messages op)
            (λ e. text_holds go op val (text e))
            (msg_switch go parse_lql_date_time op val text wef)
    unfolding msg_switch
    msg_switch-IsBuilt op_contains val text wef fit = total-IsBuilt (λ e. contains (text e) val)
    msg_switch-IsBuilt op_prefix val text wef fit = total-IsBuilt (λ e. has_prefix (text e) val)
    msg_switch-IsBuilt op_suffix val text wef fit = total-IsBuilt (λ e. has_suffix (text e) val)
    msg_switch-IsBuilt op_like val text wef fit = like_case-IsBuilt val text wef (fit refl)
    msg_switch-IsBuilt op_lt val text wef fit = refused-IsBuilt _ wef
    msg_switch-IsBuilt op_gt val text wef fit = refused-IsBuilt _ wef
    msg_switch-IsBuilt op_le val text wef fit = refused-IsBuilt _ wef
    msg_switch-IsBuilt op_ge val text wef fit = refused-IsBuilt _ wef
    msg_switch-IsBuilt op_ne val text wef fit = refused-IsBuilt _ wef
    msg_switch-IsBuilt op_eq val text wef fit = refused-IsBuilt _ wef
    msg_switch-IsBuilt op_other val text wef fit = refused-IsBuilt _ wef

    fld_switch-IsBuilt :
        (op : Op) (val : Str) (text : Event → Str) (wef : ExpFunc Event)
        → (op ≡ op_like → is_some (go.path_match val trial) ≡ true)
        → IsBuilt
            (on_fields op)
            (λ e. text_holds go op val (text e))
            (fld_switch go parse_lql_date_time op val text wef)
    unfolding fld_switch
    fld_switch-IsBuilt op_contains val text wef fit = total-IsBuilt (λ e. contains (text e) val)
    fld_switch-IsBuilt op_prefix val text wef fit = total-IsBuilt (λ e. has_prefix (text e) val)
    fld_switch-IsBuilt op_suffix val text wef fit = total-IsBuilt (λ e. has_suffix (text e) val)
    fld_switch-IsBuilt op_like val text wef fit = like_case-IsBuilt val text wef (fit refl)
    fld_switch-IsBuilt op_lt val text wef fit = total-IsBuilt (λ e. lt_str (text e) val)
    fld_switch-IsBuilt op_gt val text wef fit = total-IsBuilt (λ e. lt_str val (text e))
    fld_switch-IsBuilt op_le val text wef fit = total-IsBuilt (λ e. not (lt_str val (text e)))
    fld_switch-IsBuilt op_ge val text wef fit = total-IsBuilt (λ e. not (lt_str (text e) val))
    fld_switch-IsBuilt op_ne val text wef fit = total-IsBuilt (λ e. not (eq_str (text e) val))
    fld_switch-IsBuilt op_eq val text wef fit = total-IsBuilt (λ e. eq_str (text e) val)
    fld_switch-IsBuilt op_other val text wef fit = refused-IsBuilt _ wef

    ts_switch-IsBuilt :
        (op : Op) (tm : ℤ) (wef : ExpFunc Event)
        → IsBuilt
            (on_times op)
            (λ e. time_holds op tm e.timestamp)
            (ts_switch go parse_lql_date_time op tm wef)
    unfolding ts_switch
    ts_switch-IsBuilt op_lt tm wef = total-IsBuilt (λ e. ltb_ℤ e.timestamp tm)
    ts_switch-IsBuilt op_gt tm wef = total-IsBuilt (λ e. ltb_ℤ tm e.timestamp)
    ts_switch-IsBuilt op_le tm wef = total-IsBuilt (λ e. leb_ℤ e.timestamp tm)
    ts_switch-IsBuilt op_ge tm wef = total-IsBuilt (λ e. leb_ℤ tm e.timestamp)
    ts_switch-IsBuilt op_ne tm wef = refused-IsBuilt _ wef
    ts_switch-IsBuilt op_eq tm wef = refused-IsBuilt _ wef
    ts_switch-IsBuilt op_contains tm wef = refused-IsBuilt _ wef
    ts_switch-IsBuilt op_prefix tm wef = refused-IsBuilt _ wef
    ts_switch-IsBuilt op_suffix tm wef = refused-IsBuilt _ wef
    ts_switch-IsBuilt op_like tm wef = refused-IsBuilt _ wef
    ts_switch-IsBuilt op_other tm wef = refused-IsBuilt _ wef

    text-IsBuilt :
        (c : Condition) (source : Event → Str) (on_ops : Op → Bool) (o : Option (Str → Str))
        (wef : ExpFunc Event) (switch : (Event → Str) → Built Event)
        → ((text : Event → Str)
            → IsBuilt (on_ops c.op) (λ e. text_holds go c.op c.value (text e)) (switch text))
        → IsText c.ident o
        → IsBuilt
            (is_known go c.ident && on_ops c.op)
            (λ e. text_holds go c.op c.value (applied go c.ident (source e)))
            (elim o [
              | none ↦ record { ok = false; func = wef }
              | some lsf ↦ switch (λ e. lsf (source e))
            ])
    text-IsBuilt c source on_ops none wef switch each unknown =
        same-IsBuilt false _ _ _ _ (ground arith) (λ e. refl) (refused-IsBuilt _ wef)
    text-IsBuilt c source on_ops (some lsf) wef switch each (known, same) =
        same-IsBuilt (on_ops c.op) _ (λ e. text_holds go c.op c.value (lsf (source e))) _ _
          (ground arith) (λ e. ap (text_holds go c.op c.value) (same (source e)))
          (each (λ e. lsf (source e)))

    fits_like :
        (c : Condition)
        → is_fit go c ≡ true
        → c.op ≡ op_like
        → is_some (go.path_match c.value trial) ≡ true
    fits_like c fit like =
        ap (λ o. elim o [ op_like ↦ is_some (go.path_match c.value trial) | _ ↦ true ]) (sym like)
        ∙ fit

    ts-IsBuilt :
        (o : Option ℤ) (op : Op) (wef : ExpFunc Event)
        → IsBuilt
            (is_some o && on_times op)
            (λ e. elim o [ none ↦ false | some tm ↦ time_holds op tm e.timestamp ])
            (elim o [
              | none ↦ record { ok = false; func = wef }
              | some tm ↦ ts_switch go parse_lql_date_time op tm wef
            ])
    ts-IsBuilt none op wef = refused-IsBuilt _ wef
    ts-IsBuilt (some tm) op wef = ts_switch-IsBuilt op tm wef

    no_params-IsBuilt :
        (id : Identifier) (a : Bool) (g : Event → Bool) (b : Built Event) (wef : ExpFunc Event)
        → IsBuilt a g b
        → IsBuilt (has_no_params id && a) g (elim id [
          | identifier operand params ↦ elim params [
            | no_params ↦ b
            | param id' ids ↦ record { ok = false; func = wef }
          ]
        ])
    no_params-IsBuilt (identifier operand no_params) a g b wef i = i
    no_params-IsBuilt (identifier operand (param id ids)) a g b wef i = refused-IsBuilt g wef

    build_ts_cond-IsBuilt :
        (c : Condition) (wef : ExpFunc Event)
        → IsBuilt
            (has_no_params c.ident && (is_some (parse_lql_date_time c.value) && on_times c.op))
            (time_of go parse_lql_date_time c c.op)
            (build_ts_cond go parse_lql_date_time c wef)
    unfolding build_ts_cond
    build_ts_cond-IsBuilt c wef =
        no_params-IsBuilt c.ident _ _ _ wef (ts-IsBuilt (parse_lql_date_time c.value) c.op wef)

    pub build_cond-IsBuilt :
        (c : Condition) (wef : ExpFunc Event)
        → is_fit go c ≡ true
        → IsBuilt
            (accepts go parse_lql_date_time c)
            (λ e. holds go parse_lql_date_time e c)
            (build_cond go parse_lql_date_time c wef)
    unfolding build_cond build_msg_cond build_fld_cond
    build_cond-IsBuilt c wef fit =
        let text = build_msg_le_str_fld_f go parse_lql_date_time c.ident in
        let is_text = build_msg_le_str_fld_f-IsText c.ident in
        let fld_name = get_first_param_name c.ident in
        if-IsBuilt _ _ _ _ _ _ _ (build_ts_cond-IsBuilt c wef) (
          if-IsBuilt _ _ _ _ _ _ _
            (text-IsBuilt c (λ e. e.msg) on_messages text wef
              (λ t. msg_switch go parse_lql_date_time c.op c.value t wef)
              (λ t. msg_switch-IsBuilt c.op c.value t wef (fits_like c fit)) is_text)
            (if-IsBuilt _ _ _ _ _ _ _ (refused-IsBuilt (λ e. false) wef) (
              text-IsBuilt c (λ e. e.value (drop 7 fld_name)) on_fields text wef
                (λ t. fld_switch go parse_lql_date_time c.op c.value t wef)
                (λ t. fld_switch-IsBuilt c.op c.value t wef (fits_like c fit)) is_text)))

    -- An error, or a function that answers `g` for every event.
    abbrev pub Answers : Bool → (Event → Bool) → Option (ExpFunc Event) → Type 0
    Answers accepted g none = accepted ≡ false
    Answers accepted g (some wef) = (accepted ≡ true) × ((e : Event) → wef e ≡ some (g e))

    -- An expression whose LIKE patterns path.Match takes is refused exactly if one of its conditions
    -- is not of the language; else the compiled function answers, for every event, whether the event
    -- fits the conditions as they are joined.
    pub build_where_exp_func-Answers :
        (ors : OrConds)
        → all_or (is_fit go) ors ≡ true
        → Answers
            (all_or (accepts go parse_lql_date_time) ors)
            (λ e. eval_or (holds go parse_lql_date_time e) ors)
            (build_where_exp_func go parse_lql_date_time (some ors))
    unfolding build_where_exp_func build_by_expression
    build_where_exp_func-Answers ors fit =
        let b = build_or_conds (build_cond go parse_lql_date_time) ors nil_func in
        let i =
          build_or_conds-IsBuilt (build_cond go parse_lql_date_time) (is_fit go)
            (accepts go parse_lql_date_time) (holds go parse_lql_date_time)
            (λ c wef h. build_cond-IsBuilt c wef h) ors nil_func fit in
        if_case
          (Answers (all_or (accepts go parse_lql_date_time) ors)
            (λ e. eval_or (holds go parse_lql_date_time e) ors))
          b.ok (λ h. (sym i.accepts ∙ h, i.means (sym i.accepts ∙ h))) (λ h. sym i.accepts ∙ h)
