-- ===== src/Lql/Where/BadLike.antt =====
-- A LIKE with a malformed pattern.
use logrange.Prelude.{
  Bool, true, false, if◌then◌else◌, Option, none, some, ◌≡◌, refl, sym, ap, ◌∙◌, arith, subst,
}
use logrange.Prelude.Int.{ℤ}
use logrange.Prelude.Cases.{option_case, if_case}
use logrange.Lql.Conds.{
  Str, op_like, Condition, no_or, or_cond, no_and, and_cond, single, ExpFunc, and_func, joined,
  negated, Built, build_by_expression, build_or_conds, nil_func,
}
use logrange.Lql.Conds.Meaning.{negated-IsBuilt}
use logrange.Lql.Strings.{eq_str, Packages, trial}
use logrange.Lql.Where.{
  Event, ts_name, msg_name, get_first_param_name, build_msg_le_str_fld_f, like_case, msg_switch,
  build_msg_cond, build_cond, build_where_exp_func,
}
use logrange.Lql.Where.Meaning.{is_known, is_fit, accepts, holds}
use logrange.Lql.Where.Sound.{IsText, build_msg_le_str_fld_f-IsText, build_cond-IsBuilt, Answers}

module _ (go : Packages) (parse_lql_date_time : Str → Option ℤ) where
  abbrev kept : Built Event → Built Event → Option (ExpFunc Event)
  kept b b' = let j = joined and_func b (λ w. b') in if j.ok then some j.func else none

  kept_twice :
      (ok : Bool) (f : ExpFunc Event) (g : Event → Bool)
      → ok ≡ true
      → ((e : Event) → f e ≡ some (g e))
      → Answers go parse_lql_date_time true g
          (kept (record { ok = ok; func = f }) (record { ok = true; func = f }))
  kept_twice true f g h m = (refl, λ e. let m' = m e in ground arith)
  kept_twice false f g h m = absurd (ground arith)

  module _ (l : Condition)
      (not_ts : eq_str (go.to_lower (get_first_param_name l.ident)) ts_name ≡ false)
      (msg : eq_str (go.to_lower (get_first_param_name l.ident)) msg_name ≡ true)
      (known : is_known go l.ident ≡ true) (like : l.op ≡ op_like)
      (bad : go.path_match l.value trial ≡ none) where
    bad_like_keeps :
        (wef : ExpFunc Event)
        → build_cond go parse_lql_date_time l wef ≡ record { ok = true; func = wef }
    unfolding build_cond build_msg_cond msg_switch like_case
    bad_like_keeps wef =
        let P = λ (b : Built Event). b ≡ record { ok = true; func = wef } in
        let text = build_msg_le_str_fld_f go parse_lql_date_time l.ident in
        let is_text = build_msg_le_str_fld_f-IsText go parse_lql_date_time l.ident in
        let switch : (t : Event → Str)
            → msg_switch go parse_lql_date_time l.op l.value t wef
              ≡ record { ok = true; func = wef } =
          (λ t.
            ap (λ o. msg_switch go parse_lql_date_time o l.value t wef) like
            ∙ option_case P (go.path_match l.value trial) (λ e. refl)
                (λ m e. absurd (ground arith))) in
        if_case P (eq_str (go.to_lower (get_first_param_name l.ident)) ts_name)
          (λ h. absurd (ground arith))
          λ h.
            if_case P (eq_str (go.to_lower (get_first_param_name l.ident)) msg_name)
              (λ h.
                option_case P text
                  (λ e. absurd (let unknown = subst (IsText go l.ident) e is_text in ground arith))
                  (λ lsf e. switch (λ le. lsf le.msg)))
              (λ h. absurd (ground arith))

    -- A LIKE on the message with a pattern that path.Match refuses is no error: alone it compiles
    -- to nil, and after another condition, one of the language without such a LIKE, it stands for
    -- that condition.
    pub bad_like_passes :
        (c : Condition)
        → is_fit go c ≡ true
        → accepts go parse_lql_date_time c ≡ true
        → (build_where_exp_func go parse_lql_date_time
              (some (or_cond (and_cond (single false l) no_and) no_or))
            ≡ some nil_func)
          × Answers go parse_lql_date_time true
              (λ e. holds go parse_lql_date_time e c)
              (build_where_exp_func go parse_lql_date_time (
                some
                  (or_cond (and_cond (single false c) (and_cond (single false l) no_and)) no_or)))
    unfolding build_where_exp_func build_by_expression build_or_conds
    bad_like_passes c fit fine =
        let b = negated false (build_cond go parse_lql_date_time c nil_func) in
        let i =
          negated-IsBuilt false (accepts go parse_lql_date_time c)
            (λ e. holds go parse_lql_date_time e c) _
            (build_cond-IsBuilt go parse_lql_date_time c nil_func fit) in
        (
          ap (λ z. let r = negated false z in if r.ok then some r.func else none)
              (bad_like_keeps nil_func),
          subst
              (λ z.
                Answers go parse_lql_date_time true (λ e. holds go parse_lql_date_time e c)
                  (kept b (negated false z)))
              (sym (bad_like_keeps b.func))
              (kept_twice b.ok b.func (λ e. holds go parse_lql_date_time e c) (i.accepts ∙ fine)
                (i.means fine)),
        )
