-- ===== src/Lql/Tagseval/Sound.antt =====
-- What the compiled condition on tags answers.
use mathlib.Core.Bool.{not}
use logrange.Prelude.{
  Bool, true, false, ◌&&◌, if◌then◌else◌, Option, none, some, ◌≡◌, refl, sym, ap, ◌∙◌, arith, subst,
}
use logrange.Prelude.Cases.{option_case, if_case}
use logrange.Lql.Conds.{
  Str, Identifier, identifier, no_params, param, Op, op_lt, op_gt, op_le, op_ge, op_ne, op_eq,
  op_contains, op_prefix, op_suffix, op_like, op_other, Condition, ExpFunc, build_by_expression,
  build_or_conds, nil_func,
}
use logrange.Lql.Conds.Meaning.{IsBuilt, all_or, eval_or, build_or_conds-IsBuilt, same-IsBuilt}
use logrange.Lql.Strings.{
  eq_str, lt_str, has_prefix, has_suffix, contains, Packages, upper_name, lower_name, trial,
}
use logrange.Lql.Where.Meaning.{is_some, is_known, matches, text_holds, is_fit, on_fields}
use logrange.Lql.Tagseval.{
  Source, no_source, by_tags, by_expr, build_tag_ident, tag_switch, build_tag_cond,
  build_tags_exp_func, build_tags_exp_func_by_source,
}

module _ (go : Packages) {T : Type 0} (tag : T → Str → Str) (subset_of : T → T → Bool) where
  -- The text that an operand stands for.
  abbrev pub tag_of : T → Identifier → Str
  tag_of tags (identifier operand no_params) = tag tags operand
  tag_of tags (identifier operand (param id ids)) =
      if eq_str (go.to_upper operand) upper_name
      then go.to_upper (tag_of tags id)
      else go.to_lower (tag_of tags id)

  abbrev IsTag : Identifier → Option (T → Str) → Type 0
  IsTag id o = elim o [
    | none ↦ is_known go id ≡ false
    | some f ↦ (is_known go id ≡ true) × ((tags : T) → f tags ≡ tag_of tags id)
  ]

  build_tag_ident-IsTag : (id : Identifier) → IsTag id (build_tag_ident go tag subset_of id)
  unfolding build_tag_ident
  build_tag_ident-IsTag (identifier operand no_params) = (refl, λ tags. refl)
  build_tag_ident-IsTag (identifier operand (param id no_params)) =
      let ih = build_tag_ident-IsTag id in
      let P = IsTag (identifier operand (param id no_params)) in
      option_case P (build_tag_ident go tag subset_of id)
        (λ e. let unknown = subst (IsTag id) e ih in ground arith)
        λ fint e.
          let (known, same) = subst (IsTag id) e ih in
          if_case P (eq_str (go.to_upper operand) upper_name)
            (λ h. (ground arith, λ tags. ap go.to_upper (same tags) ∙ (ground arith)))
            λ h.
              if_case P (eq_str (go.to_upper operand) lower_name)
                (λ h'. (ground arith, λ tags. ap go.to_lower (same tags) ∙ (ground arith)))
                (λ h'. ground arith)
  build_tag_ident-IsTag (identifier operand (param id (param id' ids))) = refl

  told-IsBuilt :
      (f : T → Bool) → IsBuilt true f (record { ok = true; func = λ tags. some (f tags) })
  told-IsBuilt f = record { accepts = refl; means = λ h tags. refl }

  untold-IsBuilt :
      (f : T → Bool) (tef : ExpFunc T) → IsBuilt false f (record { ok = false; func = tef })
  untold-IsBuilt f tef = record { accepts = refl; means = λ h tags. absurd (ground arith) }

  tag_switch-IsBuilt :
      (op : Op) (val : Str) (tvf : T → Str) (tef : ExpFunc T)
      → (op ≡ op_like → is_some (go.path_match val trial) ≡ true)
      → IsBuilt
          (on_fields op)
          (λ tags. text_holds go op val (tvf tags))
          (tag_switch go tag subset_of op val tvf tef)
  unfolding tag_switch
  tag_switch-IsBuilt op_contains val tvf tef fit = told-IsBuilt (λ tags. contains (tvf tags) val)
  tag_switch-IsBuilt op_prefix val tvf tef fit = told-IsBuilt (λ tags. has_prefix (tvf tags) val)
  tag_switch-IsBuilt op_suffix val tvf tef fit = told-IsBuilt (λ tags. has_suffix (tvf tags) val)
  tag_switch-IsBuilt op_like val tvf tef fit =
      option_case (IsBuilt true (λ tags. matches go val (tvf tags))) (go.path_match val trial)
        (λ e. absurd (let h = fit refl in ground arith))
        (λ matched e. told-IsBuilt (λ tags. matches go val (tvf tags)))
  tag_switch-IsBuilt op_lt val tvf tef fit = told-IsBuilt (λ tags. lt_str (tvf tags) val)
  tag_switch-IsBuilt op_gt val tvf tef fit = told-IsBuilt (λ tags. lt_str val (tvf tags))
  tag_switch-IsBuilt op_le val tvf tef fit = told-IsBuilt (λ tags. not (lt_str val (tvf tags)))
  tag_switch-IsBuilt op_ge val tvf tef fit = told-IsBuilt (λ tags. not (lt_str (tvf tags) val))
  tag_switch-IsBuilt op_ne val tvf tef fit = told-IsBuilt (λ tags. not (eq_str (tvf tags) val))
  tag_switch-IsBuilt op_eq val tvf tef fit = told-IsBuilt (λ tags. eq_str (tvf tags) val)
  tag_switch-IsBuilt op_other val tvf tef fit = untold-IsBuilt _ tef

  -- The conditions that the builder takes, and what they say of a set of tags.
  abbrev pub accepts_tag : Condition → Bool
  accepts_tag c = is_known go c.ident && on_fields c.op

  abbrev pub tag_holds : T → Condition → Bool
  tag_holds tags c = text_holds go c.op c.value (tag_of tags c.ident)

  build_tag_cond-IsBuilt :
      (c : Condition) (tef : ExpFunc T)
      → is_fit go c ≡ true
      → IsBuilt (accepts_tag c) (λ tags. tag_holds tags c) (build_tag_cond go tag subset_of c tef)
  unfolding build_tag_cond
  build_tag_cond-IsBuilt c tef fit =
      let is_tag = build_tag_ident-IsTag c.ident in
      let fits : c.op ≡ op_like → is_some (go.path_match c.value trial) ≡ true = (λ like.
        ap (λ o. elim o [ op_like ↦ is_some (go.path_match c.value trial) | _ ↦ true ]) (sym like)
        ∙ fit) in
      option_case (IsBuilt (accepts_tag c) (λ tags. tag_holds tags c))
        (build_tag_ident go tag subset_of c.ident)
        (λ e.
          let unknown = subst (IsTag c.ident) e is_tag in
          same-IsBuilt false _ _ _ _ (ground arith) (λ tags. refl) (untold-IsBuilt _ tef))
        (λ tvf e.
          let (known, same) = subst (IsTag c.ident) e is_tag in
          same-IsBuilt (on_fields c.op) _ (λ tags. text_holds go c.op c.value (tvf tags)) _ _
            (ground arith) (λ tags. ap (text_holds go c.op c.value) (same tags))
            (tag_switch-IsBuilt c.op c.value tvf tef fits))

  -- What a source is to select: `none` stands for one that is refused.
  abbrev pub selected : Source T → Option (T → Bool)
  selected no_source = some (λ tags. true)
  selected (by_tags ts) = some (subset_of ts)
  selected (by_expr none) = some (λ tags. true)
  selected (by_expr (some ors)) =
      if all_or accepts_tag ors then some (λ tags. eval_or (tag_holds tags) ors) else none

  abbrev pub fits : Source T → Bool
  fits no_source = true
  fits (by_tags ts) = true
  fits (by_expr none) = true
  fits (by_expr (some ors)) = all_or (is_fit go) ors

  -- Both refuse, or the function answers what is meant for every set of tags.
  abbrev pub Agrees : Option (T → Bool) → Option (ExpFunc T) → Type 0
  Agrees none none = true ≡ true
  Agrees none (some tef) = ⊥
  Agrees (some f) none = ⊥
  Agrees (some f) (some tef) = (tags : T) → tef tags ≡ some (f tags)

  agrees_lem :
      (accepted ok : Bool) (f : T → Bool) (tef : ExpFunc T)
      → ok ≡ accepted
      → (accepted ≡ true → (tags : T) → tef tags ≡ some (f tags))
      → Agrees (if accepted then some f else none) (if ok then some tef else none)
  agrees_lem true true f tef e m = m refl
  agrees_lem true false f tef e m = absurd (ground arith)
  agrees_lem false true f tef e m = absurd (ground arith)
  agrees_lem false false f tef e m = refl

  -- For a source whose LIKE patterns path.Match takes: no source selects all partitions, tags select
  -- those whose tags have them, and an expression those whose tags fit its conditions as they are
  -- joined; it is refused exactly if one of its conditions is not of the language.
  pub build_by_source-Agrees :
      (src : Source T)
      → fits src ≡ true
      → Agrees (selected src) (build_tags_exp_func_by_source go tag subset_of src)
  unfolding build_tags_exp_func_by_source build_tags_exp_func build_by_expression
  build_by_source-Agrees no_source fit = λ tags. refl
  build_by_source-Agrees (by_tags ts) fit = λ tags. refl
  build_by_source-Agrees (by_expr none) fit = λ tags. refl
  build_by_source-Agrees (by_expr (some ors)) fit =
      let b = build_or_conds (build_tag_cond go tag subset_of) ors nil_func in
      let i =
        build_or_conds-IsBuilt (build_tag_cond go tag subset_of) (is_fit go) accepts_tag tag_holds
          build_tag_cond-IsBuilt ors nil_func fit in
      agrees_lem (all_or accepts_tag ors) b.ok (λ tags. eval_or (tag_holds tags) ors) b.func
        i.accepts i.means
