-- ===== src/Lql/Tests.antt =====
-- Conditions over the ASCII texts in use, where a pattern matches itself and `[` is malformed.
use logrange.Prelude.{true, false, if◌then◌else◌, [], ◌∷◌, Option, none, some, ◌≡◌, refl}
use logrange.Prelude.Int.{ℤ, pos}
use logrange.Lql.Conds.{
  Str, identifier, no_params, op_lt, op_eq, op_contains, op_like, Condition, OrConds, no_or,
  or_cond, no_and, and_cond, single, nil_func,
}
use logrange.Lql.Conds.Meaning.{all_or, eval_or}
use logrange.Lql.Strings.{Packages, eq_str, contains, has_suffix, lt_str}
use logrange.Lql.Where.{Event, ts_name, msg_name, build_where_exp_func, get_first_param_name}
use logrange.Lql.Where.Meaning.{is_fit, accepts, holds}
use logrange.Lql.Where.Sound.{Answers, build_where_exp_func-Answers}
use logrange.Lql.Where.BadLike.{bad_like_passes}
use logrange.Lql.Tagseval.{Source, by_expr, build_tags_exp_func_by_source}
use logrange.Lql.Tagseval.Sound.{selected, Agrees, build_by_source-Agrees}

abbrev bracket : Str
bracket = 91 ∷ []

abbrev go : Packages
go = record {
  to_lower = λ s. s;
  to_upper = λ s. s;
  path_match = λ p t. if eq_str p bracket then none else some (eq_str p t);
}

abbrev parse_time : Str → Option ℤ
parse_time s = some (pos 5)

abbrev has_a : Condition
has_a = record { ident = identifier msg_name no_params; op = op_contains; value = 97 ∷ [] }

abbrev early : Condition
early = record { ident = identifier ts_name no_params; op = op_lt; value = 53 ∷ [] }

abbrev like_bracket : Condition
like_bracket = record { ident = identifier msg_name no_params; op = op_like; value = bracket }

-- msg CONTAINS "a" OR NOT ts < "5"
abbrev query : OrConds
query =
    or_cond (and_cond (single false has_a) no_and)
      (or_cond (and_cond (single true early) no_and) no_or)

abbrev event : Event
event = record { timestamp = pos 7; msg = 98 ∷ 97 ∷ []; value = λ name. [] }

test_contains : contains (98 ∷ 97 ∷ []) (97 ∷ []) ≡ true
test_contains = refl

test_has_suffix : has_suffix (98 ∷ 97 ∷ []) (97 ∷ []) ≡ true
test_has_suffix = refl

test_lt_str : lt_str (97 ∷ []) (97 ∷ 98 ∷ []) ≡ true
test_lt_str = refl

test_holds : eval_or (holds go parse_time event) query ≡ true
unfolding get_first_param_name
test_holds = refl

query_fits : all_or (is_fit go) query ≡ true
query_fits = refl

build_where_exp_func-Answers_example :
    Answers go parse_time
      (all_or (accepts go parse_time) query)
      (λ e. eval_or (holds go parse_time e) query)
      (build_where_exp_func go parse_time (some query))
build_where_exp_func-Answers_example = build_where_exp_func-Answers go parse_time query query_fits

has_a_accepted : accepts go parse_time has_a ≡ true
unfolding get_first_param_name
has_a_accepted = refl

no_ts : eq_str (go.to_lower (get_first_param_name like_bracket.ident)) ts_name ≡ false
unfolding get_first_param_name
no_ts = refl

is_msg : eq_str (go.to_lower (get_first_param_name like_bracket.ident)) msg_name ≡ true
unfolding get_first_param_name
is_msg = refl

bad_like_passes_example :
    (build_where_exp_func go parse_time
        (some (or_cond (and_cond (single false like_bracket) no_and) no_or))
      ≡ some nil_func)
    × Answers go parse_time true
        (λ e. holds go parse_time e has_a)
        (build_where_exp_func go parse_time (
          some (
            or_cond
              (and_cond (single false has_a) (and_cond (single false like_bracket) no_and))
              no_or)))
bad_like_passes_example =
    bad_like_passes go parse_time like_bracket no_ts is_msg refl refl refl has_a refl has_a_accepted

-- name = "a", of tags that are one text.
abbrev named : Source Str
named = by_expr (
    some (
      or_cond
        (and_cond
          (single false
            (record { ident = identifier (110 ∷ []) no_params; op = op_eq; value = 97 ∷ [] }))
          no_and)
        no_or))

abbrev tag : Str → Str → Str
tag tags name = tags

build_by_source-Agrees_example :
    Agrees go tag eq_str
      (selected go tag eq_str named)
      (build_tags_exp_func_by_source go tag eq_str named)
build_by_source-Agrees_example = build_by_source-Agrees go tag eq_str named refl
