-- ===== src/Lql/Strings.antt =====
-- Strings as lists of bytes: the comparisons of Go, and what the conditions use of package strings.
use logrange.Prelude.{Bool, true, false, ◌||◌, ◌&&◌, ltb, ◌==◌, [], ◌∷◌, Option}
use logrange.Lql.Conds.{Str}
pub use logrange.Prelude.Texts.{eq_str}

-- `<` on strings
abbrev pub lt_str : Str → Str → Bool
lt_str xs [] = false
lt_str [] (y ∷ ys) = true
lt_str (x ∷ xs) (y ∷ ys) = ltb x y || ((x == y) && lt_str xs ys)

abbrev pub has_prefix : Str → Str → Bool
has_prefix xs [] = true
has_prefix [] (y ∷ ys) = false
has_prefix (x ∷ xs) (y ∷ ys) = (x == y) && has_prefix xs ys

abbrev pub has_suffix : Str → Str → Bool
has_suffix [] ys = eq_str [] ys
has_suffix (x ∷ xs) ys = eq_str (x ∷ xs) ys || has_suffix xs ys

abbrev pub contains : Str → Str → Bool
contains [] ys = has_prefix [] ys
contains (x ∷ xs) ys = has_prefix (x ∷ xs) ys || contains xs ys

-- What the conditions take of Go's packages: the mapping of cases of Unicode, and path.Match, with
-- the pattern first, where `none` is its error.
pub record Packages : Type 0 where
  pub to_lower : Str → Str
  pub to_upper : Str → Str
  pub path_match : Str → Str → Option Bool

abbrev pub upper_name : Str
upper_name = 85 ∷ 80 ∷ 80 ∷ 69 ∷ 82 ∷ []

abbrev pub lower_name : Str
lower_name = 76 ∷ 79 ∷ 87 ∷ 69 ∷ 82 ∷ []

-- "abc", by which a pattern is tried.
abbrev pub trial : Str
trial = 97 ∷ 98 ∷ 99 ∷ []
