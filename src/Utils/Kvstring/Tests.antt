-- ===== src/Utils/Kvstring/Tests.antt =====
-- Runs of `SplitString`, and its theorem there. 97 and 98 are letters, 61 is `=`, 44 is `,` and 34
-- is the quotation mark.
use logrange.Prelude.{ℕ, ◌≡◌, refl, true, List, [], ◌∷◌, none, some}
use logrange.Utils.Kvstring.{split_string}
use logrange.Utils.Kvstring.Join.{join, split_string-join}

-- `a="=",b=`
abbrev line : List ℕ
line = 97 ∷ 61 ∷ 34 ∷ 61 ∷ 34 ∷ 44 ∷ 98 ∷ 61 ∷ []

abbrev pieces : List (List ℕ)
pieces = (97 ∷ []) ∷ (34 ∷ 61 ∷ 34 ∷ []) ∷ (98 ∷ []) ∷ [] ∷ []

split_line : split_string line 61 44 ≡ some pieces
unfolding split_string
split_line = refl

-- `a,`
wrong_separator : split_string (97 ∷ 44 ∷ []) 61 44 ≡ none
unfolding split_string
wrong_separator = refl

split_string-join_example : join 61 44 true pieces ≡ line
split_string-join_example = split_string-join line 61 44 pieces split_line
