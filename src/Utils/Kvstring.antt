-- ===== src/Utils/Kvstring.antt =====
-- pkg/utils/kvstring/kvstring.go: SplitString, which cuts a line of tags or fields into keys and
-- values. A string is the list of its bytes.
pub mod Join
mod Tests
use mathlib.Core.Bool.{not}
use logrange.Prelude.{
  ℕ, Bool, true, false, ◌&&◌, ◌||◌, ◌==◌, if◌then◌else◌, List, [], ◌∷◌, ◌++◌, Option, none, some,
}

-- The variables of the loop: `inStr`, whether `endIdx++` jumps over the next byte, whether `expCC`
-- is the separator of keys and values, `str[stIdx:endIdx]` and `buf`.
pub record SplitState : Type 0 where
  pub in_str : Bool
  pub skip : Bool
  pub exp_kv : Bool
  pub cur : List ℕ
  pub buf : List (List ℕ)

-- the loop's body at the byte `c`; `none` is the error of an unexpected separator
pub split_byte : ℕ → ℕ → SplitState → ℕ → Option SplitState
split_byte kv_sep fld_sep s c =
    let kept = record s { cur = s.cur ++ c ∷ [] } in
    if s.skip
    then some (record kept { skip = false })
    else if c == 34
    then some (record kept { in_str = not s.in_str })
    else if c == 92 && s.in_str
    then some (record kept { skip = true })
    else if (c == kv_sep || c == fld_sep) && not s.in_str
    then (if c == (if s.exp_kv then kv_sep else fld_sep)
        then some (record s { exp_kv = not s.exp_kv; cur = []; buf = s.buf ++ s.cur ∷ [] })
        else none)
    else some kept

pub split_from : ℕ → ℕ → SplitState → List ℕ → Option (List (List ℕ))
unfolding split_byte
split_from kv_sep fld_sep s [] = if s.in_str then none else some (s.buf ++ s.cur ∷ [])
split_from kv_sep fld_sep s (c ∷ cs) = elim (split_byte kv_sep fld_sep s c) [
  | none ↦ none
  | some s' ↦ split_from kv_sep fld_sep s' cs
]

pub split_string : List ℕ → ℕ → ℕ → Option (List (List ℕ))
unfolding split_from
split_string str kv_sep fld_sep =
    split_from kv_sep fld_sep
      (record { in_str = false; skip = false; exp_kv = true; cur = []; buf = [] }) str
