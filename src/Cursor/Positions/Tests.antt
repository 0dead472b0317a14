-- ===== src/Cursor/Positions/Tests.antt =====
-- Positions written as two numbers beyond the separators.
use logrange.Prelude.{ℕ, ◌+◌, ◌-◌, ◌≡◌, refl, List, [], ◌∷◌, Option, none, some, arith}
use logrange.Prelude.Texts.{lookup_str}
use logrange.Partition.Selector.{Pos}
use logrange.Cursor.Positions.{collect_pos, apply_state_pos, apply_pos}
use logrange.Cursor.Positions.RoundTrip.{IsPosText, placed, AreNames, apply-collect_pos}

abbrev show_pos : Pos → List ℕ
show_pos p = (p.cid + 100) ∷ (p.idx + 100) ∷ []

abbrev parse_pos : List ℕ → Option Pos
parse_pos [] = none
parse_pos (a ∷ []) = none
parse_pos (a ∷ b ∷ []) = some (record { cid = a - 100; idx = b - 100 })
parse_pos (a ∷ b ∷ c ∷ s) = none

abbrev to_lower : List ℕ → List ℕ
to_lower s = s

text-IsPosText : IsPosText show_pos parse_pos
text-IsPosText = record {
  reads = λ p. ground arith;
  no_split = λ p. ((λ e. omega arith), ((λ e. omega arith), tt));
  no_val = λ p. ((λ e. omega arith), ((λ e. omega arith), tt));
}

abbrev pos_at : ℕ → ℕ → Pos
pos_at cid idx = record { cid = cid; idx = idx }

-- The journals `a` and `b`, and `b` and `c`.
abbrev first : List (List ℕ × Pos)
first = (97 ∷ [], pos_at 1 2) ∷ (98 ∷ [], pos_at 3 4) ∷ []

abbrev second : List (List ℕ × Pos)
second = (98 ∷ [], pos_at 0 0) ∷ (99 ∷ [], pos_at 5 6) ∷ []

test_text :
    collect_pos show_pos parse_pos to_lower first
    ≡ 97 ∷ 61 ∷ 101 ∷ 102 ∷ 58 ∷ 98 ∷ 61 ∷ 103 ∷ 104 ∷ []
unfolding collect_pos
test_text = refl

test_applied :
    apply_pos show_pos parse_pos to_lower second
      (97 ∷ 61 ∷ 101 ∷ 102 ∷ 58 ∷ 98 ∷ 61 ∷ 103 ∷ 104 ∷ [])
    ≡ some ((98 ∷ [], pos_at 3 4) ∷ (99 ∷ [], pos_at 5 6) ∷ [])
unfolding apply_pos
test_applied = refl

test_no_val : apply_state_pos show_pos parse_pos to_lower second (97 ∷ 58 ∷ []) ≡ none
unfolding apply_state_pos
test_no_val = refl

first-AreNames : AreNames first
first-AreNames = (
  ((λ e. omega arith), tt),
  ((λ e. omega arith), tt),
  (refl, tt),
  (((λ e. omega arith), tt), ((λ e. omega arith), tt), tt, tt),
)

apply-collect_pos_example :
    (ds : List (List ℕ × Pos)) × (apply_state_pos show_pos parse_pos to_lower second
        (collect_pos show_pos parse_pos to_lower first)
      ≡ some ds)
    × ((j : List ℕ) → lookup_str ds j ≡ placed (lookup_str second j) (lookup_str first j))
apply-collect_pos_example =
    apply-collect_pos show_pos parse_pos to_lower text-IsPosText (97 ∷ []) (pos_at 1 2)
      ((98 ∷ [], pos_at 3 4) ∷ []) second first-AreNames
