-- ===== src/Model/Field/Tests.antt =====
-- Runs of the encoding: the fields a=xy and b (empty), with `a` being the byte 97.
use logrange.Prelude.{ℕ, ◌≡◌, refl, List, [], ◌∷◌, none, some, arith}
use logrange.Model.Field.{
  Fields, sized, new_fields_from_slice, new_fields, check, value, find, map_fields, merge_with_map,
}
use logrange.Model.Field.Encoding.{flatten, or_empty, new_fields-value}
use logrange.Model.Field.Merged.{merge_with_map-value}

abbrev a_name : List ℕ
a_name = 97 ∷ []

abbrev b_name : List ℕ
b_name = 98 ∷ []

abbrev a_and_b : List (List ℕ × List ℕ)
a_and_b = (a_name, 120 ∷ 121 ∷ []) ∷ (b_name, []) ∷ []

abbrev other_a : List (List ℕ × List ℕ)
other_a = (a_name, 122 ∷ []) ∷ []

test_bytes : new_fields a_and_b ≡ some (1 ∷ 97 ∷ 2 ∷ 120 ∷ 121 ∷ 1 ∷ 98 ∷ 0 ∷ [])
unfolding new_fields sized
test_bytes = refl

test_odd : new_fields_from_slice (a_name ∷ []) ≡ none
unfolding new_fields_from_slice
test_odd = refl

test_value : value (1 ∷ 97 ∷ 2 ∷ 120 ∷ 121 ∷ 1 ∷ 98 ∷ 0 ∷ []) a_name ≡ some (120 ∷ 121 ∷ [])
unfolding value
test_value = refl

test_merged :
    merge_with_map (1 ∷ 97 ∷ 2 ∷ 120 ∷ 121 ∷ 1 ∷ 98 ∷ 0 ∷ []) other_a
    ≡ some (1 ∷ 98 ∷ 0 ∷ 1 ∷ 97 ∷ 1 ∷ 122 ∷ [])
unfolding merge_with_map
test_merged = refl

new_fields-value_example :
    (f : Fields) × (new_fields_from_slice (flatten a_and_b) ≡ some f)
    × (check f ≡ some f)
    × (value f a_name ≡ some (or_empty (find a_and_b a_name)))
new_fields-value_example = new_fields-value a_and_b a_name (omega arith)

merge_with_map-value_example :
    (f : Fields) × (merge_with_map (map_fields a_and_b) other_a ≡ some f)
    × (value f a_name
        ≡ some (
            or_empty (elim (find other_a a_name) [ none ↦ find a_and_b a_name | some v ↦ some v ])))
merge_with_map-value_example =
    merge_with_map-value a_and_b other_a a_name (omega arith) (omega arith)
