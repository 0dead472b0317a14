-- ===== src/Model/Field.antt =====
-- pkg/model/field/field.go: the fields of a log event in one string. Names and values alternate in
-- it, each behind a byte with its length. Strings are lists of bytes, and a map is the list of its
-- entries in the order in which `range` visits them. An index or a slice out of range is `none`.
pub mod Encoding
pub mod Merged
mod Tests
use mathlib.Core.Bool.{not}
use logrange.Prelude.{
  ℕ, zero, suc, ◌+◌, ◌%◌, List, [], ◌∷◌, ◌++◌, Option, none, some, Bool, true, false, ◌&&◌, ◌||◌,
  ltb, leb, ◌==◌, if◌then◌else◌, length, take, drop,
}
use logrange.Prelude.Texts.{eq_str}

abbrev pub Fields : Type 0
Fields = List ℕ

-- `byte(len(s))`, and `s` itself
unfoldable pub sized : List ℕ → Fields
sized s = (length s % 256) ∷ s

-- `f[i : i+n]`, where `f` starts at `i`
unfoldable pub slice : ℕ → List ℕ → Option (List ℕ)
slice n f = if leb n (length f) then some (take n f) else none

pub new_fields : List (List ℕ × List ℕ) → Option Fields
unfolding sized
new_fields [] = some []
new_fields ((k, v) ∷ mp) =
    let rest = new_fields mp in
    if ltb 255 (length k) || ltb 255 (length v)
    then none
    else (elim rest [ none ↦ none | some f ↦ some (sized k ++ (sized v ++ f)) ])

-- The loop over the slice, two elements at a time; the last clause is `len(s)&1 == 1`.
pub new_fields_from_slice : List (List ℕ) → Option Fields
unfolding sized
new_fields_from_slice [] = some []
new_fields_from_slice (k ∷ []) = none
new_fields_from_slice (k ∷ v ∷ s) =
    let rest = new_fields_from_slice s in
    if ltb 255 (length k) || ltb 255 (length v)
    then none
    else (elim rest [ none ↦ none | some f ↦ some (sized k ++ (sized v ++ f)) ])

-- Whether the loop of Check ends at the end of the string: `skip` bytes are left before `idx`.
pub check_from : ℕ → List ℕ → Bool
check_from zero [] = true
check_from (suc skip) [] = false
check_from zero (n ∷ str) = check_from n str
check_from (suc skip) (b ∷ str) = check_from skip str

pub check : List ℕ → Option Fields
unfolding check_from
check str = if check_from 0 str then some str else none

-- `n := int(f[idx])` and `f[idx+1 : idx+n+1]`
unfoldable pub value_at : Fields → Option (List ℕ)
unfolding slice
value_at [] = none
value_at (n ∷ f) = slice n f

-- The loop of Value: `skip` bytes are left before `idx`.
pub value_from : List ℕ → Bool → ℕ → Fields → Option (List ℕ)
unfolding slice value_at
value_from name even skip [] = some []
value_from name even (suc skip) (b ∷ f) = value_from name even skip f
value_from name even zero (n ∷ f) =
    let next = value_from name (not even) n f in
    let found : Option (List ℕ) = elim (slice n f) [
      | none ↦ none
      | some key ↦ if eq_str key name then value_at (drop n f) else next
    ] in
    if even && (n == length name) then found else next

pub value : Fields → List ℕ → Option (List ℕ)
unfolding value_from
value f name = value_from name true 0 f

-- `m[key]`
unfoldable pub find : List (List ℕ × List ℕ) → List ℕ → Option (List ℕ)
find [] name = none
find ((k, v) ∷ m) name = let rest = find m name in if eq_str k name then some v else rest

-- The first loop of MergeWithMap: the fields that the map does not replace. Each round reads two
-- bytes at least, so the length of the string is fuel enough.
pub kept_fields : ℕ → List (List ℕ × List ℕ) → Fields → Option Fields
unfolding slice find
kept_fields zero m f = some []
kept_fields (suc fuel) m [] = some []
kept_fields (suc fuel) m (k ∷ f) = elim (slice k f) [
  | none ↦ none
  | some key ↦ elim (drop k f) [
    | [] ↦ none
    | v ∷ g ↦ elim (find m key) [
      | some new ↦ kept_fields fuel m (drop v g)
      | none ↦ elim (slice v g) [
        | none ↦ none
        | some val ↦ elim (kept_fields fuel m (drop v g)) [
          | none ↦ none
          | some rest ↦ some (k ∷ (key ++ (v ∷ (val ++ rest))))
        ]
      ]
    ]
  ]
]

-- The second loop of MergeWithMap, which writes the map.
pub map_fields : List (List ℕ × List ℕ) → Fields
unfolding sized
map_fields [] = []
map_fields ((k, v) ∷ m) = sized k ++ (sized v ++ map_fields m)

pub merge_with_map : Fields → List (List ℕ × List ℕ) → Option Fields
unfolding kept_fields map_fields
merge_with_map f [] = some f
merge_with_map f (e ∷ m) = elim (kept_fields (length f) (e ∷ m) f) [
  | none ↦ none
  | some kept ↦ some (kept ++ map_fields (e ∷ m))
]

pub concat : Fields → Fields → Fields
concat f f1 = f ++ f1

pub is_empty : Fields → Bool
is_empty f = length f == 0
