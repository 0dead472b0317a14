-- ===== src/Model/Field/Encoding.antt =====
-- The string of fields holds the pairs that it was made of: the code's reading of it against the
-- plain search in the list of pairs.
use logrange.Prelude.{
  ℕ, ◌%◌, ◌≤◌, ◌≡◌, refl, ap, ◌∙◌, Bool, true, false, ◌==◌, if◌then◌else◌, List, [], ◌∷◌, ◌++◌,
  Option, none, some, length, drop, arith, Bool-cases, inl, inr,
}
use logrange.Prelude.Texts.{eq_str, eq_str_refl, eq_of-eq_str}
use logrange.Model.Field.{
  Fields, sized, slice, new_fields_from_slice, check, check_from, value_at, value, value_from, find,
  map_fields,
}

-- No name and no value is longer than 255 bytes.
abbrev pub Fits : List (List ℕ × List ℕ) → Type 0
Fits [] = Unit {0}
Fits ((k, v) ∷ kvs) = (length k ≤ 255) × (length v ≤ 255) × Fits kvs

-- The pairs as the slice of strings that NewFieldsFromSlice takes.
abbrev pub flatten : List (List ℕ × List ℕ) → List (List ℕ)
flatten [] = []
flatten ((k, v) ∷ kvs) = k ∷ v ∷ flatten kvs

-- The empty string for a name that is not there.
abbrev pub or_empty : Option (List ℕ) → List ℕ
or_empty none = []
or_empty (some v) = v

pub slice-append : (xs ys : List ℕ) → slice (length xs) (xs ++ ys) ≡ some xs
unfolding slice
slice-append [] ys = ground arith
slice-append (x ∷ xs) ys = ground (arith, slice-append xs ys)

pub drop-append : (xs ys : List ℕ) → drop (length xs) (xs ++ ys) ≡ ys
drop-append [] ys = refl
drop-append (x ∷ xs) ys = drop-append xs ys

pub length_mod : (xs : List ℕ) → length xs ≤ 255 → length xs % 256 ≡ length xs
length_mod xs h = omega arith

-- A pair in front of a string, with its length bytes as they stand there.
pub pair_bytes :
    (k v : List ℕ) (f : Fields)
    → length k ≤ 255
    → length v ≤ 255
    → sized k ++ (sized v ++ f) ≡ length k ∷ (k ++ (length v ∷ (v ++ f)))
unfolding sized
pair_bytes k v f hk hv = rw (length_mod k hk, length_mod v hv) refl

pub new_fields_from_slice_lem :
    (kvs : List (List ℕ × List ℕ))
    → Fits kvs
    → new_fields_from_slice (flatten kvs) ≡ some (map_fields kvs)
unfolding new_fields_from_slice map_fields
new_fields_from_slice_lem [] h = refl
new_fields_from_slice_lem ((k, v) ∷ kvs) h =
    let ih = new_fields_from_slice_lem kvs h.2 in ground arith

check_from-skip : (xs f : List ℕ) → check_from (length xs) (xs ++ f) ≡ check_from 0 f
unfolding check_from
check_from-skip [] f = refl
check_from-skip (x ∷ xs) f = check_from-skip xs f

check_from-map_fields :
    (kvs : List (List ℕ × List ℕ)) → Fits kvs → check_from 0 (map_fields kvs) ≡ true
unfolding check_from map_fields
check_from-map_fields [] h = refl
check_from-map_fields ((k, v) ∷ kvs) h = rw (pair_bytes k v (map_fields kvs) h.0 h.1) (
    check_from-skip k (length v ∷ (v ++ map_fields kvs))
    ∙ check_from-skip v (map_fields kvs)
    ∙ check_from-map_fields kvs h.2)

value_from-skip :
    (name : List ℕ) (even : Bool) (xs f : List ℕ)
    → value_from name even (length xs) (xs ++ f) ≡ value_from name even 0 f
unfolding value_from
value_from-skip name even [] f = refl
value_from-skip name even (x ∷ xs) [] = value_from-skip name even xs []
value_from-skip name even (x ∷ xs) (y ∷ f) = value_from-skip name even xs (y ∷ f)

-- A value is skipped, whatever it is.
value_from-odd :
    (name v f : List ℕ) → value_from name false 0 (length v ∷ (v ++ f)) ≡ value_from name true 0 f
unfolding value_from
value_from-odd name v f = value_from-skip name true v f

length_ne : (xs ys : List ℕ) → (length xs == length ys) ≡ false → eq_str xs ys ≡ false
length_ne xs ys h = elim (Bool-cases (eq_str xs ys)) [
  | inl same ↦ let e = ap length (eq_of-eq_str xs ys same) in ground arith
  | inr other ↦ other
]

value_from-even :
    (name k v f : List ℕ)
    → value_from name true 0 (length k ∷ (k ++ (length v ∷ (v ++ f))))
      ≡ (if eq_str k name then some v else value_from name true 0 f)
unfolding value_from value_at
value_from-even name k v f =
    let skipped : value_from name false (length k) (k ++ (length v ∷ (v ++ f)))
        ≡ value_from name true 0 f =
      value_from-skip name false k (length v ∷ (v ++ f)) ∙ value_from-odd name v f in
    let key = slice-append k (length v ∷ (v ++ f)) in
    let dropped = drop-append k (length v ∷ (v ++ f)) in
    let val = slice-append v f in
    elim (Bool-cases (length k == length name)) [
      | inl same ↦ rw (same, key, dropped, skipped, val)
      | inr other ↦ rw (other, length_ne k name other, skipped)
    ]

value_from_end : (name : List ℕ) → value_from name true 0 [] ≡ some []
unfolding value_from
value_from_end name = refl

pub value-map_fields :
    (name : List ℕ) (kvs : List (List ℕ × List ℕ))
    → Fits kvs
    → value_from name true 0 (map_fields kvs) ≡ some (or_empty (find kvs name))
unfolding map_fields find
value-map_fields name [] h = value_from_end name
value-map_fields name ((k, v) ∷ kvs) h =
    ap (value_from name true 0) (pair_bytes k v (map_fields kvs) h.0 h.1)
    ∙ value_from-even name k v (map_fields kvs)
    ∙ elim (Bool-cases (eq_str k name)) [
      | inl e ↦ rw e
      | inr e ↦ rw e (value-map_fields name kvs h.2)
    ]

-- Names and values of at most 255 bytes each make a string of fields; Check accepts it, and Value
-- reads from it the first value that was given for the name, or the empty string if the name was
-- not given.
pub new_fields-value :
    (kvs : List (List ℕ × List ℕ)) (name : List ℕ)
    → Fits kvs
    → (f : Fields) × (new_fields_from_slice (flatten kvs) ≡ some f)
      × (check f ≡ some f)
      × (value f name ≡ some (or_empty (find kvs name)))
unfolding check value
new_fields-value kvs name h = (
  map_fields kvs,
  new_fields_from_slice_lem kvs h,
  rw (check_from-map_fields kvs h),
  value-map_fields name kvs h,
)

slice_self : (xs : List ℕ) → slice (length xs) xs ≡ some xs
unfolding slice
slice_self [] = ground arith
slice_self (x ∷ xs) = ground (arith, slice_self xs)

drop_self : (xs : List ℕ) → drop (length xs) xs ≡ []
drop_self [] = refl
drop_self (x ∷ xs) = drop_self xs

check_from_self : (xs : List ℕ) → check_from (length xs) xs ≡ true
unfolding check_from
check_from_self [] = refl
check_from_self (x ∷ xs) = check_from_self xs

==_self : (n : ℕ) → (n == n) ≡ true
==_self n = ground arith

-- Check accepts a string that is a name with nothing behind it, and Value panics on it when it is
-- asked for this name.
pub check_accepts_half :
    (name : List ℕ)
    → length name ≤ 255
    → (check (sized name) ≡ some (sized name)) × (value (sized name) name ≡ none)
unfolding check value value_at sized check_from
check_accepts_half name h = (
  rw (length_mod name h, check_from_self name) refl,
  ap (λ (f : Fields). value f name) (ap (λ (n : ℕ). n ∷ name) (length_mod name h))
      ∙ rw (==_self (length name), slice_self name, value_from)
          (rw (eq_str_refl name, drop_self name) refl),
)
