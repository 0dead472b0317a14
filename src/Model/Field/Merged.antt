-- ===== src/Model/Field/Merged.antt =====
-- MergeWithMap against the plain merging of the pairs.
use mathlib.Core.List.{append_assoc}
use logrange.Prelude.{
  ℕ, zero, suc, ◌%◌, ◌≤◌, ◌≡◌, refl, sym, ap, ◌∙◌, true, List, [], ◌∷◌, ◌++◌, Option, none, some,
  Option-cases, length, length-append, arith, Bool-cases, inl, inr,
}
use logrange.Prelude.Texts.{eq_str, eq_of-eq_str}
use logrange.Prelude.Cases.{option_case}
use logrange.Model.Field.{Fields, value, value_from, find, kept_fields, map_fields, merge_with_map}
use logrange.Model.Field.Encoding.{
  Fits, or_empty, slice-append, drop-append, pair_bytes, value-map_fields,
}

-- The pairs whose names the map does not have.
abbrev without : List (List ℕ × List ℕ) → List (List ℕ × List ℕ) → List (List ℕ × List ℕ)
without m [] = []
without m ((k, v) ∷ kvs) =
    let rest = without m kvs in elim (find m k) [ none ↦ (k, v) ∷ rest | some new ↦ rest ]

without-Fits : (m kvs : List (List ℕ × List ℕ)) → Fits kvs → Fits (without m kvs)
without-Fits m [] h = h
without-Fits m ((k, v) ∷ kvs) h =
    option_case Fits (find m k) (λ e. (h.0, h.1, without-Fits m kvs h.2))
      (λ new e. without-Fits m kvs h.2)

append-Fits : (xs ys : List (List ℕ × List ℕ)) → Fits xs → Fits ys → Fits (xs ++ ys)
append-Fits [] ys h h' = h'
append-Fits ((k, v) ∷ xs) ys h h' = (h.0, h.1, append-Fits xs ys h.2 h')

map_fields-append :
    (xs ys : List (List ℕ × List ℕ)) → map_fields (xs ++ ys) ≡ map_fields xs ++ map_fields ys
unfolding map_fields
map_fields-append [] ys = refl
map_fields-append ((k, v) ∷ xs) ys = simp (map_fields-append xs ys, append_assoc)

-- Where a pair is found in two lists behind one another.
find-append :
    (xs ys : List (List ℕ × List ℕ)) (name : List ℕ)
    → find (xs ++ ys) name ≡ elim (find xs name) [ none ↦ find ys name | some v ↦ some v ]
unfolding find
find-append [] ys name = refl
find-append ((k, v) ∷ xs) ys name =
    let ih = find-append xs ys name in
    elim (Bool-cases (eq_str k name)) [ inl e ↦ rw e | inr e ↦ rw e ih ]

-- What the map does not have is found as before, and what it has is gone.
find-without :
    (m kvs : List (List ℕ × List ℕ)) (name : List ℕ)
    → find (without m kvs) name ≡ elim (find m name) [ none ↦ find kvs name | some v ↦ none ]
unfolding find
find-without m [] name =
    option_case (λ (o : Option (List ℕ)). none ≡ o) (find m name) (λ e. refl) (λ v e. refl)
find-without m ((k, v) ∷ kvs) name =
    let ih = find-without m kvs name in
    let same : eq_str k name ≡ true → find m k ≡ find m name =
      λ e. ap (find m) (eq_of-eq_str k name e) in
    elim (Bool-cases (eq_str k name)) [
      | inl e ↦ elim (Option-cases (find m k)) [
        | inl f ↦ ground arith
        | inr (new, f) ↦ ground (arith, same e)
      ]
      | inr e ↦ elim (Option-cases (find m k)) [
        | inl f ↦ ground arith
        | inr (new, f) ↦ ground arith
      ]
    ]

without_other :
    (m : List (List ℕ × List ℕ)) (k v : List ℕ) (kvs : List (List ℕ × List ℕ))
    → find m k ≡ none
    → without m ((k, v) ∷ kvs) ≡ (k, v) ∷ without m kvs
without_other m k v kvs f = ground arith

without_same :
    (m : List (List ℕ × List ℕ)) (k v : List ℕ) (kvs : List (List ℕ × List ℕ)) {new : List ℕ}
    → find m k ≡ some new
    → without m ((k, v) ∷ kvs) ≡ without m kvs
without_same m k v kvs f = ground arith

-- The pairs that the map leaves, with the map behind them, answer by the map first.
find-merged :
    (m kvs : List (List ℕ × List ℕ)) (name : List ℕ)
    → find (without m kvs ++ m) name ≡ elim (find m name) [ none ↦ find kvs name | some v ↦ some v ]
find-merged m kvs name =
    let behind = find-append (without m kvs) m name in
    let kept = find-without m kvs name in ground arith

kept_fields_lem :
    (fuel : ℕ) (m kvs : List (List ℕ × List ℕ))
    → Fits kvs
    → length (map_fields kvs) ≤ fuel
    → kept_fields fuel m (map_fields kvs) ≡ some (map_fields (without m kvs))
unfolding kept_fields map_fields
kept_fields_lem zero m [] h enough = refl
kept_fields_lem (suc fuel) m [] h enough = refl
kept_fields_lem zero m ((k, v) ∷ kvs) h enough = absurd (omega arith)
kept_fields_lem (suc fuel) m ((k, v) ∷ kvs) h enough =
    let rest = map_fields kvs in
    let behind = length v ∷ (v ++ rest) in
    let ih =
      kept_fields_lem fuel m kvs h.2
        (omega (arith, length-append k (length v % 256 ∷ (v ++ rest)), length-append v rest)) in
    ap (kept_fields (suc fuel) m) (pair_bytes k v rest h.0 h.1) ∙ elim (Option-cases (find m k)) [
      | inl f ↦
          rw (slice-append k behind, kept_fields)
            (rw (drop-append k behind, f, kept_fields)
              (rw (slice-append v rest, drop-append v rest, kept_fields) (rw ih refl)))
          ∙ ap some (sym (pair_bytes k v (map_fields (without m kvs)) h.0 h.1))
          ∙ ap (λ kvs'. some (map_fields kvs')) (sym (without_other m k v kvs f))
      | inr (new, f) ↦
          rw (slice-append k behind, kept_fields)
            (rw (drop-append k behind, f, kept_fields) (rw (drop-append v rest, kept_fields) ih))
          ∙ ap (λ kvs'. some (map_fields kvs')) (sym (without_same m k v kvs f))
    ]

-- For fields and a map that have at most 255 bytes per name and value each, MergeWithMap answers
-- fields in which every name of the map has the map's value, and every other name the value it had
-- before; no index is out of range.
pub merge_with_map-value :
    (kvs m : List (List ℕ × List ℕ)) (name : List ℕ)
    → Fits kvs
    → Fits m
    → (f : Fields) × (merge_with_map (map_fields kvs) m ≡ some f)
      × (value f name
          ≡ some (or_empty (elim (find m name) [ none ↦ find kvs name | some v ↦ some v ])))
unfolding merge_with_map value
merge_with_map-value kvs [] name h hm = (map_fields kvs, refl, value-map_fields name kvs h)
merge_with_map-value kvs (e ∷ m) name h hm =
    let m' = e ∷ m in
    let kept = without m' kvs in
    (
      map_fields kept ++ map_fields m',
      rw (kept_fields_lem (length (map_fields kvs)) m' kvs h (omega arith), merge_with_map) refl,
      ap (value_from name true 0) (sym (map_fields-append kept m'))
          ∙ value-map_fields name (kept ++ m') (append-Fits kept m' (without-Fits m' kvs h) hm)
          ∙ ap (λ o. some (or_empty o)) (find-merged m' kvs name),
    )
