-- ===== src/Cursor/Positions/RoundTrip.antt =====
-- The position that State reports, applied again.
use mathlib.Core.List.{append-nil, append_assoc}
use logrange.Prelude.{
  ℕ, ◌≡◌, ◌≢◌, refl, sym, ap, subst, ◌∙◌, List, [], ◌∷◌, ◌++◌, Option, none, some, true, false,
  ◌==◌, arith, Bool-cases, Option-cases, inl, inr,
}
use logrange.Prelude.Texts.{
  eq_str, eq_of-eq_str, lookup_str, insert_str, lookup-insert_str, eq_str_comm,
}
use logrange.Partition.Selector.{Pos}
use logrange.Cursor.Positions.{
  split, jrnl_split, jrnl_val, collect_from, collect_pos, parse_vals, set_positions,
  apply_state_pos,
}

-- The byte does not occur.
abbrev pub Lacks : ℕ → List ℕ → Type 0
Lacks sep [] = Unit {0}
Lacks sep (c ∷ s) = (c ≢ sep) × Lacks sep s

split_whole : (sep : ℕ) (s : List ℕ) → Lacks sep s → split sep s ≡ s ∷ []
unfolding split
split_whole sep [] h = refl
split_whole sep (c ∷ s) h =
    let other : c == sep ≡ false = ground arith in rw (split_whole sep s h.1, other)

split_first : (sep : ℕ) (s r : List ℕ) → Lacks sep s → split sep (s ++ sep ∷ r) ≡ s ∷ split sep r
unfolding split
split_first sep [] r h = let same : sep == sep ≡ true = ground arith in rw same
split_first sep (c ∷ s) r h =
    let other : c == sep ≡ false = ground arith in rw (split_first sep s r h.1, other)

append-Lacks : (sep : ℕ) (s r : List ℕ) → Lacks sep s → Lacks sep r → Lacks sep (s ++ r)
append-Lacks sep [] r h h' = h'
append-Lacks sep (c ∷ s) r h h' = (h.0, append-Lacks sep s r h.1 h')

-- A journal's name is unlike all others, and no separator occurs in a name.
abbrev pub IsNew : List ℕ → List (List ℕ × Pos) → Type 0
IsNew jn [] = Unit {0}
IsNew jn ((jn', p) ∷ descs) = (eq_str jn' jn ≡ false) × IsNew jn descs

abbrev pub AreNames : List (List ℕ × Pos) → Type 0
AreNames [] = Unit {0}
AreNames ((jn, p) ∷ descs) =
    Lacks jrnl_split jn × Lacks jrnl_val jn × IsNew jn descs × AreNames descs

-- What journal.Pos documents of its text.
pub record IsPosText (show_pos : Pos → List ℕ) (parse_pos : List ℕ → Option Pos) : Type 0 where
  pub reads : (p : Pos) → parse_pos (show_pos p) ≡ some p
  pub no_split : (p : Pos) → Lacks jrnl_split (show_pos p)
  pub no_val : (p : Pos) → Lacks jrnl_val (show_pos p)

module _ (show_pos : Pos → List ℕ) (parse_pos : List ℕ → Option Pos) (to_lower : List ℕ → List ℕ)
    (ok : IsPosText show_pos parse_pos) where
  -- One journal's part of the text.
  abbrev part : List ℕ → Pos → List ℕ
  part jn p = jn ++ (jrnl_val ∷ show_pos p)

  part-Lacks : (jn : List ℕ) (p : Pos) → Lacks jrnl_split jn → Lacks jrnl_split (part jn p)
  part-Lacks jn p h =
      append-Lacks jrnl_split jn (jrnl_val ∷ show_pos p) h ((λ e. ground arith), ok.no_split p)

  -- The parts, as Split finds them.
  abbrev parts : List (List ℕ × Pos) → List (List ℕ)
  parts [] = []
  parts ((jn, p) ∷ descs) = part jn p ∷ parts descs

  split-collect :
      (jn : List ℕ) (p : Pos) (descs : List (List ℕ × Pos))
      → AreNames ((jn, p) ∷ descs)
      → split jrnl_split (collect_from show_pos parse_pos to_lower true ((jn, p) ∷ descs))
        ≡ parts ((jn, p) ∷ descs)
  unfolding collect_from
  split-collect jn p [] h =
      ap (split jrnl_split) (ap (λ l. jn ++ (jrnl_val ∷ l)) (append-nil (show_pos p)))
      ∙ split_whole jrnl_split (part jn p) (part-Lacks jn p h.0)
  split-collect jn p ((jn', p') ∷ descs) h =
      let rest = collect_from show_pos parse_pos to_lower true ((jn', p') ∷ descs) in
      ap (split jrnl_split) (sym (append_assoc jn (jrnl_val ∷ show_pos p) (jrnl_split ∷ rest)))
      ∙ split_first jrnl_split (part jn p) rest (part-Lacks jn p h.0)
      ∙ ap (λ l. part jn p ∷ l) (split-collect jn' p' descs h.3)

  -- The positions that the parts stand for, put into a map.
  abbrev put_all : List (List ℕ × Pos) → List (List ℕ × Pos) → List (List ℕ × Pos)
  put_all m [] = m
  put_all m ((jn, p) ∷ descs) = put_all (insert_str m jn p) descs

  parse_parts :
      (descs m : List (List ℕ × Pos))
      → AreNames descs
      → parse_vals show_pos parse_pos to_lower (parts descs) m ≡ some (put_all m descs)
  unfolding parse_vals
  parse_parts [] m h = refl
  parse_parts ((jn, p) ∷ descs) m h =
      let two : split jrnl_val (part jn p) ≡ jn ∷ show_pos p ∷ [] =
        split_first jrnl_val jn (show_pos p) h.1
        ∙ ap (λ l. jn ∷ l) (split_whole jrnl_val (show_pos p) (ok.no_val p)) in
      rw (two, parse_vals) (rw (ok.reads p, parse_vals) (parse_parts descs (insert_str m jn p) h.3))

insert_new :
    (m : List (List ℕ × Pos)) (jn : List ℕ) (p : Pos)
    → IsNew jn m
    → insert_str m jn p ≡ m ++ (jn, p) ∷ []
unfolding insert_str
insert_new [] jn p h = refl
insert_new ((k, v) ∷ m) jn p h = rw (insert_new m jn p h.1, h.0)

at-IsNew :
    (m descs : List (List ℕ × Pos)) (k jn : List ℕ) (p : Pos)
    → IsNew k (m ++ (jn, p) ∷ descs)
    → eq_str jn k ≡ false
at-IsNew [] descs k jn p h = h.0
at-IsNew ((i, v) ∷ m) descs k jn p h = at-IsNew m descs k jn p h.1

-- A name behind others is unlike them.
before-IsNew :
    (m descs : List (List ℕ × Pos)) (jn : List ℕ) (p : Pos)
    → AreNames (m ++ (jn, p) ∷ descs)
    → IsNew jn m
before-IsNew [] descs jn p h = tt
before-IsNew ((k, v) ∷ m) descs jn p h =
    (eq_str_comm k jn ∙ at-IsNew m descs k jn p h.2, before-IsNew m descs jn p h.3)

unknown_new : (jn : List ℕ) (m : List (List ℕ × Pos)) → IsNew jn m → lookup_str m jn ≡ none
unfolding lookup_str
unknown_new jn [] h = refl
unknown_new jn ((k, v) ∷ m) h = rw (unknown_new jn m h.1, h.0)

-- What set_positions leaves: the position of the map for each journal that the cursor has.
abbrev pub placed : Option Pos → Option Pos → Option Pos
placed none new = none
placed (some old) none = some old
placed (some old) (some new) = some new

placed-none : (o : Option Pos) → o ≡ placed o none
placed-none none = refl
placed-none (some old) = refl

absent_case :
    (descs m : List (List ℕ × Pos)) (j k : List ℕ) (p : Pos)
    → lookup_str descs k ≡ none
    → placed (lookup_str descs j) (lookup_str m j)
      ≡ placed (lookup_str descs j) (lookup_str ((k, p) ∷ m) j)
unfolding lookup_str
absent_case descs m j k p absent = elim (Bool-cases (eq_str k j)) [
  | inl same ↦
      let gone : lookup_str descs j ≡ none =
        ap (lookup_str descs) (sym (eq_of-eq_str k j same)) ∙ absent in
      rw gone
  | inr other ↦ rw other
]

known_case :
    (descs m : List (List ℕ × Pos)) (j k : List ℕ) (p old : Pos)
    → lookup_str descs k ≡ some old
    → IsNew k m
    → placed (lookup_str (insert_str descs k p) j) (lookup_str m j)
      ≡ placed (lookup_str descs j) (lookup_str ((k, p) ∷ m) j)
unfolding lookup_str
known_case descs m j k p old known h = elim (Bool-cases (eq_str k j)) [
  | inl same ↦
      let eq = sym (eq_of-eq_str k j same) in
      let there : lookup_str descs j ≡ some old = ap (lookup_str descs) eq ∙ known in
      let gone : lookup_str m j ≡ none = ap (lookup_str m) eq ∙ unknown_new k m h in
      let put : lookup_str (insert_str descs k p) j ≡ some p =
        lookup-insert_str descs k j p ∙ rw same in
      rw (there, gone, put, same)
  | inr other ↦
      let put : lookup_str (insert_str descs k p) j ≡ lookup_str descs j =
        lookup-insert_str descs k j p ∙ rw other in
      rw (put, other)
]

module _ (show_pos : Pos → List ℕ) (parse_pos : List ℕ → Option Pos)
    (to_lower : List ℕ → List ℕ) where
  set_positions_lem :
      (m descs : List (List ℕ × Pos)) (j : List ℕ)
      → AreNames m
      → lookup_str (set_positions show_pos parse_pos to_lower m descs) j
        ≡ placed (lookup_str descs j) (lookup_str m j)
  unfolding set_positions
  set_positions_lem [] descs j h = placed-none (lookup_str descs j)
  set_positions_lem ((k, p) ∷ m) descs j h = elim (Option-cases (lookup_str descs k)) [
    | inl absent ↦
        rw (absent, set_positions)
          (set_positions_lem m descs j h.3 ∙ absent_case descs m j k p absent)
    | inr (old, known) ↦
        rw (known, set_positions)
          (set_positions_lem m (insert_str descs k p) j h.3
            ∙ known_case descs m j k p old known h.2)
  ]

  apply_parsed :
      (descs : List (List ℕ × Pos)) (text : List ℕ) (m : List (List ℕ × Pos))
      → parse_vals show_pos parse_pos to_lower (split jrnl_split text) [] ≡ some m
      → apply_state_pos show_pos parse_pos to_lower descs text
        ≡ some (set_positions show_pos parse_pos to_lower m descs)
  unfolding apply_state_pos
  apply_parsed descs text m e = rw (e, apply_state_pos)

  module _ (ok : IsPosText show_pos parse_pos) where
    put_all_lem :
        (descs m : List (List ℕ × Pos))
        → AreNames (m ++ descs)
        → put_all show_pos parse_pos to_lower ok m descs ≡ m ++ descs
    put_all_lem [] m h = sym (append-nil m)
    put_all_lem ((jn, p) ∷ descs) m h =
        let added = insert_new m jn p (before-IsNew m descs jn p h) in
        let regroup = append_assoc m ((jn, p) ∷ []) descs in
        ap (λ l. put_all show_pos parse_pos to_lower ok l descs) added
        ∙ put_all_lem descs (m ++ (jn, p) ∷ []) (subst AreNames (sym regroup) h)
        ∙ regroup

    -- The position that a cursor over at least one journal reports, where the journals' names differ
    -- and contain no separators, is applied to any cursor without an error: of the journals of that
    -- cursor, those that the first one has get the positions they have there, and all others keep
    -- theirs.
    pub apply-collect_pos :
        (jn : List ℕ) (p : Pos) (descs descs' : List (List ℕ × Pos))
        → AreNames ((jn, p) ∷ descs)
        → (ds : List (List ℕ × Pos)) × (apply_state_pos show_pos parse_pos to_lower descs'
              (collect_pos show_pos parse_pos to_lower ((jn, p) ∷ descs))
            ≡ some ds)
          × ((j : List ℕ)
              → lookup_str ds j ≡ placed (lookup_str descs' j) (lookup_str ((jn, p) ∷ descs) j))
    unfolding collect_pos
    apply-collect_pos jn p descs descs' h =
        let all = (jn, p) ∷ descs in
        let parsed = parse_parts show_pos parse_pos to_lower ok all [] h in
        let found = put_all_lem all [] h in
        (
          set_positions show_pos parse_pos to_lower all descs',
          apply_parsed descs' (collect_pos show_pos parse_pos to_lower all) all (
              ap (λ vals. parse_vals show_pos parse_pos to_lower vals [])
                (split-collect show_pos parse_pos to_lower ok jn p descs h)
              ∙ parsed
              ∙ ap some found),
          λ j. set_positions_lem all descs' j h,
        )
