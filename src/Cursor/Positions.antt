-- ===== src/Cursor/Positions.antt =====
-- pkg/cursor/cursor.go: the position of a cursor as a text, `<journal>=<pos>` for each of its journals
-- with `:` between them. Texts are lists of bytes; journal.Pos, of another repository, is written by
-- `show_pos` and read by `parse_pos`; strings.ToLower is `to_lower`. The journals of the cursor stand
-- with their iterators' positions, in the order in which `range` visits them.
pub mod RoundTrip
mod Tests
use logrange.Prelude.{
  ℕ, List, [], ◌∷◌, ◌++◌, Option, none, some, Bool, true, false, ◌==◌, ◌&&◌, if◌then◌else◌,
}
use logrange.Prelude.Texts.{eq_str, lookup_str, insert_str}
use logrange.Partition.Selector.{Pos}

-- `strings.Split(s, sep)` for a separator of one byte
unfoldable pub split : ℕ → List ℕ → List (List ℕ)
split sep [] = [] ∷ []
split sep (c ∷ s) =
    let rest = split sep s in
    if c == sep then [] ∷ rest else (elim rest [ [] ↦ (c ∷ []) ∷ [] | v ∷ vs ↦ (c ∷ v) ∷ vs ])

-- `:` and `=`
abbrev pub jrnl_split : ℕ
jrnl_split = 58

abbrev pub jrnl_val : ℕ
jrnl_val = 61

-- The fields of State.
pub record State : Type 0 where
  pub id : ℕ
  pub query : List ℕ
  pub src : List ℕ
  pub pos : List ℕ

module _ (show_pos : Pos → List ℕ) (parse_pos : List ℕ → Option Pos)
    (to_lower : List ℕ → List ℕ) where
  -- `collectPos`: each journal but the first one is written behind a separator.
  pub collect_from : Bool → List (List ℕ × Pos) → List ℕ
  collect_from first [] = []
  collect_from first ((jn, p) ∷ descs) =
      let rest = collect_from false descs in
      (if first then [] else jrnl_split ∷ []) ++ (jn ++ (jrnl_val ∷ (show_pos p ++ rest)))

  pub collect_pos : List (List ℕ × Pos) → List ℕ
  unfolding collect_from
  collect_pos descs = collect_from true descs

  -- The first loop of applyStatePos: the positions by journal, or `none` for an error.
  pub parse_vals : List (List ℕ) → List (List ℕ × Pos) → Option (List (List ℕ × Pos))
  unfolding split insert_str
  parse_vals [] m = some m
  parse_vals (v ∷ vals) m = elim (split jrnl_val v) [
    | [] ↦ none
    | jrnl ∷ kv ↦ elim kv [
      | [] ↦ none
      | p ∷ more ↦ elim more [
        | x ∷ xs ↦ none
        | [] ↦ elim (parse_pos p) [
          | none ↦ none
          | some pos ↦ parse_vals vals (insert_str m jrnl pos)
        ]
      ]
    ]
  ]

  -- Its second loop: a journal that the cursor does not have is left out.
  pub set_positions : List (List ℕ × Pos) → List (List ℕ × Pos) → List (List ℕ × Pos)
  unfolding lookup_str insert_str
  set_positions [] descs = descs
  set_positions ((j, pos) ∷ m) descs =
      set_positions m
        (elim (lookup_str descs j) [ none ↦ descs | some old ↦ insert_str descs j pos ])

  pub apply_state_pos : List (List ℕ × Pos) → List ℕ → Option (List (List ℕ × Pos))
  unfolding parse_vals set_positions
  apply_state_pos descs pos = elim (parse_vals (split jrnl_split pos) []) [
    | none ↦ none
    | some m ↦ some (set_positions m descs)
  ]

  -- `SetPos` of all iterators
  pub set_all : Pos → List (List ℕ × Pos) → List (List ℕ × Pos)
  set_all p [] = []
  set_all p ((jn, old) ∷ descs) = (jn, p) ∷ set_all p descs

  -- The words "tail" and "head".
  abbrev tail_word : List ℕ
  tail_word = 116 ∷ 97 ∷ 105 ∷ 108 ∷ []

  abbrev head_word : List ℕ
  head_word = 104 ∷ 101 ∷ 97 ∷ 100 ∷ []

  -- `applyCornerPos`; `none` where the text is no corner.
  pub apply_corner_pos : List (List ℕ × Pos) → List ℕ → Option (List (List ℕ × Pos))
  unfolding set_all
  apply_corner_pos descs pstr =
      let ps = to_lower pstr in
      if eq_str ps tail_word
      then some (set_all (record { cid = 18446744073709551615; idx = 4294967295 }) descs)
      else if eq_str ps head_word
      then some (set_all (record { cid = 0; idx = 0 }) descs)
      else if eq_str ps []
      then some (set_all (record { cid = 0; idx = 0 }) descs)
      else none

  -- `applyPos`
  pub apply_pos : List (List ℕ × Pos) → List ℕ → Option (List (List ℕ × Pos))
  unfolding apply_corner_pos apply_state_pos
  apply_pos descs pos = elim (apply_corner_pos descs pos) [
    | some descs' ↦ some descs'
    | none ↦ apply_state_pos descs pos
  ]

  -- `ApplyState`: whether there was no error, the state and the positions.
  pub apply_state : State → List (List ℕ × Pos) → State → Bool × State × List (List ℕ × Pos)
  unfolding apply_state_pos
  apply_state cur descs st =
      if eq_str cur.query st.query && (cur.id == st.id)
      then if eq_str cur.pos st.pos
        then (true, cur, descs)
        else (elim (apply_state_pos descs st.pos) [
          | none ↦ (false, cur, descs)
          | some descs' ↦ (true, record cur { pos = st.pos }, descs')
        ])
      else (false, cur, descs)
