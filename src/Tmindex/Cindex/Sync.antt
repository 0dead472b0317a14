-- ===== src/Tmindex/Cindex/Sync.antt =====
-- pkg/tmindex/cindex.go: syncChunks, by which the chunks of a source become those of a journal.
pub mod Filled
pub mod Keeps
use logrange.Prelude.{
  ℕ, ◌-◌, Bool, true, false, ltb, ◌==◌, if◌then◌else◌, List, [], ◌∷◌, Option, none, some, get_elem?,
  refl, ◌≡◌, sym, ap, ◌∙◌, map, arith,
}
use logrange.Prelude.Int.{ℤ, pos, ltb_ℤ}
use logrange.Prelude.Assoc.{lookup, insert, erase, lookup-insert, lookup-erase}
use logrange.Prelude.Cases.{option_case, if_case, bool_case}
use logrange.Partition.Selector.{RecordsInfo}
use logrange.Tmindex.Cindex.{
  ChkInfo, ChunkData, Ctrlr, Cindex, apply, chunks_to_sorted_chunks, make_records_info_copy,
  get_records_info, new_chk_info,
}

-- `for ; j < len(cks) && cks[j].Id() < c.Id; j++`
pub skip_to : ℕ → List ChunkData → List ChunkData
skip_to id [] = []
skip_to id (ck ∷ cks) = let rest = skip_to id cks in if ltb ck.id id then rest else ck ∷ cks

-- The time that getRecordTimestamp reads at a position.
abbrev pub timestamp_at : List (Option ℤ) → ℕ → Option ℤ
timestamp_at recs k = elim (get_elem? recs k) [ none ↦ none | some t ↦ t ]

-- The span of a chunk by its first and its last record; without changes where one is not read.
pub fill : ChkInfo → ChunkData → ChkInfo
fill c chk =
    let read : ChkInfo = elim chk.iterator [
      | none ↦ c
      | some recs ↦ elim (timestamp_at recs 0) [
        | none ↦ c
        | some ts1 ↦ elim (timestamp_at recs (chk.count - 1)) [
          | none ↦ c
          | some ts2 ↦
              if ltb_ℤ ts2 ts1
              then record c { min_ts = ts2; max_ts = ts1 }
              else record c { min_ts = ts1; max_ts = ts2 }
        ]
      ]
    ] in
    if chk.count == 0 then c else read

-- `none` is the panic.
pub light_fill : List ChunkData → List ChkInfo → Option (List ChkInfo)
unfolding skip_to fill
light_fill cks [] = some []
light_fill cks (c ∷ sc) = elim (ltb_ℤ (pos 0) c.max_ts) [
  | true ↦ (elim (light_fill cks sc) [ none ↦ none | some sc' ↦ some (c ∷ sc') ])
  | false ↦ elim (skip_to c.id cks) [
    | [] ↦ some (c ∷ sc)
    | chk ∷ cks' ↦ elim (chk.id == c.id) [
      | false ↦ none
      | true ↦ (elim (light_fill (chk ∷ cks') sc) [
        | none ↦ none
        | some sc' ↦ some (fill c chk ∷ sc')
      ])
    ]
  ]
]

-- A source without chunks is no source.
pub put_journal : List (ℕ × List ChkInfo) → ℕ → List ChkInfo → List (ℕ × List ChkInfo)
unfolding insert erase
put_journal m src [] = erase m src
put_journal m src (c ∷ sc) = insert m src (c ∷ sc)

module _ {C : Type 0} (cc : Ctrlr C) where
  -- `locked` tells of the chunks whose lock was given.
  pub drop_sorted_chunks : (ℕ → Bool) → C → List ChkInfo → C
  drop_sorted_chunks locked st [] = st
  drop_sorted_chunks locked st (r ∷ rmvd) =
      drop_sorted_chunks locked
        (if locked r.id
          then if r.idx_root.index_id == 0 then st else cc.remove_item st r.idx_root
          else cc.remove_index st r.idx_root.index_id)
        rmvd

  abbrev pub chunks_of : Cindex C → ℕ → List ChkInfo
  chunks_of ci src = elim (lookup ci.journals src) [ none ↦ [] | some sc ↦ sc ]

  -- The part before lightFill.
  pub known_spans : Cindex C → ℕ → List ChunkData → List ChkInfo
  unfolding apply chunks_to_sorted_chunks
  known_spans ci src cks = elim (lookup ci.journals src) [
    | none ↦ chunks_to_sorted_chunks cks
    | some sc ↦ (apply true (chunks_to_sorted_chunks cks) sc).0
  ]

  -- The part after lightFill.
  pub put_synced : (ℕ → Bool) → Cindex C → ℕ → List ChkInfo → List RecordsInfo × Cindex C
  unfolding apply make_records_info_copy drop_sorted_chunks put_journal
  put_synced locked ci src filled =
      let (new_sc, rmvd) = apply false filled (chunks_of ci src) in
      (
        make_records_info_copy new_sc,
        record {
          journals = put_journal ci.journals src new_sc;
          cc = drop_sorted_chunks locked ci.cc rmvd;
        },
      )

  -- syncChunks, where nobody else changes the chunks of the source during lightFill.
  pub sync_chunks :
      (ℕ → Bool) → Cindex C → ℕ → List ChunkData → Option (List RecordsInfo × Cindex C)
  unfolding known_spans light_fill put_synced
  sync_chunks locked ci src cks = elim (light_fill cks (known_spans ci src cks)) [
    | none ↦ none
    | some filled ↦ some (put_synced locked ci src filled)
  ]
