-- ===== src/Tmindex/Cindex/Rebuild.antt =====
-- pkg/tmindex/cindex.go: rebuildIndex, which reads a chunk again and writes a new index of it.
pub mod Pieces
use logrange.Prelude.{
  ℕ, zero, suc, ◌+◌, ◌-◌, ◌%◌, ◌<◌, ◌≡◌, refl, Bool, true, false, ◌&&◌, ltb, ◌==◌, if◌then◌else◌,
  List, [], ◌∷◌, Option, none, some, arith,
}
use mathlib.Core.Bool.{not}
use logrange.Prelude.Int.{ℤ, pos}
use logrange.Prelude.Assoc.{lookup, insert}
use logrange.Prelude.Cases.{option_case, if_case, bool_case}
use logrange.Partition.Selector.{RecordsInfo}
use logrange.Tmindex.Block.{Interval, Record}
use logrange.Tmindex.Cindex.{
  Item, no_item, ChkInfo, ChunkData, Written, Ctrlr, Cindex, Reply, last_timestamp, sparse_space,
  apply_ts, update, make_corrupted, find_chunk,
}

-- What rebuildIndexInt returns; `failed`: the error is not nil.
pub record Rebuilt (C : Type 0) : Type 0 where
  pub info : RecordsInfo
  pub root : Item
  pub failed : Bool
  pub ctrlr : C

-- `RecordsInfo{MinTs: math.MaxInt64}`
abbrev pub new_segment : RecordsInfo
new_segment = record { id = 0; min_ts = last_timestamp; max_ts = pos 0 }

abbrev pub to_uint32 : ℕ → ℕ
to_uint32 n = n % 4294967296

-- The chunk in the place of the one with its id; `none` where there is none.
pub put_chunk : List ChkInfo → ChkInfo → Option (List ChkInfo)
put_chunk [] c = none
put_chunk (d ∷ sc) c =
    let rest : Option (List ChkInfo) = elim (put_chunk sc c) [
      | none ↦ none
      | some sc' ↦ some (d ∷ sc')
    ] in
    if d.id == c.id then some (c ∷ sc) else rest

module _ {C : Type 0} (cc : Ctrlr C) where
  pub write_index_interval : C → Item → RecordsInfo → ℕ → ℕ → Written C
  write_index_interval st root ri pos0 pos1 =
      let w = cc.on_write st root (record {
        p0 = record { ts = ri.min_ts; idx = to_uint32 pos0 };
        p1 = record { ts = ri.max_ts; idx = to_uint32 pos1 };
      }) in
      if pos0 == pos1
      then record { root = root; saved = true; ctrlr = st }
      else if w.saved
      then w
      else record w { ctrlr = cc.remove_item w.ctrlr w.root }

  -- The loop over the records. Its `err` is not the one that rebuildIndexInt returns at its end,
  -- so a failed write ends the loop without an error.
  pub rebuild_loop : RecordsInfo → RecordsInfo → Item → ℕ → ℕ → C → List (Option ℤ) → Rebuilt C
  unfolding write_index_interval apply_ts
  rebuild_loop info segm root pos0 pos1 st [] =
      let w = write_index_interval st root segm pos0 pos1 in
      record { info = info; root = w.root; failed = false; ctrlr = w.ctrlr }
  rebuild_loop info segm root pos0 pos1 st (none ∷ recs) = record {
    info = info;
    root = root;
    failed = true;
    ctrlr = cc.remove_item st root;
  }
  rebuild_loop info segm root pos0 pos1 st (some ts ∷ recs) =
      let info' = apply_ts info ts in
      let segm' = apply_ts segm ts in
      let w = write_index_interval st root segm' pos0 (pos1 + 1) in
      elim (ltb (pos1 + 1 - pos0) sparse_space) [
        | true ↦ rebuild_loop info' segm' root pos0 (pos1 + 1) st recs
        | false ↦ elim w.saved [
          | true ↦ rebuild_loop info' new_segment w.root (pos1 + 1) (pos1 + 1) w.ctrlr recs
          | false ↦ record { info = info'; root = w.root; failed = false; ctrlr = w.ctrlr }
        ]
      ]

  -- The first record is read twice: for the root, and by the loop.
  pub rebuild_from_first : RecordsInfo → C → List (Option ℤ) → Rebuilt C
  unfolding rebuild_loop
  rebuild_from_first info st [] = record { info = info; root = no_item; failed = true; ctrlr = st }
  rebuild_from_first info st (none ∷ recs) = record {
    info = info;
    root = no_item;
    failed = true;
    ctrlr = st;
  }
  rebuild_from_first info st (some ts ∷ recs) =
      let first : Record = record { ts = ts; idx = 0 } in
      let w = cc.arrange_root st (record { p0 = first; p1 = first }) in
      let info' : RecordsInfo = record info { min_ts = ts; max_ts = ts } in
      let rest = rebuild_loop info' new_segment w.root 0 0 w.ctrlr (some ts ∷ recs) in
      if w.saved
      then rest
      else record { info = info; root = w.root; failed = true; ctrlr = w.ctrlr }

  pub rebuild_index_int : C → ChunkData → Rebuilt C
  unfolding rebuild_from_first
  rebuild_index_int st chk =
      let info : RecordsInfo = record { id = chk.id; min_ts = pos 0; max_ts = pos 0 } in
      let read : Rebuilt C = elim chk.iterator [
        | none ↦ record { info = info; root = no_item; failed = true; ctrlr = st }
        | some recs ↦ rebuild_from_first info st recs
      ] in
      if ltb 0 chk.count
      then read
      else record { info = info; root = no_item; failed = false; ctrlr = st }

  -- The part of rebuildIndex under the lock of the chunk: the chunk and the index files, and the
  -- span that was read, if the index is new. With `force` an index that is alive is removed.
  pub rebuild_chunk : Bool → C → ChkInfo → ChunkData → ChkInfo × C × Option RecordsInfo
  unfolding rebuild_index_int make_corrupted
  rebuild_chunk force st res chk =
      let build : ChkInfo → C → ChkInfo × C × Option RecordsInfo = (λ res' st'.
        let r = rebuild_index_int st' chk in
        if r.failed then (res', r.ctrlr, none) else (
          record res' { idx_root = r.root; idx_corrupted = false; last_rec = 0 },
          r.ctrlr,
          some r.info,
        )) in
      if not (res.idx_root.index_id == 0) && not res.idx_corrupted
      then (elim (cc.get_index st res.idx_root.index_id) [
        | none ↦ build (make_corrupted res) st
        | some cki ↦
            if force
            then build (make_corrupted res) (cc.remove_index st res.idx_root.index_id)
            else (res, st, none)
      ])
      else build res st

  -- The last part, under the lock of the cindex: the chunk is told by its id.
  pub note_rebuilt : Cindex C → ℕ → ChkInfo → RecordsInfo → Cindex C
  unfolding put_chunk update lookup insert
  note_rebuilt ci src res info =
      let sc : List ChkInfo = elim (lookup ci.journals src) [ none ↦ [] | some sc ↦ sc ] in
      elim (put_chunk sc (update res info)) [
        | none ↦ record ci { cc = cc.remove_item ci.cc res.idx_root }
        | some sc' ↦ record ci { journals = insert ci.journals src sc' }
      ]

  -- rebuildIndex, where nobody else changes the chunks in between and the lock was given.
  pub rebuild_index : Bool → Cindex C → ℕ → ChunkData → Cindex C
  unfolding rebuild_chunk note_rebuilt find_chunk put_chunk lookup insert
  rebuild_index force ci src chk = elim (find_chunk ci src chk.id) [
    | none ↦ ci
    | some res ↦
        (let (res', st, info) = rebuild_chunk force ci.cc res chk in
          let sc : List ChkInfo = elim (lookup ci.journals src) [ none ↦ [] | some sc ↦ sc ] in
          elim info [
            | some ri ↦ note_rebuilt (record ci { cc = st }) src res' ri
            | none ↦ record {
              journals = elim (put_chunk sc res') [
                | none ↦ ci.journals
                | some sc' ↦ insert ci.journals src sc'
              ];
              cc = st;
            }
          ])
  ]
