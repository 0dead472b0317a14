-- ===== src/Partition/Selector.antt =====
-- pkg/partition/cselector.go: the selector of the positions of a journal in a range of times.
-- A chunk (of another repository) is what the selector asks it for: its id and its number of
-- records. The answers of the time index, for the one journal of the selector, are the parameter
-- `tmidx`; the calls of RebuildIndex, which only ask for work to be done later, are collected.
pub mod Status
pub mod Chunks
pub mod Records
pub mod Forward
pub mod Backward
mod Tests
use logrange.Prelude.{
  ℕ, zero, suc, ◌+◌, ◌-◌, List, [], ◌∷◌, ◌++◌, Option, none, some, Bool, true, false, ◌||◌, ◌&&◌,
  ltb, leb, ◌==◌, if◌then◌else◌, length, get_elem?,
}
use logrange.Prelude.Int.{ℤ, leb_ℤ, ltb_ℤ}
use logrange.Prelude.Assoc.{lookup, insert}
use logrange.Prelude.Bisect.{bisect}

-- `math.MaxUint32`
abbrev pub max_uint32 : ℕ
max_uint32 = 4294967295

-- `n - 1` on uint32, which wraps at 0
abbrev pub pred_uint32 : ℕ → ℕ
pred_uint32 n = if n == 0 then max_uint32 else n - 1

pub record Chunk : Type 0 where
  pub id : ℕ
  pub count : ℕ

pub record Pos : Type 0 where
  pub cid : ℕ
  pub idx : ℕ

pub record TimeRange : Type 0 where
  pub min_ts : ℤ
  pub max_ts : ℤ

pub record RecordsInfo : Type 0 where
  pub id : ℕ
  pub min_ts : ℤ
  pub max_ts : ℤ

pub record ChkStatus : Type 0 where
  pub min_pos : ℕ
  pub max_pos : ℕ
  pub count : ℕ

-- What the selector calls of TsIndexer; an error is `none`.
pub record TsIndexer : Type 0 where
  pub get_records_info : ℕ → Option RecordsInfo
  pub get_pos_for_greater_or_equal_time : ℕ → ℤ → Option ℕ
  pub get_pos_for_less_time : ℕ → ℤ → Option ℕ
  pub sync_chunks : List Chunk → List RecordsInfo

-- The map `stats`, and the chunks for which RebuildIndex was called.
pub record ChkSelector : Type 0 where
  pub stats : List (ℕ × ChkStatus)
  pub rebuilds : List ℕ

pub check_pos_or_advance : ChkStatus → ℕ → ℕ × Bool
check_pos_or_advance st p =
    let p' = if ltb p st.min_pos then st.min_pos else p in
    if leb st.count p' || ltb st.max_pos p' then (st.count, false) else (p', true)

pub check_pos_or_reduce : ChkStatus → ℕ → ℕ × Bool
check_pos_or_reduce st p =
    let p1 = if ltb st.max_pos p then st.max_pos else p in
    let p2 = if leb st.count p1 then pred_uint32 st.count else p1 in
    (p2, leb st.min_pos p2 && ltb 0 st.count)

-- `chunks[h].Id()`
unfoldable pub id_at : List Chunk → ℕ → ℕ
id_at cks h = elim (get_elem? cks h) [ none ↦ 0 | some ch ↦ ch.id ]

pub get_chunk_by_id_or_greater : List Chunk → ℕ → ℕ
unfolding bisect id_at
get_chunk_by_id_or_greater chunks cid = bisect (λ h. ltb (id_at chunks h) cid) (length chunks)

-- The index and one: 0 stands for -1.
pub get_chunk_by_id_or_less_1 : List Chunk → ℕ → ℕ
unfolding get_chunk_by_id_or_greater id_at
get_chunk_by_id_or_less_1 chunks cid =
    let idx = get_chunk_by_id_or_greater chunks cid in
    if idx == length chunks || ltb cid (id_at chunks idx) then idx else idx + 1

-- What the searches return: an error, the zero position of an empty journal, a position without
-- a chunk, or a position in a chunk with its status. `crashed` is a nil status.
pub data Found : Type 0 where
  failed : Found
  no_chunks : Found
  out : Pos → Found
  at_chunk : Chunk → ChkStatus → Pos → Found
  crashed : Found

-- `journal.Pos{chk.Id(), idx(chk)}` for the chunk at an index
abbrev pub out_at : List Chunk → ℕ → (Chunk → ℕ) → Found
out_at cks i idx = elim (get_elem? cks i) [
  | none ↦ crashed
  | some ch ↦ out (record { cid = ch.id; idx = idx ch })
]

module _ (tmidx : TsIndexer) (tm_range : TimeRange) where
  -- The position and the calls of RebuildIndex, as for the two below.
  pub min_pos_for : Chunk → RecordsInfo → ℕ × List ℕ
  min_pos_for ch ri =
      if leb_ℤ ri.min_ts tm_range.min_ts
      then (elim (tmidx.get_pos_for_greater_or_equal_time ri.id tm_range.min_ts) [
        | none ↦ (0, ch.id ∷ [])
        | some p ↦ (p, [])
      ])
      else (0, [])

  pub max_pos_for : Chunk → RecordsInfo → ℕ × List ℕ
  max_pos_for ch ri =
      if leb_ℤ tm_range.max_ts ri.max_ts
      then (elim (tmidx.get_pos_for_less_time ri.id tm_range.max_ts) [
        | none ↦ (max_uint32, ch.id ∷ [])
        | some p ↦ (p, [])
      ])
      else (max_uint32, [])

  pub update_poss : Chunk → ChkStatus → RecordsInfo → ChkStatus × List ℕ
  unfolding min_pos_for max_pos_for
  update_poss ch st ri =
      if ltb_ℤ tm_range.max_ts ri.min_ts || ltb_ℤ ri.max_ts tm_range.min_ts
      then (record st { min_pos = max_uint32; max_pos = max_uint32 }, [])
      else (let (lo, rs) = min_pos_for ch ri in
          let (hi, rs') = max_pos_for ch ri in
          (record st { min_pos = lo; max_pos = hi }, rs ++ rs'))

  -- The loop over the answer of SyncChunks, with the new map `nm`. The source faults if there are
  -- more answers than chunks.
  pub rebuild_from :
      List (ℕ × ChkStatus) → List RecordsInfo → List Chunk → ChkSelector → Option ChkSelector
  unfolding update_poss lookup insert
  rebuild_from stats [] cks nm = some nm
  rebuild_from stats (ri ∷ ris) [] nm = none
  rebuild_from stats (ri ∷ ris) (ch ∷ cks) nm =
      let old : ChkStatus = elim (lookup stats ri.id) [
        | none ↦ record { min_pos = 0; max_pos = 0; count = 0 }
        | some st ↦ st
      ] in
      let (st, rs) = update_poss ch (record old { count = ch.count }) ri in
      rebuild_from stats ris cks
        (record { stats = insert nm.stats ri.id st; rebuilds = nm.rebuilds ++ rs })

  pub rebuild_chunk_statuses : ChkSelector → List Chunk → Option ChkSelector
  unfolding rebuild_from
  rebuild_chunk_statuses cs cks =
      rebuild_from cs.stats (tmidx.sync_chunks cks) cks
        (record { stats = []; rebuilds = cs.rebuilds })

  pub rebuilt_status : ChkSelector → Chunk → List Chunk → Option (ChkStatus × ChkSelector)
  unfolding rebuild_chunk_statuses lookup
  rebuilt_status cs chk cks = elim (rebuild_chunk_statuses cs cks) [
    | none ↦ none
    | some cs' ↦ elim (lookup cs'.stats chk.id) [ none ↦ none | some st ↦ some (st, cs') ]
  ]

  -- The status of a chunk, with the selector after the call. `none` is a nil status or a fault.
  pub get_chunk_status : ChkSelector → Chunk → List Chunk → Option (ChkStatus × ChkSelector)
  unfolding rebuilt_status update_poss lookup insert
  get_chunk_status cs chk cks =
      let rebuilt = rebuilt_status cs chk cks in
      elim (lookup cs.stats chk.id) [
        | none ↦ rebuilt
        | some st ↦
            if length cks == length cs.stats
            then (if st.count == chk.count
                then some (st, cs)
                else (let st' = record st { count = chk.count } in
                    elim (tmidx.get_records_info chk.id) [
                      | none ↦ some (st', record cs { stats = insert cs.stats chk.id st' })
                      | some ri ↦
                          (let (st2, rs) = update_poss chk st' ri in
                            some (
                              st2,
                              record {
                                stats = insert cs.stats chk.id st2;
                                rebuilds = cs.rebuilds ++ rs;
                              },
                            ))
                    ]))
            else rebuilt
      ]

  -- The loop from `idx` on, with `n` rounds left.
  pub forward_from : List Chunk → ℕ → ℕ → ℕ → ChkSelector → Found × ChkSelector
  unfolding get_chunk_status check_pos_or_advance
  forward_from cks zero idx p_idx cs = (out_at cks (length cks - 1) (λ ch. ch.count), cs)
  forward_from cks (suc n) idx p_idx cs = elim (get_elem? cks idx) [
    | none ↦ (crashed, cs)
    | some chk ↦ elim (get_chunk_status cs chk cks) [
      | none ↦ (crashed, cs)
      | some (chk_st, cs') ↦
          (let rest = forward_from cks n (idx + 1) 0 cs' in
            let (np, ok) = check_pos_or_advance chk_st p_idx in
            if ok then (at_chunk chk chk_st (record { cid = chk.id; idx = np }), cs') else rest)
    ]
  ]

  pub get_pos_forward : Option (List Chunk) → ChkSelector → Pos → Found × ChkSelector
  unfolding forward_from get_chunk_by_id_or_greater id_at
  get_pos_forward none cs p = (failed, cs)
  get_pos_forward (some []) cs p = (no_chunks, cs)
  get_pos_forward (some (ck ∷ rest)) cs p =
      let cks = ck ∷ rest in
      let idx = get_chunk_by_id_or_greater cks p.cid in
      if idx == length cks
      then (out_at cks (idx - 1) (λ ch. ch.count), cs)
      else forward_from cks (length cks - idx) idx (if id_at cks idx == p.cid then p.idx else 0) cs

  -- The loop from `n - 1` down to 0.
  pub backward_from : List Chunk → ℕ → ℕ → ChkSelector → Found × ChkSelector
  unfolding get_chunk_status check_pos_or_reduce
  backward_from cks zero p_idx cs = (out_at cks 0 (λ ch. 0), cs)
  backward_from cks (suc idx) p_idx cs = elim (get_elem? cks idx) [
    | none ↦ (crashed, cs)
    | some chk ↦ elim (get_chunk_status cs chk cks) [
      | none ↦ (crashed, cs)
      | some (chk_st, cs') ↦
          (let rest = backward_from cks idx max_uint32 cs' in
            let (pp, ok) = check_pos_or_reduce chk_st p_idx in
            if ok then (at_chunk chk chk_st (record { cid = chk.id; idx = pp }), cs') else rest)
    ]
  ]

  pub get_pos_backward : Option (List Chunk) → ChkSelector → Pos → Found × ChkSelector
  unfolding backward_from get_chunk_by_id_or_less_1 id_at
  get_pos_backward none cs p = (failed, cs)
  get_pos_backward (some []) cs p = (no_chunks, cs)
  get_pos_backward (some (ck ∷ rest)) cs p =
      let cks = ck ∷ rest in
      elim (get_chunk_by_id_or_less_1 cks p.cid) [
        | zero ↦ (out_at cks 0 (λ ch. 0), cs)
        | suc idx ↦
            backward_from cks (suc idx)
              (elim (get_elem? cks idx) [
                | none ↦ 0
                | some ch ↦ if ch.id == p.cid then p.idx else pred_uint32 ch.count
              ])
              cs
      ]
