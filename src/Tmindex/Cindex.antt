-- ===== src/Tmindex/Cindex.antt =====
-- pkg/tmindex/cindex.go: what is known of the chunks of each partition, and the queries on it.
-- A `*chkInfo` is a value in its place of the slice, since no other part of the program keeps one
-- between the calls; rebuildIndex tells it by its id. The index files (ckiCtrlr, which opens and maps
-- them) are the parameter `Ctrlr`, functions on a state `C`.
pub mod Chunks
pub mod Merge
pub mod ById
pub mod Queries
pub mod Trees
pub mod Writes
pub mod Rebuild
pub mod Sync
mod Tests
use logrange.Prelude.{
  ℕ, zero, suc, ◌+◌, ◌-◌, ◌*◌, ◌/◌, ◌%◌, Bool, true, false, ◌||◌, ◌&&◌, ltb, ◌==◌, if◌then◌else◌,
  List, [], ◌∷◌, ◌++◌, map, Option, none, some, length, get_elem?,
}
use logrange.Prelude.Int.{ℤ, pos, ltb_ℤ, leb_ℤ}
use logrange.Prelude.Assoc.{lookup}
use logrange.Partition.Selector.{RecordsInfo, max_uint32}
use logrange.Tmindex.Block.{Interval, Record}

-- A root of a tree of blocks in an index file; file 0 is none.
pub record Item : Type 0 where
  pub index_id : ℕ
  pub block : ℕ

abbrev pub no_item : Item
no_item = record { index_id = 0; block = 0 }

pub record ChkInfo : Type 0 where
  pub id : ℕ
  pub min_ts : ℤ
  pub max_ts : ℤ
  pub idx_root : Item
  pub last_rec : ℕ
  pub idx_corrupted : Bool

-- The errors: errors2.NotFound, ErrOutOfRange, ErrTmIndexCorrupted, and those passed on.
pub data Err : Type 0 where
  not_found : Err
  out_of_range : Err
  index_corrupted : Err
  passed_on : Err

pub data Reply (A : Type 0) : Type 0 where
  reply : A → Reply A
  fail : Err → Reply A

-- What a query on one tree answers: errAllMatches is told from the other errors.
pub data Outcome : Type 0 where
  at_record : ℕ → Outcome
  all_matches : Outcome
  no_answer : Outcome

-- One index file: `count` and `traversal` from a root block, where an error is `none`.
pub record Cki : Type 0 where
  pub count : ℕ → Option ℕ
  pub traversal : ℕ → Option (List Interval)

-- The root after `onWrite`, and whether there was no error.
pub record Written (C : Type 0) : Type 0 where
  pub root : Item
  pub saved : Bool
  pub ctrlr : C

pub record Ctrlr (C : Type 0) : Type 0 where
  pub arrange_root : C → Interval → Written C
  pub on_write : C → Item → Interval → Written C
  pub gr_eq : C → Item → ℤ → Outcome
  pub less : C → Item → ℤ → Outcome
  pub get_index : C → ℕ → Option Cki
  pub remove_item : C → Item → C
  pub remove_index : C → ℕ → C

-- The chunks of a source, by ids; the map `journals`, and the index files.
pub record Cindex (C : Type 0) : Type 0 where
  pub journals : List (ℕ × List ChkInfo)
  pub cc : C

-- A chunk of another repository: its id, its Count(), and what its iterator reads, by
-- getRecordTimestamp: `none` where there is no iterator, or where a record cannot be read.
pub record ChunkData : Type 0 where
  pub id : ℕ
  pub count : ℕ
  pub iterator : Option (List (Option ℤ))

-- `math.MaxInt64`
abbrev pub last_timestamp : ℤ
last_timestamp = pos 9223372036854775807

abbrev pub sparse_space : ℕ
sparse_space = 250

pub get_records_info : ChkInfo → RecordsInfo
get_records_info c = record { id = c.id; min_ts = c.min_ts; max_ts = c.max_ts }

pub update : ChkInfo → RecordsInfo → ChkInfo
update c ri = record c {
  min_ts = if ltb_ℤ ri.min_ts c.min_ts then ri.min_ts else c.min_ts;
  max_ts = if ltb_ℤ c.max_ts ri.max_ts then ri.max_ts else c.max_ts;
}

pub make_corrupted : ChkInfo → ChkInfo
make_corrupted c = record c { idx_corrupted = true; idx_root = no_item }

-- `ApplyTs` of tmindex.go.
pub apply_ts : RecordsInfo → ℤ → RecordsInfo
apply_ts ri ts = record ri {
  max_ts = if ltb_ℤ ri.max_ts ts then ts else ri.max_ts;
  min_ts = if ltb_ℤ ts ri.min_ts then ts else ri.min_ts;
}

pub make_records_info_copy : List ChkInfo → List RecordsInfo
make_records_info_copy sc = map get_records_info sc

pub new_chk_info : ChunkData → ChkInfo
new_chk_info ck = record {
  id = ck.id;
  min_ts = last_timestamp;
  max_ts = pos 0;
  idx_root = no_item;
  last_rec = 0;
  idx_corrupted = false;
}

pub chunks_to_sorted_chunks : List ChunkData → List ChkInfo
chunks_to_sorted_chunks cks = map new_chk_info cks

-- The loop of findChunkIdx, with the rounds that are left; `none` is -1.
pub find_loop : List ChkInfo → ℕ → ℕ → ℕ → ℕ → Option ℕ
find_loop sc cid zero i j = none
find_loop sc cid (suc n) i j =
    let h = (i + j) / 2 in
    elim (ltb i j) [
      | false ↦ none
      | true ↦ elim (get_elem? sc h) [
        | none ↦ none
        | some c ↦ elim (c.id == cid) [
          | true ↦ some h
          | false ↦ elim (ltb c.id cid) [
            | true ↦ find_loop sc cid n (h + 1) j
            | false ↦ find_loop sc cid n i h
          ]
        ]
      ]
    ]

pub find_chunk_idx : List ChkInfo → ℕ → Option ℕ
unfolding find_loop
find_chunk_idx sc cid = find_loop sc cid (length sc) 0 (length sc)

-- The chunk of a source, as every query looks it up.
pub find_chunk : {C : Type 0} → Cindex C → ℕ → ℕ → Option ChkInfo
unfolding find_chunk_idx lookup
find_chunk ci src cid = elim (lookup ci.journals src) [
  | none ↦ none
  | some sc ↦ elim (find_chunk_idx sc cid) [ none ↦ none | some idx ↦ get_elem? sc idx ]
]

-- The chunks merged with `sc1`, and those of `sc1` that are left out.
pub apply : Bool → List ChkInfo → List ChkInfo → List ChkInfo × List ChkInfo
apply copy_data [] sc1 = ([], sc1)
apply copy_data (c ∷ sc) [] = (c ∷ sc, [])
apply copy_data (c ∷ sc) (c1 ∷ sc1) = elim (ltb c1.id c.id) [
  | true ↦ (let (merged, removed) = apply copy_data (c ∷ sc) sc1 in (merged, c1 ∷ removed))
  | false ↦ elim (ltb c.id c1.id) [
    | true ↦ (let (merged, removed) = apply copy_data sc (c1 ∷ sc1) in (c ∷ merged, removed))
    | false ↦
        (let (merged, removed) = apply copy_data sc sc1 in
          (
            (if copy_data then record c { max_ts = c1.max_ts; min_ts = c1.min_ts } else c1)
                ∷ merged,
            removed,
          ))
  ]
]

-- The starts of the intervals, and the end of the last one. No intervals give one zero record,
-- which `make` leaves in the slice.
pub index_records : List Interval → List Record
index_records [] = record { ts = pos 0; idx = 0 } ∷ []
index_records (it ∷ []) = it.p0 ∷ it.p1 ∷ []
index_records (it ∷ it' ∷ its) = it.p0 ∷ index_records (it' ∷ its)

module _ {C : Type 0} (cc : Ctrlr C) where
  pub get_pos_for_greater_or_equal_time : Cindex C → ℕ → ℕ → ℤ → Reply ℕ
  unfolding find_chunk
  get_pos_for_greater_or_equal_time ci src cid ts = elim (find_chunk ci src cid) [
    | none ↦ fail not_found
    | some c ↦
        let by_index : Reply ℕ = elim (cc.gr_eq ci.cc c.idx_root ts) [
          | at_record p ↦ reply p
          | all_matches ↦ reply 0
          | no_answer ↦ fail index_corrupted
        ] in
        if ltb_ℤ c.max_ts ts
        then fail out_of_range
        else if leb_ℤ ts c.min_ts
        then reply 0
        else if c.idx_corrupted
        then fail index_corrupted
        else by_index
  ]

  pub get_pos_for_less_time : Cindex C → ℕ → ℕ → ℤ → Reply ℕ
  unfolding find_chunk
  get_pos_for_less_time ci src cid ts = elim (find_chunk ci src cid) [
    | none ↦ fail not_found
    | some c ↦
        let by_index : Reply ℕ = elim (cc.less ci.cc c.idx_root ts) [
          | at_record p ↦ reply p
          | all_matches ↦ reply max_uint32
          | no_answer ↦ reply max_uint32
        ] in
        if leb_ℤ c.max_ts ts
        then reply max_uint32
        else if leb_ℤ ts c.min_ts
        then fail out_of_range
        else if c.idx_corrupted
        then fail index_corrupted
        else by_index
  ]

  pub last_chunk_records_info : Cindex C → ℕ → Reply RecordsInfo
  unfolding lookup
  last_chunk_records_info ci src = elim (lookup ci.journals src) [
    | none ↦ fail not_found
    | some sc ↦ elim (get_elem? sc (length sc - 1)) [
      | none ↦ fail not_found
      | some c ↦ reply (get_records_info c)
    ]
  ]

  pub records_info_of : Cindex C → ℕ → ℕ → Reply RecordsInfo
  unfolding find_chunk
  records_info_of ci src cid = elim (find_chunk ci src cid) [
    | none ↦ fail not_found
    | some c ↦ reply (get_records_info c)
  ]

  pub count : Cindex C → ℕ → ℕ → Reply ℕ
  unfolding find_chunk
  count ci src cid = elim (find_chunk ci src cid) [
    | none ↦ fail not_found
    | some c ↦
        let of_index : Reply ℕ = elim (cc.get_index ci.cc c.idx_root.index_id) [
          | none ↦ fail index_corrupted
          | some cki ↦ elim (cki.count c.idx_root.block) [
            | none ↦ fail passed_on
            | some n ↦ reply n
          ]
        ] in
        if c.idx_root.index_id == 0 || c.idx_corrupted then fail index_corrupted else of_index
  ]

  pub read_data : Cindex C → ℕ → ℕ → Reply (List Record)
  unfolding find_chunk index_records
  read_data ci src cid = elim (find_chunk ci src cid) [
    | none ↦ fail not_found
    | some c ↦
        let of_index : Reply (List Record) = elim (cc.get_index ci.cc c.idx_root.index_id) [
          | none ↦ fail not_found
          | some cki ↦ elim (cki.count c.idx_root.block) [
            | none ↦ fail passed_on
            | some n ↦ elim (cki.traversal c.idx_root.block) [
              | none ↦ fail passed_on
              | some its ↦ reply (index_records its)
            ]
          ]
        ] in
        if c.idx_corrupted then fail index_corrupted else of_index
  ]
