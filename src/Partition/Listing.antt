-- ===== src/Partition/Listing.antt =====
-- pkg/partition/partition.go: the calls that hand out partitions, Partitions, GetJournals,
-- GetJournal and GetParitionInfo. Visits are those of Tindex/Inmem, where nobody else comes in
-- between; waiting for a partition that is locked exclusively, and a panic, are `none`.
pub mod Limits
pub mod Pages
pub mod Acquired
mod Tests
use logrange.Prelude.{
  ℕ, zero, suc, ◌+◌, ◌-◌, ◌%◌, List, [], ◌∷◌, ◌++◌, Option, none, some, Bool, true, false, ltb, leb,
  ◌==◌, if◌then◌else◌, length, get_elem?,
}
use logrange.Prelude.Int.{ℤ, pos, negsuc, ltb_ℤ, leb_ℤ, ◌-ℤ◌}
use logrange.Prelude.Assoc.{lookup, insert}
use logrange.Tindex.Inmem.{
  InmemService, Reply, found, again, not_found, get_journal_tags, release_journal, visit_acquire,
}
use logrange.Partition.Selector.{RecordsInfo}
use logrange.Partition.Truncate.{word64, word63, Chunk, Journals}
use logrange.Partition.Service.{World, add_uint64}
use logrange.Partition.Ordered.{insert_ordered}

pub record PartitionInfo (T : Type 0) : Type 0 where
  pub tags : T
  pub size : ℕ
  pub records : ℕ

pub record PartitionsInfo (T : Type 0) : Type 0 where
  pub partitions : List (PartitionInfo T)
  pub count : ℕ
  pub total_size : ℕ
  pub total_records : ℕ

-- What Partitions returns: a result, an error, or neither.
pub data PartitionsReply (T : Type 0) : Type 0 where
  listed : PartitionsInfo T → PartitionsReply T
  not_listed : PartitionsReply T
  no_result : PartitionsReply T

-- The variables that the visitor of Partitions sets.
pub record Collected (T : Type 0) : Type 0 where
  pub parts : List (PartitionInfo T)
  pub ts : ℕ
  pub tr : ℕ
  pub op_err : Bool

-- `a - b` on int, which has 64 bits.
abbrev pub wrap_int64 : ℤ → ℤ
wrap_int64 (pos n) = let w = n % word64 in if ltb w word63 then pos w else negsuc (word64 - 1 - w)
wrap_int64 (negsuc n) =
    let w = n % word64 in if ltb w word63 then negsuc w else pos (word64 - 1 - w)

-- The last loop of Partitions: `n` partitions from the index `i` on. A negative index panics, as one
-- behind the last partition does.
pub page : {T : Type 0} → ℕ → ℤ → List (PartitionInfo T) → Option (List (PartitionInfo T))
page zero i parts = some []
page (suc n) (negsuc i) parts = none
page (suc n) (pos i) parts = elim (get_elem? parts i) [
  | none ↦ none
  | some p ↦ elim (page n (pos (i + 1)) parts) [ none ↦ none | some ps ↦ some (p ∷ ps) ]
]

-- `make([]*PartitionInfo, n)` and the loop that fills it; a negative `n` panics.
pub make_page : {T : Type 0} → ℤ → ℤ → List (PartitionInfo T) → Option (List (PartitionInfo T))
make_page (negsuc n) i parts = none
make_page (pos n) i parts = page n i parts

module _ {T J : Type 0} (api : Journals J) where
  unfoldable pub info_of : World T J → ℕ × T → PartitionInfo T
  info_of w v = record {
    tags = v.1;
    size = api.size (w.journal v.0);
    records = api.count (w.journal v.0);
  }

  -- The calls of the visitor of Partitions, for the partitions in the order of the visit.
  pub collect : World T J → List (ℕ × T) → Collected T → Collected T
  unfolding info_of
  collect w [] c = c
  collect w (v ∷ visited) c =
      let p = info_of w v in
      let next = collect w visited (record c {
        parts = insert_ordered (λ q. ltb q.size p.size) p c.parts;
        ts = add_uint64 c.ts p.size;
        tr = add_uint64 c.tr p.records;
      }) in
      if api.available v.0 then next else record c { op_err = true }

  -- `Partitions`, where `failed` says that the visit returned an error.
  pub partitions : World T J → List (ℕ × T) → Bool → ℤ → ℤ → Option (PartitionsReply T)
  unfolding collect make_page
  partitions w visited failed offset limit =
      let c = collect w visited (record { parts = []; ts = 0; tr = 0; op_err = false }) in
      let n = length c.parts in
      let wanted = if ltb_ℤ (pos 1000) limit then pos 1000 else limit in
      let sz = wrap_int64 (pos n -ℤ offset) in
      let cut = if ltb_ℤ sz wanted then sz else wanted in
      let info = λ (ps : List (PartitionInfo T)).
        listed (record { partitions = ps; count = n; total_size = c.ts; total_records = c.tr }) in
      if failed
      then some not_listed
      else if c.op_err
      then some no_result
      else if leb_ℤ (pos n) offset
      then some (info [])
      else (elim (make_page cut offset c.parts) [ none ↦ none | some ps ↦ some (info ps) ])

  -- The visit of GetJournals, which does not release what the visitor was called with: the map of
  -- journals, `none` in place of an error of the visitor or the visit, and the index.
  pub get_loop :
      (T → ℕ)
      → ℕ
      → InmemService T
      → List ℕ
      → List (ℕ × ℕ)
      → Option (List (ℕ × ℕ) × Bool × InmemService T)
  get_loop line_of max_limit ims [] res = some (res, false, ims)
  get_loop line_of max_limit ims (src ∷ srcs) res =
      let (answer, taken) = visit_acquire ims src in
      elim answer [
        | found s tags ↦ elim (api.available src) [
          | false ↦ some (res, true, taken)
          | true ↦ elim (length (insert res (line_of tags) src) == max_limit) [
            | true ↦ some (insert res (line_of tags) src, true, taken)
            | false ↦ get_loop line_of max_limit taken srcs (insert res (line_of tags) src)
          ]
        ]
        | not_found ↦ get_loop line_of max_limit ims srcs res
        | again ↦ none
        | _ ↦ some (res, true, ims)
      ]

  pub release_all : List (ℕ × ℕ) → InmemService T → Option (InmemService T)
  release_all [] ims = some ims
  release_all ((line, src) ∷ res) ims = elim (release_journal ims src) [
    | none ↦ none
    | some ims' ↦ release_all res ims'
  ]

  -- `GetJournals`: the journals by their lines, or `none` for an error, and the index. `srcs` are
  -- the partitions that the visit collected.
  pub get_journals :
      (T → ℕ) → ℕ → InmemService T → List ℕ → Option (Option (List (ℕ × ℕ)) × InmemService T)
  get_journals line_of max_limit ims srcs = elim (get_loop line_of max_limit ims srcs []) [
    | none ↦ none
    | some (res, failed, ims') ↦
        if failed
        then (elim (release_all res ims') [ none ↦ none | some released ↦ some (none, released) ])
        else some (some res, ims')
  ]

  -- `GetJournal`: the tags of the partition, which is held then; an error is `none`.
  pub get_journal : InmemService T → ℕ → Option (Option T × InmemService T)
  get_journal ims jn =
      let (answer, taken) = get_journal_tags true ims jn in
      elim answer [
        | found s tags ↦
            if api.available jn then some (some tags, taken) else (elim (release_journal taken jn) [
              | none ↦ none
              | some released ↦ some (none, released)
            ])
        | again ↦ none
        | _ ↦ some (none, ims)
      ]

-- What GetParitionInfo says of one chunk: its records and bytes, the span of its records, and
-- whether the time index counts its intervals, or has to be rebuilt.
pub record ChunkInfo : Type 0 where
  pub id : ℕ
  pub size : ℕ
  pub records : ℕ
  pub min_ts : ℤ
  pub max_ts : ℤ
  pub is_indexed : Bool

-- The loop of GetParitionInfo over the time index's answer, with the chunks and the sums of bytes
-- and records; the chunks to rebuild are collected. A chunk that is not there is a panic.
pub chunk_infos :
    (ℕ → Option ℕ)
    → List RecordsInfo
    → List Chunk
    → ℕ
    → ℕ
    → Option (List ChunkInfo × ℕ × ℕ × List ℕ)
chunk_infos index_count [] cks sz tr = some ([], sz, tr, [])
chunk_infos index_count (r ∷ sc) [] sz tr = none
chunk_infos index_count (r ∷ sc) (c ∷ cks) sz tr =
    let is_indexed : Bool = elim (index_count r.id) [ none ↦ false | some n ↦ true ] in
    let ci : ChunkInfo = record {
      id = r.id;
      size = c.size;
      records = c.count;
      min_ts = r.min_ts;
      max_ts = r.max_ts;
      is_indexed = is_indexed;
    } in
    elim (chunk_infos index_count sc cks (add_uint64 sz c.size) (add_uint64 tr c.count)) [
      | none ↦ none
      | some (cis, sz', tr', rebuilds) ↦
          some (ci ∷ cis, sz', tr', if is_indexed then rebuilds else r.id ∷ rebuilds)
    ]
