-- ===== src/Partition/Service/Visit.antt =====
-- pkg/partition/partition.go, Truncate: the visit of the partitions and what is reported.
pub mod Orders
pub mod DryRun
use logrange.Prelude.{
  ℕ, ◌+◌, ◌%◌, List, [], ◌∷◌, ◌++◌, Option, none, some, Bool, true, false, ◌||◌, ◌&&◌, ltb, ◌==◌,
  if◌then◌else◌,
}
use logrange.Prelude.Int.{ℤ, pos, leb_ℤ}
use logrange.Prelude.Assoc.{lookup}
use logrange.Tindex.Inmem.{InmemService, take_matching, give_back}
use logrange.Partition.Selector.{RecordsInfo}
use logrange.Partition.Truncate.{
  sub_uint64, Chunk, TruncateParams, Journals, TruncateReply, removed, failed, panicked, truncate,
}
use logrange.Partition.Ordered.{insert_ordered}
use logrange.Partition.Service.{
  TruncateInfo, World, GlobalResult, add_uint64, delete_journal, delete_or_dry, truncate_globally,
  changed,
}

-- The variables of Truncate, with the calls of `otf`.
pub record Truncating (T J : Type 0) : Type 0 where
  pub world : World T J
  pub cremoved : ℕ
  pub ts : ℕ
  pub rs : ℕ
  pub sorted_infos : List (TruncateInfo T)
  pub notified : List (TruncateInfo T)

-- What the visit asks of the time index: SyncChunks and LastChunkRecordsInfo (`none` is an error) of
-- a partition; and whether the context is still open after a partition was visited.
pub record Visitor : Type 0 where
  pub sync_chunks : ℕ → List Chunk → List RecordsInfo
  pub last_chunk_records_info : ℕ → Option RecordsInfo
  pub is_alive : ℕ → Bool
  pub has_otf : Bool

module _ {T J : Type 0} (parse : ℕ → Option T) (line_of : T → ℕ) (is_empty : T → Bool)
    (api : Journals J) (v : Visitor) where
  -- `otf(ti)`, if there is an otf
  abbrev pub notify : Truncating T J → TruncateInfo T → Truncating T J
  notify r ti = if v.has_otf then record r { notified = r.notified ++ ti ∷ [] } else r

  -- A partition with no bytes.
  unfoldable pub visit_empty : TruncateParams → T → ℕ → Truncating T J → Option (Truncating T J)
  visit_empty tp tags jn r = elim (delete_or_dry parse line_of is_empty api tp.dry_run r.world jn) [
    | none ↦ none
    | some (gone, w) ↦
        let ti : TruncateInfo T = record {
          latest_ts = pos 0;
          tags = tags;
          src = jn;
          before_size = 0;
          after_size = 0;
          before_recs = 0;
          after_recs = 0;
          chunks_deleted = 0;
          is_deleted = true;
        } in
        let r' = record r { world = w } in some (if gone then notify r' ti else r')
  ]

  -- `lci.MaxTs`, or 0 after an error
  abbrev pub latest : ℕ → ℤ
  latest jn = elim (v.last_chunk_records_info jn) [ none ↦ pos 0 | some lci ↦ lci.max_ts ]

  -- The test of the search: the infos are kept with the latest timestamp first.
  abbrev pub not_later : TruncateInfo T → TruncateInfo T → Bool
  not_later ti other = leb_ℤ other.latest_ts ti.latest_ts

  -- What follows a truncation that removed `n` chunks and `tr` bytes of `size`.
  unfoldable pub report_truncated :
      TruncateParams → T → ℕ → ℕ → ℕ → ℕ → ℕ → Truncating T J → Option (Truncating T J)
  report_truncated tp tags jn size recs n tr r =
      let tried : Option (Bool × World T J) =
        if tr == size
        then delete_or_dry parse line_of is_empty api tp.dry_run r.world jn
        else some (false, r.world) in
      elim tried [
        | none ↦ none
        | some (gone, w) ↦
            let ti : TruncateInfo T = record {
              latest_ts = latest jn;
              tags = tags;
              src = jn;
              before_size = size;
              after_size = sub_uint64 size tr;
              before_recs = recs;
              after_recs = api.count (r.world.journal jn);
              chunks_deleted = n;
              is_deleted = gone;
            } in
            some (record r {
              world = w;
              cremoved = r.cremoved + n;
              rs = add_uint64 r.rs tr;
              sorted_infos = insert_ordered (not_later ti) ti r.sorted_infos;
            })
      ]

  abbrev put_journal : World T J → ℕ → J → World T J
  put_journal w jn j = record w { journal = λ name. if name == jn then j else w.journal name }

  -- The visitor of Truncate. A failed truncation leaves nothing but the journal behind: no bytes
  -- are counted as removed, and a partition with bytes is then not empty.
  pub visit_one : TruncateParams → T → ℕ → Truncating T J → Option (Truncating T J)
  visit_one tp tags jn r =
      let j = r.world.journal jn in
      let size = api.size j in
      let (reply, j') = truncate api (v.sync_chunks jn) tp j in
      let r' = record r { world = put_journal r.world jn j'; ts = add_uint64 r.ts size } in
      let cut_off : Option (Truncating T J) = elim reply [
        | removed n tr ↦ report_truncated tp tags jn size (api.count j) n tr r'
        | failed ↦ some r'
        | panicked ↦ none
      ] in
      if api.available jn then if size == 0 then visit_empty tp tags jn r else cut_off else some r

  -- The calls of the visitor, which end when the context is closed.
  pub visit_all : TruncateParams → List (ℕ × T) → Truncating T J → Option (Truncating T J)
  unfolding visit_one
  visit_all tp [] r = some r
  visit_all tp ((jn, tags) ∷ parts) r = elim (visit_one tp tags jn r) [
    | none ↦ none
    | some r' ↦ elim (v.is_alive jn) [ true ↦ visit_all tp parts r' | false ↦ some r' ]
  ]

  -- The partitions to visit, with their tags.
  unfoldable pub described : InmemService T → List ℕ → List (ℕ × T)
  described ims [] = []
  described ims (src ∷ srcs) =
      let rest = described ims srcs in
      elim (lookup ims.smap src) [ none ↦ rest | some td ↦ (src, td.tags) ∷ rest ]

  -- `Truncate`: what it did, and whether it returns an error, which is that of the visit. Nothing is
  -- visited when the index is shut down.
  pub truncate_all : (T → Bool) → TruncateParams → World T J → Option (Truncating T J × Bool)
  unfolding visit_all described
  truncate_all tef tp w =
      let (srcs, taken) = take_matching tef w.ims.tmap w.ims in
      let start : Truncating T J = record {
        world = if w.ims.is_done then w else record w { ims = taken };
        cremoved = 0;
        ts = 0;
        rs = 0;
        sorted_infos = [];
        notified = [];
      } in
      let visited : Option (Truncating T J) =
        if w.ims.is_done then some start else (elim (visit_all tp (described taken srcs) start) [
          | none ↦ none
          | some r ↦ some (record r { world = record r.world { ims = give_back srcs r.world.ims } })
        ]) in
      elim visited [
        | none ↦ none
        | some r ↦ elim (truncate_globally parse line_of is_empty api tp r.sorted_infos r.world) [
          | none ↦ none
          | some g ↦ some (
            record r {
              world = g.world;
              cremoved = r.cremoved + g.chunks;
              rs = add_uint64 r.rs g.bytes;
              sorted_infos = g.infos;
              notified = if v.has_otf then r.notified ++ changed g.infos else r.notified;
            },
            w.ims.is_done,
          )
        ]
      ]
