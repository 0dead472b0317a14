-- ===== src/Partition/Service.antt =====
-- pkg/partition/partition.go, Truncate and what it calls: partitions are cut one by one, and then
-- deleted until the rest fits the global limit. The index of the partitions is that of
-- Tindex/Inmem; nobody else comes in between. What os.RemoveAll does is not
-- modelled; the folders that it is called for are noted.
pub mod Delete
pub mod Globally
pub mod Visit
mod Tests
use mathlib.Core.Bool.{not}
use logrange.Prelude.{
  ℕ, ◌+◌, ◌%◌, List, [], ◌∷◌, ◌++◌, Option, none, some, Bool, true, false, ◌||◌, ◌&&◌, ltb, ◌==◌,
  if◌then◌else◌, length,
}
use logrange.Prelude.Int.{ℤ, pos, leb_ℤ}
use logrange.Prelude.Assoc.{lookup}
use logrange.Tindex.Inmem.{
  InmemService, Reply, found, again, DeleteReply, deleted, take_matching, give_back,
  get_journal_tags, release_journal, lock_exclusively, unlock_exclusively,
}
use logrange.Tindex.Inmem
use logrange.Partition.Selector.{RecordsInfo}
use logrange.Partition.Truncate.{
  word64, sub_uint64, Chunk, TruncateParams, Journals, TruncateReply, removed, failed, panicked,
  truncate,
}
use logrange.Partition.Ordered.{insert_ordered}

-- `a + b` on uint64
abbrev pub add_uint64 : ℕ → ℕ → ℕ
add_uint64 a b = (a + b) % word64

pub record TruncateInfo (T : Type 0) : Type 0 where
  pub latest_ts : ℤ
  pub tags : T
  pub src : ℕ
  pub before_size : ℕ
  pub after_size : ℕ
  pub before_recs : ℕ
  pub after_recs : ℕ
  pub chunks_deleted : ℕ
  pub is_deleted : Bool

-- The index of the partitions, the journal of each name, and the folders that were given to
-- os.RemoveAll, the last one first.
pub record World (T J : Type 0) : Type 0 where
  pub ims : InmemService T
  pub journal : ℕ → J
  pub removed_dirs : List (List ℕ)

-- The answer of truncateGlobally: the partitions' information, and the chunks and bytes removed.
pub record GlobalResult (T J : Type 0) : Type 0 where
  pub infos : List (TruncateInfo T)
  pub chunks : ℕ
  pub bytes : ℕ
  pub world : World T J

-- `if len(dir) > 0 { err = os.RemoveAll(dir) }`, whose error is only logged.
abbrev pub with_dir : List ℕ → List (List ℕ) → List (List ℕ)
with_dir [] dirs = dirs
with_dir (c ∷ dir) dirs = (c ∷ dir) ∷ dirs

module _ {T : Type 0} where
  pub total_size : List (TruncateInfo T) → ℕ → ℕ
  total_size [] ts = ts
  total_size (ti ∷ infos) ts = total_size infos (add_uint64 ts ti.after_size)

  -- The infos that truncateGlobally hands to `otf`.
  pub changed : List (TruncateInfo T) → List (TruncateInfo T)
  changed [] = []
  changed (ti ∷ infos) =
      let rest = changed infos in if ti.after_size == ti.before_size then rest else ti ∷ rest

module _ {T J : Type 0} (parse : ℕ → Option T) (line_of : T → ℕ) (is_empty : T → Bool)
    (api : Journals J) where
  -- `deleteJournal`; `none` is a panic.
  pub delete_journal : World T J → ℕ → Option (Bool × World T J)
  delete_journal w jn =
      let (locked, ims) = lock_exclusively w.ims jn in
      let (answer, ims') = Inmem.delete_journal parse line_of is_empty ims jn in
      if not locked
      then some (false, w)
      else if ltb 0 (api.size (w.journal jn))
      then (elim (unlock_exclusively ims jn) [
        | none ↦ none
        | some ims1 ↦ some (false, record w { ims = ims1 })
      ])
      else (elim (unlock_exclusively ims' jn) [
        | none ↦ none
        | some ims1 ↦ some (elim answer [
          | deleted ↦ (
            true,
            record w {
              ims = ims1;
              removed_dirs = with_dir (api.local_folder (w.journal jn)) w.removed_dirs;
            },
          )
          | _ ↦ (false, record w { ims = ims1 })
        ])
      ])

  -- `tp.DryRun || s.deleteJournal(ctx, j)`
  pub delete_or_dry : Bool → World T J → ℕ → Option (Bool × World T J)
  delete_or_dry dry_run w jn = if dry_run then some (true, w) else delete_journal w jn

  -- The body of the loop of truncateGlobally for a partition that is not empty: whether it was
  -- deleted. A partition that is locked exclusively is waited for, which nobody ends here: `none`,
  -- as a panic.
  pub delete_one : TruncateParams → World T J → ℕ → Option (Bool × World T J)
  delete_one tp w src =
      let (answer, ims) = get_journal_tags true w.ims src in
      let acquired : Option (Bool × World T J) =
        if api.available src
        then (elim (delete_or_dry tp.dry_run (record w { ims = ims }) src) [
          | none ↦ none
          | some (gone, w') ↦ elim (release_journal w'.ims src) [
            | none ↦ none
            | some ims' ↦ some (gone, record w' { ims = ims' })
          ]
        ])
        else (elim (release_journal ims src) [
          | none ↦ none
          | some ims' ↦ some (false, record w { ims = ims' })
        ]) in
      elim answer [ found s t ↦ acquired | again ↦ none | _ ↦ some (false, w) ]

  -- `len(cks)` for `cks, _ := j.Chunks().Chunks(ctx)`
  abbrev count_chunks : J → ℕ
  count_chunks j = elim (api.chunks j) [ none ↦ 0 | some cks ↦ length cks ]

  -- The loop of truncateGlobally, with `ts` the bytes that are left.
  pub global_loop :
      TruncateParams → ℕ → List (TruncateInfo T) → GlobalResult T J → Option (GlobalResult T J)
  unfolding delete_one sub_uint64
  global_loop tp ts [] g = some g
  global_loop tp ts (ti ∷ infos) g =
      let kept = record g { infos = g.infos ++ ti ∷ [] } in
      let n = count_chunks (g.world.journal ti.src) in
      let gone : World T J → GlobalResult T J = λ w. record {
        infos =
            g.infos
            ++ (record ti {
              after_size = 0;
              after_recs = 0;
              chunks_deleted = ti.chunks_deleted + n;
              is_deleted = true;
            })
              ∷ [];
        chunks = g.chunks + n;
        bytes = add_uint64 g.bytes ti.after_size;
        world = w;
      } in
      elim (ltb tp.max_db_size ts) [
        | false ↦ some (record g { infos = g.infos ++ ti ∷ infos })
        | true ↦ elim (ltb 0 ti.after_size) [
          | false ↦ global_loop tp ts infos kept
          | true ↦ elim (delete_one tp g.world ti.src) [
            | none ↦ none
            | some (done, w) ↦ elim done [
              | false ↦ global_loop tp ts infos (record kept { world = w })
              | true ↦ global_loop tp (sub_uint64 ts ti.after_size) infos (gone w)
            ]
          ]
        ]
      ]

  pub truncate_globally :
      TruncateParams → List (TruncateInfo T) → World T J → Option (GlobalResult T J)
  unfolding global_loop total_size
  truncate_globally tp infos w =
      global_loop tp (total_size infos 0) infos
        (record { infos = []; chunks = 0; bytes = 0; world = w })
