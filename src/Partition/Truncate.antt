-- ===== src/Partition/Truncate.antt =====
-- pkg/partition/partition.go, truncate: the oldest chunks of one partition are cut off. Journals are
-- of another repository: `Journals` is what the code asks of them. Sizes are uint64 and wrap.
-- `sync_chunks` is the call of the time index (TsIndexer.SyncChunks) for the journal.
pub mod BySize
pub mod ByAge
pub mod Cut
mod Tests
use logrange.Prelude.{
  ℕ, suc, ◌+◌, ◌-◌, ◌%◌, List, [], ◌∷◌, Option, none, some, Bool, true, false, ◌&&◌, ◌||◌, ltb, leb,
  ◌==◌, if◌then◌else◌, length, get_elem?, drop,
}
use logrange.Prelude.Int.{ℤ, pos, ltb_ℤ, leb_ℤ}
use logrange.Partition.Selector.{RecordsInfo}

abbrev pub word64 : ℕ
word64 = 18446744073709551616

abbrev pub word63 : ℕ
word63 = 9223372036854775808

-- `a - b` on uint64
unfoldable pub sub_uint64 : ℕ → ℕ → ℕ
sub_uint64 a b = (a + word64 - b) % word64

pub record Chunk : Type 0 where
  pub id : ℕ
  pub size : ℕ
  pub count : ℕ

-- The fields of TruncateParams but for TagsExpr, which selects the partitions.
pub record TruncateParams : Type 0 where
  pub dry_run : Bool
  pub max_src_size : ℕ
  pub min_src_size : ℕ
  pub oldest_ts : ℤ
  pub max_db_size : ℕ

-- What the code asks of a journal: `Chunks().Chunks(ctx)`, with `none` for an error, `Size()`,
-- `Count()`, and `Chunks().DeleteChunks(ctx, lastCid, ...)`. Whether the controller's GetOrCreate
-- answers for a name is `available`.
pub record Journals (J : Type 0) : Type 0 where
  pub available : ℕ → Bool
  pub chunks : J → Option (List Chunk)
  pub size : J → ℕ
  pub count : J → ℕ
  pub delete_chunks : J → ℕ → Option ℕ × J
  pub local_folder : J → List ℕ

pub data TruncateReply : Type 0 where
  removed : ℕ → ℕ → TruncateReply
  failed : TruncateReply
  panicked : TruncateReply

-- The loop by the size: how many chunks it passes, and the size that is left.
pub cut_by_size : TruncateParams → ℕ → List Chunk → ℕ × ℕ
unfolding sub_uint64
cut_by_size tp size [] = (0, size)
cut_by_size tp size (c ∷ cks) =
    let rest = cut_by_size tp (sub_uint64 size c.size) cks in
    if ltb tp.max_src_size size && leb tp.min_src_size (sub_uint64 size c.size)
    then (suc rest.0, rest.1)
    else (0, size)

-- The loop by the time, from the chunk on where the first one stopped; `none` is a panic, where
-- there are fewer chunks than the time index answered for.
pub cut_by_age : TruncateParams → ℕ → List RecordsInfo → List Chunk → Option (ℕ × ℕ)
unfolding sub_uint64
cut_by_age tp size [] cks = some (0, size)
cut_by_age tp size (r ∷ sc) [] = if leb_ℤ r.max_ts tp.oldest_ts then none else some (0, size)
cut_by_age tp size (r ∷ sc) (c ∷ cks) =
    let rest = cut_by_age tp (sub_uint64 size c.size) sc cks in
    if leb_ℤ r.max_ts tp.oldest_ts && leb tp.min_src_size (sub_uint64 size c.size)
    then (elim rest [ none ↦ none | some (n, left) ↦ some (suc n, left) ])
    else some (0, size)

-- Both loops: how many chunks are to be removed, and the size that is left.
pub cut : (List Chunk → List RecordsInfo) → TruncateParams → ℕ → List Chunk → Option (ℕ × ℕ)
unfolding cut_by_size cut_by_age
cut sync_chunks tp size cks =
    let big =
      if ltb 0 tp.max_src_size && ltb tp.min_src_size tp.max_src_size
      then cut_by_size tp size cks
      else (0, size) in
    let sc = sync_chunks cks in
    let old = cut_by_age tp big.1 (drop big.0 sc) (drop big.0 cks) in
    if ltb_ℤ (pos 0) tp.oldest_ts && ltb big.0 (length cks)
    then (elim old [ none ↦ none | some (n, left) ↦ some (big.0 + n, left) ])
    else some big

module _ {J : Type 0} (api : Journals J) where
  -- The end of truncate, where `n` chunks are to be removed.
  unfoldable pub remove_chunks : TruncateParams → ℕ → ℕ → ℕ → List Chunk → J → TruncateReply × J
  unfolding sub_uint64
  remove_chunks tp n isize size cks j =
      if n == 0 || tp.dry_run
      then (removed n (sub_uint64 isize size), j)
      else (elim (get_elem? cks (n - 1)) [
        | none ↦ (panicked, j)
        | some c ↦
            (let (answer, j') = api.delete_chunks j c.id in
              elim answer [
                | none ↦ (failed, j')
                | some m ↦ (removed m (sub_uint64 isize size), j')
              ])
      ])

  pub truncate : (List Chunk → List RecordsInfo) → TruncateParams → J → TruncateReply × J
  unfolding cut remove_chunks
  truncate sync_chunks tp j = elim (api.chunks j) [
    | none ↦ (failed, j)
    | some cks ↦ elim (cut sync_chunks tp (api.size j) cks) [
      | none ↦ (panicked, j)
      | some (n, size) ↦ remove_chunks tp n (api.size j) size cks j
    ]
  ]
