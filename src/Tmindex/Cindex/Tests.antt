-- ===== src/Tmindex/Cindex/Tests.antt =====
-- Runs of the index by chunks, over index files that keep the intervals that they are given.
use logrange.Prelude.{
  ℕ, zero, suc, ◌+◌, ◌/◌, ◌<◌, ◌≤◌, true, false, ◌==◌, if◌then◌else◌, List, [], ◌∷◌, Option, none,
  some, refl, sym, ◌≡◌, subst, map, arith, get_elem?,
}
use mathlib.Core.Option.{some-injective}
use logrange.Prelude.Int.{ℤ, pos, ◌≤ℤ◌}
use logrange.Prelude.Assoc.{lookup}
use logrange.Partition.Selector.{RecordsInfo, Chunk, max_uint32}
use logrange.Partition.Selector.Records.{Serves}
use logrange.Tmindex.Block.{Interval, Record, Buf}
use logrange.Tmindex.Block.Covers.{Covers}
use logrange.Tmindex.Tree.Sound.{Covers-IsTree, Covers-IsTruthful}
use logrange.Tmindex.Cindex.Trees.{Files, file_ctrlr, file_ctrlr-Searches}
use logrange.Tmindex.Cindex.{
  no_item, Ctrlr, ChkInfo, ChunkData, Cindex, find_chunk_idx, apply, chunks_to_sorted_chunks,
  new_chk_info,
}
use logrange.Tmindex.Cindex.Chunks.{IsAscending, empty, next}
use logrange.Tmindex.Cindex.Writes.{on_write}
use logrange.Tmindex.Cindex.Writes.Spans.{KeepsSources, EndsNoted, on_write-Widens}
use logrange.Tmindex.Cindex.Rebuild.{rebuild_index_int}
use logrange.Tmindex.Cindex.Rebuild.Pieces.{
  recorder, IsRebuilt, rebuild_index_int-IsRebuilt, rebuild_index_int_reports,
}
use logrange.Tmindex.Cindex.Sync.{sync_chunks}
use logrange.Tmindex.Cindex.Sync.Keeps.{IsSynced, sync_chunks-IsSynced}
use logrange.Tmindex.Cindex.Queries.{Searches, indexer, Knows, indexer-Serves}

abbrev chunk_at : ℕ → ℕ → ℕ → ChkInfo
chunk_at id lo hi = record {
  id = id;
  min_ts = pos lo;
  max_ts = pos hi;
  idx_root = no_item;
  last_rec = 0;
  idx_corrupted = false;
}

abbrev two_chunks : List ChkInfo
two_chunks = chunk_at 3 10 20 ∷ chunk_at 5 20 30 ∷ []

abbrev other_chunks : List ChkInfo
other_chunks = chunk_at 4 1 2 ∷ chunk_at 5 25 35 ∷ []

two_chunks-IsAscending : IsAscending 0 two_chunks
two_chunks-IsAscending = next 0 _ _ (omega arith) (next 4 _ _ (omega arith) (empty 6))

other_chunks-IsAscending : IsAscending 0 other_chunks
other_chunks-IsAscending = next 0 _ _ (omega arith) (next 5 _ _ (omega arith) (empty 6))

abbrev index : Cindex (List Interval)
index = record { journals = (1, two_chunks) ∷ []; cc = [] }

abbrev written : RecordsInfo
written = record { id = 5; min_ts = pos 31; max_ts = pos 33 }

-- The chunk 3 of the journal has two records.
abbrev journal_chunk : ℕ → ChunkData
journal_chunk id = record {
  id = id;
  count = 2;
  iterator = some (some (pos 12) ∷ some (pos 15) ∷ []);
}

test_find : find_chunk_idx two_chunks 5 ≡ some 1
unfolding find_chunk_idx
test_find = refl

test_apply :
    apply true two_chunks other_chunks
    ≡ (chunk_at 3 10 20 ∷ chunk_at 5 25 35 ∷ [], chunk_at 4 1 2 ∷ [])
unfolding apply
test_apply = refl

on_write-Widens_example :
    KeepsSources recorder index.journals (on_write recorder false index 1 2 3 written).1.journals
    × EndsNoted recorder (on_write recorder false index 1 2 3 written).1.journals 1 written
on_write-Widens_example = on_write-Widens recorder false index 1 2 3 written

rebuild_index_int-IsRebuilt_example :
    IsRebuilt (pos 12 ∷ pos 15 ∷ []) (rebuild_index_int recorder [] (journal_chunk 3))
rebuild_index_int-IsRebuilt_example =
    rebuild_index_int-IsRebuilt (journal_chunk 3) (pos 12) (pos 15 ∷ []) (omega arith) refl
      (omega arith)

rebuild_index_int_reports_example : (rebuild_index_int recorder [] (journal_chunk 3)).failed ≡ false
rebuild_index_int_reports_example =
    rebuild_index_int_reports recorder [] (journal_chunk 3) (pos 12) (pos 15 ∷ []) refl refl

abbrev journal : List ChunkData
journal = journal_chunk 3 ∷ journal_chunk 7 ∷ []

journal-IsAscending : IsAscending 0 (chunks_to_sorted_chunks journal)
unfolding chunks_to_sorted_chunks new_chk_info
journal-IsAscending = next 0 _ _ (omega arith) (next 4 _ _ (omega arith) (empty 8))

index-IsOrdered : (sc : List ChkInfo) → lookup index.journals 1 ≡ some sc → IsAscending 0 sc
unfolding lookup
index-IsOrdered sc e = subst (IsAscending 0) (some-injective two_chunks sc e) two_chunks-IsAscending

sync_chunks-IsSynced_example :
    (res : List RecordsInfo × Cindex (List Interval)) × (sync_chunks recorder
        (λ id. true)
        index
        1
        journal
      ≡ some res)
    × IsSynced recorder index 1 (map (λ ck. ck.id) journal) res
sync_chunks-IsSynced_example =
    sync_chunks-IsSynced recorder (λ id. true) index 1 journal journal-IsAscending index-IsOrdered

abbrev data_of : Chunk → ChunkData
data_of ch = journal_chunk ch.id

abbrev point : ℕ → ℕ → Record
point t i = record { ts = pos t; idx = i }

-- The index of a chunk of 501 records, stamped 10, 10, ..., and one more each 25 records.
abbrev points : Buf
points = record {
  recs = 3;
  lvl = 0;
  places = λ k. if k == 0 then point 10 0 else if k == 1 then point 20 250 else point 30 500;
}

abbrev time : ℕ → ℕ → ℤ
time id x = pos (10 + x / 25)

abbrev storage : ℕ → Option Buf
storage block = if block == 1 then some points else none

abbrev files : Files
files id = if id == 6 then some storage else none

-- Files that are not written to.
abbrev read_only : Ctrlr Files
read_only =
    file_ctrlr 1 (λ f it. record { root = no_item; saved = false; ctrlr = f })
      (λ f root it. record { root = root; saved = false; ctrlr = f }) (λ f root. f)

abbrev indexed : ChkInfo
indexed = record (chunk_at 3 10 30) { idx_root = record { index_id = 6; block = 1 } }

points-Covers : Covers (time 3) 0 501 points
points-Covers = record {
  ordered = record { sorted = λ i j ij jn. ground arith };
  filled = omega arith;
  fits = omega arith;
  start = refl;
  positions = λ i j ij jn. ground arith;
  idx_in = λ i lt. ground arith;
  lowest = λ x sx xm. omega arith;
  highest = λ x sx xm. omega arith;
  before = λ i x lt sx xi. ground arith;
  after = λ i x lt ix xm. ground arith;
}

file_ctrlr-Searches_example : Searches read_only files indexed (time 3) 501
file_ctrlr-Searches_example =
    file_ctrlr-Searches 1 (λ f it. record { root = no_item; saved = false; ctrlr = f })
      (λ f root it. record { root = root; saved = false; ctrlr = f }) (λ f root. f) files indexed
      storage (time 3) 501 0 (point 10 0) (point 30 500) refl
      (Covers-IsTree storage (time 3) 0 501 1 points refl refl points-Covers) (omega arith)
      (Covers-IsTruthful storage (time 3) 0 501 1 points refl refl points-Covers)

indexed-Searches : Searches read_only files indexed (time 3) 501
indexed-Searches =
    file_ctrlr-Searches 1 (λ f it. record { root = no_item; saved = false; ctrlr = f })
      (λ f root it. record { root = root; saved = false; ctrlr = f }) (λ f root. f) files indexed
      storage (time 3) 501 0 (point 10 0) (point 30 500) refl
      (Covers-IsTree storage (time 3) 0 501 1 points refl refl points-Covers) (omega arith)
      (Covers-IsTruthful storage (time 3) 0 501 1 points refl refl points-Covers)

abbrev read_chunks : List Chunk
read_chunks = record { id = 3; count = 501 } ∷ []

abbrev one_chunk : Cindex Files
one_chunk = record { journals = (1, indexed ∷ []) ∷ []; cc = files }

counted : (i : ℕ) (ch : Chunk) → get_elem? read_chunks i ≡ some ch → ch.count ≤ max_uint32
counted zero ch e = subst (λ z. z.count ≤ max_uint32) (some-injective _ ch e) (omega arith)
counted (suc i) ch e = absurd (ground arith)

spanned :
    (i : ℕ) (ch : Chunk) (c : ChkInfo)
    → get_elem? read_chunks i ≡ some ch
    → get_elem? (indexed ∷ []) i ≡ some c
    → (x : ℕ) → x < ch.count
    → (c.min_ts ≤ℤ time ch.id x) × (time ch.id x ≤ℤ c.max_ts)
spanned zero ch c e ec x lt =
    let less : x < 501 = subst (λ z. x < z.count) (sym (some-injective _ ch e)) lt in
    subst (λ z. (z.min_ts ≤ℤ time ch.id x) × (time ch.id x ≤ℤ z.max_ts))
      (some-injective indexed c ec) (omega arith, omega (arith, less))
spanned (suc i) ch c e ec x lt = absurd (ground arith)

searched :
    (i : ℕ) (ch : Chunk) (c : ChkInfo)
    → get_elem? read_chunks i ≡ some ch
    → get_elem? (indexed ∷ []) i ≡ some c
    → Searches read_only files c (time ch.id) ch.count
searched zero ch c e ec =
    subst (λ z. Searches read_only files z (time ch.id) ch.count) (some-injective indexed c ec)
      (subst (λ z. Searches read_only files indexed (time z.id) z.count) (some-injective _ ch e)
        indexed-Searches)
searched (suc i) ch c e ec = absurd (ground arith)

read_chunks-Knows : Knows read_only (λ id. true) data_of one_chunk 1 time read_chunks
unfolding lookup
read_chunks-Knows = record {
  sc = indexed ∷ [];
  here = refl;
  ordered = next 0 _ _ (omega arith) (empty 4);
  same_ids = refl;
  data_ids = λ ch. refl;
  counts = counted;
  spans = spanned;
  searches = searched;
}

indexer-Serves_example :
    Serves
      (indexer read_only (λ id. true) data_of one_chunk 1)
      (record { min_ts = pos 15; max_ts = pos 19 })
      time
      (pos 16)
      read_chunks
indexer-Serves_example =
    indexer-Serves read_only (λ id. true) data_of one_chunk 1 time read_chunks read_chunks-Knows
      (record { min_ts = pos 15; max_ts = pos 19 }) (pos 16) (omega arith)
