-- ===== src/Partition/Listing/Pages.antt =====
-- What Partitions answers.
use mathlib.Core.List.{Perm}
use mathlib.Core.List.Perm
use logrange.Prelude.{
  ℕ, ◌+◌, ◌%◌, ◌≤◌, ◌≡◌, ◌⊎◌, List, [], ◌∷◌, ◌++◌, map, some, true, false, ltb, length, arith,
  Bool-cases, inl, inr,
}
use logrange.Prelude.Int.{ℤ}
use logrange.Partition.Ordered.{All, IsOrdered, insert_ordered}
use logrange.Partition.Truncate.{Journals, word64}
use logrange.Partition.Service.{World, add_uint64}
use logrange.Partition.Listing.{
  PartitionInfo, PartitionsReply, listed, no_result, Collected, info_of, collect, partitions,
}

-- A partition with no fewer bytes stands before.
abbrev pub LargestFirst : {T : Type 0} → PartitionInfo T → PartitionInfo T → Type 0
LargestFirst a b = b.size ≤ a.size

abbrev pub sum_of : {T : Type 0} → (PartitionInfo T → ℕ) → List (PartitionInfo T) → ℕ
sum_of f [] = 0
sum_of f (p ∷ ps) = f p + sum_of f ps

module _ {T J : Type 0} (api : Journals J) (w : World T J) where
  -- The variables after the visits of partitions that are all available.
  record IsCollected (visited : List (ℕ × T)) (c c' : Collected T) : Type 0 where
    fine : c'.op_err ≡ c.op_err
    counted : length c'.parts ≡ length visited + length c.parts
    same_parts : Perm c'.parts (map (info_of api w) visited ++ c.parts)
    in_order : IsOrdered LargestFirst c'.parts
    bytes : c'.ts ≡ (c.ts + sum_of (λ p. p.size) (map (info_of api w) visited)) % word64
    recs : c'.tr ≡ (c.tr + sum_of (λ p. p.records) (map (info_of api w) visited)) % word64

  abbrev AllAvailable : List (ℕ × T) → Type 0
  AllAvailable visited = All (λ (v : ℕ × T). api.available v.0 ≡ true) visited

  -- One more partition.
  abbrev added : ℕ × T → Collected T → Collected T
  added v c =
      let p = info_of api w v in
      record c {
        parts = insert_ordered (λ q. ltb q.size p.size) p c.parts;
        ts = add_uint64 c.ts p.size;
        tr = add_uint64 c.tr p.records;
      }

  abbrev start : Collected T
  start = record { parts = []; ts = 0; tr = 0; op_err = false }

  -- What Partitions answers beside the page.
  abbrev answer_of : List (ℕ × T) → List (PartitionInfo T) → PartitionsReply T
  answer_of visited ps = listed (record {
    partitions = ps;
    count = length (collect api w visited start).parts;
    total_size = (collect api w visited start).ts;
    total_records = (collect api w visited start).tr;
  })

  -- A page of the visited partitions, with their number and sums.
  abbrev pub summed : List (ℕ × T) → List (PartitionInfo T) → PartitionsReply T
  summed visited ps = listed (record {
    partitions = ps;
    count = length visited;
    total_size = sum_of (λ p. p.size) (map (info_of api w) visited) % word64;
    total_records = sum_of (λ p. p.records) (map (info_of api w) visited) % word64;
  })

  -- Some visited partition's journal cannot be had.
  abbrev pub SomeMissing : List (ℕ × T) → Type 0
  SomeMissing [] = ⊥
  SomeMissing (v ∷ visited) = (api.available v.0 ≡ false) ⊎ SomeMissing visited

  collect_fails :
      (visited : List (ℕ × T)) (c : Collected T)
      → SomeMissing visited
      → (collect api w visited c).op_err ≡ true
  unfolding collect
  collect_fails [] c missing = absurd missing
  collect_fails (v ∷ visited) c missing = elim (Bool-cases (api.available v.0)) [
    | inl can ↦ rw (can) (
        collect_fails visited (added v c)
          (elim missing [ inl cannot ↦ absurd (ground arith) | inr later ↦ later ]))
    | inr cannot ↦ rw (cannot)
  ]

  -- Partitions, where the visit succeeds but the journal of a visited partition cannot be had,
  -- returns neither a result nor an error.
  pub partitions_loses_error :
      (visited : List (ℕ × T)) (offset limit : ℤ)
      → SomeMissing visited
      → partitions api w visited false offset limit ≡ some no_result
  unfolding partitions
  partitions_loses_error visited offset limit missing = rw (collect_fails visited start missing)
