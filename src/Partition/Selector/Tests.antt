-- ===== src/Partition/Selector/Tests.antt =====
-- The selector on a journal of two chunks, and its theorems there.
use logrange.Prelude.{
  ℕ, zero, suc, ◌+◌, ◌*◌, ◌≤◌, ◌<◌, ◌≡◌, refl, subst, ◌⊎◌, List, [], ◌∷◌, none, some, arith, ◌==◌,
  if◌then◌else◌, get_elem?,
}
use mathlib.Core.Option.{some-injective}
use logrange.Prelude.Int.{ℤ, pos, ◌≤ℤ◌}
use logrange.Prelude.Assoc.{lookup}
use logrange.Partition.Selector.{
  Chunk, ChkStatus, ChkSelector, TsIndexer, TimeRange, RecordsInfo, max_uint32, get_chunk_status,
  at_chunk, get_pos_forward, get_pos_backward,
}
use logrange.Partition.Selector.Chunks.{IsAscending}
use logrange.Partition.Selector.Records.{Serves, IsSound, StatusOf, get_chunk_status_lem}
use logrange.Partition.Selector.Forward.{ForwardAnswer, get_pos_forward-answers}
use logrange.Partition.Selector.Backward.{BackwardAnswer, get_pos_backward-answers}

abbrev third : Chunk
third = record { id = 3; count = 2 }

abbrev seventh : Chunk
seventh = record { id = 7; count = 3 }

abbrev two_chunks : List Chunk
two_chunks = third ∷ seventh ∷ []

-- 10 and 20 in the chunk 3; 30, 40 and 50 in the chunk 7
abbrev times : ℕ → ℕ → ℤ
times id x = if id == 3 then pos (10 + 10 * x) else pos (30 + 10 * x)

abbrev info_of : Chunk → RecordsInfo
info_of c =
    if c.id == 3
    then record { id = c.id; min_ts = pos 10; max_ts = pos 20 }
    else record { id = c.id; min_ts = pos 30; max_ts = pos 50 }

abbrev index : TsIndexer
index = record {
  get_records_info = λ id. some (info_of (record { id = id; count = 0 }));
  get_pos_for_greater_or_equal_time = λ id ts. if id == 7 then some 1 else none;
  get_pos_for_less_time = λ id ts. if id == 7 then some 2 else none;
  sync_chunks = λ cks. info_of third ∷ info_of seventh ∷ [];
}

-- from 35 to 45
abbrev some_range : TimeRange
some_range = record { min_ts = pos 35; max_ts = pos 45 }

abbrev new_selector : ChkSelector
new_selector = record { stats = []; rebuilds = [] }

by_chunk :
    (P : ℕ → Chunk → Type 0)
    → P 0 third
    → P 1 seventh
    → (i : ℕ) (c : Chunk) → get_elem? two_chunks i ≡ some c
    → P i c
by_chunk P a b zero c e = subst (P 0) (some-injective third c e) a
by_chunk P a b (suc zero) c e = subst (P 1) (some-injective seventh c e) b
by_chunk P a b (suc (suc i)) c e = absurd (ground arith)

two_chunks-IsAscending : IsAscending two_chunks
two_chunks-IsAscending = record {
  ascending = λ i j ci cj ij ei ej.
      let h =
        by_chunk (λ k c. (k ≡ 0) × (c.id ≡ 3) ⊎ (k ≡ 1) × (c.id ≡ 7)) (ground arith)
          (ground arith) in
      let hi = h i ci ei in let hj = h j cj ej in ground arith;
}

index-Serves : Serves index some_range times (pos 35) two_chunks
index-Serves = record {
  starts = omega arith;
  info = info_of;
  sync = refl;
  ask = by_chunk (λ i c. index.get_records_info c.id ≡ some (info_of c)) refl refl;
  same_id = λ c. ground arith;
  spans =
      by_chunk
        (λ i c.
          (x : ℕ)
          → x < c.count
          → ((info_of c).min_ts ≤ℤ times c.id x) × (times c.id x ≤ℤ (info_of c).max_ts))
        (λ x lt. omega arith) (λ x lt. omega arith);
  greater =
      by_chunk
        (λ i c.
          (p : ℕ)
          → index.get_pos_for_greater_or_equal_time c.id some_range.min_ts ≡ some p
          → (x : ℕ) → x < c.count
          → pos 35 ≤ℤ times c.id x
          → p ≤ x)
        (λ p h x lt late. omega arith) (λ p h x lt late. ground arith);
  less =
      by_chunk
        (λ i c.
          (p : ℕ)
          → index.get_pos_for_less_time c.id some_range.max_ts ≡ some p
          → (x : ℕ) → x < c.count
          → times c.id x ≤ℤ some_range.max_ts
          → x ≤ p)
        (λ p h x lt early. ground arith) (λ p h x lt early. ground arith);
  counts = by_chunk (λ i c. c.count ≤ max_uint32) (omega arith) (omega arith);
}

new_selector-IsSound : IsSound index some_range times (pos 35) two_chunks []
unfolding lookup
new_selector-IsSound = record { sound = λ i c st e l n. absurd (ground arith) }

abbrev middle : ChkStatus
middle = record { min_pos = 2; max_pos = 5; count = 4 }

forward_run :
    (get_pos_forward index some_range
      (some two_chunks)
      new_selector
      (record { cid = 0; idx = 0 })).0
    ≡ at_chunk seventh
        (record { min_pos = 1; max_pos = 2; count = 3 })
        (record { cid = 7; idx = 1 })
unfolding get_pos_forward
forward_run = refl

backward_run :
    (get_pos_backward index some_range
      (some two_chunks)
      new_selector
      (record { cid = 9; idx = 0 })).0
    ≡ at_chunk seventh
        (record { min_pos = 1; max_pos = 2; count = 3 })
        (record { cid = 7; idx = 2 })
unfolding get_pos_backward
backward_run = refl

get_chunk_status_lem_example :
    StatusOf index some_range times
      (pos 35)
      two_chunks
      index-Serves
      two_chunks-IsAscending
      seventh
      (get_chunk_status index some_range new_selector seventh two_chunks)
get_chunk_status_lem_example =
    get_chunk_status_lem index some_range times (pos 35) two_chunks index-Serves
      two_chunks-IsAscending new_selector 1 seventh new_selector-IsSound refl

get_pos_forward-answers_example :
    ForwardAnswer index some_range times
      (pos 35)
      two_chunks
      index-Serves
      two_chunks-IsAscending
      (record { cid = 0; idx = 0 })
      (get_pos_forward index some_range
        (some two_chunks)
        new_selector
        (record { cid = 0; idx = 0 })).0
    × IsSound index some_range times
        (pos 35)
        two_chunks
        (get_pos_forward index some_range
          (some two_chunks)
          new_selector
          (record { cid = 0; idx = 0 })).1.stats
get_pos_forward-answers_example =
    get_pos_forward-answers index some_range times (pos 35) two_chunks index-Serves
      two_chunks-IsAscending new_selector (record { cid = 0; idx = 0 }) (omega arith)
      new_selector-IsSound

get_pos_backward-answers_example :
    BackwardAnswer index some_range times
      (pos 35)
      two_chunks
      index-Serves
      two_chunks-IsAscending
      (record { cid = 9; idx = 0 })
      (get_pos_backward index some_range
        (some two_chunks)
        new_selector
        (record { cid = 9; idx = 0 })).0
    × IsSound index some_range times
        (pos 35)
        two_chunks
        (get_pos_backward index some_range
          (some two_chunks)
          new_selector
          (record { cid = 9; idx = 0 })).1.stats
get_pos_backward-answers_example =
    get_pos_backward-answers index some_range times (pos 35) two_chunks index-Serves
      two_chunks-IsAscending new_selector (record { cid = 9; idx = 0 }) (omega arith)
      new_selector-IsSound
