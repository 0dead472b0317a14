-- ===== src/Tmindex/Cindex/Queries.antt =====
-- The queries of the index by chunks, as what a selector of positions relies on.
use logrange.Prelude.{
  ℕ, suc, ◌<◌, ◌≤◌, Bool, List, [], ◌∷◌, Option, none, some, refl, ◌≡◌, sym, ap, subst, ◌∙◌, map,
  arith, get_elem?, Option-cases, inl, inr,
}
use mathlib.Core.Option.{some-injective}
use logrange.Prelude.Int.{ℤ, pos, ltb_ℤ, leb_ℤ, ◌≤ℤ◌, ◌<ℤ◌}
use logrange.Prelude.Assoc.{lookup}
use logrange.Prelude.Cases.{option_case, if_case}
use logrange.Partition.Selector.{RecordsInfo, Chunk, TsIndexer, TimeRange, max_uint32}
use logrange.Partition.Selector.Records.{Serves}
use logrange.Tmindex.Cindex.{
  ChkInfo, ChunkData, Ctrlr, Cindex, Reply, reply, fail, not_found, Outcome, at_record, all_matches,
  no_answer, find_chunk, find_chunk_idx, records_info_of, get_records_info,
  get_pos_for_greater_or_equal_time, get_pos_for_less_time, chunks_to_sorted_chunks,
}
use logrange.Tmindex.Cindex.Chunks.{IsAscending, find_chunk_idx_lem}
use logrange.Tmindex.Cindex.Merge.{by_id}
use logrange.Tmindex.Cindex.ById.{by_id_of_member, by_id-id, same_chunks, same_ids_at}
use logrange.Tmindex.Cindex.Sync.{chunks_of, sync_chunks}
use logrange.Tmindex.Cindex.Sync.Filled.{ids, IsAscending_of_ids}
use logrange.Tmindex.Cindex.Sync.Keeps.{
  ids-chunks_to_sorted_chunks, IsOrdered, sync_chunks-IsSynced,
}

outcome_case :
    {B : Type 0} (P : B → Type 0) {f : ℕ → B} {y z : B} (o : Outcome)
    → ((p : ℕ) → o ≡ at_record p → P (f p))
    → P y
    → P z
    → P (elim o [ at_record p ↦ f p | all_matches ↦ y | no_answer ↦ z ])
outcome_case P (at_record p) found all none_there = found p refl
outcome_case P all_matches found all none_there = all
outcome_case P no_answer found all none_there = none_there

-- What the index files are to answer for the tree of a chunk with `n` records: no record later than
-- `ts` is before the position for it, and none up to `ts` behind the other.
pub record Searches {C : Type 0} (cc : Ctrlr C) (st : C) (c : ChkInfo) (time : ℕ → ℤ) (n : ℕ)
    : Type 0 where
  pub greater :
      (ts : ℤ) (p : ℕ)
      → cc.gr_eq st c.idx_root ts ≡ at_record p
      → (x : ℕ) → x < n
      → ts <ℤ time x
      → p ≤ x
  pub less :
      (ts : ℤ) (p : ℕ)
      → cc.less st c.idx_root ts ≡ at_record p
      → (x : ℕ) → x < n
      → time x ≤ℤ ts
      → x ≤ p

abbrev info_or : Chunk → Option ChkInfo → RecordsInfo
info_or ch none = record { id = ch.id; min_ts = pos 0; max_ts = pos 0 }
info_or ch (some c) = record { id = c.id; min_ts = c.min_ts; max_ts = c.max_ts }

abbrev info_in : Chunk → List ChkInfo → RecordsInfo
info_in ch sc = info_or ch (by_id sc ch.id)

abbrev stored_chunks : Option (List ChkInfo) → List ChkInfo
stored_chunks o = elim o [ none ↦ [] | some sc ↦ sc ]

info_in-id : (ch : Chunk) (sc : List ChkInfo) → (info_in ch sc).id ≡ ch.id
info_in-id ch sc = elim (Option-cases (by_id sc ch.id)) [
  | inl e ↦ ap (λ o. (info_or ch o).id) e
  | inr (c, e) ↦ ap (λ o. (info_or ch o).id) e ∙ by_id-id sc ch.id c e
]

abbrev of_reply : {A : Type 0} → Reply A → Option A
of_reply (reply a) = some a
of_reply (fail e) = none

module _ {C : Type 0} (cc : Ctrlr C) (locked : ℕ → Bool) (data_of : Chunk → ChunkData)
    (ci : Cindex C) (src : ℕ) where
  -- The index as the selector of one journal calls it.
  abbrev pub indexer : TsIndexer
  indexer = record {
    get_records_info = λ cid. of_reply (records_info_of cc ci src cid);
    get_pos_for_greater_or_equal_time =
        λ cid ts. of_reply (get_pos_for_greater_or_equal_time cc ci src cid ts);
    get_pos_for_less_time = λ cid ts. of_reply (get_pos_for_less_time cc ci src cid ts);
    sync_chunks = λ cks. elim (sync_chunks cc locked ci src (map data_of cks)) [
      | none ↦ []
      | some res ↦ res.0
    ];
  }

  module _ (cid : ℕ) (ts : ℤ) (c : ChkInfo) (time : ℕ → ℤ) (n : ℕ)
      (e : find_chunk ci src cid ≡ some c) (s : Searches cc ci.cc c time n) where
    greater_lem :
        (p x : ℕ)
        → of_reply (get_pos_for_greater_or_equal_time cc ci src cid ts) ≡ some p
        → x < n
        → ts <ℤ time x
        → p ≤ x
    unfolding get_pos_for_greater_or_equal_time
    greater_lem p x answer lt late =
        let P = λ (r : Reply ℕ). of_reply r ≡ some p → p ≤ x in
        option_case P (find_chunk ci src cid) (λ none_there. absurd (ground arith))
          (λ d there.
            let same : c ≡ d = some-injective c d (sym e ∙ there) in
            let s' = subst (λ z. Searches cc ci.cc z time n) same s in
            if_case P (ltb_ℤ d.max_ts ts) (λ h a. absurd (ground arith))
              λ h1.
                if_case P (leb_ℤ ts d.min_ts) (λ h a. ground arith)
                  λ h2.
                    if_case P d.idx_corrupted (λ h a. absurd (ground arith))
                      λ h3.
                        outcome_case P (cc.gr_eq ci.cc d.idx_root ts)
                          (λ q eq a.
                            subst (λ z. z ≤ x) (some-injective q p a)
                              (s'.greater ts q eq x lt late))
                          (λ a. ground arith) (λ a. absurd (ground arith)))
          answer

    less_lem :
        (p x : ℕ)
        → of_reply (get_pos_for_less_time cc ci src cid ts) ≡ some p
        → x < n
        → n ≤ max_uint32
        → time x ≤ℤ ts
        → x ≤ p
    unfolding get_pos_for_less_time
    less_lem p x answer lt count early =
        let P = λ (r : Reply ℕ). of_reply r ≡ some p → x ≤ p in
        option_case P (find_chunk ci src cid) (λ none_there. absurd (ground arith))
          (λ d there.
            let same : c ≡ d = some-injective c d (sym e ∙ there) in
            let s' = subst (λ z. Searches cc ci.cc z time n) same s in
            if_case P (leb_ℤ d.max_ts ts) (λ h a. ground arith)
              λ h1.
                if_case P (leb_ℤ ts d.min_ts) (λ h a. absurd (ground arith))
                  λ h2.
                    if_case P d.idx_corrupted (λ h a. absurd (ground arith))
                      λ h3.
                        outcome_case P (cc.less ci.cc d.idx_root ts)
                          (λ q eq a.
                            subst (λ z. x ≤ z) (some-injective q p a) (s'.less ts q eq x lt early))
                          (λ a. ground arith) (λ a. ground arith))
          answer

  -- What the index knows of a chunk of the journal.
  abbrev info : Chunk → RecordsInfo
  info ch = info_in ch (chunks_of cc ci src)

  -- That the index knows the chunks of the journal, each by its span.
  pub record Knows (time : ℕ → ℕ → ℤ) (cks : List Chunk) : Type 0 where
    pub sc : List ChkInfo
    pub here : lookup ci.journals src ≡ some sc
    pub ordered : IsAscending 0 sc
    pub same_ids : ids sc ≡ map (λ ch. ch.id) cks
    pub data_ids : (ch : Chunk) → (data_of ch).id ≡ ch.id
    pub counts : (i : ℕ) (ch : Chunk) → get_elem? cks i ≡ some ch → ch.count ≤ max_uint32
    pub spans :
        (i : ℕ) (ch : Chunk) (c : ChkInfo)
        → get_elem? cks i ≡ some ch
        → get_elem? sc i ≡ some c
        → (x : ℕ) → x < ch.count
        → (c.min_ts ≤ℤ time ch.id x) × (time ch.id x ≤ℤ c.max_ts)
    pub searches :
        (i : ℕ) (ch : Chunk) (c : ChkInfo)
        → get_elem? cks i ≡ some ch
        → get_elem? sc i ≡ some c
        → Searches cc ci.cc c (time ch.id) ch.count

  module _ (time : ℕ → ℕ → ℤ) (cks : List Chunk) (k : Knows time cks) where
    -- The chunk of the index at the place of a chunk of the journal.
    known_at :
        (i : ℕ) (ch : Chunk)
        → get_elem? cks i ≡ some ch
        → (c : ChkInfo) × (get_elem? k.sc i ≡ some c) × (c.id ≡ ch.id)
    known_at i ch e = same_ids_at k.sc cks i ch k.same_ids e

    find_chunk_at :
        (i : ℕ) (ch : Chunk) (c : ChkInfo)
        → get_elem? k.sc i ≡ some c
        → c.id ≡ ch.id
        → find_chunk ci src ch.id ≡ some c
    unfolding find_chunk
    find_chunk_at i ch c e same =
        let found = (find_chunk_idx_lem k.sc ch.id i 0 k.ordered).1 (c, e, same) in
        ap
          (λ o. elim o [
            | none ↦ none
            | some sc ↦ elim (find_chunk_idx sc ch.id) [ none ↦ none | some idx ↦ get_elem? sc idx ]
          ])
          k.here
        ∙ ap (λ o. elim o [ none ↦ none | some idx ↦ get_elem? k.sc idx ]) found
        ∙ e

    info_at :
        (i : ℕ) (ch : Chunk) (c : ChkInfo)
        → get_elem? k.sc i ≡ some c
        → c.id ≡ ch.id
        → info ch ≡ record { id = c.id; min_ts = c.min_ts; max_ts = c.max_ts }
    info_at i ch c e same =
        let m = by_id_of_member 0 k.sc i c k.ordered e in
        ap (info_in ch) (ap stored_chunks k.here) ∙ ap (info_or ch) (ap (by_id k.sc) (sym same) ∙ m)

    synced_infos :
        (sc : List ChkInfo) (chs : List Chunk)
        → ids sc ≡ map (λ ch. ch.id) chs
        → ((i : ℕ) (ch : Chunk) (c : ChkInfo)
            → get_elem? chs i ≡ some ch
            → get_elem? sc i ≡ some c
            → info ch ≡ get_records_info c)
        → map get_records_info sc ≡ map info chs
    synced_infos [] [] e at = refl
    synced_infos [] (ch ∷ chs) e at = absurd (ground arith)
    synced_infos (c ∷ sc) [] e at = absurd (ground arith)
    synced_infos (c ∷ sc) (ch ∷ chs) e at =
        ap (λ z. z ∷ map get_records_info sc) (sym (at 0 ch c refl refl))
        ∙ ap (λ z. info ch ∷ z) (synced_infos sc chs (ground arith) (λ i. at (suc i)))

    map-data_of : (chs : List Chunk) → map (λ ck. ck.id) (map data_of chs) ≡ map (λ ch. ch.id) chs
    map-data_of [] = refl
    map-data_of (ch ∷ chs) =
        ap (λ z. z ∷ map (λ ck. ck.id) (map data_of chs)) (k.data_ids ch)
        ∙ ap (λ z. ch.id ∷ z) (map-data_of chs)

    sync_lem : indexer.sync_chunks cks ≡ map info cks
    unfolding get_records_info
    sync_lem =
        let given = ids-chunks_to_sorted_chunks (map data_of cks) ∙ map-data_of cks in
        let a =
          IsAscending_of_ids 0 k.sc (chunks_to_sorted_chunks (map data_of cks))
            (given ∙ sym k.same_ids) k.ordered in
        let own : IsOrdered ci src =
          λ sc e. subst (IsAscending 0) (some-injective k.sc sc (sym k.here ∙ e)) k.ordered in
        let (res, answered, synced) =
          sync_chunks-IsSynced cc locked ci src (map data_of cks) a own in
        let here = ap stored_chunks k.here in
        let kept : chunks_of cc res.1 src ≡ k.sc =
          same_chunks 0 k.sc (chunks_of cc res.1 src) k.ordered
            (synced.chunks ∙ map-data_of cks ∙ sym k.same_ids)
            (λ id c c' e e'. synced.keeps id c c' (ap (λ z. by_id z id) here ∙ e) e') in
        ap (λ o. elim o [ none ↦ [] | some r ↦ r.0 ]) answered
        ∙ synced.answers
        ∙ ap (map get_records_info) kept
        ∙ synced_infos k.sc cks k.same_ids λ i ch c e at.
          let (d, at', same) = known_at i ch e in
          info_at i ch c at (ap (λ z. z.id) (some-injective c d (sym at ∙ at')) ∙ same)

    -- If the index knows the chunks of the journal, their spans have the times of their records, and
    -- the trees in the index files answer positions that bound the records by time, then the index
    -- serves a selector for the times that are later than MinTs: it answers the chunks' spans; no
    -- record of a time `lo` or later, where MinTs < `lo`, is before the position that it answers for
    -- MinTs, and none of a time up to MaxTs is behind the one for MaxTs. Records at MinTs itself,
    -- which the comment of GetPosForGreaterOrEqualTime includes, are not covered.
    pub indexer-Serves :
        (rng : TimeRange) (lo : ℤ) → rng.min_ts <ℤ lo → Serves indexer rng time lo cks
    unfolding records_info_of get_records_info
    indexer-Serves rng lo start = record {
      starts = omega (arith, start);
      info = info;
      sync = sync_lem;
      ask = λ i ch e.
          let (c, at, same) = known_at i ch e in
          ap
            (λ o. of_reply (elim o [ none ↦ fail not_found | some d ↦ reply (get_records_info d) ]))
            (find_chunk_at i ch c at same)
          ∙ ap some (sym (info_at i ch c at same));
      same_id = λ ch. info_in-id ch (chunks_of cc ci src);
      spans = λ i ch e x lt.
          let (c, at, same) = known_at i ch e in
          subst (λ z. (z.min_ts ≤ℤ time ch.id x) × (time ch.id x ≤ℤ z.max_ts))
            (sym (info_at i ch c at same)) (k.spans i ch c e at x lt);
      greater = λ i ch e p answer x lt late.
          let (c, at, same) = known_at i ch e in
          greater_lem ch.id rng.min_ts c (time ch.id) ch.count (find_chunk_at i ch c at same)
            (k.searches i ch c e at) p x answer lt (omega (arith, start, late));
      less = λ i ch e p answer x lt early.
          let (c, at, same) = known_at i ch e in
          less_lem ch.id rng.max_ts c (time ch.id) ch.count (find_chunk_at i ch c at same)
            (k.searches i ch c e at) p x answer lt (k.counts i ch e) early;
      counts = k.counts;
    }
