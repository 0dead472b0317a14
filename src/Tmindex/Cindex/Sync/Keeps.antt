-- ===== src/Tmindex/Cindex/Sync/Keeps.antt =====
-- What syncChunks answers, and what it leaves of the chunks.
use logrange.Prelude.{
  ℕ, Bool, true, false, List, [], ◌∷◌, Option, none, some, refl, ◌≡◌, ◌≢◌, sym, ap, subst, ◌∙◌, map,
  arith,
}
use mathlib.Core.Option.{some-injective}
use logrange.Prelude.Assoc.{lookup, lookup-insert, lookup-erase}
use logrange.Prelude.Cases.{option_case}
use logrange.Partition.Selector.{RecordsInfo}
use logrange.Tmindex.Cindex.{
  ChkInfo, ChunkData, Ctrlr, Cindex, apply, chunks_to_sorted_chunks, make_records_info_copy,
  get_records_info, new_chk_info,
}
use logrange.Tmindex.Cindex.Chunks.{IsAscending, empty}
use logrange.Tmindex.Cindex.Merge.{by_id, taken, apply-IsMerge}
use logrange.Tmindex.Cindex.Sync.{chunks_of, known_spans, put_journal, put_synced, sync_chunks}
use logrange.Tmindex.Cindex.Sync.Filled.{ids, IsAscending_of_ids, Within-of_ids, light_fill_lem}

-- The chunks of a source are ordered by their ids.
abbrev pub IsOrdered : {C : Type 0} → Cindex C → ℕ → Type 0
IsOrdered ci src = (sc : List ChkInfo) → lookup ci.journals src ≡ some sc → IsAscending 0 sc

pub ids-chunks_to_sorted_chunks :
    (cks : List ChunkData) → ids (chunks_to_sorted_chunks cks) ≡ map (λ ck. ck.id) cks
unfolding chunks_to_sorted_chunks new_chk_info
ids-chunks_to_sorted_chunks [] = refl
ids-chunks_to_sorted_chunks (ck ∷ cks) = ap (λ z. ck.id ∷ z) (ids-chunks_to_sorted_chunks cks)

abbrev stored : List (ℕ × List ChkInfo) → ℕ → List ChkInfo
stored m src = elim (lookup m src) [ none ↦ [] | some sc ↦ sc ]

stored-put_journal :
    (m : List (ℕ × List ChkInfo)) (src : ℕ) (sc : List ChkInfo)
    → stored (put_journal m src sc) src ≡ sc
unfolding put_journal
stored-put_journal m src [] = let l = lookup-erase m src src in ground arith
stored-put_journal m src (c ∷ sc) = let l = lookup-insert m src src (c ∷ sc) in ground arith

lookup-put_journal :
    (m : List (ℕ × List ChkInfo)) (src : ℕ) (sc : List ChkInfo) (s : ℕ)
    → src ≢ s
    → lookup (put_journal m src sc) s ≡ lookup m s
unfolding put_journal
lookup-put_journal m src [] s ne = let l = lookup-erase m src s in ground arith
lookup-put_journal m src (c ∷ sc) s ne = let l = lookup-insert m src s (c ∷ sc) in ground arith

known_wins :
    (new known merged : Option ChkInfo) (c c' : ChkInfo)
    → merged ≡ (elim new [
      | none ↦ none
      | some d ↦ some (elim known [ none ↦ d | some c1 ↦ taken false d c1 ])
    ])
    → known ≡ some c
    → merged ≡ some c'
    → c' ≡ c
known_wins none known merged c c' m e e' = absurd (ground arith)
known_wins (some d) none merged c c' m e e' = absurd (ground arith)
known_wins (some d) (some c1) merged c c' m e e' = some-injective c' c (sym e' ∙ m ∙ e)

module _ {C : Type 0} (cc : Ctrlr C) where
  ids-known_spans :
      (ci : Cindex C) (src : ℕ) (cks : List ChunkData)
      → IsAscending 0 (chunks_to_sorted_chunks cks)
      → IsOrdered ci src
      → ids (known_spans cc ci src cks) ≡ ids (chunks_to_sorted_chunks cks)
  unfolding known_spans
  ids-known_spans ci src cks a ordered =
      option_case (λ sc. ids sc ≡ ids (chunks_to_sorted_chunks cks)) (lookup ci.journals src)
        (λ e. refl)
        λ sc e. (apply-IsMerge true (chunks_to_sorted_chunks cks) sc 0 0 a (ordered sc e)).same_ids

  chunks_of-IsAscending :
      (ci : Cindex C) (src : ℕ) → IsOrdered ci src → IsAscending 0 (chunks_of cc ci src)
  chunks_of-IsAscending ci src ordered =
      option_case (IsAscending 0) (lookup ci.journals src) (λ e. empty 0) (λ sc e. ordered sc e)

  -- What is to hold after chunks with the given ids were put, of the answer and of the chunks.
  pub record IsSynced (ci : Cindex C) (src : ℕ) (names : List ℕ) (res : List RecordsInfo × Cindex C)
      : Type 0 where
    pub chunks : ids (chunks_of cc res.1 src) ≡ names
    pub answers : res.0 ≡ map get_records_info (chunks_of cc res.1 src)
    pub ordered : IsOrdered res.1 src
    pub keeps :
        (k : ℕ) (c c' : ChkInfo)
        → by_id (chunks_of cc ci src) k ≡ some c
        → by_id (chunks_of cc res.1 src) k ≡ some c'
        → c' ≡ c
    pub others : (s : ℕ) → src ≢ s → lookup res.1.journals s ≡ lookup ci.journals s

  put_synced-IsSynced :
      (locked : ℕ → Bool) (ci : Cindex C) (src : ℕ) (filled : List ChkInfo)
      → IsAscending 0 filled
      → IsOrdered ci src
      → IsSynced ci src (ids filled) (put_synced cc locked ci src filled)
  unfolding put_synced make_records_info_copy get_records_info
  put_synced-IsSynced locked ci src filled a ordered =
      let new_sc = (apply false filled (chunks_of cc ci src)).0 in
      let m =
        apply-IsMerge false filled (chunks_of cc ci src) 0 0 a
          (chunks_of-IsAscending ci src ordered) in
      let put : chunks_of cc (put_synced cc locked ci src filled).1 src ≡ new_sc =
        stored-put_journal ci.journals src new_sc in
      record {
        chunks = ap ids put ∙ m.same_ids;
        answers = ap (map get_records_info) (sym put);
        ordered = λ sc e.
            IsAscending_of_ids 0 filled sc
              (ap ids (sym (ap (λ o. elim o [ none ↦ [] | some z ↦ z ]) e) ∙ put) ∙ m.same_ids) a;
        keeps = λ k c c' e e'.
            known_wins (by_id filled k) (by_id (chunks_of cc ci src) k) (by_id new_sc k) c c'
              (m.merged k) e (sym (ap (λ z. by_id z k) put) ∙ e');
        others = λ s ne. lookup-put_journal ci.journals src new_sc s ne;
      }

  -- For chunks ordered by their ids, and a source whose chunks are: syncChunks does not panic; the
  -- source then has exactly the given chunks, in their order, and the answer tells their spans; a
  -- chunk that was known stays as it was; other sources are not touched.
  pub sync_chunks-IsSynced :
      (locked : ℕ → Bool) (ci : Cindex C) (src : ℕ) (cks : List ChunkData)
      → IsAscending 0 (chunks_to_sorted_chunks cks)
      → IsOrdered ci src
      → (res : List RecordsInfo × Cindex C) × (sync_chunks cc locked ci src cks ≡ some res)
        × IsSynced ci src (map (λ ck. ck.id) cks) res
  unfolding sync_chunks
  sync_chunks-IsSynced locked ci src cks a ordered =
      let known = known_spans cc ci src cks in
      let same = ids-known_spans ci src cks a ordered in
      let a' = IsAscending_of_ids 0 (chunks_to_sorted_chunks cks) known same a in
      let (filled, e, i) =
        light_fill_lem 0 cks known a'
          (Within-of_ids 0 known cks a' (same ∙ ids-chunks_to_sorted_chunks cks)) in
      (
        put_synced cc locked ci src filled,
        ap (λ o. elim o [ none ↦ none | some f ↦ some (put_synced cc locked ci src f) ]) e,
        subst (λ z. IsSynced ci src z (put_synced cc locked ci src filled))
            (i ∙ same ∙ ids-chunks_to_sorted_chunks cks)
            (put_synced-IsSynced locked ci src filled (IsAscending_of_ids 0 known filled i a')
              ordered),
      )
