-- ===== src/Partition/Truncate/Cut.antt =====
-- Which chunks truncate removes, and what it leaves of the journal.
use logrange.Prelude.{
  ℕ, zero, suc, ◌+◌, ◌-◌, ◌≤◌, ◌<◌, ◌≡◌, ◌⊎◌, inl, inr, refl, sym, subst, ap, ◌∙◌, List, [], ◌∷◌,
  Option, none, some, true, ◌&&◌, ltb, ◌==◌, ltb→lt, if◌then◌else◌, length, length-drop, get_elem?,
  get_elem?-drop, drop, arith, Bool-cases, Option-cases,
}
use logrange.Prelude.Int.{pos, ltb_ℤ, ◌<ℤ◌}
use logrange.Prelude.Cases.{if_case}
use logrange.Partition.Selector.{RecordsInfo}
use logrange.Partition.Truncate.{
  word64, sub_uint64, Chunk, TruncateParams, Journals, removed, failed, cut, cut_by_size, truncate,
  remove_chunks,
}
use logrange.Partition.Truncate.BySize.{total, cut_by_size-IsBigCut}
use logrange.Partition.Truncate.ByAge.{IsOutdated, IsOldCut, cut_by_age-OldCut}

-- The rule of sizes is on, and so is the rule of times.
abbrev pub BySize : TruncateParams → Type 0
BySize tp = (0 < tp.max_src_size) × (tp.min_src_size < tp.max_src_size)

abbrev pub ByAge : TruncateParams → Type 0
ByAge tp = pos 0 <ℤ tp.oldest_ts

-- The number of chunks to remove, `r.0`, with the size that is left, `r.1`: every removed chunk is
-- due by one of the rules when all before it are gone, nothing is removed that takes the partition
-- below its least size, and the next chunk is not due or has to stay for that reason.
pub record IsCut (tp : TruncateParams) (sc : List RecordsInfo) (cks : List Chunk) (r : ℕ × ℕ)
    : Type 0 where
  pub inside : r.0 ≤ length cks
  pub left : r.1 ≡ total (drop r.0 cks)
  pub leaves : (k : ℕ) → k < r.0 → tp.min_src_size ≤ total (drop (suc k) cks)
  pub due :
      (k : ℕ)
      → k < r.0
      → (BySize tp × (tp.max_src_size < total (drop k cks))) ⊎ (ByAge tp × IsOutdated tp sc k)
  pub small_enough :
      BySize tp
      → r.0 < length cks
      → (total (drop r.0 cks) ≤ tp.max_src_size) ⊎ (total (drop (suc r.0) cks) < tp.min_src_size)
  pub young_enough :
      ByAge tp
      → r.0 < length cks
      → (i : RecordsInfo) → get_elem? sc r.0 ≡ some i
      → (tp.oldest_ts <ℤ i.max_ts) ⊎ (total (drop (suc r.0) cks) < tp.min_src_size)

drop_nil : {A : Type 0} (n : ℕ) → drop n (let xs : List A = [] in xs) ≡ []
drop_nil zero = refl
drop_nil (suc n) = refl

drop-drop : {A : Type 0} (n k : ℕ) (xs : List A) → drop k (drop n xs) ≡ drop (n + k) xs
drop-drop zero k xs = let e : 0 + k ≡ k = omega arith in rw e
drop-drop (suc n) k [] = drop_nil k ∙ sym (drop_nil (suc n + k))
drop-drop (suc n) k (x ∷ xs) =
    let e : suc n + k ≡ suc (n + k) = omega arith in rw e (drop-drop n k xs)

total-drop-le : (n : ℕ) (cks : List Chunk) → total (drop n cks) ≤ total cks
total-drop-le zero cks = omega arith
total-drop-le (suc n) [] = omega arith
total-drop-le (suc n) (c ∷ cks) = omega (arith, total-drop-le n cks)

module _ (tp : TruncateParams) (sc : List RecordsInfo) (cks : List Chunk) where
  -- The first loop, or what stands for it when its rule is off.
  record IsFirstCut (r : ℕ × ℕ) : Type 0 where
    inside : r.0 ≤ length cks
    left : r.1 ≡ total (drop r.0 cks)
    leaves : (k : ℕ) → k < r.0 → tp.min_src_size ≤ total (drop (suc k) cks)
    over : (k : ℕ) → k < r.0 → BySize tp × (tp.max_src_size < total (drop k cks))
    small_enough :
        BySize tp
        → r.0 < length cks
        → (total (drop r.0 cks) ≤ tp.max_src_size) ⊎ (total (drop (suc r.0) cks) < tp.min_src_size)

  first-IsFirstCut :
      (size : ℕ)
      → size ≡ total cks
      → size < word64
      → IsFirstCut (
          if ltb 0 tp.max_src_size && ltb tp.min_src_size tp.max_src_size
          then cut_by_size tp size cks
          else (0, size))
  first-IsFirstCut size e small =
      if_case (λ (r : ℕ × ℕ). IsFirstCut r)
        (ltb 0 tp.max_src_size && ltb tp.min_src_size tp.max_src_size)
        (λ on.
          let c = cut_by_size-IsBigCut tp size cks e small in
          let by_size : BySize tp = ground arith in
          record {
            inside = c.inside;
            left = c.left;
            leaves = c.leaves;
            over = λ k h. (by_size, c.over k h);
            small_enough = λ _ h. c.stops h;
          })
        (λ off. record {
          inside = omega arith;
          left = e;
          leaves = λ k h. absurd (omega arith);
          over = λ k h. absurd (omega arith);
          small_enough = λ on h. absurd (ground arith);
        })

  first-IsCut : (r : ℕ × ℕ) → IsFirstCut r → (ByAge tp → length cks ≤ r.0) → IsCut tp sc cks r
  first-IsCut r c no_more = record {
    inside = c.inside;
    left = c.left;
    leaves = c.leaves;
    due = λ k h. inl (c.over k h);
    small_enough = c.small_enough;
    young_enough = λ on h. absurd (omega (arith, no_more on));
  }

  -- Both loops one after the other.
  module _ (b r : ℕ × ℕ) (c : IsFirstCut b) (on : ByAge tp)
      (d : IsOldCut tp (drop b.0 sc) (drop b.0 cks) r) where
    both_leave : (k : ℕ) → k < b.0 + r.0 → tp.min_src_size ≤ total (drop (suc k) cks)
    both_leave k h = elim (Bool-cases (ltb k b.0)) [
      | inl first ↦ c.leaves k (ltb→lt k b.0 first)
      | inr later ↦
          let i = k - b.0 in
          let at : b.0 + suc i ≡ suc k = ground arith in
          let dd = drop-drop b.0 (suc i) cks in
          subst (λ (cs : List Chunk). tp.min_src_size ≤ total cs)
            (dd ∙ ap (λ (n : ℕ). drop n cks) at) (d.leaves i (ground arith))
    ]

    later-IsOutdated : (k i : ℕ) → i < r.0 → b.0 + i ≡ k → IsOutdated tp sc k
    later-IsOutdated k i h at =
        let (info, e, old) = d.outdated i h in
        (info, sym (get_elem?-drop b.0 sc i k (sym at)) ∙ e, old)

    both_due :
        (k : ℕ)
        → k < b.0 + r.0
        → (BySize tp × (tp.max_src_size < total (drop k cks))) ⊎ (ByAge tp × IsOutdated tp sc k)
    both_due k h = elim (Bool-cases (ltb k b.0)) [
      | inl first ↦ inl (c.over k (ltb→lt k b.0 first))
      | inr later ↦ inr (on, later-IsOutdated k (k - b.0) (ground arith) (ground arith))
    ]

    both_small :
        BySize tp
        → b.0 + r.0 < length cks
        → (total (drop (b.0 + r.0) cks) ≤ tp.max_src_size)
          ⊎ (total (drop (suc (b.0 + r.0)) cks) < tp.min_src_size)
    both_small by_size h = elim (Bool-cases (r.0 == 0)) [
      | inl none_more ↦
          let e : b.0 ≡ b.0 + r.0 = ground arith in
          subst
            (λ (n : ℕ).
              (total (drop n cks) ≤ tp.max_src_size) ⊎ (total (drop (suc n) cks) < tp.min_src_size))
            e (c.small_enough by_size (omega arith))
      | inr more ↦ elim (c.small_enough by_size (omega arith)) [
        | inl small ↦ inl (
            let le = total-drop-le r.0 (drop b.0 cks) in
            let dd = ap total (drop-drop b.0 r.0 cks) in omega arith)
        | inr bound ↦ absurd (let keeps = both_leave b.0 (ground arith) in omega arith)
      ]
    ]

    both-IsCut : IsCut tp sc cks (b.0 + r.0, r.1)
    both-IsCut = record {
      inside = omega (arith, d.inside, length-drop b.0 cks, c.inside);
      left = d.left ∙ ap total (drop-drop b.0 r.0 cks);
      leaves = both_leave;
      due = both_due;
      small_enough = both_small;
      young_enough = λ _ h i e. elim (d.stops i (get_elem?-drop b.0 sc r.0 (b.0 + r.0) refl ∙ e)) [
        | inl young ↦ inl young
        | inr bound ↦ inr (
            let dd = ap total (drop-drop b.0 (suc r.0) cks) in
            let at : b.0 + suc r.0 ≡ suc (b.0 + r.0) = omega arith in
            subst (λ (n : ℕ). total (drop n cks) < tp.min_src_size) at (omega arith))
      ];
    }

-- The loops answer, and what they answer is such a cut.
abbrev pub Cuts : TruncateParams → List RecordsInfo → List Chunk → Option (ℕ × ℕ) → Type 0
Cuts tp sc cks o = (r : ℕ × ℕ) × (o ≡ some r) × IsCut tp sc cks r

pub cut-Cuts :
    (sync_chunks : List Chunk → List RecordsInfo) (tp : TruncateParams) (size : ℕ)
    (cks : List Chunk)
    → length (sync_chunks cks) ≤ length cks
    → size ≡ total cks
    → size < word64
    → Cuts tp (sync_chunks cks) cks (cut sync_chunks tp size cks)
unfolding cut
cut-Cuts sync_chunks tp size cks fits e small =
    let sc = sync_chunks cks in
    let b =
      if ltb 0 tp.max_src_size && ltb tp.min_src_size tp.max_src_size
      then cut_by_size tp size cks
      else (0, size) in
    let first = first-IsFirstCut tp sc cks size e small in
    if_case (Cuts tp sc cks) (ltb_ℤ (pos 0) tp.oldest_ts && ltb b.0 (length cks))
      (λ on.
        let (r, eq, d) =
          cut_by_age-OldCut tp b.1 (drop b.0 sc) (drop b.0 cks)
            (omega (arith, length-drop b.0 sc, length-drop b.0 cks)) first.left
            (omega (arith, total-drop-le b.0 cks, first.left)) in
        ((b.0 + r.0, r.1), rw eq, both-IsCut tp sc cks b r first (ground arith) d))
      (λ off. (b, refl, first-IsCut tp sc cks b first (λ on. ground arith)))

module _ {J : Type 0} (api : Journals J) where
  truncate-failed :
      (sync_chunks : List Chunk → List RecordsInfo) (tp : TruncateParams) (j : J)
      → api.chunks j ≡ none
      → truncate api sync_chunks tp j ≡ (failed, j)
  unfolding truncate
  truncate-failed sync_chunks tp j e = rw (e, truncate)

  truncate-remove_chunks :
      (sync_chunks : List Chunk → List RecordsInfo) (tp : TruncateParams) (j : J) (cks : List Chunk)
      (n size : ℕ)
      → api.chunks j ≡ some cks
      → cut sync_chunks tp (api.size j) cks ≡ some (n, size)
      → truncate api sync_chunks tp j ≡ remove_chunks api tp n (api.size j) size cks j
  unfolding truncate
  truncate-remove_chunks sync_chunks tp j cks n size read e = rw (read, truncate) (rw e)

  remove_chunks_dry :
      (tp : TruncateParams) (n isize size : ℕ) (cks : List Chunk) (j : J)
      → tp.dry_run ≡ true
      → remove_chunks api tp n isize size cks j ≡ (removed n (sub_uint64 isize size), j)
  unfolding remove_chunks
  remove_chunks_dry tp n isize size cks j dry = ground arith

  -- In a dry run the journal stays, and an error or a number of chunks and bytes is the answer.
  pub truncate_dry :
      (sync_chunks : List Chunk → List RecordsInfo) (tp : TruncateParams) (j : J)
      → tp.dry_run ≡ true
      → ((cks : List Chunk)
          → api.chunks j ≡ some cks
          → (length (sync_chunks cks) ≤ length cks)
            × (api.size j ≡ total cks)
            × (total cks < word64))
      → (truncate api sync_chunks tp j ≡ (failed, j))
        ⊎ (r : ℕ × ℕ) × (truncate api sync_chunks tp j ≡ (removed r.0 r.1, j))
  truncate_dry sync_chunks tp j dry fits = elim (Option-cases (api.chunks j)) [
    | inl unread ↦ inl (truncate-failed sync_chunks tp j unread)
    | inr (cks, read) ↦
        let f = fits cks read in
        let (r, eq, c) = cut-Cuts sync_chunks tp (api.size j) cks f.0 f.1 (omega arith) in
        inr (
          (r.0, sub_uint64 (api.size j) r.1),
          truncate-remove_chunks sync_chunks tp j cks r.0 r.1 read eq
              ∙ remove_chunks_dry tp r.0 (api.size j) r.1 cks j dry,
        )
  ]
