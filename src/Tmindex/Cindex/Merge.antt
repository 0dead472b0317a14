-- ===== src/Tmindex/Cindex/Merge.antt =====
-- pkg/tmindex/cindex.go: apply, compared with a lookup of each id.
use logrange.Prelude.{
  ℕ, suc, ◌<◌, ◌≤◌, ◌≡◌, refl, ap, ◌∙◌, Bool, ltb, ltb→lt, ◌==◌, if◌then◌else◌, List, [], ◌∷◌,
  Option, none, some, arith, map,
}
use logrange.Prelude.Cases.{bool_case}
use logrange.Tmindex.Cindex.{ChkInfo, apply}
use logrange.Tmindex.Cindex.Chunks.{IsAscending, next}

-- The first chunk with an id.
abbrev pub by_id : List ChkInfo → ℕ → Option ChkInfo
by_id [] k = none
by_id (c ∷ sc) k = if c.id == k then some c else by_id sc k

pub by_id_of_lt : (b : ℕ) (sc : List ChkInfo) (k : ℕ) → IsAscending b sc → k < b → by_id sc k ≡ none
by_id_of_lt b [] k a lt = refl
by_id_of_lt b (c ∷ sc) k (next _ _ _ le a) lt =
    let ih = by_id_of_lt (suc c.id) sc k a (omega arith) in ground arith

abbrev pub taken : Bool → ChkInfo → ChkInfo → ChkInfo
taken copy_data c c1 = if copy_data then record c { max_ts = c1.max_ts; min_ts = c1.min_ts } else c1

-- What the merge of two slices is to hold: for each id of the first, the chunk of the second
-- where there is one; left out is what the first does not have.
pub record IsMerge (copy_data : Bool) (sc sc1 : List ChkInfo) (res : List ChkInfo × List ChkInfo)
    : Type 0 where
  pub same_ids : map (λ c. c.id) res.0 ≡ map (λ c. c.id) sc
  pub merged :
      (k : ℕ)
      → by_id res.0 k ≡ (elim (by_id sc k) [
        | none ↦ none
        | some c ↦ some (elim (by_id sc1 k) [ none ↦ c | some c1 ↦ taken copy_data c c1 ])
      ])
  pub removed : (k : ℕ) → by_id res.1 k ≡ (elim (by_id sc k) [ none ↦ by_id sc1 k | some c ↦ none ])

module _ (copy_data : Bool) (c c1 : ChkInfo) (sc sc1 : List ChkInfo) where
  left_out-IsMerge :
      (res : List ChkInfo × List ChkInfo)
      → ((k : ℕ) → k ≤ c1.id → by_id (c ∷ sc) k ≡ none)
      → IsMerge copy_data (c ∷ sc) sc1 res
      → IsMerge copy_data (c ∷ sc) (c1 ∷ sc1) (res.0, c1 ∷ res.1)
  left_out-IsMerge res absent m = record {
    same_ids = m.same_ids;
    merged = λ k. let e = m.merged k in let q = absent k in e ∙ (ground arith);
    removed = λ k. let e = m.removed k in let q = absent k in ground arith;
  }

  kept-IsMerge :
      (res : List ChkInfo × List ChkInfo)
      → by_id (c1 ∷ sc1) c.id ≡ none
      → by_id sc c.id ≡ none
      → IsMerge copy_data sc (c1 ∷ sc1) res
      → IsMerge copy_data (c ∷ sc) (c1 ∷ sc1) (c ∷ res.0, res.1)
  kept-IsMerge res absent1 absent m = record {
    same_ids = ap (λ z. c.id ∷ z) m.same_ids;
    merged = λ k. let e = m.merged k in (ground arith);
    removed = λ k. let e = m.removed k in (ground arith);
  }

  taken-IsMerge :
      (res : List ChkInfo × List ChkInfo)
      → c.id ≡ c1.id
      → by_id sc c.id ≡ none
      → by_id sc1 c.id ≡ none
      → IsMerge copy_data sc sc1 res
      → IsMerge copy_data (c ∷ sc) (c1 ∷ sc1) (taken copy_data c c1 ∷ res.0, res.1)
  taken-IsMerge res same absent absent1 m = record {
    same_ids = (ground arith);
    merged = λ k. let e = m.merged k in (ground arith);
    removed = λ k. let e = m.removed k in (ground arith);
  }

-- Merging two slices that are ordered by ids keeps the ids of the first, takes what the second
-- knows of them, and leaves out exactly the chunks of the second whose ids the first has not.
pub apply-IsMerge :
    (copy_data : Bool) (sc sc1 : List ChkInfo) (b b1 : ℕ)
    → IsAscending b sc
    → IsAscending b1 sc1
    → IsMerge copy_data sc sc1 (apply copy_data sc sc1)
unfolding apply
apply-IsMerge copy_data [] sc1 b b1 a a1 = record {
  same_ids = refl;
  merged = λ k. refl;
  removed = λ k. refl;
}
apply-IsMerge copy_data (c ∷ sc) [] b b1 a a1 = record {
  same_ids = refl;
  merged = λ k. ground arith;
  removed = λ k. ground arith;
}
apply-IsMerge copy_data (c ∷ sc) (c1 ∷ sc1) b b1 (next _ _ _ le a) (next _ _ _ le1 a1) =
    let P = λ (res : List ChkInfo × List ChkInfo). IsMerge copy_data (c ∷ sc) (c1 ∷ sc1) res in
    bool_case P (ltb c1.id c.id)
      (λ lt.
        let lt' = ltb→lt c1.id c.id lt in
        let all : IsAscending c.id (c ∷ sc) = next c.id c sc (omega arith) a in
        left_out-IsMerge copy_data c c1 sc sc1 (apply copy_data (c ∷ sc) sc1)
          (λ k le. by_id_of_lt c.id (c ∷ sc) k all (omega arith))
          (apply-IsMerge copy_data (c ∷ sc) sc1 c.id (suc c1.id) all a1))
      λ ge.
        bool_case P (ltb c.id c1.id)
          (λ lt.
            let lt' = ltb→lt c.id c1.id lt in
            let all1 : IsAscending c1.id (c1 ∷ sc1) = next c1.id c1 sc1 (omega arith) a1 in
            kept-IsMerge copy_data c c1 sc sc1 (apply copy_data sc (c1 ∷ sc1))
              (by_id_of_lt c1.id (c1 ∷ sc1) c.id all1 lt')
              (by_id_of_lt (suc c.id) sc c.id a (omega arith))
              (apply-IsMerge copy_data sc (c1 ∷ sc1) (suc c.id) c1.id a all1))
          (λ ge1.
            let same : c.id ≡ c1.id = ground arith in
            taken-IsMerge copy_data c c1 sc sc1 (apply copy_data sc sc1) same
              (by_id_of_lt (suc c.id) sc c.id a (omega arith))
              (by_id_of_lt (suc c1.id) sc1 c.id a1 (omega arith))
              (apply-IsMerge copy_data sc sc1 (suc c.id) (suc c1.id) a a1))
