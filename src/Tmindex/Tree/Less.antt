-- ===== src/Tmindex/Tree/Less.antt =====
-- `less` finds the first point after a timestamp.
use logrange.Prelude.{
  ℕ, zero, suc, ◌+◌, ◌-◌, ◌≤◌, ◌<◌, ◌≡◌, ◌≢◌, refl, subst, Option, some, arith, ℕ_discrete, dec_lt,
  inl, inr,
}
use logrange.Prelude.Int.{ℤ, pos, negsuc, ◌≤ℤ◌, ◌<ℤ◌}
use logrange.Tmindex.Block.{Record, Buf, intervals, find_interval_idx}
use logrange.Tmindex.Block.Search.{find_interval_idx_lem}
use logrange.Tmindex.Tree.{
  Result, ok, err, all_matches, corrupted, out_of_fuel, read_first_record_in_the_tree, less_int,
}
use logrange.Tmindex.Tree.Shape.{
  ◌⊑◌, IsTree, leaf, node, Point, here, below, Point-leaf, Point-node, Point-between,
}
use logrange.Tmindex.Tree.Query.{FirstAfter, LessAnswer}
use logrange.Tmindex.Tree.Ends.{first_lem, first_Point, last_Point, node-IsOrdered, intervals-lt}

module _ (read : ℕ → Option Buf) where
  -- A tree that starts later than `ts`: the first point answers.
  all_after :
      {idx l : ℕ} {lo hi : Record} (ts : ℤ)
      → IsTree read idx l lo hi
      → ts <ℤ lo.ts
      → FirstAfter read idx ts lo
  all_after ts t h = record {
    is_point = first_Point read t;
    is_after = h;
    least = λ r' p after. (Point-between read t p).0;
  }

  none_after :
      {idx l : ℕ} {lo hi : Record} (ts : ℤ)
      → IsTree read idx l lo hi
      → hi.ts ≤ℤ ts
      → (r' : Record) → Point read r' idx
      → r'.ts ≤ℤ ts
  none_after ts t h r' p = let b = (Point-between read t p).1 in omega arith

  -- One call of `lessInt`, by where the timestamp falls.
  module _ (f idx : ℕ) (ts : ℤ) (b : Buf) (e : read idx ≡ some b) where
    less_before :
        find_interval_idx b ts ≡ negsuc 0
        → less_int read (suc f) idx ts ≡ read_first_record_in_the_tree read (suc f) b
    unfolding less_int
    less_before i = ground arith

    less_end :
        find_interval_idx b ts ≡ pos (intervals b) → less_int read (suc f) idx ts ≡ err all_matches
    unfolding less_int
    less_end i = ground arith

    less_leaf :
        (k : ℕ)
        → find_interval_idx b ts ≡ pos k
        → k < intervals b
        → b.lvl ≡ 0
        → less_int read (suc f) idx ts ≡ ok (b.places (suc k))
    unfolding less_int
    less_leaf k i lt l = let q : k + 1 ≡ suc k = omega arith in ground arith

    less_node :
        (k : ℕ)
        → find_interval_idx b ts ≡ pos k
        → k < intervals b
        → b.lvl ≢ 0
        → less_int read (suc f) idx ts ≡ less_int read f (b.places k).idx ts
    unfolding less_int
    less_node k i lt l = ground arith

  leaf-FirstAfter :
      {idx : ℕ} (ts : ℤ) (b : Buf) (k : ℕ)
      → read idx ≡ some b
      → b.lvl ≡ 0
      → ((i j : ℕ) → i ≤ j → j < b.recs → b.places i ⊑ b.places j)
      → suc k < b.recs
      → (b.places k).ts ≤ℤ ts
      → ts <ℤ (b.places (suc k)).ts
      → FirstAfter read idx ts (b.places (suc k))
  leaf-FirstAfter ts b k e l0 ord lt low high = record {
    is_point = here b (suc k) e l0 lt refl;
    is_after = high;
    least = λ r' p after.
        let (j, jlt, ej) = Point-leaf read b e l0 p in
        rw ej (elim (dec_lt k j) [
          | yes far ↦ ord (suc k) j far jlt
          | no near ↦ absurd (ground (arith, ord j k (omega arith) (omega arith)))
        ]);
  }

  node-FirstAfter :
      {idx l : ℕ} (ts : ℤ) (b : Buf) (edge : ℕ → Record) (k : ℕ) (r : Record)
      → read idx ≡ some b
      → b.lvl ≢ 0
      → ((i j : ℕ) → i ≤ j → j < b.recs → edge i ⊑ edge j)
      → ((i : ℕ) → i < b.recs → (b.places i).ts ≡ (edge i).ts)
      → ((i : ℕ) → suc i < b.recs → IsTree read (b.places i).idx l (edge i) (edge (suc i)))
      → suc k < b.recs
      → (b.places k).ts ≤ℤ ts
      → FirstAfter read (b.places k).idx ts r
      → FirstAfter read idx ts r
  node-FirstAfter ts b edge k r e n0 ord same child lt low first = record {
    is_point = below b k e n0 lt first.is_point;
    is_after = first.is_after;
    least = λ r' p after.
        let (j, jlt, q) = Point-node read b e n0 p in
        let (low', high') = Point-between read (child j jlt) q in
        elim (ℕ_discrete j k) [
          | yes same_child ↦
              first.least r' (subst (λ z. Point read r' (b.places z).idx) same_child q) after
          | no ne ↦ elim (dec_lt k j) [
            | yes far ↦
                let o = ord (suc k) j far (omega arith) in
                let (_, under) = Point-between read (child k lt) first.is_point in omega arith
            | no near ↦ absurd (ground (arith, ord (suc j) k (omega arith) (omega arith), same k))
          ]
        ];
  }

  node-answer :
      {idx l : ℕ} (ts : ℤ) (b : Buf) (edge : ℕ → Record) (k : ℕ) (res : Result Record)
      → read idx ≡ some b
      → b.lvl ≢ 0
      → ((i j : ℕ) → i ≤ j → j < b.recs → edge i ⊑ edge j)
      → ((i : ℕ) → i < b.recs → (b.places i).ts ≡ (edge i).ts)
      → ((i : ℕ) → suc i < b.recs → IsTree read (b.places i).idx l (edge i) (edge (suc i)))
      → suc k < b.recs
      → (b.places k).ts ≤ℤ ts
      → ts <ℤ (b.places (suc k)).ts
      → LessAnswer read (b.places k).idx ts res
      → LessAnswer read idx ts res
  node-answer ts b edge k (ok r) e n0 ord same child lt low high answer =
      node-FirstAfter ts b edge k r e n0 ord same child lt low answer
  node-answer ts b edge k (err all_matches) e n0 ord same child lt low high answer =
      absurd (ground (arith, answer (edge (suc k)) (last_Point read (child k lt)), same (suc k)))
  node-answer ts b edge k (err corrupted) e n0 ord same child lt low high answer = absurd answer
  node-answer ts b edge k (err out_of_fuel) e n0 ord same child lt low high answer = absurd answer

  -- `less` answers in every tree with more fuel than levels, with the first point after
  -- the timestamp; it says that all matches exactly if no point lies after it.
  pub less_int-answers :
      (f : ℕ) {idx l : ℕ} {lo hi : Record} (ts : ℤ)
      → IsTree read idx l lo hi
      → l < f
      → LessAnswer read idx ts (less_int read f idx ts)
  less_int-answers zero ts t lt = absurd (omega arith)
  less_int-answers (suc f) {idx} {lo = lo} {hi = hi} ts (leaf b e l0 fill ord elo ehi) lt =
      let t : IsTree read idx 0 lo hi = leaf b e l0 fill ord elo ehi in
      elim (find_interval_idx_lem b ts (record { sorted = λ i j ij jn. (ord i j ij jn).0 }) fill) [
        | inl (i, early) ↦
            rw (less_before f idx ts b e i, first_lem read (suc f) t lt b e)
              (all_after ts t (rw elo early))
        | inr (inl (i, late)) ↦ rw (less_end f idx ts b e i) (none_after ts t (rw ehi late))
        | inr (inr (k, i, kn, low, high)) ↦
            rw (less_leaf f idx ts b e k i kn l0)
              (leaf-FirstAfter ts b k e l0 ord (intervals-lt b k kn) low high)
      ]
  less_int-answers (suc f) {idx} {lo = lo} {hi = hi} ts
        (node {l = l} b edge e lv fill ord same child elo ehi) lt =
      let t : IsTree read idx (suc l) lo hi = node b edge e lv fill ord same child elo ehi in
      elim (find_interval_idx_lem b ts (node-IsOrdered b edge ord same) fill) [
        | inl (i, early) ↦
            rw (less_before f idx ts b e i, first_lem read (suc f) t lt b e)
              (all_after ts t (rw (elo, ← same 0 (omega arith)) early))
        | inr (inl (i, late)) ↦
            rw (less_end f idx ts b e i)
              (none_after ts t (rw (ehi, ← same (b.recs - 1) (omega arith)) late))
        | inr (inr (k, i, kn, low, high)) ↦ rw (less_node f idx ts b e k i kn (omega arith)) (
            node-answer ts b edge k _ e (omega arith) ord same child (intervals-lt b k kn) low high
              (less_int-answers f ts (child k (intervals-lt b k kn)) (omega arith)))
      ]
