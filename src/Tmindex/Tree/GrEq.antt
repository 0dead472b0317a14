-- ===== src/Tmindex/Tree/GrEq.antt =====
-- `grEq` finds the last point up to a timestamp.
use logrange.Prelude.{
  ℕ, zero, suc, ◌-◌, ◌≤◌, ◌<◌, ◌≡◌, ◌≢◌, refl, subst, Option, some, arith, ℕ_discrete, dec_lt, inl,
  inr,
}
use logrange.Prelude.Int.{ℤ, pos, negsuc, ◌≤ℤ◌, ◌<ℤ◌}
use logrange.Tmindex.Block.{Record, Buf, intervals, find_interval_idx}
use logrange.Tmindex.Block.Search.{find_interval_idx_lem}
use logrange.Tmindex.Tree.{
  Result, ok, err, all_matches, corrupted, out_of_fuel, read_last_record_in_the_tree, gr_eq_int,
}
use logrange.Tmindex.Tree.Shape.{
  ◌⊑◌, IsTree, leaf, node, Point, here, below, Point-leaf, Point-node, Point-between,
}
use logrange.Tmindex.Tree.Query.{LastUpTo, GrEqAnswer}
use logrange.Tmindex.Tree.Ends.{last_lem, first_Point, last_Point, node-IsOrdered, intervals-lt}

module _ (read : ℕ → Option Buf) where
  -- A tree that ends no later than `ts`: the last point answers.
  all_up_to :
      {idx l : ℕ} {lo hi : Record} (ts : ℤ)
      → IsTree read idx l lo hi
      → hi.ts ≤ℤ ts
      → LastUpTo read idx ts hi
  all_up_to ts t h = record {
    is_point = last_Point read t;
    up_to = h;
    greatest = λ r' p up. (Point-between read t p).1;
  }

  none_up_to :
      {idx l : ℕ} {lo hi : Record} (ts : ℤ)
      → IsTree read idx l lo hi
      → ts <ℤ lo.ts
      → (r' : Record) → Point read r' idx
      → ts <ℤ r'.ts
  none_up_to ts t h r' p = let b = (Point-between read t p).0 in omega arith

  -- One call of `grEqInt`, by where the timestamp falls.
  module _ (f idx : ℕ) (ts : ℤ) (b : Buf) (e : read idx ≡ some b) where
    gr_eq_before :
        find_interval_idx b ts ≡ negsuc 0 → gr_eq_int read (suc f) idx ts ≡ err all_matches
    unfolding gr_eq_int
    gr_eq_before i = ground arith

    gr_eq_end :
        find_interval_idx b ts ≡ pos (intervals b)
        → gr_eq_int read (suc f) idx ts ≡ read_last_record_in_the_tree read (suc f) b
    unfolding gr_eq_int
    gr_eq_end i = ground arith

    gr_eq_leaf :
        (k : ℕ)
        → find_interval_idx b ts ≡ pos k
        → k < intervals b
        → b.lvl ≡ 0
        → gr_eq_int read (suc f) idx ts ≡ ok (b.places k)
    unfolding gr_eq_int
    gr_eq_leaf k i lt l = ground arith

    gr_eq_node :
        (k : ℕ)
        → find_interval_idx b ts ≡ pos k
        → k < intervals b
        → b.lvl ≢ 0
        → gr_eq_int read (suc f) idx ts ≡ gr_eq_int read f (b.places k).idx ts
    unfolding gr_eq_int
    gr_eq_node k i lt l = ground arith

  leaf-LastUpTo :
      {idx : ℕ} (ts : ℤ) (b : Buf) (k : ℕ)
      → read idx ≡ some b
      → b.lvl ≡ 0
      → ((i j : ℕ) → i ≤ j → j < b.recs → b.places i ⊑ b.places j)
      → suc k < b.recs
      → (b.places k).ts ≤ℤ ts
      → ts <ℤ (b.places (suc k)).ts
      → LastUpTo read idx ts (b.places k)
  leaf-LastUpTo ts b k e l0 ord lt low high = record {
    is_point = here b k e l0 (omega arith) refl;
    up_to = low;
    greatest = λ r' p up.
        let (j, jlt, ej) = Point-leaf read b e l0 p in
        rw ej (elim (dec_lt k j) [
          | yes far ↦ absurd (ground (arith, ord (suc k) j far jlt))
          | no near ↦ ord j k (omega arith) (omega arith)
        ]);
  }

  node-LastUpTo :
      {idx l : ℕ} (ts : ℤ) (b : Buf) (edge : ℕ → Record) (k : ℕ) (r : Record)
      → read idx ≡ some b
      → b.lvl ≢ 0
      → ((i j : ℕ) → i ≤ j → j < b.recs → edge i ⊑ edge j)
      → ((i : ℕ) → i < b.recs → (b.places i).ts ≡ (edge i).ts)
      → ((i : ℕ) → suc i < b.recs → IsTree read (b.places i).idx l (edge i) (edge (suc i)))
      → suc k < b.recs
      → ts <ℤ (b.places (suc k)).ts
      → LastUpTo read (b.places k).idx ts r
      → LastUpTo read idx ts r
  node-LastUpTo ts b edge k r e n0 ord same child lt high last = record {
    is_point = below b k e n0 lt last.is_point;
    up_to = last.up_to;
    greatest = λ r' p up.
        let (j, jlt, q) = Point-node read b e n0 p in
        let (low', high') = Point-between read (child j jlt) q in
        elim (ℕ_discrete j k) [
          | yes same_child ↦
              last.greatest r' (subst (λ z. Point read r' (b.places z).idx) same_child q) up
          | no ne ↦ elim (dec_lt k j) [
            | yes far ↦ absurd (ground (arith, ord (suc k) j far (omega arith), same (suc k)))
            | no near ↦
                let o = ord (suc j) k (omega arith) (omega arith) in
                let (low, _) = Point-between read (child k lt) last.is_point in omega arith
          ]
        ];
  }

  node-answer :
      {idx l : ℕ} (ts : ℤ) (b : Buf) (edge : ℕ → Record) (k : ℕ) (res : Result Record)
      → read idx ≡ some b
      → b.lvl ≢ 0
      → ((i j : ℕ) → i ≤ j → j < b.recs → edge i ⊑ edge j)
      → ((i : ℕ) → i < b.recs → (b.places i).ts ≡ (edge i).ts)
      → ((i : ℕ) → suc i < b.recs → IsTree read (b.places i).idx l (edge i) (edge (suc i)))
      → suc k < b.recs
      → (b.places k).ts ≤ℤ ts
      → ts <ℤ (b.places (suc k)).ts
      → GrEqAnswer read (b.places k).idx ts res
      → GrEqAnswer read idx ts res
  node-answer ts b edge k (ok r) e n0 ord same child lt low high answer =
      node-LastUpTo ts b edge k r e n0 ord same child lt high answer
  node-answer ts b edge k (err all_matches) e n0 ord same child lt low high answer =
      absurd (ground (arith, answer (edge k) (first_Point read (child k lt)), same k))
  node-answer ts b edge k (err corrupted) e n0 ord same child lt low high answer = absurd answer
  node-answer ts b edge k (err out_of_fuel) e n0 ord same child lt low high answer = absurd answer

  -- `grEq` answers in every tree with more fuel than levels, with the last point up to the
  -- timestamp; it says that all matches exactly if the timestamp lies before every point.
  pub gr_eq_int-answers :
      (f : ℕ) {idx l : ℕ} {lo hi : Record} (ts : ℤ)
      → IsTree read idx l lo hi
      → l < f
      → GrEqAnswer read idx ts (gr_eq_int read f idx ts)
  gr_eq_int-answers zero ts t lt = absurd (omega arith)
  gr_eq_int-answers (suc f) {idx} {lo = lo} {hi = hi} ts (leaf b e l0 fill ord elo ehi) lt =
      let t : IsTree read idx 0 lo hi = leaf b e l0 fill ord elo ehi in
      elim (find_interval_idx_lem b ts (record { sorted = λ i j ij jn. (ord i j ij jn).0 }) fill) [
        | inl (i, early) ↦ rw (gr_eq_before f idx ts b e i) (none_up_to ts t (rw elo early))
        | inr (inl (i, late)) ↦
            rw (gr_eq_end f idx ts b e i, last_lem read (suc f) t lt b e)
              (all_up_to ts t (rw ehi late))
        | inr (inr (k, i, kn, low, high)) ↦
            rw (gr_eq_leaf f idx ts b e k i kn l0)
              (leaf-LastUpTo ts b k e l0 ord (intervals-lt b k kn) low high)
      ]
  gr_eq_int-answers (suc f) {idx} {lo = lo} {hi = hi} ts
        (node {l = l} b edge e lv fill ord same child elo ehi) lt =
      let t : IsTree read idx (suc l) lo hi = node b edge e lv fill ord same child elo ehi in
      elim (find_interval_idx_lem b ts (node-IsOrdered b edge ord same) fill) [
        | inl (i, early) ↦
            rw (gr_eq_before f idx ts b e i)
              (none_up_to ts t (rw (elo, ← same 0 (omega arith)) early))
        | inr (inl (i, late)) ↦
            rw (gr_eq_end f idx ts b e i, last_lem read (suc f) t lt b e)
              (all_up_to ts t (rw (ehi, ← same (b.recs - 1) (omega arith)) late))
        | inr (inr (k, i, kn, low, high)) ↦ rw (gr_eq_node f idx ts b e k i kn (omega arith)) (
            node-answer ts b edge k _ e (omega arith) ord same child (intervals-lt b k kn) low high
              (gr_eq_int-answers f ts (child k (intervals-lt b k kn)) (omega arith)))
      ]
