-- ===== src/Tmindex/Tree/Ends.antt =====
-- The first and the last point of a tree.
use logrange.Prelude.{ℕ, zero, suc, ◌-◌, ◌≤◌, ◌<◌, ◌≡◌, Option, some, arith}
use logrange.Tmindex.Block.{Record, Buf, intervals, read_record}
use logrange.Tmindex.Block.Search.{IsOrdered}
use logrange.Tmindex.Tree.{ok, read_last_record_in_the_tree, read_first_record_in_the_tree}
use logrange.Tmindex.Tree.Shape.{◌⊑◌, IsTree, leaf, node, Point, here, below, same_block}

pub intervals-lt : (b : Buf) (k : ℕ) → k < intervals b → suc k < b.recs
unfolding intervals
intervals-lt b k h = ground arith

pub node-IsOrdered :
    (b : Buf) (edge : ℕ → Record)
    → ((i j : ℕ) → i ≤ j → j < b.recs → edge i ⊑ edge j)
    → ((i : ℕ) → i < b.recs → (b.places i).ts ≡ (edge i).ts)
    → IsOrdered b
node-IsOrdered b edge ord same = record {
  sorted = λ i j ij jn. ground (arith, same i, same j, ord i j);
}

module _ (read : ℕ → Option Buf) where
  pub root_block :
      {idx l : ℕ} {lo hi : Record} → IsTree read idx l lo hi → (b : Buf) × (read idx ≡ some b)
  root_block (leaf b e l0 fill ord elo ehi) = (b, e)
  root_block (node b edge e lv fill ord same child elo ehi) = (b, e)

  -- The last record of a tree is its last point.
  pub last_lem :
      (f : ℕ) {idx l : ℕ} {lo hi : Record}
      → IsTree read idx l lo hi
      → l < f
      → (b : Buf) → read idx ≡ some b
      → read_last_record_in_the_tree read f b ≡ ok hi
  unfolding read_last_record_in_the_tree read_record
  last_lem zero t lt b eb = absurd (omega arith)
  last_lem (suc f) (leaf b' e l0 fill ord elo ehi) lt b eb =
      rw (same_block read b' b e eb) (rw ehi (ground arith))
  last_lem (suc f) (node {l = l} b' edge e lv fill ord same child elo ehi) lt b eb =
      let c = child (b'.recs - 2) (omega arith) in
      let (bl, ebl) = root_block c in
      let q : suc (b'.recs - 2) ≡ b'.recs - 1 = omega arith in
      let ih = last_lem f c (omega arith) bl ebl in rw (same_block read b' b e eb) (ground arith)

  pub first_lem :
      (f : ℕ) {idx l : ℕ} {lo hi : Record}
      → IsTree read idx l lo hi
      → l < f
      → (b : Buf) → read idx ≡ some b
      → read_first_record_in_the_tree read f b ≡ ok lo
  unfolding read_first_record_in_the_tree read_record
  first_lem zero t lt b eb = absurd (omega arith)
  first_lem (suc f) (leaf b' e l0 fill ord elo ehi) lt b eb =
      rw (same_block read b' b e eb) (rw elo (ground arith))
  first_lem (suc f) (node {l = l} b' edge e lv fill ord same child elo ehi) lt b eb =
      let c = child 0 (omega arith) in
      let (bl, ebl) = root_block c in
      let ih = first_lem f c (omega arith) bl ebl in rw (same_block read b' b e eb) (ground arith)

  pub first_Point : {idx l : ℕ} {lo hi : Record} → IsTree read idx l lo hi → Point read lo idx
  first_Point (leaf b e l0 fill ord elo ehi) = here b 0 e l0 (omega arith) elo
  first_Point (node b edge e lv fill ord same child elo ehi) =
      below b 0 e (omega arith) (omega arith) (rw elo (first_Point (child 0 (omega arith))))

  pub last_Point : {idx l : ℕ} {lo hi : Record} → IsTree read idx l lo hi → Point read hi idx
  last_Point (leaf b e l0 fill ord elo ehi) = here b (b.recs - 1) e l0 (omega arith) ehi
  last_Point (node b edge e lv fill ord same child elo ehi) =
      let q : suc (b.recs - 2) ≡ b.recs - 1 = omega arith in
      below b (b.recs - 2) e (omega arith) (omega arith)
        (rw (ehi, ← q) (last_Point (child (b.recs - 2) (omega arith))))
