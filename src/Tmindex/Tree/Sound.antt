-- ===== src/Tmindex/Tree/Sound.antt =====
-- What the answers of `grEq` and `less` mean for the records of the chunk.
use logrange.Prelude.{ℕ, ◌-◌, ◌≤◌, ◌<◌, ◌≡◌, refl, Option, some, arith, dec_lt}
use logrange.Prelude.Int.{ℤ, ◌≤ℤ◌, ◌<ℤ◌}
use logrange.Tmindex.Block.{Record, Buf}
use logrange.Tmindex.Block.Covers.{Covers}
use logrange.Tmindex.Tree.{ok, gr_eq_int, less_int}
use logrange.Tmindex.Tree.Shape.{IsTree, leaf, Point, Point-leaf}
use logrange.Tmindex.Tree.Query.{GrEqAnswer, LessAnswer}
use logrange.Tmindex.Tree.GrEq.{gr_eq_int-answers}
use logrange.Tmindex.Tree.Less.{less_int-answers}

module _ (read : ℕ → Option Buf) (time : ℕ → ℤ) (s m : ℕ) where
  -- Each point of the tree separates the records of the chunk by time, up to its own position.
  pub record IsTruthful (idx : ℕ) : Type 0 where
    pub before : (r : Record) → Point read r idx → (x : ℕ) → s ≤ x → x < r.idx → time x ≤ℤ r.ts
    pub after : (r : Record) → Point read r idx → (x : ℕ) → r.idx < x → x < m → r.ts ≤ℤ time x

  module _ {f idx l : ℕ} {lo hi : Record} (ts : ℤ) (t : IsTree read idx l lo hi) (fuel : l < f)
      (true_points : IsTruthful idx) where
    -- No record later than `ts` stands before the position that `grEq` answers.
    pub gr_eq_int_sound :
        (r : Record) → gr_eq_int read f idx ts ≡ ok r → (x : ℕ) → s ≤ x → ts <ℤ time x → r.idx ≤ x
    gr_eq_int_sound r e x sx late =
        let last : GrEqAnswer read idx ts (ok r) = rw e at (gr_eq_int-answers read f ts t fuel) in
        elim (dec_lt x r.idx) [
          | yes lt ↦ absurd (ground (arith, last.up_to, true_points.before r last.is_point x sx lt))
          | no ge ↦ omega arith
        ]

    -- No record up to `ts` stands behind the position that `less` answers.
    pub less_int_sound :
        (r : Record) → less_int read f idx ts ≡ ok r → (x : ℕ) → x < m → time x ≤ℤ ts → x ≤ r.idx
    less_int_sound r e x xm early =
        let first : LessAnswer read idx ts (ok r) = rw e at (less_int-answers read f ts t fuel) in
        elim (dec_lt r.idx x) [
          | yes lt ↦
              absurd (ground (arith, first.is_after, true_points.after r first.is_point x lt xm))
          | no ge ↦ omega arith
        ]

  -- A block of level 0 that covers the chunk is a tree with true points.
  pub Covers-IsTree :
      (idx : ℕ) (b : Buf)
      → read idx ≡ some b
      → b.lvl ≡ 0
      → Covers time s m b
      → IsTree read idx 0 (b.places 0) (b.places (b.recs - 1))
  Covers-IsTree idx b e l0 c =
      leaf b e l0 c.filled (λ i j ij jn. (c.ordered.sorted i j ij jn, c.positions i j ij jn)) refl
        refl

  pub Covers-IsTruthful :
      (idx : ℕ) (b : Buf) → read idx ≡ some b → b.lvl ≡ 0 → Covers time s m b → IsTruthful idx
  Covers-IsTruthful idx b e l0 c = record {
    before = λ r p x sx lt.
        let (k, kn, er) = Point-leaf read b e l0 p in ground (arith, c.before k x kn sx);
    after =
        λ r p x lt xm. let (k, kn, er) = Point-leaf read b e l0 p in ground (arith, c.after k x kn);
  }

-- In an index of one block that covers the chunk, the records with a timestamp after `l` and up to
-- `h` stand between the positions that `grEq l` and `less h` answer.
pub lookup_sound :
    (read : ℕ → Option Buf) (time : ℕ → ℤ) (s m idx : ℕ) (b : Buf) (l h : ℤ) (r r' : Record)
    → read idx ≡ some b
    → b.lvl ≡ 0
    → Covers time s m b
    → gr_eq_int read 1 idx l ≡ ok r
    → less_int read 1 idx h ≡ ok r'
    → (x : ℕ) → s ≤ x
    → x < m
    → l <ℤ time x
    → time x ≤ℤ h
    → (r.idx ≤ x) × (x ≤ r'.idx)
lookup_sound read time s m idx b l h r r' e l0 c er er' x sx xm late early =
    let t = Covers-IsTree read time s m idx b e l0 c in
    let w = Covers-IsTruthful read time s m idx b e l0 c in
    (
      gr_eq_int_sound read time s m l t (omega arith) w r er x sx late,
      less_int_sound read time s m h t (omega arith) w r' er' x xm early,
    )

-- The bound of `grEq` is strict: asked for the timestamp of a point of a tree, with more fuel than
-- levels, it answers a position behind
-- every record before that point, also behind those that have this very timestamp.
pub gr_eq_int_skips :
    (read : ℕ → Option Buf) (f : ℕ) {idx l : ℕ} {lo hi : Record} (p r : Record) (x : ℕ)
    → IsTree read idx l lo hi
    → l < f
    → Point read p idx
    → x < p.idx
    → gr_eq_int read f idx p.ts ≡ ok r
    → x < r.idx
gr_eq_int_skips read f {idx} p r x t fuel is_point lt e =
    let last : GrEqAnswer read idx p.ts (ok r) = rw e at (gr_eq_int-answers read f p.ts t fuel) in
    ground (arith, last.greatest p is_point)
