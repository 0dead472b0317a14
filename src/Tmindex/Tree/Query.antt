-- ===== src/Tmindex/Tree/Query.antt =====
-- What the queries find in a tree: the last point up to a timestamp, and the first point after it.
use logrange.Prelude.{ℕ, Option}
use logrange.Prelude.Int.{ℤ, ◌≤ℤ◌, ◌<ℤ◌}
use logrange.Tmindex.Block.{Record, Buf}
use logrange.Tmindex.Tree.{Result, ok, err, all_matches}
use logrange.Tmindex.Tree.Shape.{◌⊑◌, Point}

module _ (read : ℕ → Option Buf) (idx : ℕ) (ts : ℤ) where
  -- `r` is the last point of the tree that is no later than `ts`.
  pub record LastUpTo (r : Record) : Type 0 where
    pub is_point : Point read r idx
    pub up_to : r.ts ≤ℤ ts
    pub greatest : (r' : Record) → Point read r' idx → r'.ts ≤ℤ ts → r' ⊑ r

  -- `r` is the first point of the tree that is later than `ts`.
  pub record FirstAfter (r : Record) : Type 0 where
    pub is_point : Point read r idx
    pub is_after : ts <ℤ r.ts
    pub least : (r' : Record) → Point read r' idx → ts <ℤ r'.ts → r ⊑ r'

  -- the answers of `grEq`: errAllMatches says that every point is later than `ts`
  abbrev pub GrEqAnswer : Result Record → Type 0
  GrEqAnswer (ok r) = LastUpTo r
  GrEqAnswer (err all_matches) = (r' : Record) → Point read r' idx → ts <ℤ r'.ts
  GrEqAnswer (err _) = ⊥

  -- the answers of `less`: errAllMatches says that no point is later than `ts`
  abbrev pub LessAnswer : Result Record → Type 0
  LessAnswer (ok r) = FirstAfter r
  LessAnswer (err all_matches) = (r' : Record) → Point read r' idx → r'.ts ≤ℤ ts
  LessAnswer (err _) = ⊥
