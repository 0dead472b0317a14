-- ===== src/Tmindex/Cindex/Trees.antt =====
-- pkg/tmindex/ckictrlr.go: the queries on the index files, which find the file of a root and ask the
-- tree in it (Tmindex/Tree). The state is a map from the ids of the files to their block storages.
-- What writes to the files is a parameter; the queries take fuel for the levels of a tree.
use logrange.Prelude.{
  ℕ, ◌≤◌, ◌<◌, ◌≡◌, refl, sym, ap, subst, ◌∙◌, ◌==◌, if◌then◌else◌, [], Option, none, some, arith,
}
use logrange.Prelude.Int.{ℤ}
use logrange.Tmindex.Block.{Record, Interval, Buf}
use logrange.Tmindex.Tree.{
  Result, ok, err, all_matches, corrupted, out_of_fuel, gr_eq_int, less_int, count_int,
  traversal_int,
}
use logrange.Tmindex.Tree.Shape.{IsTree}
use logrange.Tmindex.Tree.Sound.{IsTruthful, gr_eq_int_sound, less_int_sound}
use logrange.Tmindex.Cindex.{Item, ChkInfo, Outcome, at_record, no_answer, Cki, Written, Ctrlr}
use logrange.Tmindex.Cindex.Queries.{Searches}

-- The index files by their ids.
abbrev pub Files : Type 0
Files = ℕ → Option (ℕ → Option Buf)

abbrev outcome_of : Result Record → Outcome
outcome_of (ok r) = at_record r.idx
outcome_of (err all_matches) = Outcome.all_matches
outcome_of (err e) = no_answer

abbrev of_result : {A : Type 0} → Result A → Option A
of_result (ok a) = some a
of_result (err e) = none

module _ (fuel : ℕ) where
  -- ckiCtrlr.grEq, and less below
  pub file_gr_eq : Files → Item → ℤ → Outcome
  file_gr_eq files root ts = elim (files root.index_id) [
    | none ↦ no_answer
    | some read ↦ outcome_of (gr_eq_int read fuel root.block ts)
  ]

  pub file_less : Files → Item → ℤ → Outcome
  file_less files root ts = elim (files root.index_id) [
    | none ↦ no_answer
    | some read ↦ outcome_of (less_int read fuel root.block ts)
  ]

  pub get_index : Files → ℕ → Option Cki
  get_index files id = elim (files id) [
    | none ↦ none
    | some read ↦ some (record {
      count = λ root. of_result (count_int read fuel root);
      traversal = λ root. of_result (traversal_int read fuel root []);
    })
  ]

  -- removeIndex: the file is closed and removed.
  pub remove_index : Files → ℕ → Files
  remove_index files id k = if k == id then none else files k

  -- The index files as the index by chunks calls them.
  abbrev pub file_ctrlr :
      (Files → Interval → Written Files)
      → (Files → Item → Interval → Written Files)
      → (Files → Item → Files)
      → Ctrlr Files
  file_ctrlr arrange_root on_write remove_item = record {
    arrange_root = arrange_root;
    on_write = on_write;
    gr_eq = file_gr_eq;
    less = file_less;
    get_index = get_index;
    remove_item = remove_item;
    remove_index = remove_index;
  }

  at_record_lem :
      (o : Result Record) (p : ℕ)
      → outcome_of o ≡ at_record p
      → (r : Record) × (o ≡ ok r) × (r.idx ≡ p)
  at_record_lem (ok r) p e = (r, refl, ground arith)
  at_record_lem (err all_matches) p e = absurd (ground arith)
  at_record_lem (err corrupted) p e = absurd (ground arith)
  at_record_lem (err out_of_fuel) p e = absurd (ground arith)

  module _ (arrange_root : Files → Interval → Written Files)
      (on_write : Files → Item → Interval → Written Files)
      (remove_item : Files → Item → Files) where
    -- A chunk whose root is a tree of fewer levels than there is fuel, in a file that is there, and
    -- whose points separate the records of the chunk by time, is searched as the index by chunks
    -- relies on: no record later than a time is before the position for it, and no record up to it
    -- behind the other.
    pub file_ctrlr-Searches :
        (files : Files) (c : ChkInfo) (read : ℕ → Option Buf) (time : ℕ → ℤ) (n l : ℕ)
        (lo hi : Record)
        → files c.idx_root.index_id ≡ some read
        → IsTree read c.idx_root.block l lo hi
        → l < fuel
        → IsTruthful read time 0 n c.idx_root.block
        → Searches (file_ctrlr arrange_root on_write remove_item) files c time n
    unfolding file_gr_eq file_less
    file_ctrlr-Searches files c read time n l lo hi there t enough truthful = record {
      greater = λ ts p answer x lt late.
          let (r, e, at) = at_record_lem (gr_eq_int read fuel c.idx_root.block ts) p (
            sym (
              ap
                (λ o. elim o [
                  | none ↦ no_answer
                  | some rd ↦ outcome_of (gr_eq_int rd fuel c.idx_root.block ts)
                ])
                there)
            ∙ answer) in
          subst (λ z. z ≤ x) at
            (gr_eq_int_sound read time 0 n ts t enough truthful r e x (omega arith) late);
      less = λ ts p answer x lt early.
          let (r, e, at) = at_record_lem (less_int read fuel c.idx_root.block ts) p (
            sym (
              ap
                (λ o. elim o [
                  | none ↦ no_answer
                  | some rd ↦ outcome_of (less_int rd fuel c.idx_root.block ts)
                ])
                there)
            ∙ answer) in
          subst (λ z. x ≤ z) at (less_int_sound read time 0 n ts t enough truthful r e x lt early);
    }
