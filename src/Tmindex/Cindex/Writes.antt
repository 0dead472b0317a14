-- ===== src/Tmindex/Cindex/Writes.antt =====
-- pkg/tmindex/cindex.go: onWrite, the notification that records were written to a chunk.
pub mod Spans
use logrange.Prelude.{
  ℕ, zero, suc, ◌+◌, ◌-◌, ◌*◌, ◌%◌, ◌<◌, ◌≤◌, ◌≡◌, ◌≢◌, refl, sym, ap, ◌∙◌, Bool, true, false, ◌&&◌,
  ltb, ◌==◌, if◌then◌else◌, List, [], ◌∷◌, ◌++◌, Option, none, some, arith, length, get_elem?, map,
}
use logrange.Prelude.Int.{ℤ, ltb_ℤ, ◌≤ℤ◌}
use logrange.Prelude.Assoc.{lookup, insert, lookup-insert}
use logrange.Prelude.Cases.{option_case, if_case}
use logrange.Partition.Selector.{RecordsInfo}
use logrange.Tmindex.Block.{Interval, Record}
use logrange.Tmindex.Cindex.{
  Item, no_item, ChkInfo, Err, index_corrupted, passed_on, Written, Ctrlr, Cindex, update,
  make_corrupted, sparse_space,
}

abbrev pub word : ℕ
word = 4294967296

-- `a - b` on uint32, for numbers below 2^32.
abbrev pub sub_uint32 : ℕ → ℕ → ℕ
sub_uint32 a b = (a + word - b) % word

abbrev pub chunk_of : RecordsInfo → ChkInfo
chunk_of ri = record {
  id = ri.id;
  min_ts = ri.min_ts;
  max_ts = ri.max_ts;
  idx_root = no_item;
  last_rec = 0;
  idx_corrupted = false;
}

-- The part under the lock of the cindex: the chunks before the last one, the last one and
-- whether it is new.
pub record Noted : Type 0 where
  pub before : List ChkInfo
  pub last : ChkInfo
  pub is_new : Bool

pub note : List ChkInfo → RecordsInfo → Noted
unfolding update
note [] ri = record { before = []; last = chunk_of ri; is_new = true }
note (c ∷ []) ri =
    if c.id == ri.id
    then record { before = []; last = update c ri; is_new = false }
    else record { before = c ∷ []; last = chunk_of ri; is_new = true }
note (c ∷ c' ∷ sc) ri = let n = note (c' ∷ sc) ri in record n { before = c ∷ n.before }

-- The outcome of a write: the error, the chunk and the index files.
pub record Outcome (C : Type 0) : Type 0 where
  pub error : Option Err
  pub chk : ChkInfo
  pub ctrlr : C

module _ {C : Type 0} (cc : Ctrlr C) where
  -- The part under the lock of the chunk.
  pub index_write : C → ChkInfo → Bool → ℕ → ℕ → RecordsInfo → Outcome C
  unfolding make_corrupted
  index_write st last is_new first_rec last_rec ri =
      let rebuild : Outcome C = record {
        error = some index_corrupted;
        chk = make_corrupted last;
        ctrlr = st;
      } in
      let it : Interval = record {
        p0 = record { ts = ri.min_ts; idx = first_rec };
        p1 = record { ts = ri.max_ts; idx = last_rec };
      } in
      let w = cc.arrange_root st it in
      let w' = cc.on_write st last.idx_root it in
      if last.idx_corrupted
      then record { error = some index_corrupted; chk = last; ctrlr = st }
      else if is_new && ltb 0 first_rec
      then rebuild
      else if ltb 0 last.last_rec && ltb (sub_uint32 last_rec last.last_rec) sparse_space
      then record { error = none; chk = last; ctrlr = st }
      else if last.idx_root.index_id == 0
      then if ltb (sparse_space * 20) (sub_uint32 last_rec last.last_rec)
        then rebuild
        else if w.saved
        then record {
          error = none;
          chk = record last { last_rec = last_rec; idx_root = w.root };
          ctrlr = w.ctrlr;
        }
        else record rebuild { ctrlr = w.ctrlr }
      else if w'.saved
      then record {
        error = none;
        chk = record last { last_rec = last_rec; idx_root = w'.root };
        ctrlr = w'.ctrlr;
      }
      else record {
        error = some passed_on;
        chk = record last { last_rec = last_rec; idx_root = no_item; idx_corrupted = true };
        ctrlr = w'.ctrlr;
      }

  -- `locked`: somebody else holds the lock of the chunk.
  pub on_write : Bool → Cindex C → ℕ → ℕ → ℕ → RecordsInfo → Option Err × Cindex C
  unfolding note index_write
  on_write locked ci src first_rec last_rec ri =
      let sc : List ChkInfo = elim (lookup ci.journals src) [ none ↦ [] | some sc ↦ sc ] in
      let n = note sc ri in
      let out = index_write ci.cc n.last n.is_new first_rec last_rec ri in
      if locked
      then (none, record ci { journals = insert ci.journals src (n.before ++ n.last ∷ []) })
      else (
        out.error,
        record { journals = insert ci.journals src (n.before ++ out.chk ∷ []); cc = out.ctrlr },
      )
