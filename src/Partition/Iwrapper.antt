-- ===== src/Partition/Iwrapper.antt =====
-- pkg/partition/iwrapper.go: the iterator over log events as one over records, for writing into a
-- journal. It notes the span of the events' timestamps. How an event is marshalled (with package
-- xbinary, of another repository) is a parameter; the pool of buffers is left out.
pub mod Span
mod Tests
use logrange.Prelude.{
  ℕ, zero, suc, List, [], ◌∷◌, Option, none, some, Bool, true, false, ◌&&◌, ◌||◌, if◌then◌else◌,
}
use logrange.Prelude.Int.{ℤ, pos, leb_ℤ, ltb_ℤ}
use logrange.Model.Iterator.{LogEvent, Event, Got, event, eof, failed, Iterator}

pub record Iwrapper (S : Type 0) : Type 0 where
  pub it : S
  pub rec : List ℕ
  pub read : Bool
  pub min_ts : ℤ
  pub max_ts : ℤ

-- `ts == 0`
abbrev pub is_zero : ℤ → Bool
is_zero ts = leb_ℤ ts (pos 0) && leb_ℤ (pos 0) ts

-- The two tests of Get that widen the span.
unfoldable pub widen : {S : Type 0} → Iwrapper S → ℤ → Iwrapper S
widen iw ts = record iw {
  min_ts = if ltb_ℤ ts iw.min_ts || is_zero iw.min_ts then ts else iw.min_ts;
  max_ts = if ltb_ℤ iw.max_ts ts || is_zero iw.max_ts then ts else iw.max_ts;
}

module _ {S : Type 0} (i : Iterator S) (marshal : LogEvent → List ℕ) where
  -- `Next`
  pub iw_next : Iwrapper S → Iwrapper S
  iw_next iw = record iw { read = false; it = i.next iw.it }

  -- `Get`: the record, or `none` for an error, which the end of the events is, too.
  pub iw_get : Iwrapper S → Option (List ℕ) × Iwrapper S
  unfolding widen
  iw_get iw =
      let (g, it) = i.get iw.it in
      let at = record iw { it = it } in
      if iw.read then (some iw.rec, iw) else (elim g [
        | event e ↦ (some (marshal e.le), record (widen at e.le.timestamp) { rec = marshal e.le })
        | eof ↦ (none, at)
        | failed ↦ (none, at)
      ])

  -- `Release`
  pub iw_release : Iwrapper S → Iwrapper S
  iw_release iw = record iw { it = i.release iw.it; read = false; rec = [] }

  -- `resetMinMaxTs`
  pub reset_min_max_ts : Iwrapper S → Iwrapper S
  reset_min_max_ts iw = record iw { max_ts = pos 0; min_ts = pos 0 }

  -- A run of `n` calls of Get, each followed by Next, until Get has an error.
  pub take_records : ℕ → Iwrapper S → List (List ℕ) × Iwrapper S
  take_records zero iw = ([], iw)
  take_records (suc n) iw =
      let (r, iw') = iw_get iw in
      let rest = take_records n (iw_next iw') in
      elim r [ none ↦ ([], iw') | some x ↦ (x ∷ rest.0, rest.1) ]
