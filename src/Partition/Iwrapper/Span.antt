-- ===== src/Partition/Iwrapper/Span.antt =====
-- The span that a run of the wrapper notes.
use logrange.Prelude.{
  ℕ, suc, ◌++◌, ◌≡◌, refl, sym, ap, subst, ◌∙◌, List, [], ◌∷◌, map, Option, none, some, true, false,
  length, drop, arith, inl, inr,
}
use logrange.Prelude.Int.{ℤ, ◌≤ℤ◌}
use logrange.Model.Iterator.{LogEvent, Event, event, first_of, Iterator, IsIterator}
use logrange.Partition.Iwrapper.{Iwrapper, is_zero, widen, iw_get, iw_next, take_records}

-- All timestamps lie in the span.
abbrev pub Within : ℤ → ℤ → List Event → Type 0
Within lo hi [] = Unit {0}
Within lo hi (e ∷ es) = (lo ≤ℤ e.le.timestamp) × (e.le.timestamp ≤ℤ hi) × Within lo hi es

-- No event has the timestamp 0, which stands for a span that is not set.
abbrev pub NoZero : List Event → Type 0
NoZero [] = Unit {0}
NoZero (e ∷ es) = (is_zero e.le.timestamp ≡ false) × NoZero es

-- A span that is set, and holds a span `lo` to `hi` noted before.
record IsWide {S : Type 0} (lo hi : ℤ) (iw : Iwrapper S) : Type 0 where
  set_min : is_zero iw.min_ts ≡ false
  set_max : is_zero iw.max_ts ≡ false
  low : iw.min_ts ≤ℤ lo
  high : hi ≤ℤ iw.max_ts

module _ {S : Type 0} where
  -- The first event sets the span, and each later one widens it.
  widen_first :
      (iw : Iwrapper S) (ts : ℤ)
      → is_zero iw.min_ts ≡ true
      → is_zero iw.max_ts ≡ true
      → is_zero ts ≡ false
      → IsWide ts ts (widen iw ts)
  unfolding widen
  widen_first iw ts lo hi set = record {
    set_min = ground arith;
    set_max = ground arith;
    low = ground arith;
    high = ground arith;
  }

  widen_more :
      (iw : Iwrapper S) (lo hi ts : ℤ)
      → IsWide lo hi iw
      → is_zero ts ≡ false
      → IsWide lo hi (widen iw ts) × ((widen iw ts).min_ts ≤ℤ ts) × (ts ≤ℤ (widen iw ts).max_ts)
  unfolding widen
  widen_more iw lo hi ts w set = (
    record {
      set_min = ground arith;
      set_max = ground arith;
      low = ground arith;
      high = ground arith;
    },
    ground arith,
    ground arith,
  )

refl_leq : (a : ℤ) → a ≤ℤ a
refl_leq a = ground arith

leq_trans : (a b c : ℤ) → a ≤ℤ b → b ≤ℤ c → a ≤ℤ c
leq_trans a b c p q = omega arith

module _ {S : Type 0} (i : Iterator S) (marshal : LogEvent → List ℕ) (valid : S → Type 0)
    (rest : S → List Event) (ok : IsIterator i valid rest ⊥) where
  -- One record: the event is marshalled, and the span widened by its timestamp.
  record IsTaken (e : Event) (es : List Event) (iw iw' : Iwrapper S) : Type 0 where
    still_valid : valid iw'.it
    behind : rest iw'.it ≡ es
    unread : iw'.read ≡ false
    low_mark : iw'.min_ts ≡ (widen iw e.le.timestamp).min_ts
    high_mark : iw'.max_ts ≡ (widen iw e.le.timestamp).max_ts

  step :
      (iw : Iwrapper S) (e : Event) (es : List Event)
      → valid iw.it
      → iw.read ≡ false
      → rest iw.it ≡ e ∷ es
      → ((iw_get i marshal iw).0 ≡ some (marshal e.le))
        × IsTaken e es iw (iw_next i marshal (iw_get i marshal iw).1)
  unfolding iw_get iw_next widen
  step iw e es v unread at = elim (ok.get_first iw.it v) [
    | inr (bad, no_fail) ↦ absurd no_fail
    | inl good ↦
        let got : (i.get iw.it).0 ≡ event e = good ∙ ap first_of at in
        let v' = ok.get_valid iw.it v in
        let same = ok.get_rest iw.it v in
        rw (unread, got)
          (
            refl,
            record {
              still_valid = ok.next_valid _ v';
              behind = elim (ok.next_rest _ v') [
                | inl moved ↦ moved ∙ ap (drop 1) (same ∙ at)
                | inr (stays, no_fail) ↦ absurd no_fail
              ];
              unread = refl;
              low_mark = refl;
              high_mark = refl;
            },
          )
  ]

  -- A run whose first Get has a record.
  take_records-more :
      (n : ℕ) (iw : Iwrapper S) (x : List ℕ)
      → (iw_get i marshal iw).0 ≡ some x
      → let run = take_records i marshal n (iw_next i marshal (iw_get i marshal iw).1) in
        take_records i marshal (suc n) iw ≡ (x ∷ run.0, run.1)
  unfolding take_records
  take_records-more n iw x got =
      let run = take_records i marshal n (iw_next i marshal (iw_get i marshal iw).1) in
      let after : Option (List ℕ) → List (List ℕ) × Iwrapper S =
        λ r. elim r [ none ↦ ([], (iw_get i marshal iw).1) | some y ↦ (y ∷ run.0, run.1) ] in
      ap after got

  -- What a run over `es` from `iw` comes to.
  record IsSpan (es : List Event) (lo hi : ℤ) (out : List (List ℕ) × Iwrapper S) : Type 0 where
    records : out.0 ≡ map (λ e. marshal e.le) es
    within : Within out.1.min_ts out.1.max_ts es
    low_end : out.1.min_ts ≤ℤ lo
    high_end : hi ≤ℤ out.1.max_ts

  taken-IsWide :
      (iw iw' : Iwrapper S) (e : Event) (es : List Event) (lo hi : ℤ)
      → IsTaken e es iw iw'
      → IsWide lo hi (widen iw e.le.timestamp)
      → IsWide lo hi iw'
  taken-IsWide iw iw' e es lo hi t w = record {
    set_min = ap is_zero t.low_mark ∙ w.set_min;
    set_max = ap is_zero t.high_mark ∙ w.set_max;
    low = subst (λ m. m ≤ℤ lo) (sym t.low_mark) w.low;
    high = subst (λ m. hi ≤ℤ m) (sym t.high_mark) w.high;
  }

  -- A run from a span that is set only widens it, and takes in every timestamp it meets.
  take_records_set :
      (iw : Iwrapper S) (es tl : List Event) (lo hi : ℤ)
      → valid iw.it
      → iw.read ≡ false
      → rest iw.it ≡ es ++ tl
      → IsWide lo hi iw
      → NoZero es
      → IsSpan es lo hi (take_records i marshal (length es) iw)
  unfolding take_records
  take_records_set iw [] tl lo hi v unread at w nz = record {
    records = refl;
    within = tt;
    low_end = w.low;
    high_end = w.high;
  }
  take_records_set iw (e ∷ es) tl lo hi v unread at w nz =
      let (got, t) = step iw e (es ++ tl) v unread at in
      let iw' = iw_next i marshal (iw_get i marshal iw).1 in
      let (wide, below, above) = widen_more iw lo hi e.le.timestamp w nz.0 in
      let w' = taken-IsWide iw iw' e (es ++ tl) lo hi t wide in
      let now : IsWide iw'.min_ts iw'.max_ts iw' = record {
        set_min = w'.set_min;
        set_max = w'.set_max;
        low = refl_leq iw'.min_ts;
        high = refl_leq iw'.max_ts;
      } in
      let r =
        take_records_set iw' es tl iw'.min_ts iw'.max_ts t.still_valid t.unread t.behind now nz.1 in
      let end = take_records i marshal (length es) iw' in
      let ts = e.le.timestamp in
      let low' = subst (λ m. m ≤ℤ ts) (sym t.low_mark) below in
      let high' = subst (λ m. ts ≤ℤ m) (sym t.high_mark) above in
      rw (take_records-more (length es) iw (marshal e.le) got) (record {
        records = ap (λ rs. marshal e.le ∷ rs) r.records;
        within = (
          leq_trans end.1.min_ts iw'.min_ts ts r.low_end low',
          leq_trans ts iw'.max_ts end.1.max_ts high' r.high_end,
          r.within,
        );
        low_end = leq_trans end.1.min_ts iw'.min_ts lo r.low_end w'.low;
        high_end = leq_trans hi iw'.max_ts end.1.max_ts w'.high r.high_end;
      })

  -- A run from a fresh wrapper: the records are the events marshalled, in their order, and the span
  -- holds the timestamps of all of them.
  take_records_lem :
      (iw : Iwrapper S) (e : Event) (es tl : List Event)
      → valid iw.it
      → iw.read ≡ false
      → is_zero iw.min_ts ≡ true
      → is_zero iw.max_ts ≡ true
      → rest iw.it ≡ e ∷ (es ++ tl)
      → NoZero (e ∷ es)
      → let out = take_records i marshal (suc (length es)) iw in
        (out.0 ≡ map (λ e. marshal e.le) (e ∷ es)) × Within out.1.min_ts out.1.max_ts (e ∷ es)
  take_records_lem iw e es tl v unread z z' at nz =
      let (got, t) = step iw e (es ++ tl) v unread at in
      let iw' = iw_next i marshal (iw_get i marshal iw).1 in
      let ts = e.le.timestamp in
      let w' = taken-IsWide iw iw' e (es ++ tl) ts ts t (widen_first iw ts z z' nz.0) in
      let r = take_records_set iw' es tl ts ts t.still_valid t.unread t.behind w' nz.1 in
      let span : IsSpan (e ∷ es) ts ts (take_records i marshal (suc (length es)) iw) =
        rw (take_records-more (length es) iw (marshal e.le) got) (record {
          records = ap (λ rs. marshal e.le ∷ rs) r.records;
          within = (r.low_end, r.high_end, r.within);
          low_end = r.low_end;
          high_end = r.high_end;
        }) in
      (span.records, span.within)
