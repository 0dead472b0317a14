-- ===== src/Cursor/Fiterator.antt =====
-- pkg/cursor/fiterator.go: the iterator that leaves out the events for which a condition of the
-- query fails, or which are outside the range of times. The compiled condition (package lql) is
-- the parameter `flt_f`. The loop of Get runs until an event fits, so it takes fuel; more fuel
-- than there are events to come is enough.
pub mod Refine
mod Tests
use logrange.Prelude.{
  ℕ, zero, suc, ◌+◌, ◌≤◌, Bool, true, false, ◌&&◌, if◌then◌else◌, List, [], Option, none, some,
}
use logrange.Prelude.Int.{ℤ, pos, negsuc, leb_ℤ}
use logrange.Model.Iterator.{LogEvent, Event, Got, event, eof, failed, Iterator, release_event}
use logrange.Model.Mixer.{zero_event}
use logrange.Partition.Selector.{TimeRange}

pub record Fiterator (S : Type 0) : Type 0 where
  pub it : S
  pub tm_range : TimeRange
  pub ev : Event
  pub is_fit : Bool

-- What Get answers, and the end of the fuel.
pub data FitGot : Type 0 where
  got : Got → FitGot
  out_of_fuel : FitGot

-- `MinTimestamp` and `MaxTimestamp` of pkg/model/tmrange.go
abbrev pub all_times : TimeRange
all_times = record { min_ts = negsuc 6795364578871345151; max_ts = pos 9223372036854775807 }

pub new_fiterator : {S : Type 0} → S → Option TimeRange → Fiterator S
new_fiterator s r = record {
  it = s;
  tm_range = elim r [ none ↦ all_times | some t ↦ t ];
  ev = zero_event;
  is_fit = false;
}

module _ {S : Type 0} (i : Iterator S) (flt_f : LogEvent → Bool) where
  pub fit_in_range : TimeRange → LogEvent → Bool
  fit_in_range r le = leb_ℤ r.min_ts le.timestamp && leb_ℤ le.timestamp r.max_ts

  pub fit_next : Fiterator S → Fiterator S
  fit_next fit = record fit {
    it = i.next fit.it;
    ev = record fit.ev { le = release_event fit.ev.le };
    is_fit = false;
  }

  -- The body of the loop, after `fit.it.Get`; `again` is the next round.
  pub fit_round :
      (Fiterator S → FitGot × Fiterator S) → Fiterator S → Got × S → FitGot × Fiterator S
  unfolding fit_in_range fit_next
  fit_round again fit (event e, s') =
      let next_round = again (fit_next (record fit { it = s'; ev = e; is_fit = false })) in
      if flt_f e.le && fit_in_range fit.tm_range e.le
      then (got (event e), record fit { it = s'; ev = e; is_fit = true })
      else next_round
  fit_round again fit (eof, s') = (got eof, record fit { it = s' })
  fit_round again fit (failed, s') = (got failed, record fit { it = s' })

  pub fit_get : ℕ → Fiterator S → FitGot × Fiterator S
  unfolding fit_round
  fit_get zero fit = if fit.is_fit then (got (event fit.ev), fit) else (out_of_fuel, fit)
  fit_get (suc f) fit =
      let round = fit_round (fit_get f) fit (i.get fit.it) in
      if fit.is_fit then (got (event fit.ev), fit) else round

  -- MakeItSafe keeps a copy of the current event, which is the same value.
  pub fit_release : Fiterator S → Fiterator S
  fit_release fit = record fit { it = i.release fit.it }

  pub fit_set_backward : Fiterator S → Bool → Fiterator S
  fit_set_backward fit bkwd = record fit { it = i.set_backward fit.it bkwd }
