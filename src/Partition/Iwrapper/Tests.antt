-- ===== src/Partition/Iwrapper/Tests.antt =====
-- Events at the times 5, 3 and 9, marshalled to their messages.
use logrange.Prelude.{◌≡◌, refl, List, [], ◌∷◌, drop, false, ℕ}
use logrange.Prelude.Int.{pos}
use logrange.Model.Iterator.{Event, first_of, Iterator}
use logrange.Partition.Iwrapper.{
  Iwrapper, widen, iw_get, iw_next, take_records, iw_release, reset_min_max_ts,
}

abbrev over_list : Iterator (List Event)
over_list = record {
  next = λ l. drop 1 l;
  get = λ l. (first_of l, l);
  release = λ l. l;
  set_backward = λ l b. l;
}

abbrev at_time : ℕ → Event
at_time t = record { le = record { timestamp = pos t; msg = t ∷ []; fields = [] }; tags = [] }

abbrev fresh : Iwrapper (List Event)
fresh = record {
  it = at_time 5 ∷ at_time 3 ∷ at_time 9 ∷ [];
  rec = [];
  read = false;
  min_ts = pos 0;
  max_ts = pos 0;
}

test_records :
    (take_records over_list (λ le. le.msg) 9 fresh).0 ≡ (5 ∷ []) ∷ (3 ∷ []) ∷ (9 ∷ []) ∷ []
unfolding take_records iw_get iw_next widen
test_records = refl

test_min : (take_records over_list (λ le. le.msg) 3 fresh).1.min_ts ≡ pos 3
unfolding take_records iw_get iw_next widen
test_min = refl

test_max : (take_records over_list (λ le. le.msg) 3 fresh).1.max_ts ≡ pos 9
unfolding take_records iw_get iw_next widen
test_max = refl

-- A second Get marshals the event again: nothing sets the flag of the cached record.
test_read : (iw_get over_list (λ le. le.msg) fresh).1.read ≡ false
unfolding iw_get widen
test_read = refl

test_release : (iw_release over_list (λ le. le.msg) fresh).rec ≡ []
unfolding iw_release
test_release = refl

test_reset : (reset_min_max_ts over_list (λ le. le.msg) fresh).max_ts ≡ pos 0
unfolding reset_min_max_ts
test_reset = refl
