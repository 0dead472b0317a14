-- ===== src/Cursor/Fiterator/Tests.antt =====
-- The filter on a list of events, and its theorems there.
use logrange.Prelude.{ℕ, ◌≡◌, refl, inl, Bool, true, false, List, [], ◌∷◌, drop, arith}
use logrange.Prelude.Int.{pos}
use logrange.Model.Iterator.{LogEvent, Event, event, first_of, Iterator, IsIterator}
use logrange.Cursor.Fiterator.{Fiterator, got, fit_get, fit_in_range}
use logrange.Cursor.Fiterator.Refine.{IsValidFit, GetAnswer, fit_get-GetAnswer}

-- an iterator over a list
abbrev over_list : Iterator (List Event)
over_list = record {
  next = λ l. drop 1 l;
  get = λ l. (first_of l, l);
  release = λ l. l;
  set_backward = λ l b. l;
}

abbrev AnyList : List Event → Type 0
AnyList l = l ≡ l

over_list-IsIterator : IsIterator over_list AnyList (λ l. l) ⊥
over_list-IsIterator = record {
  get_valid = λ s v. refl;
  get_rest = λ s v. refl;
  get_first = λ s v. inl refl;
  next_valid = λ s v. refl;
  next_rest = λ s v. inl refl;
  release_valid = λ s v. refl;
  release_rest = λ s v. refl;
}

abbrev tick : ℕ → Event
tick t = record { le = record { timestamp = pos t; msg = []; fields = [] }; tags = [] }

abbrev any_event : LogEvent → Bool
any_event le = true

-- the events at 1, 5 and 9, of which the range from 4 to 8 takes the second
abbrev from_4_to_8 : Fiterator (List Event)
from_4_to_8 = record {
  it = tick 1 ∷ tick 5 ∷ tick 9 ∷ [];
  tm_range = record { min_ts = pos 4; max_ts = pos 8 };
  ev = tick 0;
  is_fit = false;
}

abbrev at_5 : Fiterator (List Event)
at_5 = record from_4_to_8 { it = tick 5 ∷ tick 9 ∷ []; ev = tick 5; is_fit = true }

get_5 : (fit_get over_list any_event 4 from_4_to_8).0 ≡ got (event (tick 5))
unfolding fit_get
get_5 = refl

from_4_to_8-IsValidFit :
    IsValidFit over_list any_event AnyList (λ l. l) ⊥ over_list-IsIterator from_4_to_8
from_4_to_8-IsValidFit = record { valid_it = refl; current = λ e. absurd (ground arith) }

at_5-IsValidFit : IsValidFit over_list any_event AnyList (λ l. l) ⊥ over_list-IsIterator at_5
unfolding fit_in_range
at_5-IsValidFit = record { valid_it = refl; current = λ e. (tick 9 ∷ [], refl, refl) }

fit_get-GetAnswer_example :
    GetAnswer over_list any_event AnyList
      (λ l. l)
      ⊥
      over_list-IsIterator
      4
      from_4_to_8
      (fit_get over_list any_event 4 from_4_to_8)
fit_get-GetAnswer_example =
    fit_get-GetAnswer over_list any_event AnyList (λ l. l) ⊥ over_list-IsIterator 4 from_4_to_8
      from_4_to_8-IsValidFit
