-- ===== src/Model/Mixer/Tests.antt =====
-- The mixer of two lists of events, and its theorems there.
use logrange.Prelude.{ℕ, ◌≡◌, refl, false, List, [], ◌∷◌, drop}
use logrange.Prelude.Int.{pos}
use logrange.Model.Iterator.{Event, event, first_of, Iterator}
use logrange.Model.Mixer.{Mixer, get, next, get_earliest}

-- an iterator over a list
abbrev list_iterator : Iterator (List Event)
list_iterator = record {
  next = λ l. drop 1 l;
  get = λ l. (first_of l, l);
  release = λ l. l;
  set_backward = λ l b. l;
}

abbrev AnyState : List Event → Type 0
AnyState l = l ≡ l

abbrev event_at : ℕ → Event
event_at t = record { le = record { timestamp = pos t; msg = t ∷ []; fields = [] }; tags = [] }

abbrev odd : List Event
odd = event_at 1 ∷ event_at 3 ∷ []

abbrev even : List Event
even = event_at 2 ∷ event_at 4 ∷ []

abbrev new_mixer : Mixer (List Event) (List Event)
new_mixer = record {
  src1 = record { it = odd; at_eof = false; ev = event_at 0 };
  src2 = record { it = even; at_eof = false; ev = event_at 0 };
  st = 0;
  bkwd = false;
}

second_event :
    (get list_iterator list_iterator get_earliest
      (next list_iterator list_iterator get_earliest new_mixer)).0
    ≡ event (event_at 2)
unfolding get next get_earliest
second_event = refl
