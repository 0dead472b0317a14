-- ===== src/Cursor/Mixing/Tests.antt =====
-- Three partitions whose iterators run over lists.
use mathlib.Core.List.{Perm}
use logrange.Prelude.{ℕ, ◌+◌, ◌*◌, ◌≡◌, refl, inl, List, [], ◌∷◌, some, drop, arith}
use logrange.Prelude.Int.{pos}
use logrange.Model.Iterator.{Event, first_of, Iterator, IsIterator}
use logrange.Model.Mixer.Ordered.{IsOrderedFrom}
use logrange.Cursor.Mixing.{mix_all}
use logrange.Cursor.Mixing.Readers.{Reader, events, init_mixer, all_events, mix_all-IsOrderedFrom}

test_mixed : mix_all {A = ℕ} (λ a b. a * 10 + b) (1 ∷ 2 ∷ 3 ∷ 4 ∷ 5 ∷ []) ≡ some 1545
unfolding mix_all
test_mixed = refl

abbrev list_iterator : Iterator (List Event)
list_iterator = record {
  next = λ l. drop 1 l;
  get = λ l. (first_of l, l);
  release = λ l. l;
  set_backward = λ l b. l;
}

abbrev AnyState : List Event → Type 0
AnyState l = l ≡ l

list-IsIterator : IsIterator list_iterator AnyState (λ l. l) ⊥
list-IsIterator = record {
  get_valid = λ s v. refl;
  get_rest = λ s v. refl;
  get_first = λ s v. inl refl;
  next_valid = λ s v. refl;
  next_rest = λ s v. inl refl;
  release_valid = λ s v. refl;
  release_rest = λ s v. refl;
}

abbrev at_time : ℕ → Event
at_time t = record { le = record { timestamp = pos t; msg = []; fields = [] }; tags = [] }

abbrev partition : List Event → Reader
partition l = record {
  State = List Event;
  it = list_iterator;
  valid = AnyState;
  rest = λ l. l;
  may_fail = ⊥;
  works = list-IsIterator;
  state = l;
  is_valid = refl;
}

abbrev three : List Reader
three =
    partition (at_time 1 ∷ at_time 4 ∷ [])
    ∷ partition (at_time 2 ∷ [])
    ∷ partition (at_time 3 ∷ [])
    ∷ []

mix_all-IsOrderedFrom_example :
    (s : Reader) × (mix_all init_mixer three ≡ some s)
    × Perm (events s) (all_events three)
    × IsOrderedFrom (pos 0) (events s)
    × IsIterator s.it s.valid s.rest s.may_fail
mix_all-IsOrderedFrom_example =
    mix_all-IsOrderedFrom (pos 0) three (omega arith)
      ((omega arith, (omega arith, refl)), ((omega arith, refl), ((omega arith, refl), tt)))
