-- ===== src/Cursor/Mixing/Readers.antt =====
-- The mixed iterator answers the events of all partitions in the order of time.
use mathlib.Core.List.{Perm, append_assoc, append-nil}
use mathlib.Core.List.Perm
use logrange.Prelude.{
  ℕ, zero, suc, ◌≤◌, ◌<◌, ◌≡◌, ◌⊎◌, refl, sym, subst, List, [], ◌∷◌, ◌++◌, some, false, ltb, length,
  get_elem?, arith, Bool-cases, inl, inr,
}
use logrange.Prelude.Int.{ℤ}
use logrange.Model.Iterator.{Event, Iterator, IsIterator}
use logrange.Model.Mixer.{Mixer, mixer, init, get_earliest, test_func}
use logrange.Model.Mixer.Merge.{merge}
use logrange.Model.Mixer.Ordered.{IsOrderedFrom, merge-IsOrderedFrom, merge-Perm}
use logrange.Model.Mixer.Refine.{mixer-IsIterator, init-IsValid, IsValid, mixed}
use logrange.Cursor.Mixing.{mix_round, mix_loop, mix_all}

-- An iterator in one of its states, with the promises of the interface; `rest state` are its events
-- to come.
pub record Reader : Type 1 where
  pub State : Type 0
  pub it : Iterator State
  pub valid : State → Type 0
  pub rest : State → List Event
  pub may_fail : Type 0
  pub works : IsIterator it valid rest may_fail
  pub state : State
  pub is_valid : valid state

abbrev pub events : Reader → List Event
events s = s.rest s.state

module _ (a b : Reader) where
  fresh_mixer :
      IsValid a.it b.it get_earliest a.valid a.rest a.may_fail a.works b.valid b.rest b.may_fail
        b.works
        (init a.it b.it get_earliest a.state b.state)
      × (mixed a.it b.it get_earliest a.valid a.rest a.may_fail a.works b.valid b.rest b.may_fail
            b.works
            (init a.it b.it get_earliest a.state b.state)
          ≡ merge (test_func a.it b.it get_earliest false) (events a) (events b))
  fresh_mixer =
      init-IsValid a.it b.it get_earliest a.valid a.rest a.may_fail a.works b.valid b.rest
        b.may_fail b.works a.state b.state a.is_valid b.is_valid

  -- `m.Init(model.GetEarliest, mxs[i], mxs[i+1])`
  pub init_mixer : Reader
  init_mixer = record {
    State = Mixer a.State b.State;
    it = mixer a.it b.it get_earliest;
    valid =
        IsValid a.it b.it get_earliest a.valid a.rest a.may_fail a.works b.valid b.rest b.may_fail
          b.works;
    rest =
        mixed a.it b.it get_earliest a.valid a.rest a.may_fail a.works b.valid b.rest b.may_fail
          b.works;
    may_fail = a.may_fail ⊎ b.may_fail;
    works =
        mixer-IsIterator a.it b.it get_earliest a.valid a.rest a.may_fail a.works b.valid b.rest
          b.may_fail b.works;
    state = init a.it b.it get_earliest a.state b.state;
    is_valid = fresh_mixer.0;
  }

  init_mixer-events :
      events init_mixer ≡ merge (test_func a.it b.it get_earliest false) (events a) (events b)
  unfolding init_mixer
  init_mixer-events = fresh_mixer.1

  init_mixer-Perm : Perm (events init_mixer) (events a ++ events b)
  init_mixer-Perm =
      subst (λ (l : List Event). Perm l (events a ++ events b)) (sym init_mixer-events)
        (merge-Perm (test_func a.it b.it get_earliest false) (events a) (events b))

  init_mixer-IsOrderedFrom :
      (t : ℤ)
      → IsOrderedFrom t (events a)
      → IsOrderedFrom t (events b)
      → IsOrderedFrom t (events init_mixer)
  init_mixer-IsOrderedFrom t oa ob =
      subst (IsOrderedFrom t) (sym init_mixer-events)
        (merge-IsOrderedFrom a.it b.it t (events a) (events b) oa ob)

-- The events of all readers, one reader after the other.
abbrev pub all_events : List Reader → List Event
all_events [] = []
all_events (s ∷ ss) = events s ++ all_events ss

abbrev pub AllOrderedFrom : ℤ → List Reader → Type 0
AllOrderedFrom t [] = Unit {0}
AllOrderedFrom t (s ∷ ss) = IsOrderedFrom t (events s) × AllOrderedFrom t ss

-- What the loop keeps.
record Keeps (t : ℤ) (mxs mxs' : List Reader) : Type 0 where
  same_events : Perm (all_events mxs') (all_events mxs)
  in_order : AllOrderedFrom t mxs'
  some_left : 0 < length mxs → 0 < length mxs'
  fewer : 1 < length mxs → length mxs' < length mxs
  no_more : length mxs' ≤ length mxs

mix_round-Keeps :
    (t : ℤ) (mxs : List Reader) → AllOrderedFrom t mxs → Keeps t mxs (mix_round init_mixer mxs)
unfolding mix_round
mix_round-Keeps t [] o = record {
  same_events = Perm.refl [];
  in_order = o;
  some_left = λ h. h;
  fewer = λ h. absurd (omega arith);
  no_more = omega arith;
}
mix_round-Keeps t (a ∷ []) o = record {
  same_events = Perm.refl (all_events (a ∷ []));
  in_order = o;
  some_left = λ h. h;
  fewer = λ h. absurd (omega arith);
  no_more = omega arith;
}
mix_round-Keeps t (a ∷ b ∷ mxs) o =
    let ih = mix_round-Keeps t mxs o.1.1 in
    record {
      same_events =
          subst (Perm (events (init_mixer a b) ++ all_events (mix_round init_mixer mxs)))
            (append_assoc (events a) (events b) (all_events mxs))
            (Perm.append (init_mixer-Perm a b) ih.same_events);
      in_order = (init_mixer-IsOrderedFrom a b t o.0 o.1.0, ih.in_order);
      some_left = λ h. omega arith;
      fewer = λ h. omega (arith, ih.no_more);
      no_more = omega (arith, ih.no_more);
    }

-- With enough fuel the loop ends at one iterator.
record IsMixed (t : ℤ) (mxs mxs' : List Reader) : Type 0 where
  same_events : Perm (all_events mxs') (all_events mxs)
  in_order : AllOrderedFrom t mxs'
  one : length mxs' ≡ 1

mix_loop-IsMixed :
    (t : ℤ) (fuel : ℕ) (mxs : List Reader)
    → length mxs ≤ fuel
    → 0 < length mxs
    → AllOrderedFrom t mxs
    → IsMixed t mxs (mix_loop init_mixer fuel mxs)
unfolding mix_loop
mix_loop-IsMixed t zero mxs enough there o = absurd (omega arith)
mix_loop-IsMixed t (suc fuel) mxs enough there o = elim (Bool-cases (ltb 1 (length mxs))) [
  | inl more ↦
      let k = mix_round-Keeps t mxs o in
      let ih =
        mix_loop-IsMixed t fuel (mix_round init_mixer mxs) (omega (arith, k.fewer (ground arith)))
          (k.some_left there) k.in_order in
      rw (more, mix_loop)
        (record {
          same_events = Perm.trans ih.same_events k.same_events;
          in_order = ih.in_order;
          one = ih.one;
        })
  | inr done ↦
      rw (done, mix_loop)
        (record { same_events = Perm.refl (all_events mxs); in_order = o; one = ground arith })
]

-- A list of one.
only :
    (t : ℤ) (mxs mxs' : List Reader)
    → IsMixed t mxs mxs'
    → (s : Reader) × (get_elem? mxs' 0 ≡ some s)
      × Perm (events s) (all_events mxs)
      × IsOrderedFrom t (events s)
      × IsIterator s.it s.valid s.rest s.may_fail
only t mxs [] m = absurd (omega (arith, m.one))
only t mxs (s ∷ []) m = (
  s,
  refl,
  subst (λ (l : List Event). Perm l (all_events mxs)) (append-nil (events s)) m.same_events,
  m.in_order.0,
  s.works,
)
only t mxs (s ∷ s' ∷ ss) m = absurd (omega (arith, m.one))

-- newCursor's mixing of at least one partition, where the iterator of each keeps the promises of the
-- interface and has its events to come in the order of time: the loop ends with an iterator that
-- keeps these promises, and has exactly the events of all partitions to come, in the order of time.
pub mix_all-IsOrderedFrom :
    (t : ℤ) (mxs : List Reader)
    → 0 < length mxs
    → AllOrderedFrom t mxs
    → (s : Reader) × (mix_all init_mixer mxs ≡ some s)
      × Perm (events s) (all_events mxs)
      × IsOrderedFrom t (events s)
      × IsIterator s.it s.valid s.rest s.may_fail
unfolding mix_all
mix_all-IsOrderedFrom t mxs some_there o =
    only t mxs (mix_loop init_mixer (length mxs) mxs)
      (mix_loop-IsMixed t (length mxs) mxs (omega arith) some_there o)
