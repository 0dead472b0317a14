-- ===== src/Model/Iterator.antt =====
-- pkg/model/iterator.go, pkg/model/logevent.go: log events, and the interface of the iterators
-- with what its comments promise. The context of a call and CurrentPos are left out.
use logrange.Prelude.{refl, arith, ℕ, ◌≡◌, ◌⊎◌, Bool, List, [], ◌∷◌, drop}
use logrange.Prelude.Int.{ℤ}

-- A message and the fields are sequences of bytes.
pub record LogEvent : Type 0 where
  pub timestamp : ℤ
  pub msg : List ℕ
  pub fields : List ℕ

-- `LogEvent.Release`
abbrev pub release_event : LogEvent → LogEvent
release_event le = record le { msg = []; fields = [] }

-- What `Get` returns beside an error: the event and the line of its tags.
pub record Event : Type 0 where
  pub le : LogEvent
  pub tags : List ℕ

pub data Got : Type 0 where
  event : Event → Got
  eof : Got
  failed : Got

pub record Iterator (S : Type 0) : Type 0 where
  pub next : S → S
  pub get : S → Got × S
  pub release : S → S
  pub set_backward : S → Bool → S

-- What `Get` answers when the events of a list are still to come.
abbrev pub first_of : List Event → Got
first_of [] = eof
first_of (e ∷ es) = event e

pub first_event :
    (l : List Event) (e : Event) → event e ≡ first_of l → (es : List Event) × (l ≡ e ∷ es)
first_event [] e h = absurd (ground arith)
first_event (x ∷ xs) e h = (xs, ground arith)

pub first_eof : (l : List Event) → eof ≡ first_of l → l ≡ []
first_eof [] h = refl
first_eof (x ∷ xs) h = absurd (ground arith)

pub first_failed : (l : List Event) → ¬ failed ≡ first_of l
first_failed [] h = ground arith
first_failed (x ∷ xs) h = ground arith

-- An iterator runs through the events that `rest` says are still to come, in the states of `valid`:
-- `Get` answers the first one and does not move, `Next` leaves it out, `Release` does not move.
-- Where `may_fail` holds, `Get` may fail, and then `Next` may stay where it is.
pub record IsIterator {S : Type 0} (it : Iterator S) (valid : S → Type 0) (rest : S → List Event)
    (may_fail : Type 0) : Type 0 where
  pub get_valid : (s : S) → valid s → valid (it.get s).1
  pub get_rest : (s : S) → valid s → rest (it.get s).1 ≡ rest s
  pub get_first :
      (s : S) → valid s → ((it.get s).0 ≡ first_of (rest s)) ⊎ ((it.get s).0 ≡ failed) × may_fail
  pub next_valid : (s : S) → valid s → valid (it.next s)
  pub next_rest :
      (s : S)
      → valid s
      → (rest (it.next s) ≡ drop 1 (rest s)) ⊎ (rest (it.next s) ≡ rest s) × may_fail
  pub release_valid : (s : S) → valid s → valid (it.release s)
  pub release_rest : (s : S) → valid s → rest (it.release s) ≡ rest s
