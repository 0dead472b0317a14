-- ===== src/Tmindex/Access/Safety.antt =====
-- What the access protocol of the index guarantees, and what it does not.
use logrange.Prelude.{◌+◌, ◌≤◌, ◌<◌, ◌≡◌, ◌≢◌, refl, ◌⊎◌, inr, arith}
use logrange.Tmindex.Access.{
  System, Label, acquire, release, exclusive, done, closing, step, IsEnabled, IsSerial, Reachable,
  at_start, by_step, st_writing, st_closed, acquire_read, release_read, exec_exclusively, exec_done,
  close, enter_alone,
}

-- `users` counts the readers; the storage is closed at most once, exactly in the closed state, and
-- then there are no readers.
pub record IsConsistent (s : System) : Type 0 where
  pub counted : s.ci.users ≡ s.readers
  pub states : s.ci.state ≤ st_closed
  pub closed_once :
      (s.ci.state ≡ st_closed) × (s.closes ≡ 1) ⊎ (s.ci.state < st_closed) × (s.closes ≡ 0)
  pub alone : s.ci.state ≡ st_closed → s.readers ≡ 0

step-IsConsistent :
    (l : Label) (s : System) → IsEnabled l s → IsConsistent s → IsConsistent (step l s)
unfolding step acquire_read release_read exec_exclusively exec_done close enter_alone
step-IsConsistent acquire s e c = record {
  counted = ground arith;
  states = ground arith;
  closed_once = ground arith;
  alone = λ h. ground arith;
}
step-IsConsistent release s e c = record {
  counted = ground arith;
  states = ground arith;
  closed_once = ground arith;
  alone = λ h. ground arith;
}
step-IsConsistent exclusive s e c = record {
  counted = ground arith;
  states = ground arith;
  closed_once = ground arith;
  alone = λ h. ground arith;
}
step-IsConsistent done s e c = record {
  counted = ground arith;
  states = ground arith;
  closed_once = ground arith;
  alone = λ h. ground arith;
}
step-IsConsistent closing s e c = record {
  counted = ground arith;
  states = ground arith;
  closed_once = ground arith;
  alone = λ h. ground arith;
}

-- In every state that can be reached, `users` counts the readers; the storage is closed at most
-- once, exactly in the closed state, and no reader is left then.
pub Reachable-IsConsistent : (s : System) → Reachable IsEnabled s → IsConsistent s
Reachable-IsConsistent _ at_start = record {
  counted = refl;
  states = omega arith;
  closed_once = inr (omega arith, refl);
  alone = λ h. refl;
}
Reachable-IsConsistent _ (by_step l s r e) = step-IsConsistent l s e (Reachable-IsConsistent s r)

-- `fn` runs at most once at a time, exactly in the writing state, and without readers.
record IsAlone (s : System) : Type 0 where
  one : s.writers ≤ 1
  idle : s.writers ≡ 0 → s.ci.state ≢ st_writing
  runs : s.writers ≡ 1 → s.ci.state ≡ st_writing
  no_readers : s.writers ≡ 1 → s.ci.users ≡ 0

step-IsAlone : (l : Label) (s : System) → IsSerial l s → IsAlone s → IsAlone (step l s)
unfolding step acquire_read release_read exec_exclusively exec_done close enter_alone
step-IsAlone acquire s e c = record {
  one = ground arith;
  idle = λ h. ground arith;
  runs = λ h. ground arith;
  no_readers = λ h. ground arith;
}
step-IsAlone release s e c = record {
  one = ground arith;
  idle = λ h. ground arith;
  runs = λ h. ground arith;
  no_readers = λ h. ground arith;
}
step-IsAlone exclusive s e c = record {
  one = ground arith;
  idle = λ h. ground arith;
  runs = λ h. ground arith;
  no_readers = λ h. ground arith;
}
step-IsAlone done s e c = record {
  one = ground arith;
  idle = λ h. ground arith;
  runs = λ h. ground arith;
  no_readers = λ h. ground arith;
}
step-IsAlone closing s e c = record {
  one = ground arith;
  idle = λ h. ground arith;
  runs = λ h. ground arith;
  no_readers = λ h. ground arith;
}

serial-IsEnabled : (l : Label) (s : System) → IsSerial l s → IsEnabled l s
serial-IsEnabled acquire s e = refl
serial-IsEnabled release s e = e
serial-IsEnabled exclusive s e = refl
serial-IsEnabled done s e = e
serial-IsEnabled closing s e = refl

serial-Reachable : (s : System) → Reachable IsSerial s → IsAlone s × IsConsistent s
serial-Reachable _ at_start = (
  record {
    one = omega arith;
    idle = λ h. omega arith;
    runs = λ h. omega arith;
    no_readers = λ h. refl;
  },
  Reachable-IsConsistent _ at_start,
)
serial-Reachable _ (by_step l s r e) =
    let (a, c) = serial-Reachable s r in
    (step-IsAlone l s e a, step-IsConsistent l s (serial-IsEnabled l s e) c)

-- If nobody asks for exclusive access or closes while `fn` runs, then `fn` runs alone: no reader
-- is active and no other call of `fn`, and the storage is not closed.
pub serial_excludes :
    (s : System)
    → Reachable IsSerial s
    → 0 < s.writers
    → (s.writers ≡ 1) × (s.readers ≡ 0) × (s.closes ≡ 0)
serial_excludes s r h =
    let (a, c) = serial-Reachable s r in
    let one = a.one in
    let is_writing = a.runs (omega arith) in
    let none = a.no_readers (omega arith) in
    let n = c.counted in (omega arith, omega arith, ground (arith, c.closed_once))

-- Exclusive access is not exclusive: in the writing state without users, of two calls of
-- `execExclusively` the second one enters beside the function that runs, and of two calls of
-- `Close` the second one closes the storage under it.
pub exclusive_overlaps :
    (s : System)
    → s.ci.state ≡ st_writing
    → s.ci.users ≡ 0
    → ((step exclusive (step exclusive s)).writers ≡ s.writers + 1)
      × ((step closing (step closing s)).closes ≡ s.closes + 1)
      × ((step closing (step closing s)).writers ≡ s.writers)
unfolding step exec_exclusively close enter_alone
exclusive_overlaps s w u = (ground arith, ground arith, ground arith)
