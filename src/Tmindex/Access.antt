-- ===== src/Tmindex/Access.antt =====
-- pkg/tmindex/ckindex.go: the shared and the exclusive access to the time index. Each stretch of
-- code between Lock and Unlock, or up to a Wait, is one step. A goroutine that waits makes its step
-- again after a Broadcast, so waking is no step of its own.
pub mod Safety
mod Tests
use mathlib.Core.Bool.{not}
use logrange.Prelude.{
  ℕ, ◌+◌, ◌-◌, ◌≤◌, ◌<◌, ◌≡◌, Bool, true, false, ◌&&◌, ◌||◌, ltb, ◌==◌, if◌then◌else◌,
}

abbrev pub st_ok : ℕ
st_ok = 0

abbrev pub st_waiting : ℕ
st_waiting = 1

abbrev pub st_writing : ℕ
st_writing = 2

abbrev pub st_closed : ℕ
st_closed = 3

-- `users` and `state` of the struct
pub record Ckindex : Type 0 where
  pub users : ℕ
  pub state : ℕ

-- How a step of a call ends: it goes on, it is refused with ClosedState, or it waits.
pub data Entry : Type 0 where
  entered : Entry
  closed_state : Entry
  waits : Entry

pub acquire_read : Ckindex → Entry × Ckindex
acquire_read ci =
    if ci.state == st_ok
    then (entered, record ci { users = ci.users + 1 })
    else if ci.state == st_closed
    then (closed_state, ci)
    else (waits, ci)

pub release_read : Ckindex → Ckindex
release_read ci = record ci { users = ci.users - 1 }

-- The loop that Close and execExclusively begin with, one round; `next` is the state they set.
pub enter_alone : ℕ → Ckindex → Entry × Ckindex
enter_alone next ci =
    if ltb 0 ci.users || (not (ci.state == st_waiting) && not (ci.state == st_ok))
    then (if ci.state == st_closed
        then (closed_state, ci)
        else (waits, record ci { state = st_waiting }))
    else (entered, record ci { state = next })

pub close : Ckindex → Entry × Ckindex
unfolding enter_alone
close ci = enter_alone st_closed ci

-- `execExclusively` up to the call of `fn`
pub exec_exclusively : Ckindex → Entry × Ckindex
unfolding enter_alone
exec_exclusively ci = enter_alone st_writing ci

-- the deferred function of `execExclusively`
pub exec_done : Ckindex → Ckindex
exec_done ci = if ci.state == st_writing then record ci { state = st_ok } else ci

-- The goroutines, counted by where they are: `readers` hold a read access, `writers` are in `fn`,
-- and `closes` of them went on to close the storage.
pub record System : Type 0 where
  pub ci : Ckindex
  pub readers : ℕ
  pub writers : ℕ
  pub closes : ℕ

pub data Label : Type 0 where
  acquire : Label
  release : Label
  exclusive : Label
  done : Label
  closing : Label

abbrev pub count_entered : Entry → ℕ
count_entered entered = 1
count_entered closed_state = 0
count_entered waits = 0

pub step : Label → System → System
unfolding acquire_read release_read exec_exclusively exec_done close
step acquire s =
    let (e, ci) = acquire_read s.ci in record s { ci = ci; readers = s.readers + count_entered e }
step release s = record s { ci = release_read s.ci; readers = s.readers - 1 }
step exclusive s =
    let (e, ci) = exec_exclusively s.ci in
    record s { ci = ci; writers = s.writers + count_entered e }
step done s = record s { ci = exec_done s.ci; writers = s.writers - 1 }
step closing s =
    let (e, ci) = close s.ci in record s { ci = ci; closes = s.closes + count_entered e }

abbrev pub start : System
start = record { ci = record { users = 0; state = st_ok }; readers = 0; writers = 0; closes = 0 }

-- Only a reader releases, and only a call of `fn` ends.
abbrev pub IsEnabled : Label → System → Type 0
IsEnabled acquire s = s ≡ s
IsEnabled release s = 0 < s.readers
IsEnabled exclusive s = s ≡ s
IsEnabled done s = 0 < s.writers
IsEnabled closing s = s ≡ s

-- Beside that, nobody asks for exclusive access or closes while `fn` runs.
abbrev pub IsSerial : Label → System → Type 0
IsSerial acquire s = s ≡ s
IsSerial release s = 0 < s.readers
IsSerial exclusive s = s.writers ≡ 0
IsSerial done s = 0 < s.writers
IsSerial closing s = s.writers ≡ 0

-- The states that allowed steps lead to.
pub data Reachable (allowed : Label → System → Type 0) : System → Type 0 where
  at_start : Reachable allowed start
  by_step :
      (l : Label) (s : System) → Reachable allowed s → allowed l s → Reachable allowed (step l s)
