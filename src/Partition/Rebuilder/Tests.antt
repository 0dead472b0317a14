-- ===== src/Partition/Rebuilder/Tests.antt =====
-- A single worker that served the chunk 5 and has left its loop.
use logrange.Prelude.{
  ℕ, ◌<◌, ◌≡◌, refl, List, [], ◌∷◌, none, Bool, true, false, length, arith, ◌==◌, if◌then◌else◌,
  Bool-cases, inl, inr,
}
use logrange.Prelude.Assoc.{lookup, insert, erase}
use logrange.Partition.Rebuilder.{
  Tmirebuilder, new_tmirebuilder, rebuild_index, run_worker, next_chunk, done_worker,
}
use logrange.Partition.Rebuilder.Drain.{IsDrained, run_worker-IsDrained, Waits, Ranges}
use logrange.Partition.Rebuilder.Steps.{
  System, Reachable, at_start, by_step, asks, moves, IsStaffed, Reachable-IsStaffed,
}
use logrange.Partition.Rebuilder.Lost.{IsIdle, lost_request}

abbrev start : System
start = record { tir = new_tmirebuilder 1; serving = []; leaving = 0 }

abbrev serving : System
serving = record {
  tir = record {
    chunks = (5, record { src = 1; started = true; force = false }) ∷ [];
    sema = 0;
    closed = false;
  };
  serving = 5 ∷ [];
  leaving = 0;
}

serving-Reachable : Reachable 1 serving
unfolding new_tmirebuilder rebuild_index lookup insert
serving-Reachable = by_step start serving at_start (asks false 1 5 false)

abbrev left : System
left = record { tir = record { chunks = []; sema = 0; closed = false }; serving = []; leaving = 1 }

left-Reachable : Reachable 1 left
unfolding next_chunk lookup erase
left-Reachable = by_step serving left serving-Reachable (moves [] [] [] 5 refl)

Reachable-IsStaffed_example : IsStaffed 1 left
Reachable-IsStaffed_example = Reachable-IsStaffed 1 left-Reachable

left_unknown : lookup left.tir.chunks 9 ≡ none
unfolding lookup
left_unknown = refl

lost_request_example :
    (t : System) × Reachable 1 t
    × Waits t.tir.chunks (9, record { src = 1; started = false; force = true })
    × IsIdle t
    × ((prefers_closed : Bool) (src' : ℕ) (force' : Bool)
        → rebuild_index prefers_closed t.tir src' 9 force' ≡ (false, t.tir))
lost_request_example = lost_request 1 left 1 9 true left-Reachable refl refl refl left_unknown

-- A worker on the chunk 5, while the chunk 6 waits.
abbrev two : Tmirebuilder
two = record {
  chunks =
      (5, record { src = 1; started = true; force = false })
      ∷ (6, record { src = 2; started = false; force = true })
      ∷ [];
  sema = 0;
  closed = false;
}

two_short : length (erase two.chunks 5) < 2
unfolding erase
two_short = omega arith

two_no_zero : lookup two.chunks 0 ≡ none
unfolding lookup
two_no_zero = refl

-- The first round visits 6 before 5, all others the other way round.
abbrev orders : ℕ → List ℕ
orders n = if n == 1 then 6 ∷ 5 ∷ [] else 5 ∷ 6 ∷ []

orders_range : (n : ℕ) → Ranges (orders n) two.chunks
unfolding lookup
orders_range n c rs known = elim (Bool-cases (n == 1)) [
  | inl first ↦ rw (first) (ground arith)
  | inr later ↦ rw (later) (ground arith)
]

test_serves : (run_worker 2 orders two 5).0 ≡ 5 ∷ 6 ∷ []
unfolding run_worker next_chunk lookup insert erase done_worker
test_serves = refl

run_worker-IsDrained_example : IsDrained two 5 (run_worker 2 orders two 5)
run_worker-IsDrained_example =
    run_worker-IsDrained 2 orders two 5 two_short (omega arith) two_no_zero orders_range
