-- ===== src/Partition/Rebuilder.antt =====
-- pkg/partition/tmirebuilder.go: the workers that rebuild the time indexes of chunks. The stretches of
-- code between Lock and Unlock are functions on the map and the channel of tokens; how they
-- interleave is in Rebuilder/Steps. The orders in which `range` visits the map are parameters.
pub mod Drain
pub mod Steps
pub mod Lost
mod Tests
use logrange.Prelude.{
  ℕ, zero, suc, ◌+◌, ◌-◌, List, [], ◌∷◌, Option, none, some, Bool, true, false, ◌&&◌, ltb, ◌==◌,
  if◌then◌else◌, length,
}
use logrange.Prelude.Assoc.{lookup, insert, erase}

pub record RebuildStatus : Type 0 where
  pub src : ℕ
  pub started : Bool
  pub force : Bool

-- The map, the number of tokens in `sema`, and whether `closedCh` is closed.
pub record Tmirebuilder : Type 0 where
  pub chunks : List (ℕ × RebuildStatus)
  pub sema : ℕ
  pub closed : Bool

pub new_tmirebuilder : ℕ → Tmirebuilder
new_tmirebuilder max_workers = record { chunks = []; sema = max_workers; closed = false }

pub close : Tmirebuilder → Tmirebuilder
close tir = record tir { closed = true }

-- RebuildIndex: whether a worker is to be started. Where there are both a token and the closed
-- channel, `select` takes either; `prefers_closed` is its choice.
pub rebuild_index : Bool → Tmirebuilder → ℕ → ℕ → Bool → Bool × Tmirebuilder
rebuild_index prefers_closed tir src cid force =
    let status = λ (start_worker : Bool).
      let st : RebuildStatus = record { src = src; started = start_worker; force = force } in st in
    elim (lookup tir.chunks cid) [
      | some rs ↦ (false, tir)
      | none ↦
          if ltb 0 tir.sema
            && (if tir.closed then (if prefers_closed then false else true) else true)
          then (
            true,
            record tir { chunks = insert tir.chunks cid (status true); sema = tir.sema - 1 },
          )
          else if tir.closed
          then (false, tir)
          else (false, record tir { chunks = insert tir.chunks cid (status false) })
    ]

-- The first chunk that waits, in the order of the visit.
pub pick_up : List ℕ → List (ℕ × RebuildStatus) → Option (ℕ × RebuildStatus)
pick_up [] chunks = none
pick_up (c ∷ order) chunks =
    let rest = pick_up order chunks in
    elim (lookup chunks c) [ none ↦ rest | some rs ↦ if rs.started then rest else some (c, rs) ]

-- The locked end of a round of runWorker: the chunk is done, and the next one is started.
pub next_chunk : List ℕ → Tmirebuilder → ℕ → Option (ℕ × RebuildStatus) × Tmirebuilder
unfolding pick_up
next_chunk order tir cid =
    let chunks = erase tir.chunks cid in
    elim (pick_up order chunks) [
      | none ↦ (none, record tir { chunks = chunks })
      | some (c, rs) ↦ (
        some (c, record rs { started = true }),
        record tir { chunks = insert chunks c (record rs { started = true }) },
      )
    ]

pub done_worker : Tmirebuilder → Tmirebuilder
done_worker tir = record tir { sema = tir.sema + 1 }

-- runWorker with no other call between its rounds: the chunks that it serves, one after the other.
-- `range` visits the map in another order in each round: `orders n` is that of the round with `n`
-- more to come. A round more than there are chunks is never needed.
pub run_worker : ℕ → (ℕ → List ℕ) → Tmirebuilder → ℕ → List ℕ × Tmirebuilder
run_worker zero orders tir cid = ([], tir)
run_worker (suc fuel) orders tir cid = elim (cid == 0) [
  | true ↦ ([], done_worker tir)
  | false ↦ elim (next_chunk (orders fuel) tir cid).0 [
    | none ↦ (cid ∷ [], done_worker (next_chunk (orders fuel) tir cid).1)
    | some (c, rs) ↦ (
      cid ∷ (run_worker fuel orders (next_chunk (orders fuel) tir cid).1 c).0,
      (run_worker fuel orders (next_chunk (orders fuel) tir cid).1 c).1,
    )
  ]
]
