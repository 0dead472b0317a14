-- ===== src/Partition/Rebuilder/Lost.antt =====
-- A request that comes between the last look of the workers at the map and the return of their
-- tokens.
use logrange.Prelude.{
  ℕ, zero, suc, ◌-◌, ◌≡◌, refl, ap, subst, ◌∙◌, List, [], none, some, Bool, false, arith,
}
use logrange.Prelude.Assoc.{lookup, insert, lookup-insert_self}
use logrange.Partition.Rebuilder.{RebuildStatus, Tmirebuilder, rebuild_index, done_worker}
use logrange.Partition.Rebuilder.Drain.{Waits}
use logrange.Partition.Rebuilder.Steps.{System, Step, Reachable, asks, leaves, by_step, asked}

-- No worker is there, and none is about to come or to go.
abbrev pub IsIdle : System → Type 0
IsIdle s = (s.serving ≡ []) × (s.leaving ≡ 0)

module _ (max_workers : ℕ) where
  all_leave :
      (n : ℕ) (s : System)
      → s.leaving ≡ n
      → Reachable max_workers s
      → (t : System) × Reachable max_workers t
        × (t.serving ≡ s.serving)
        × (t.tir.chunks ≡ s.tir.chunks)
        × (t.leaving ≡ 0)
  unfolding done_worker
  all_leave zero s e r = (s, r, refl, refl, e)
  all_leave (suc n) s e r =
      let s' : System = record s { tir = done_worker s.tir; leaving = s.leaving - 1 } in
      let (t, r', serving, chunks, left) =
        all_leave n s' (omega arith) (by_step s s' r (leaves (omega arith))) in
      (t, r', serving, chunks, left)

  refused :
      (prefers_closed : Bool) (tir : Tmirebuilder) (src cid : ℕ) (force : Bool) (rs : RebuildStatus)
      → lookup tir.chunks cid ≡ some rs
      → rebuild_index prefers_closed tir src cid force ≡ (false, tir)
  unfolding rebuild_index
  refused prefers_closed tir src cid force rs e = rw (e, rebuild_index)

  put_waiting :
      (prefers_closed : Bool) (tir : Tmirebuilder) (src cid : ℕ) (force : Bool)
      → lookup tir.chunks cid ≡ none
      → tir.sema ≡ 0
      → tir.closed ≡ false
      → rebuild_index prefers_closed tir src cid force ≡ (
        false,
        record tir {
          chunks = insert tir.chunks cid (record { src = src; started = false; force = force });
        },
      )
  unfolding rebuild_index
  put_waiting prefers_closed tir src cid force e none_free open_yet = ground arith

  -- A request for a new chunk, made when no chunk is being served but every token is still out, is
  -- lost: a state can be reached in which the chunk waits, no worker serves a chunk or is about to
  -- end, and every further request for the chunk is ignored.
  pub lost_request :
      (s : System) (src cid : ℕ) (force : Bool)
      → Reachable max_workers s
      → s.serving ≡ []
      → s.tir.sema ≡ 0
      → s.tir.closed ≡ false
      → lookup s.tir.chunks cid ≡ none
      → (t : System) × Reachable max_workers t
        × Waits t.tir.chunks (cid, record { src = src; started = false; force = force })
        × IsIdle t
        × ((prefers_closed : Bool) (src' : ℕ) (force' : Bool)
            → rebuild_index prefers_closed t.tir src' cid force' ≡ (false, t.tir))
  lost_request s src cid force r none_serves none_free open_yet unknown =
      let rs : RebuildStatus = record { src = src; started = false; force = force } in
      let waiting : Tmirebuilder = record s.tir { chunks = insert s.tir.chunks cid rs } in
      let s' : System = record s { tir = waiting } in
      let put = put_waiting false s.tir src cid force unknown none_free open_yet in
      let r' : Reachable max_workers s' = by_step s s' r (
        subst (λ (z : Bool × Tmirebuilder). Step s (asked s cid z)) put
          (asks false src cid force)) in
      let (t, rt, serving, chunks, left) = all_leave s'.leaving s' refl r' in
      let known : lookup t.tir.chunks cid ≡ some rs =
        ap (λ (m : List (ℕ × RebuildStatus)). lookup m cid) chunks
        ∙ lookup-insert_self s.tir.chunks cid rs in
      (
        t,
        rt,
        (known, refl),
        (serving ∙ none_serves, left),
        λ prefers_closed src' force'. refused prefers_closed t.tir src' cid force' rs known,
      )
