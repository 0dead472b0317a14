-- ===== src/Partition/Rebuilder/Steps.antt =====
-- The calls of RebuildIndex and the workers in any order.
use logrange.Prelude.{
  ℕ, ◌+◌, ◌-◌, ◌≤◌, ◌<◌, ◌≡◌, ◌≢◌, refl, sym, ap, subst, ◌∙◌, List, [], ◌∷◌, ◌++◌, Option, none,
  some, Bool, true, false, ◌&&◌, ltb, ◌==◌, if◌then◌else◌, length, length-append, arith, Bool-cases,
  inl, inr,
}
use logrange.Prelude.Assoc.{lookup, insert, erase, lookup-insert, lookup-erase}
use logrange.Prelude.Cases.{option_case, if_case}
use logrange.Partition.Rebuilder.{
  RebuildStatus, Tmirebuilder, new_tmirebuilder, close, rebuild_index, pick_up, next_chunk,
  done_worker,
}
use logrange.Partition.Rebuilder.Drain.{Picked, pick_up-Picked}

-- The chunks that workers are serving now, and how many workers have left their loop and are to give
-- their token back.
pub record System : Type 0 where
  pub tir : Tmirebuilder
  pub serving : List ℕ
  pub leaving : ℕ

-- A worker that is to go on with the chunk `cid`, or to end if it is 0.
abbrev pub goes_on : Tmirebuilder → List ℕ → ℕ → ℕ → List ℕ → System
goes_on tir xs cid leaving ys =
    if cid == 0
    then record { tir = tir; serving = xs ++ ys; leaving = leaving + 1 }
    else record { tir = tir; serving = xs ++ cid ∷ ys; leaving = leaving }

-- What follows RebuildIndex.
abbrev pub asked : System → ℕ → Bool × Tmirebuilder → System
asked s cid (true, tir) = goes_on tir [] cid s.leaving s.serving
asked s cid (false, tir) = record s { tir = tir }

-- What follows the end of a round.
abbrev pub moved : List ℕ → List ℕ → ℕ → Option (ℕ × RebuildStatus) × Tmirebuilder → System
moved xs ys leaving (none, tir) = record { tir = tir; serving = xs ++ ys; leaving = leaving + 1 }
moved xs ys leaving (some (c, rs), tir) = goes_on tir xs c leaving ys

pub data Step (s : System) : System → Type 0 where
  asks :
      (prefers_closed : Bool) (src cid : ℕ) (force : Bool)
      → Step s (asked s cid (rebuild_index prefers_closed s.tir src cid force))
  moves :
      (order xs ys : List ℕ) (cid : ℕ)
      → s.serving ≡ xs ++ cid ∷ ys
      → Step s (moved xs ys s.leaving (next_chunk order s.tir cid))
  leaves : 0 < s.leaving → Step s (record s { tir = done_worker s.tir; leaving = s.leaving - 1 })
  closes : Step s (record s { tir = close s.tir })

pub data Reachable (max_workers : ℕ) : System → Type 0 where
  at_start :
      Reachable max_workers
        (record { tir = new_tmirebuilder max_workers; serving = []; leaving = 0 })
  by_step : (s t : System) → Reachable max_workers s → Step s t → Reachable max_workers t

abbrev pub count : ℕ → List ℕ → ℕ
count c [] = 0
count c (x ∷ xs) = (if c == x then 1 else 0) + count c xs

-- How many workers a chunk has by the map.
abbrev pub workers : Option RebuildStatus → ℕ
workers none = 0
workers (some rs) = if rs.started then 1 else 0

workers-le : (o : Option RebuildStatus) → workers o ≤ 1
workers-le none = omega arith
workers-le (some rs) = ground arith

-- No worker is lost, and each chunk has the workers that the map says, one at most.
pub record IsStaffed (max_workers : ℕ) (s : System) : Type 0 where
  pub tokens : s.tir.sema + length s.serving + s.leaving ≡ max_workers
  pub each : (c : ℕ) → c ≢ 0 → count c s.serving ≡ workers (lookup s.tir.chunks c)

count-append : (c : ℕ) (xs ys : List ℕ) → count c (xs ++ ys) ≡ count c xs + count c ys
count-append c [] ys = omega arith
count-append c (x ∷ xs) ys = omega (arith, count-append c xs ys)

module _ (max_workers : ℕ) where
  -- One worker for a chunk more, in the map and among the workers.
  goes_on-IsStaffed :
      (tir : Tmirebuilder) (xs ys : List ℕ) (cid leaving : ℕ) (m : List (ℕ × RebuildStatus))
      (rs : RebuildStatus)
      → tir.chunks ≡ insert m cid rs
      → rs.started ≡ true
      → workers (lookup m cid) ≡ 0
      → tir.sema + length (xs ++ ys) + leaving + 1 ≡ max_workers
      → ((c : ℕ) → c ≢ 0 → count c (xs ++ ys) ≡ workers (lookup m c))
      → IsStaffed max_workers (goes_on tir xs cid leaving ys)
  goes_on-IsStaffed tir xs ys cid leaving m rs e on idle tokens each =
      let look =
        λ (c : ℕ). ap (λ (z : List (ℕ × RebuildStatus)). lookup z c) e ∙ lookup-insert m cid c rs in
      if_case (IsStaffed max_workers) (cid == 0)
        (λ zero_id. record {
          tokens = omega arith;
          each = λ c h. let l = look c in ground (arith, each c h);
        })
        (λ h. record {
          tokens = omega (arith, length-append {0} xs ys, length-append {0} xs (cid ∷ ys));
          each = λ c h.
              let l = look c in
              let at = count-append c xs (cid ∷ ys) in
              let off = count-append c xs ys in
              let old = each c h in
              elim (Bool-cases (cid == c)) [
                | inl same ↦
                    let eq : cid ≡ c = ground arith in
                    let idle' = subst (λ (k : ℕ). workers (lookup m k) ≡ 0) eq idle in ground arith
                | inr other ↦ ground arith
              ];
        })

  -- A chunk that waits, put in the place of one that nobody serves, changes no number of workers.
  asleep :
      (m : List (ℕ × RebuildStatus)) (cid c : ℕ) (rs : RebuildStatus)
      → workers (lookup m cid) ≡ 0
      → rs.started ≡ false
      → workers (lookup (insert m cid rs) c) ≡ workers (lookup m c)
  asleep m cid c rs idle off =
      let l = lookup-insert m cid c rs in
      elim (Bool-cases (cid == c)) [
        | inl same ↦
            let eq : cid ≡ c = ground arith in
            let idle' = subst (λ (k : ℕ). workers (lookup m k) ≡ 0) eq idle in ground arith
        | inr other ↦ ground arith
      ]

  asks-IsStaffed :
      (s : System) (prefers_closed : Bool) (src cid : ℕ) (force : Bool)
      → IsStaffed max_workers s
      → IsStaffed max_workers (asked s cid (rebuild_index prefers_closed s.tir src cid force))
  unfolding rebuild_index
  asks-IsStaffed s prefers_closed src cid force ok =
      let P = λ (r : Bool × Tmirebuilder). IsStaffed max_workers (asked s cid r) in
      option_case P (lookup s.tir.chunks cid)
        (λ unknown.
          let idle : workers (lookup s.tir.chunks cid) ≡ 0 = ap workers unknown in
          if_case P
            (ltb 0 s.tir.sema
              && (if s.tir.closed then (if prefers_closed then false else true) else true))
            (λ can.
              goes_on-IsStaffed _ [] s.serving cid s.leaving s.tir.chunks
                (record { src = src; started = true; force = force }) refl refl idle
                (ground (arith, ok.tokens)) ok.each)
            (λ cannot.
              if_case P s.tir.closed (λ h. ok)
                (λ h. record {
                  tokens = ok.tokens;
                  each = λ c h. ok.each c h ∙ sym (asleep s.tir.chunks cid c _ idle refl);
                })))
        (λ rs e. ok)

  -- Without the chunk that is done, the map and the workers that are left agree.
  rest_agrees :
      (s : System) (xs ys : List ℕ) (cid c : ℕ)
      → IsStaffed max_workers s
      → s.serving ≡ xs ++ cid ∷ ys
      → c ≢ 0
      → count c (xs ++ ys) ≡ workers (lookup (erase s.tir.chunks cid) c)
  rest_agrees s xs ys cid c ok e h =
      let l = lookup-erase s.tir.chunks cid c in
      let old = ap (count c) (sym e) ∙ ok.each c h in
      let at = count-append c xs (cid ∷ ys) in
      let off = count-append c xs ys in let one = workers-le (lookup s.tir.chunks c) in ground arith

  moves-IsStaffed :
      (s : System) (order xs ys : List ℕ) (cid : ℕ)
      → s.serving ≡ xs ++ cid ∷ ys
      → IsStaffed max_workers s
      → IsStaffed max_workers (moved xs ys s.leaving (next_chunk order s.tir cid))
  unfolding next_chunk
  moves-IsStaffed s order xs ys cid e ok =
      let P = λ (r : Option (ℕ × RebuildStatus) × Tmirebuilder).
        IsStaffed max_workers (moved xs ys s.leaving r) in
      let m = erase s.tir.chunks cid in
      let n = ap length e in
      let tokens : s.tir.sema + length (xs ++ ys) + s.leaving + 1 ≡ max_workers =
        omega (arith, length-append {0} xs ys, length-append {0} xs (cid ∷ ys), ok.tokens) in
      option_case P (pick_up order m)
        (λ ended. record { tokens = omega arith; each = λ c h. rest_agrees s xs ys cid c ok e h })
        λ next picked.
          let w = subst (Picked order m) picked (pick_up-Picked order m) in
          goes_on-IsStaffed _ xs ys next.0 s.leaving m (record next.1 { started = true }) refl refl
            (let known = w.0 in let off = w.1 in ground arith) tokens
            (λ c h. rest_agrees s xs ys cid c ok e h)

  Step-IsStaffed : {s t : System} → Step s t → IsStaffed max_workers s → IsStaffed max_workers t
  unfolding done_worker close
  Step-IsStaffed {s = s} (asks prefers_closed src cid force) ok =
      asks-IsStaffed s prefers_closed src cid force ok
  Step-IsStaffed {s = s} (moves order xs ys cid e) ok = moves-IsStaffed s order xs ys cid e ok
  Step-IsStaffed {s = s} (leaves h) ok = record {
    tokens = omega (arith, ok.tokens);
    each = ok.each;
  }
  Step-IsStaffed {s = s} closes ok = record { tokens = ok.tokens; each = ok.each }

  -- However calls of RebuildIndex, the workers' rounds, their ends and the closing interleave: the
  -- free tokens, the workers that serve a chunk and those about to give their token back are always
  -- as many as there are workers at most; and the chunks that are being served are exactly those
  -- which the map calls started, each served by one worker (where 0 is no id of a chunk).
  pub Reachable-IsStaffed : {s : System} → Reachable max_workers s → IsStaffed max_workers s
  unfolding new_tmirebuilder lookup
  Reachable-IsStaffed at_start = record { tokens = omega arith; each = λ c h. refl }
  Reachable-IsStaffed (by_step s t r st) = Step-IsStaffed st (Reachable-IsStaffed r)
