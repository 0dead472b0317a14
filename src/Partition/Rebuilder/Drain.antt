-- ===== src/Partition/Rebuilder/Drain.antt =====
-- A worker that is not disturbed ends, and leaves no chunk waiting.
use mathlib.Core.Option.{some-injective}
use logrange.Prelude.{
  ◌⊎◌, ℕ, zero, suc, ◌+◌, ◌≤◌, ◌<◌, ◌≡◌, ◌≢◌, refl, sym, ap, subst, ◌∙◌, List, [], ◌∷◌, Option,
  none, some, true, false, ◌==◌, length, arith, Bool-cases, Option-cases, inl, inr,
}
use logrange.Prelude.Assoc.{lookup, insert, erase, lookup-insert, lookup-insert_self, lookup-erase}
use logrange.Prelude.Cases.{option_case, if_case}
use logrange.Partition.Rebuilder.{
  RebuildStatus, Tmirebuilder, pick_up, next_chunk, done_worker, run_worker,
}

module _ {V : Type 0} where
  length-erase-le : (m : List (ℕ × V)) (k : ℕ) → length (erase m k) ≤ length m
  unfolding erase
  length-erase-le [] k = omega arith
  length-erase-le ((a, b) ∷ m) k = let ih = length-erase-le m k in ground arith

  length-erase-lt :
      (m : List (ℕ × V)) (k : ℕ) (v : V) → lookup m k ≡ some v → length (erase m k) < length m
  unfolding erase lookup
  length-erase-lt [] k v e = absurd (ground arith)
  length-erase-lt ((a, b) ∷ m) k v e =
      let le = length-erase-le m k in let ih = length-erase-lt m k v in ground arith

  length-insert_known :
      (m : List (ℕ × V)) (k : ℕ) (v w : V) → lookup m k ≡ some v → length (insert m k w) ≡ length m
  unfolding insert lookup
  length-insert_known [] k v w e = absurd (ground arith)
  length-insert_known ((a, b) ∷ m) k v w e = let ih = length-insert_known m k v w in ground arith

-- A chunk that waits, with its status.
abbrev pub Waits : List (ℕ × RebuildStatus) → ℕ × RebuildStatus → Type 0
Waits m r = (lookup m r.0 ≡ some r.1) × (r.1.started ≡ false)

abbrev pub Visits : List ℕ → ℕ → Type 0
Visits [] c = ⊥
Visits (d ∷ order) c = (c ≡ d) ⊎ Visits order c

-- No chunk that the order visits waits.
abbrev pub NoneWaits : List ℕ → List (ℕ × RebuildStatus) → Type 0
NoneWaits order m = (c : ℕ) (rs : RebuildStatus) → Visits order c → Waits m (c, rs) → ⊥

-- What a search for a waiting chunk answers.
abbrev pub Picked : List ℕ → List (ℕ × RebuildStatus) → Option (ℕ × RebuildStatus) → Type 0
Picked order m none = NoneWaits order m
Picked order m (some r) = Waits m r

none_more :
    (d : ℕ) (order : List ℕ) (m : List (ℕ × RebuildStatus)) (o : Option (ℕ × RebuildStatus))
    → ((rs : RebuildStatus) → Waits m (d, rs) → ⊥)
    → Picked order m o
    → Picked (d ∷ order) m o
none_more d order m none busy p = λ c rs v w. elim v [
  | inl here ↦ busy rs (subst (λ (k : ℕ). Waits m (k, rs)) here w)
  | inr later ↦ p c rs later w
]
none_more d order m (some r) busy p = p

pub pick_up-Picked :
    (order : List ℕ) (m : List (ℕ × RebuildStatus)) → Picked order m (pick_up order m)
unfolding pick_up
pick_up-Picked [] m = λ c rs v w. absurd v
pick_up-Picked (d ∷ order) m =
    let ih = pick_up-Picked order m in
    option_case (Picked (d ∷ order) m) (lookup m d)
      (λ unknown. none_more d order m _ (λ rs w. ground arith) ih)
      λ rs known.
        if_case (Picked (d ∷ order) m) rs.started
          (λ on.
            none_more d order m _
              (λ rs' w.
                let same = some-injective rs rs' (sym known ∙ w.0) in
                let on' = ap (λ (z : RebuildStatus). z.started) same in ground arith)
              ih)
          (λ off. (known, off))

-- An order visits every chunk of the map, as `range` does.
abbrev pub Ranges : List ℕ → List (ℕ × RebuildStatus) → Type 0
Ranges order m = (c : ℕ) (rs : RebuildStatus) → lookup m c ≡ some rs → Visits order c

-- The end of a run: the token is back, no chunk of the map waits, and all that waited were served.
pub record IsDrained (tir : Tmirebuilder) (cid : ℕ) (r : List ℕ × Tmirebuilder) : Type 0 where
  pub token : r.1.sema ≡ tir.sema + 1
  pub quiet : (c : ℕ) (rs : RebuildStatus) → Waits r.1.chunks (c, rs) → ⊥
  pub first : Visits r.0 cid
  pub served : (c : ℕ) (rs : RebuildStatus) → Waits tir.chunks (c, rs) → Visits r.0 c

-- The chunks without the one that is done.
erase-Waits :
    (m : List (ℕ × RebuildStatus)) (cid c : ℕ) (rs : RebuildStatus)
    → c ≢ cid
    → Waits m (c, rs)
    → Waits (erase m cid) (c, rs)
erase-Waits m cid c rs other w = (let l = lookup-erase m cid c in ground arith, w.1)

-- The status of a chunk that was picked up.
abbrev begun : RebuildStatus → RebuildStatus
begun rs = record rs { started = true }

begun-Waits :
    (m : List (ℕ × RebuildStatus)) (next : ℕ × RebuildStatus) (c : ℕ) (rs : RebuildStatus)
    → c ≢ next.0
    → Waits m (c, rs)
    → Waits (insert m next.0 (begun next.1)) (c, rs)
begun-Waits m next c rs other w =
    (let l = lookup-insert m next.0 c (begun next.1) in ground arith, w.1)

module _ (order : List ℕ) (tir : Tmirebuilder) (cid : ℕ) where
  abbrev rest : List (ℕ × RebuildStatus)
  rest = erase tir.chunks cid

  next_ended :
      pick_up order rest ≡ none → next_chunk order tir cid ≡ (none, record tir { chunks = rest })
  unfolding next_chunk
  next_ended e = rw (e, next_chunk)

  abbrev started_next : ℕ × RebuildStatus → Tmirebuilder
  started_next next = record tir { chunks = insert rest next.0 (begun next.1) }

  next_picked :
      (next : ℕ × RebuildStatus)
      → pick_up order rest ≡ some next
      → next_chunk order tir cid ≡ (some (next.0, begun next.1), started_next next)
  unfolding next_chunk
  next_picked next e = rw (e, next_chunk)

  -- The chunks that are left when one is done were in the map before.
  rest-Ranges : Ranges order tir.chunks → Ranges order rest
  rest-Ranges all c rs known = elim (Bool-cases (cid == c)) [
    | inl same ↦ absurd (let l = lookup-erase tir.chunks cid c in ground arith)
    | inr other ↦ all c rs (let l = lookup-erase tir.chunks cid c in ground arith)
  ]

  ended-IsDrained :
      pick_up order rest ≡ none
      → Ranges order tir.chunks
      → IsDrained tir cid (cid ∷ [], done_worker (record tir { chunks = rest }))
  unfolding done_worker
  ended-IsDrained e all =
      let none_left = subst (Picked order rest) e (pick_up-Picked order rest) in
      let quiet = λ (c : ℕ) (rs : RebuildStatus) (w : Waits rest (c, rs)).
        none_left c rs (rest-Ranges all c rs w.0) w in
      record {
        token = refl;
        quiet = quiet;
        first = inl refl;
        served = λ c rs w. elim (Bool-cases (c == cid)) [
          | inl same ↦ inl (ground arith)
          | inr other ↦ absurd (quiet c rs (erase-Waits tir.chunks cid c rs (ground arith) w))
        ];
      }

  picked-IsDrained :
      (next : ℕ × RebuildStatus) (r : List ℕ × Tmirebuilder)
      → pick_up order rest ≡ some next
      → IsDrained (started_next next) next.0 r
      → IsDrained tir cid (cid ∷ r.0, r.1)
  picked-IsDrained next r e d = record {
    token = d.token;
    quiet = d.quiet;
    first = inl refl;
    served = λ c rs w. elim (Bool-cases (c == cid)) [
      | inl same ↦ inl (ground arith)
      | inr other ↦ elim (Bool-cases (c == next.0)) [
        | inl at ↦ let eq : next.0 ≡ c = ground arith in inr (subst (Visits r.0) eq d.first)
        | inr off ↦ inr (
            d.served c rs (
              begun-Waits rest next c rs (ground arith)
                (erase-Waits tir.chunks cid c rs (ground arith) w)))
      ]
    ];
  }

  picked_next : (next : ℕ × RebuildStatus) → pick_up order rest ≡ some next → Waits rest next
  picked_next next e = subst (Picked order rest) e (pick_up-Picked order rest)

key_nonzero :
    (m : List (ℕ × RebuildStatus)) (k : ℕ) (rs : RebuildStatus)
    → lookup m k ≡ some rs
    → lookup m 0 ≡ none
    → k ≢ 0
key_nonzero m k rs known no_zero z = ground (arith, ap (lookup m) z)

-- The map of the next round has no chunk that the one before did not have.
next-Ranges :
    (seen order : List ℕ) (tir : Tmirebuilder) (cid : ℕ) (next : ℕ × RebuildStatus)
    → Waits (rest order tir cid) next
    → Ranges seen tir.chunks
    → Ranges seen (started_next order tir cid next).chunks
next-Ranges seen order tir cid next w all c rs known =
    let before = rest-Ranges seen tir cid all in
    let l = lookup-insert (rest order tir cid) next.0 c (begun next.1) in
    elim (Bool-cases (next.0 == c)) [
      | inl same ↦
          let eq : next.0 ≡ c = ground arith in subst (Visits seen) eq (before next.0 next.1 w.0)
      | inr other ↦ before c rs (ground arith)
    ]

-- A worker that starts on a chunk, where each round ranges over the whole map, in an order of its
-- own, no chunk has the id 0 and nobody else comes in between, ends after at most as many rounds as
-- there are chunks: it gives its token back, it has served its chunk and every chunk of the map that
-- waited, and no chunk of the map that is left waits.
pub run_worker-IsDrained :
    (fuel : ℕ) (orders : ℕ → List ℕ) (tir : Tmirebuilder) (cid : ℕ)
    → length (erase tir.chunks cid) < fuel
    → cid ≢ 0
    → lookup tir.chunks 0 ≡ none
    → ((n : ℕ) → Ranges (orders n) tir.chunks)
    → IsDrained tir cid (run_worker fuel orders tir cid)
unfolding run_worker
run_worker-IsDrained zero orders tir cid enough some_chunk no_zero all = absurd (omega arith)
run_worker-IsDrained (suc fuel) orders tir cid enough some_chunk no_zero all =
    let order = orders fuel in
    let nonzero : cid == 0 ≡ false = ground arith in
    elim (Option-cases (pick_up order (rest order tir cid))) [
      | inl ended ↦
          let e = next_ended order tir cid ended in
          rw (nonzero, e, run_worker) (rw (e) (ended-IsDrained order tir cid ended (all fuel)))
      | inr (next, picked) ↦
          let w = picked_next order tir cid next picked in
          let m = rest order tir cid in
          let shorter =
            length-erase-lt (started_next order tir cid next).chunks next.0 (begun next.1)
              (lookup-insert_self m next.0 (begun next.1)) in
          let as_long = length-insert_known m next.0 next.1 (begun next.1) w.0 in
          let no_zero' : lookup m 0 ≡ none = lookup-erase tir.chunks cid 0 ∙ (ground arith) in
          let some_next = key_nonzero m next.0 next.1 w.0 no_zero' in
          let ih =
            run_worker-IsDrained fuel orders (started_next order tir cid next) next.0 (omega arith)
              some_next (lookup-insert m next.0 0 (begun next.1) ∙ (ground arith))
              (λ n. next-Ranges (orders n) order tir cid next w (all n)) in
          let e = next_picked order tir cid next picked in
          rw (nonzero, e, run_worker) (rw (e) (picked-IsDrained order tir cid next _ picked ih))
    ]
