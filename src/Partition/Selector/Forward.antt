-- ===== src/Partition/Selector/Forward.antt =====
-- `getPosForward` skips no record with a time that the index bounds: with an index that
-- keeps its documented promise, no record of the range.
use logrange.Prelude.{
  ℕ, zero, suc, ◌+◌, ◌-◌, ◌≤◌, ◌<◌, ◌≡◌, refl, sym, subst, ap, ◌∙◌, ◌⊎◌, inl, inr, true, false,
  List, [], ◌∷◌, some, arith, dec_lt, length, get_elem?, get_elem?_of_lt, if◌then◌else◌, ◌==◌,
  ℕ_discrete,
}
use mathlib.Core.Option.{some-injective}
use logrange.Prelude.Int.{ℤ}
use logrange.Partition.Selector.{
  Chunk, ChkStatus, ChkSelector, TsIndexer, TimeRange, Pos, Found, out, at_chunk, out_at, id_at,
  check_pos_or_advance, get_chunk_by_id_or_greater, forward_from, get_pos_forward, get_chunk_status,
}
use logrange.Partition.Selector.Status.{IsAllowed, check_pos_or_advance_lem}
use logrange.Partition.Selector.Chunks.{
  IsAscending, get_elem?-lt, id_at_lem, get_chunk_by_id_or_greater_lem,
}
use logrange.Partition.Selector.Records.{InTimes, Serves, Tells, IsSound, get_chunk_status_lem}

-- The order of the positions of a journal.
abbrev pub Before : Pos → Pos → Type 0
Before p q = (p.cid < q.cid) ⊎ ((p.cid ≡ q.cid) × (p.idx < q.idx))

pub dec_Before : (p q : Pos) → Dec (Before p q)
dec_Before p q = elim (dec_lt p.cid q.cid) [
  | yes lt ↦ yes (inl lt)
  | no ge ↦ elim (ℕ_discrete p.cid q.cid) [
    | no ne ↦ no λ h. omega (arith, h)
    | yes eq ↦ elim (dec_lt p.idx q.idx) [
      | yes lt ↦ yes (inr (eq, lt))
      | no ge' ↦ no λ h. omega (arith, h)
    ]
  ]
]

pub out_at_lem :
    (cks : List Chunk) (i : ℕ) (c : Chunk) (h : Chunk → ℕ)
    → get_elem? cks i ≡ some c
    → out_at cks i h ≡ out (record { cid = c.id; idx = h c })
out_at_lem cks i c h e = rw (out_at, e) refl

forward_starts :
    (tmidx : TsIndexer) (rng : TimeRange) (cks : List Chunk) (cs : ChkSelector) (p : Pos)
    → 0 < length cks
    → get_pos_forward tmidx rng (some cks) cs p ≡ (
        let idx = get_chunk_by_id_or_greater cks p.cid in
        if idx == length cks
        then (out_at cks (idx - 1) (λ ch. ch.count), cs)
        else forward_from tmidx rng cks
            (length cks - idx)
            idx
            (if id_at cks idx == p.cid then p.idx else 0)
            cs)
unfolding get_pos_forward
forward_starts tmidx rng [] cs p filled = absurd (omega arith)
forward_starts tmidx rng (c ∷ cks) cs p filled = refl

module _ (tmidx : TsIndexer) (rng : TimeRange) (time : ℕ → ℕ → ℤ) (lo : ℤ) (cks : List Chunk) where
  -- A record of the journal with a time from `lo` to the end of the range.
  pub record IsWanted (j : ℕ) (d : Chunk) (x : ℕ) : Type 0 where
    pub is_chunk : get_elem? cks j ≡ some d
    pub inside : x < d.count
    pub in_times : InTimes tmidx rng time lo cks d.id x

  -- The record `x` of the chunk number `j` is not before the record `p` of the chunk number `i`.
  abbrev IsFrom : ℕ → ℕ → ℕ → ℕ → Type 0
  IsFrom i p j x = (i < j) ⊎ ((i ≡ j) × (p ≤ x))

  -- What the loop answers from the record `p` of the chunk number `i` on.
  data Loop (i p : ℕ) : Found → Type 0 where
    found :
        (k : ℕ) (c : Chunk) (st : ChkStatus) (q : Pos)
        → get_elem? cks k ≡ some c
        → Tells tmidx rng time lo cks st c
        → q.cid ≡ c.id
        → IsAllowed st q.idx
        → IsFrom i p k q.idx
        → ((j : ℕ) (d : Chunk) (x : ℕ) → IsWanted j d x → IsFrom i p j x → IsFrom k q.idx j x)
        → Loop i p (at_chunk c st q)
    at_end :
        (c : Chunk)
        → get_elem? cks (length cks - 1) ≡ some c
        → ((j : ℕ) (d : Chunk) (x : ℕ) → IsWanted j d x → IsFrom i p j x → ⊥)
        → Loop i p (out (record { cid = c.id; idx = c.count }))

  -- A chunk without wanted records is left out.
  Loop-suc :
      (i p : ℕ) (f : Found)
      → ((d : Chunk) (x : ℕ) → IsWanted i d x → p ≤ x → ⊥)
      → Loop (i + 1) 0 f
      → Loop i p f
  Loop-suc i p f skip (found k c st q e t same a after least) =
      found k c st q e t same a (omega (arith, after)) λ j d x w from. elim (ℕ_discrete i j) [
        | yes h ↦ absurd (skip d x (subst (λ z. IsWanted z d x) (sym h) w) (omega (arith, from)))
        | no ne ↦ least j d x w (omega (arith, from))
      ]
  Loop-suc i p f skip (at_end c e none_left) = at_end c e λ j d x w from. elim (ℕ_discrete i j) [
    | yes h ↦ absurd (skip d x (subst (λ z. IsWanted z d x) (sym h) w) (omega (arith, from)))
    | no ne ↦ none_left j d x w (omega (arith, from))
  ]

  module _ (s : Serves tmidx rng time lo cks) (asc : IsAscending cks) where
    pub wanted-IsAllowed :
        (i : ℕ) (c d : Chunk) (st : ChkStatus) (x : ℕ)
        → get_elem? cks i ≡ some c
        → Tells tmidx rng time lo cks st c
        → IsWanted i d x
        → IsAllowed st x
    wanted-IsAllowed i c d st x e t w =
        let dc : d ≡ c = some-injective d c (sym w.is_chunk ∙ e) in
        t.allows x (subst (λ z. x < z.count) dc w.inside)
          (subst (λ z. InTimes tmidx rng time lo cks z.id x) dc w.in_times)

    forward_end :
        (i p : ℕ) (cs : ChkSelector) (c : Chunk)
        → get_elem? cks (length cks - 1) ≡ some c
        → forward_from tmidx rng cks 0 i p cs ≡ (out (record { cid = c.id; idx = c.count }), cs)
    unfolding forward_from
    forward_end i p cs c e = ground arith

    forward_found :
        (n i p : ℕ) (cs : ChkSelector) (c : Chunk) (st : ChkStatus) (cs' : ChkSelector)
        → get_elem? cks i ≡ some c
        → get_chunk_status tmidx rng cs c cks ≡ some (st, cs')
        → (check_pos_or_advance st p).1 ≡ true
        → forward_from tmidx rng cks (suc n) i p cs
          ≡ (at_chunk c st (record { cid = c.id; idx = (check_pos_or_advance st p).0 }), cs')
    unfolding forward_from
    forward_found n i p cs c st cs' e a ok = rw (forward_from, e, a, ok) refl

    forward_next :
        (n i p : ℕ) (cs : ChkSelector) (c : Chunk) (st : ChkStatus) (cs' : ChkSelector)
        → get_elem? cks i ≡ some c
        → get_chunk_status tmidx rng cs c cks ≡ some (st, cs')
        → (check_pos_or_advance st p).1 ≡ false
        → forward_from tmidx rng cks (suc n) i p cs ≡ forward_from tmidx rng cks n (i + 1) 0 cs'
    unfolding forward_from
    forward_next n i p cs c st cs' e a ok = rw (forward_from, e, a, ok) refl

    forward_from-Loop :
        (n i p : ℕ) (cs : ChkSelector)
        → i + n ≡ length cks
        → 0 < length cks
        → IsSound tmidx rng time lo cks cs.stats
        → Loop i p (forward_from tmidx rng cks n i p cs).0
          × IsSound tmidx rng time lo cks (forward_from tmidx rng cks n i p cs).1.stats
    forward_from-Loop zero i p cs len filled sd =
        let (c, e) = get_elem?_of_lt cks (length cks - 1) (omega arith) in
        rw (forward_end i p cs c e) (
          at_end c e
              λ j d x w from. let lt = get_elem?-lt cks j d w.is_chunk in omega (arith, from),
          sd,
        )
    forward_from-Loop (suc n) i p cs len filled sd =
        let (c, e) = get_elem?_of_lt cks i (omega arith) in
        let so = get_chunk_status_lem tmidx rng time lo cks s asc cs i c sd e in
        elim (check_pos_or_advance_lem so.st p) [
          | inl (ok, a, ge, least) ↦
              rw (forward_found n i p cs c so.st so.after e so.is_answer ok) (
                found i c so.st (record { cid = c.id; idx = (check_pos_or_advance so.st p).0 }) e
                    so.tells refl a (inr (refl, ge))
                    λ j d x w from. elim (ℕ_discrete i j) [
                      | yes h ↦ inr (
                        h,
                        least x
                            (wanted-IsAllowed i c d so.st x e so.tells
                              (subst (λ z. IsWanted z d x) (sym h) w))
                            (omega (arith, from)),
                      )
                      | no ne ↦ inl (omega (arith, from))
                    ],
                so.is_sound,
              )
          | inr (no_pos, end, skip) ↦
              let (rest, sd') =
                forward_from-Loop n (i + 1) 0 so.after (omega arith) filled so.is_sound in
              rw (forward_next n i p cs c so.st so.after e so.is_answer no_pos) (
                Loop-suc i p _
                    (λ d x w px.
                      omega (arith, skip x (wanted-IsAllowed i c d so.st x e so.tells w)))
                    rest,
                sd',
              )
        ]

    -- The answer of `getPosForward` at a position: the first position found and its status, or the
    -- end of the last chunk.
    pub data ForwardAnswer (p : Pos) : Found → Type 0 where
      found_at :
          (k : ℕ) (c : Chunk) (st : ChkStatus) (q : Pos)
          → get_elem? cks k ≡ some c
          → Tells tmidx rng time lo cks st c
          → q.cid ≡ c.id
          → IsAllowed st q.idx
          → ¬ Before q p
          → ((j : ℕ) (d : Chunk) (x : ℕ)
              → IsWanted j d x
              → ¬ Before (record { cid = d.id; idx = x }) p
              → ¬ Before (record { cid = d.id; idx = x }) q)
          → ForwardAnswer p (at_chunk c st q)
      none_found :
          (c : Chunk)
          → get_elem? cks (length cks - 1) ≡ some c
          → ((j : ℕ) (d : Chunk) (x : ℕ)
              → IsWanted j d x
              → Before (record { cid = d.id; idx = x }) p)
          → ForwardAnswer p (out (record { cid = c.id; idx = c.count }))

    from-Before :
        (i j : ℕ) (c d : Chunk) (y x : ℕ)
        → get_elem? cks i ≡ some c
        → get_elem? cks j ≡ some d
        → IsFrom i y j x
        → ¬ Before (record { cid = d.id; idx = x }) (record { cid = c.id; idx = y })
    from-Before i j c d y x e e' (inl lt) = let h = asc.ascending i j c d lt e e' in ground arith
    from-Before i j c d y x e e' (inr (eq, le)) =
        let h : c ≡ d = some-injective c d (sym e ∙ (rw eq e')) in
        let h' : c.id ≡ d.id = ap (λ z. z.id) h in ground arith

    is_from :
        (g y : ℕ) (p : Pos) (c : Chunk)
        → get_elem? cks g ≡ some c
        → ((j : ℕ) (d : Chunk) → get_elem? cks j ≡ some d → j < g → d.id < p.cid)
        → (c.id ≡ p.cid) × (y ≡ p.idx) ⊎ (p.cid < c.id) × (y ≡ 0)
        → (j : ℕ) (d : Chunk) (x : ℕ) → get_elem? cks j ≡ some d
        → ¬ Before (record { cid = d.id; idx = x }) p
        → IsFrom g y j x
    is_from g y p c e low start j d x e' not_before = elim (dec_lt j g) [
      | yes lt ↦ absurd (not_before (inl (low j d e' lt)))
      | no ge ↦ elim (ℕ_discrete g j) [
        | no ne ↦ inl (omega arith)
        | yes eq ↦
            let h : c ≡ d = some-injective c d (sym e ∙ (rw eq e')) in
            let h' : c.id ≡ d.id = ap (λ z. z.id) h in inr (eq, ground arith)
      ]
    ]

    Loop-ForwardAnswer :
        (g y : ℕ) (p : Pos) (c : Chunk) (f : Found)
        → get_elem? cks g ≡ some c
        → ((j : ℕ) (d : Chunk) → get_elem? cks j ≡ some d → j < g → d.id < p.cid)
        → (c.id ≡ p.cid) × (y ≡ p.idx) ⊎ (p.cid < c.id) × (y ≡ 0)
        → Loop g y f
        → ForwardAnswer p f
    Loop-ForwardAnswer g y p c f e low start (found k c' st q e' t same a after least) =
        found_at k c' st q e' t same a
          (let h = from-Before g k c c' y q.idx e e' after in ground arith)
          λ j d x w not_before.
            let h =
              from-Before k j c' d q.idx x e' w.is_chunk
                (least j d x w (is_from g y p c e low start j d x w.is_chunk not_before)) in
            ground arith
    Loop-ForwardAnswer g y p c f e low start (at_end c' e' none_left) = none_found c' e' λ j d x w.
        elim (dec_Before (record { cid = d.id; idx = x }) p) [
          | yes before ↦ before
          | no not_before ↦
              absurd (none_left j d x w (is_from g y p c e low start j d x w.is_chunk not_before))
        ]

    -- On a journal of one chunk or more with ascending ids, with an index that bounds the records
    -- from a time `lo` on, which is MinTs or later, and up to MaxTs, and with a selector whose
    -- statuses are sound, `getPosForward` answers a record that its chunk's status allows, at or
    -- behind the given position, and skips no record with a time from `lo` to MaxTs; or it answers
    -- the end of the last chunk, and no record with such a time stands at or behind the given
    -- position. The statuses that it leaves are sound. With `lo` = MinTs, which is what the index's
    -- interface documents, these are all the records of the range, its ends included.
    pub get_pos_forward-answers :
        (cs : ChkSelector) (p : Pos)
        → 0 < length cks
        → IsSound tmidx rng time lo cks cs.stats
        → ForwardAnswer p (get_pos_forward tmidx rng (some cks) cs p).0
          × IsSound tmidx rng time lo cks (get_pos_forward tmidx rng (some cks) cs p).1.stats
    get_pos_forward-answers cs p filled sd =
        let g = get_chunk_by_id_or_greater cks p.cid in
        let (bound, splits) = get_chunk_by_id_or_greater_lem cks p.cid asc in
        elim (ℕ_discrete g (length cks)) [
          | yes eq ↦
              let (c, e) = get_elem?_of_lt cks (length cks - 1) (omega arith) in
              let t : (g == length cks) ≡ true = ground arith in
              let last =
                out_at_lem cks (g - 1) c (λ ch. ch.count)
                  (subst (λ z. get_elem? cks z ≡ some c) (omega arith) e) in
              rw (forward_starts tmidx rng cks cs p filled, t, last)
                (
                  none_found c e λ j d x w. inl (
                      (splits j d w.is_chunk).1
                        (let lt = get_elem?-lt cks j d w.is_chunk in omega arith)),
                  sd,
                )
          | no ne ↦
              let (c, e) = get_elem?_of_lt cks g (omega arith) in
              let t : (g == length cks) ≡ false = ground arith in
              let p_idx = if id_at cks g == p.cid then p.idx else 0 in
              let (loop, sd') =
                forward_from-Loop (length cks - g) g p_idx cs (omega arith) filled sd in
              let d = id_at_lem cks g c e in
              let sp = splits g c e in
              rw (forward_starts tmidx rng cks cs p filled, t)
                (
                  Loop-ForwardAnswer g p_idx p c _ e (λ j d' e'. (splits j d' e').1) (ground arith)
                      loop,
                  sd',
                )
        ]
