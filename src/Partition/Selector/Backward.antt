-- ===== src/Partition/Selector/Backward.antt =====
-- `getPosBackward` skips no record with a time that the index bounds: with an index that
-- keeps its documented promise, no record of the range.
use logrange.Prelude.{
  ℕ, zero, suc, ◌≤◌, ◌<◌, ◌≡◌, refl, sym, subst, ap, ◌∙◌, ◌⊎◌, inl, inr, true, false, List, [], ◌∷◌,
  some, arith, dec_lt, length, get_elem?, get_elem?_of_lt, if◌then◌else◌, ◌==◌, ℕ_discrete,
}
use mathlib.Core.Option.{some-injective}
use logrange.Prelude.Int.{ℤ}
use logrange.Partition.Selector.{
  Chunk, ChkStatus, ChkSelector, TsIndexer, TimeRange, Pos, Found, out, at_chunk,
  check_pos_or_reduce, get_chunk_by_id_or_less_1, backward_from, get_pos_backward, pred_uint32,
  max_uint32, get_chunk_status,
}
use logrange.Partition.Selector.Status.{IsAllowed, check_pos_or_reduce_lem}
use logrange.Partition.Selector.Chunks.{IsAscending, get_chunk_by_id_or_less_lem}
use logrange.Partition.Selector.Records.{Serves, Tells, IsSound, get_chunk_status_lem}
use logrange.Partition.Selector.Forward.{Before, dec_Before, IsWanted, wanted-IsAllowed, out_at_lem}

backward_starts :
    (tmidx : TsIndexer) (rng : TimeRange) (cks : List Chunk) (cs : ChkSelector) (p : Pos)
    (c0 : Chunk)
    → get_elem? cks 0 ≡ some c0
    → get_chunk_by_id_or_less_1 cks p.cid ≡ 0
    → get_pos_backward tmidx rng (some cks) cs p ≡ (out (record { cid = c0.id; idx = 0 }), cs)
unfolding get_pos_backward
backward_starts tmidx rng [] cs p c0 e n = absurd (ground arith)
backward_starts tmidx rng (c ∷ cks) cs p c0 e n =
    rw (get_pos_backward, n) (ap (λ z. (z, cs)) (out_at_lem (c ∷ cks) 0 c0 (λ ch. 0) e))

backward_enters :
    (tmidx : TsIndexer) (rng : TimeRange) (cks : List Chunk) (cs : ChkSelector) (p : Pos) (i : ℕ)
    (c : Chunk)
    → get_elem? cks i ≡ some c
    → get_chunk_by_id_or_less_1 cks p.cid ≡ suc i
    → get_pos_backward tmidx rng (some cks) cs p
      ≡ backward_from tmidx rng cks
          (suc i)
          (if c.id == p.cid then p.idx else pred_uint32 c.count)
          cs
unfolding get_pos_backward
backward_enters tmidx rng [] cs p i c e n = absurd (ground arith)
backward_enters tmidx rng (c0 ∷ cks) cs p i c e n = rw (get_pos_backward, n, e) refl

module _ (tmidx : TsIndexer) (rng : TimeRange) (time : ℕ → ℕ → ℤ) (lo : ℤ) (cks : List Chunk) where
  -- The record `x` of the chunk number `j` is not after the record `p` of the chunk before `n`.
  abbrev IsUpTo : ℕ → ℕ → ℕ → ℕ → Type 0
  IsUpTo n p j x = (suc j < n) ⊎ ((suc j ≡ n) × (x ≤ p))

  -- What the loop answers from the record `p` of the chunk before `n` down.
  data Loop (n p : ℕ) : Found → Type 0 where
    found :
        (k : ℕ) (c : Chunk) (st : ChkStatus) (q : Pos)
        → get_elem? cks k ≡ some c
        → Tells tmidx rng time lo cks st c
        → q.cid ≡ c.id
        → IsAllowed st q.idx
        → IsUpTo n p k q.idx
        → ((j : ℕ) (d : Chunk) (x : ℕ)
            → IsWanted tmidx rng time lo cks j d x
            → IsUpTo n p j x
            → IsUpTo (suc k) q.idx j x)
        → Loop n p (at_chunk c st q)
    at_start :
        (c : Chunk)
        → get_elem? cks 0 ≡ some c
        → ((j : ℕ) (d : Chunk) (x : ℕ) → IsWanted tmidx rng time lo cks j d x → IsUpTo n p j x → ⊥)
        → Loop n p (out (record { cid = c.id; idx = 0 }))

  backward_end :
      (p : ℕ) (cs : ChkSelector) (c : Chunk)
      → get_elem? cks 0 ≡ some c
      → backward_from tmidx rng cks 0 p cs ≡ (out (record { cid = c.id; idx = 0 }), cs)
  unfolding backward_from
  backward_end p cs c e = ap (λ z. (z, cs)) (out_at_lem cks 0 c (λ ch. 0) e)

  backward_found :
      (i p : ℕ) (cs : ChkSelector) (c : Chunk) (st : ChkStatus) (cs' : ChkSelector)
      → get_elem? cks i ≡ some c
      → get_chunk_status tmidx rng cs c cks ≡ some (st, cs')
      → (check_pos_or_reduce st p).1 ≡ true
      → backward_from tmidx rng cks (suc i) p cs
        ≡ (at_chunk c st (record { cid = c.id; idx = (check_pos_or_reduce st p).0 }), cs')
  unfolding backward_from
  backward_found i p cs c st cs' e a ok = rw (backward_from, e, a, ok) refl

  backward_next :
      (i p : ℕ) (cs : ChkSelector) (c : Chunk) (st : ChkStatus) (cs' : ChkSelector)
      → get_elem? cks i ≡ some c
      → get_chunk_status tmidx rng cs c cks ≡ some (st, cs')
      → (check_pos_or_reduce st p).1 ≡ false
      → backward_from tmidx rng cks (suc i) p cs ≡ backward_from tmidx rng cks i max_uint32 cs'
  unfolding backward_from
  backward_next i p cs c st cs' e a ok = rw (backward_from, e, a, ok) refl

  module _ (s : Serves tmidx rng time lo cks) (asc : IsAscending cks) where
    -- A chunk without wanted records is left out.
    Loop-pred :
        (i p : ℕ) (f : Found)
        → ((d : Chunk) (x : ℕ) → IsWanted tmidx rng time lo cks i d x → x ≤ p → ⊥)
        → Loop i max_uint32 f
        → Loop (suc i) p f
    Loop-pred i p f skip (found k c st q e t same a after least) =
        found k c st q e t same a (omega (arith, after)) λ j d x w up. elim (ℕ_discrete i j) [
          | yes h ↦ absurd (
              skip d x (subst (λ z. IsWanted tmidx rng time lo cks z d x) (sym h) w)
                (omega (arith, up)))
          | no ne ↦
              least j d x w
                (let n = s.counts j d w.is_chunk in let lt = w.inside in omega (arith, up))
        ]
    Loop-pred i p f skip (at_start c e none_left) = at_start c e λ j d x w up.
        elim (ℕ_discrete i j) [
          | yes h ↦ absurd (
              skip d x (subst (λ z. IsWanted tmidx rng time lo cks z d x) (sym h) w)
                (omega (arith, up)))
          | no ne ↦
              none_left j d x w
                (let n = s.counts j d w.is_chunk in let lt = w.inside in omega (arith, up))
        ]

    backward_from-Loop :
        (n p : ℕ) (cs : ChkSelector)
        → n ≤ length cks
        → 0 < length cks
        → IsSound tmidx rng time lo cks cs.stats
        → Loop n p (backward_from tmidx rng cks n p cs).0
          × IsSound tmidx rng time lo cks (backward_from tmidx rng cks n p cs).1.stats
    backward_from-Loop zero p cs len filled sd =
        let (c, e) = get_elem?_of_lt cks 0 filled in
        rw (backward_end p cs c e) (at_start c e λ j d x w up. omega (arith, up), sd)
    backward_from-Loop (suc i) p cs len filled sd =
        let (c, e) = get_elem?_of_lt cks i (omega arith) in
        let so = get_chunk_status_lem tmidx rng time lo cks s asc cs i c sd e in
        elim (check_pos_or_reduce_lem so.st p) [
          | inl (ok, a, le, greatest) ↦
              rw (backward_found i p cs c so.st so.after e so.is_answer ok) (
                found i c so.st (record { cid = c.id; idx = (check_pos_or_reduce so.st p).0 }) e
                    so.tells refl a (inr (refl, le))
                    λ j d x w up. elim (ℕ_discrete i j) [
                      | yes h ↦ inr (
                        ap suc (sym h),
                        greatest x
                            (wanted-IsAllowed tmidx rng time lo cks s asc i c d so.st x e so.tells
                              (subst (λ z. IsWanted tmidx rng time lo cks z d x) (sym h) w))
                            (omega (arith, up)),
                      )
                      | no ne ↦ inl (omega (arith, up))
                    ],
                so.is_sound,
              )
          | inr (no_pos, skip) ↦
              let (rest, sd') =
                backward_from-Loop i max_uint32 so.after (omega arith) filled so.is_sound in
              rw (backward_next i p cs c so.st so.after e so.is_answer no_pos) (
                Loop-pred i p _
                    (λ d x w px. omega (
                      arith,
                      skip x
                          (wanted-IsAllowed tmidx rng time lo cks s asc i c d so.st x e so.tells w),
                    ))
                    rest,
                sd',
              )
        ]

    -- The answer of `getPosBackward` at a position: the first position found going down and its
    -- status, or the start of the first chunk.
    pub data BackwardAnswer (p : Pos) : Found → Type 0 where
      found_at :
          (k : ℕ) (c : Chunk) (st : ChkStatus) (q : Pos)
          → get_elem? cks k ≡ some c
          → Tells tmidx rng time lo cks st c
          → q.cid ≡ c.id
          → IsAllowed st q.idx
          → ¬ Before p q
          → ((j : ℕ) (d : Chunk) (x : ℕ)
              → IsWanted tmidx rng time lo cks j d x
              → ¬ Before p (record { cid = d.id; idx = x })
              → ¬ Before q (record { cid = d.id; idx = x }))
          → BackwardAnswer p (at_chunk c st q)
      none_found :
          (c : Chunk)
          → get_elem? cks 0 ≡ some c
          → ((j : ℕ) (d : Chunk) (x : ℕ)
              → IsWanted tmidx rng time lo cks j d x
              → Before p (record { cid = d.id; idx = x }))
          → BackwardAnswer p (out (record { cid = c.id; idx = 0 }))

    up_to-Before :
        (i j : ℕ) (c d : Chunk) (y x : ℕ)
        → get_elem? cks i ≡ some c
        → get_elem? cks j ≡ some d
        → IsUpTo (suc i) y j x
        → ¬ Before (record { cid = c.id; idx = y }) (record { cid = d.id; idx = x })
    up_to-Before i j c d y x e e' (inl lt) =
        let h = asc.ascending j i d c (omega arith) e' e in ground arith
    up_to-Before i j c d y x e e' (inr (eq, le)) =
        let ij : i ≡ j = omega arith in
        let h : c ≡ d = some-injective c d (sym e ∙ (rw ij e')) in
        let h' : c.id ≡ d.id = ap (λ z. z.id) h in ground arith

    is_up_to :
        (i y : ℕ) (p : Pos) (c : Chunk)
        → get_elem? cks i ≡ some c
        → ((j : ℕ) (d : Chunk) → get_elem? cks j ≡ some d → d.id ≤ p.cid → j < suc i)
        → (c.id ≡ p.cid) × (y ≡ p.idx) ⊎ (c.id < p.cid) × (c.count ≤ suc y)
        → (j : ℕ) (d : Chunk) (x : ℕ) → get_elem? cks j ≡ some d
        → x < d.count
        → ¬ Before p (record { cid = d.id; idx = x })
        → IsUpTo (suc i) y j x
    is_up_to i y p c e low start j d x e' lt not_before = elim (dec_lt p.cid d.id) [
      | yes gt ↦ absurd (not_before (inl gt))
      | no ge ↦
          let ji = low j d e' (omega arith) in
          elim (ℕ_discrete i j) [
            | no ne ↦ inl (omega arith)
            | yes eq ↦
                let h : c ≡ d = some-injective c d (sym e ∙ (rw eq e')) in
                let h' : c.id ≡ d.id = ap (λ z. z.id) h in
                let h2 : c.count ≡ d.count = ap (λ z. z.count) h in
                inr (ap suc (sym eq), ground arith)
          ]
    ]

    Loop-BackwardAnswer :
        (i y : ℕ) (p : Pos) (c : Chunk) (f : Found)
        → get_elem? cks i ≡ some c
        → ((j : ℕ) (d : Chunk) → get_elem? cks j ≡ some d → d.id ≤ p.cid → j < suc i)
        → (c.id ≡ p.cid) × (y ≡ p.idx) ⊎ (c.id < p.cid) × (c.count ≤ suc y)
        → Loop (suc i) y f
        → BackwardAnswer p f
    Loop-BackwardAnswer i y p c f e low start (found k c' st q e' t same a after least) =
        found_at k c' st q e' t same a
          (let h = up_to-Before i k c c' y q.idx e e' after in ground arith)
          λ j d x w not_before.
            let h =
              up_to-Before k j c' d q.idx x e' w.is_chunk (
                least j d x w
                  (is_up_to i y p c e low start j d x w.is_chunk w.inside not_before)) in
            ground arith
    Loop-BackwardAnswer i y p c f e low start (at_start c' e' none_left) =
        none_found c' e' λ j d x w. elim (dec_Before p (record { cid = d.id; idx = x })) [
          | yes before ↦ before
          | no not_before ↦ absurd (
              none_left j d x w (is_up_to i y p c e low start j d x w.is_chunk w.inside not_before))
        ]

    -- On a journal of one chunk or more with ascending ids, with an index that bounds the records
    -- from a time `lo` on, which is MinTs or later, and up to MaxTs, and with a selector whose
    -- statuses are sound, `getPosBackward` answers a record that its chunk's status allows, at or
    -- before the given position, and skips no record with a time from `lo` to MaxTs; or it answers
    -- the start of the first chunk, and every record with such a time stands behind the given
    -- position. The statuses that it leaves are sound. With `lo` = MinTs, which is what the index's
    -- interface documents, these are all the records of the range, its ends included.
    pub get_pos_backward-answers :
        (cs : ChkSelector) (p : Pos)
        → 0 < length cks
        → IsSound tmidx rng time lo cks cs.stats
        → BackwardAnswer p (get_pos_backward tmidx rng (some cks) cs p).0
          × IsSound tmidx rng time lo cks (get_pos_backward tmidx rng (some cks) cs p).1.stats
    get_pos_backward-answers cs p filled sd = go (get_chunk_by_id_or_less_1 cks p.cid) refl
      where
        go :
            (n : ℕ)
            → get_chunk_by_id_or_less_1 cks p.cid ≡ n
            → BackwardAnswer p (get_pos_backward tmidx rng (some cks) cs p).0
              × IsSound tmidx rng time lo cks (get_pos_backward tmidx rng (some cks) cs p).1.stats
        go zero n =
            let (c, e) = get_elem?_of_lt cks 0 filled in
            let (bound, splits) = get_chunk_by_id_or_less_lem cks p.cid asc in
            rw (backward_starts tmidx rng cks cs p c e n) (
              none_found c e λ j d x w. elim (dec_lt p.cid d.id) [
                | yes lt ↦ inl lt
                | no ge ↦ let sp = (splits j d w.is_chunk).0 (omega arith) in absurd (omega arith)
              ],
              sd,
            )
        go (suc i) n =
            let (bound, splits) = get_chunk_by_id_or_less_lem cks p.cid asc in
            let (c, e) = get_elem?_of_lt cks i (omega arith) in
            let y = if c.id == p.cid then p.idx else pred_uint32 c.count in
            let (loop, sd') = backward_from-Loop (suc i) y cs (omega arith) filled sd in
            let sp = splits i c e in
            rw (backward_enters tmidx rng cks cs p i c e n) (
              Loop-BackwardAnswer i y p c _ e
                  (λ j d e' h. subst (λ z. j < z) n ((splits j d e').0 h)) (ground arith) loop,
              sd',
            )
