-- ===== src/Partition/Selector/Records.antt =====
-- What a status tells about the records of its chunk, and that `getChunkStatus` answers such a
-- status if the positions of the time index bound the records.
use logrange.Prelude.{
  ℕ, zero, suc, ◌+◌, ◌≤◌, ◌<◌, ◌≡◌, refl, sym, subst, ◌∙◌, inl, inr, Bool, true, false, List, [],
  ◌∷◌, map, Option, none, some, arith, length, get_elem?, if◌then◌else◌, ◌==◌, ◌||◌, ◌++◌,
  ℕ_discrete, Bool-cases,
}
use mathlib.Core.Option.{some-injective}
use logrange.Prelude.Assoc.{lookup, insert, lookup-insert}
use logrange.Prelude.Int.{ℤ, ◌≤ℤ◌, ltb_ℤ, leb_ℤ}
use logrange.Partition.Selector.{
  Chunk, ChkStatus, ChkSelector, TsIndexer, TimeRange, RecordsInfo, max_uint32, min_pos_for,
  max_pos_for, update_poss, rebuild_from, rebuild_chunk_statuses, rebuilt_status, get_chunk_status,
}
use logrange.Partition.Selector.Status.{IsAllowed}
use logrange.Partition.Selector.Chunks.{IsAscending}

module _ (tmidx : TsIndexer) (rng : TimeRange) (time : ℕ → ℕ → ℤ) (lo : ℤ) (cks : List Chunk) where
  -- The time of a record is from `lo` to the end of the range. With `lo` its start, MinTs, these are
  -- the records of the range, which includes both ends.
  abbrev pub InTimes : ℕ → ℕ → Type 0
  InTimes id x = (lo ≤ℤ time id x) × (time id x ≤ℤ rng.max_ts)

  -- What the selector relies on: the time index knows the chunks and the span of their
  -- timestamps. Of the records from the time `lo` on, none is before the position that it answers
  -- for MinTs, and of those up to MaxTs none is behind the one for MaxTs. The comment of
  -- GetPosForGreaterOrEqualTime promises this with MinTs for `lo`; the index keeps it for any later
  -- `lo` (Tmindex/Cindex/Queries), not for MinTs itself (Tmindex/Tree/Sound).
  pub record Serves : Type 0 where
    pub starts : rng.min_ts ≤ℤ lo
    pub info : Chunk → RecordsInfo
    pub sync : tmidx.sync_chunks cks ≡ map info cks
    pub ask :
        (i : ℕ) (c : Chunk) → get_elem? cks i ≡ some c → tmidx.get_records_info c.id ≡ some (info c)
    pub same_id : (c : Chunk) → (info c).id ≡ c.id
    pub spans :
        (i : ℕ) (c : Chunk)
        → get_elem? cks i ≡ some c
        → (x : ℕ) → x < c.count
        → ((info c).min_ts ≤ℤ time c.id x) × (time c.id x ≤ℤ (info c).max_ts)
    pub greater :
        (i : ℕ) (c : Chunk)
        → get_elem? cks i ≡ some c
        → (p : ℕ) → tmidx.get_pos_for_greater_or_equal_time c.id rng.min_ts ≡ some p
        → (x : ℕ) → x < c.count
        → lo ≤ℤ time c.id x
        → p ≤ x
    pub less :
        (i : ℕ) (c : Chunk)
        → get_elem? cks i ≡ some c
        → (p : ℕ) → tmidx.get_pos_for_less_time c.id rng.max_ts ≡ some p
        → (x : ℕ) → x < c.count
        → time c.id x ≤ℤ rng.max_ts
        → x ≤ p
    pub counts : (i : ℕ) (c : Chunk) → get_elem? cks i ≡ some c → c.count ≤ max_uint32

  -- A status counts the records of the chunk and allows those with a time from `lo` to MaxTs.
  pub record Tells (st : ChkStatus) (c : Chunk) : Type 0 where
    pub counted : st.count ≡ c.count
    pub allows : (x : ℕ) → x < c.count → InTimes c.id x → IsAllowed st x

  -- A status that counts as many records as its chunk has allows those that it must.
  pub record IsSound (m : List (ℕ × ChkStatus)) : Type 0 where
    pub sound :
        (i : ℕ) (c : Chunk) (st : ChkStatus)
        → get_elem? cks i ≡ some c
        → lookup m c.id ≡ some st
        → st.count ≡ c.count
        → Tells st c

  -- Every status counts right and allows those that it must.
  record IsFresh (m : List (ℕ × ChkStatus)) : Type 0 where
    fresh :
        (i : ℕ) (c : Chunk) (st : ChkStatus)
        → get_elem? cks i ≡ some c
        → lookup m c.id ≡ some st
        → Tells st c

  module _ (s : Serves) (asc : IsAscending cks) where
    min_pos_for_lem :
        (i : ℕ) (c : Chunk)
        → get_elem? cks i ≡ some c
        → (x : ℕ) → x < c.count
        → lo ≤ℤ time c.id x
        → (min_pos_for tmidx rng c (s.info c)).0 ≤ x
    unfolding min_pos_for
    min_pos_for_lem i c e x lt late = rw s.same_id (
        go (leb_ℤ (s.info c).min_ts rng.min_ts)
          (tmidx.get_pos_for_greater_or_equal_time c.id rng.min_ts)
          λ p h. s.greater i c e p h x lt late)
      where
        go :
            (asked : Bool) (r : Option ℕ)
            → ((p : ℕ) → r ≡ some p → p ≤ x)
            → (if◌then◌else◌ {A = ℕ × List ℕ} asked
                (elim r [ none ↦ (0, c.id ∷ []) | some p ↦ (p, []) ])
                (0, [])).0
              ≤ x
        go false r h = omega arith
        go true none h = omega arith
        go true (some p) h = h p refl

    max_pos_for_lem :
        (i : ℕ) (c : Chunk)
        → get_elem? cks i ≡ some c
        → (x : ℕ) → x < c.count
        → time c.id x ≤ℤ rng.max_ts
        → x ≤ (max_pos_for tmidx rng c (s.info c)).0
    unfolding max_pos_for
    max_pos_for_lem i c e x lt early = rw s.same_id (
        go (leb_ℤ rng.max_ts (s.info c).max_ts) (tmidx.get_pos_for_less_time c.id rng.max_ts)
          λ p h. s.less i c e p h x lt early)
      where
        go :
            (asked : Bool) (r : Option ℕ)
            → ((p : ℕ) → r ≡ some p → x ≤ p)
            → x
              ≤ (if◌then◌else◌ {A = ℕ × List ℕ} asked
                  (elim r [ none ↦ (max_uint32, c.id ∷ []) | some p ↦ (p, []) ])
                  (max_uint32, [])).0
        go false r h = omega (arith, s.counts i c e)
        go true none h = omega (arith, s.counts i c e)
        go true (some p) h = h p refl

    update_poss-Tells :
        (i : ℕ) (c : Chunk) (st : ChkStatus)
        → get_elem? cks i ≡ some c
        → st.count ≡ c.count
        → Tells (update_poss tmidx rng c st (s.info c)).0 c
    unfolding update_poss
    update_poss-Tells i c st e n =
        elim (Bool-cases
          (ltb_ℤ rng.max_ts (s.info c).min_ts || ltb_ℤ (s.info c).max_ts rng.min_ts)) [
            | inl out ↦ rw out (record {
              counted = n;
              allows = λ x lt (a, b). absurd (ground (arith, s.spans i c e x lt, s.starts));
            })
            | inr meets ↦ rw meets (record {
              counted = n;
              allows = λ x lt (a, b). record {
                low = min_pos_for_lem i c e x lt a;
                high = max_pos_for_lem i c e x lt b;
                inside = omega arith;
              };
            })
          ]

    same_chunk :
        (i j : ℕ) (c d : Chunk)
        → get_elem? cks i ≡ some c
        → get_elem? cks j ≡ some d
        → c.id ≡ d.id
        → c ≡ d
    same_chunk i j c d e e' h =
        let a : ¬ (i < j) = λ lt. omega (arith, asc.ascending i j c d lt e e') in
        let b : ¬ (j < i) = λ lt. omega (arith, asc.ascending j i d c lt e' e) in
        let ij : i ≡ j = omega (arith, a, b) in some-injective c d (sym e ∙ (rw ij e'))

    insert-IsFresh :
        (i : ℕ) (c : Chunk) (key : ℕ) (st : ChkStatus) (m : List (ℕ × ChkStatus))
        → get_elem? cks i ≡ some c
        → key ≡ c.id
        → Tells st c
        → IsFresh m
        → IsFresh (insert m key st)
    insert-IsFresh i c key st m e same_key t f = record {
      fresh = λ j d st' e' l. elim (ℕ_discrete c.id d.id) [
        | yes same ↦
            let cd = same_chunk i j c d e e' same in
            let h : some st ≡ some st' = sym (lookup-insert m key d.id st ∙ (ground arith)) ∙ l in
            subst (λ z. Tells z d) (some-injective st st' h) (subst (λ z. Tells st z) cd t)
        | no ne ↦
            let h : lookup m d.id ≡ some st' =
              sym (lookup-insert m key d.id st ∙ (ground arith)) ∙ l in
            f.fresh j d st' e' h
      ];
    }

    insert-IsSound :
        (i : ℕ) (c : Chunk) (st : ChkStatus) (m : List (ℕ × ChkStatus))
        → get_elem? cks i ≡ some c
        → Tells st c
        → IsSound m
        → IsSound (insert m c.id st)
    insert-IsSound i c st m e t f = record {
      sound = λ j d st' e' l n. elim (ℕ_discrete c.id d.id) [
        | yes same ↦
            let cd = same_chunk i j c d e e' same in
            let h : some st ≡ some st' = sym (lookup-insert m c.id d.id st ∙ (ground arith)) ∙ l in
            subst (λ z. Tells z d) (some-injective st st' h) (subst (λ z. Tells st z) cd t)
        | no ne ↦
            let h : lookup m d.id ≡ some st' =
              sym (lookup-insert m c.id d.id st ∙ (ground arith)) ∙ l in
            f.sound j d st' e' h n
      ];
    }

    -- The answer of `rebuild_from`: a map that is still true, and knows every chunk that it knew or
    -- that the loop went over.
    record Rebuilt (nm : List (ℕ × ChkStatus)) (rest : List Chunk) (res : Option ChkSelector)
        : Type 0 where
      made : ChkSelector
      answer : res ≡ some made
      is_fresh : IsFresh made.stats
      keeps :
          (k : ℕ) (st : ChkStatus)
          → lookup nm k ≡ some st
          → (st' : ChkStatus) × (lookup made.stats k ≡ some st')
      knows :
          (j : ℕ) (c : Chunk)
          → get_elem? rest j ≡ some c
          → (st : ChkStatus) × (lookup made.stats c.id ≡ some st)

    known :
        (nm : List (ℕ × ChkStatus)) (ch : Chunk) (rest : List Chunk) (res : Option ChkSelector)
        (r : Rebuilt nm rest res)
        → (st : ChkStatus) × (lookup r.made.stats ch.id ≡ some st)
        → (j : ℕ) (c : Chunk) → get_elem? (ch ∷ rest) j ≡ some c
        → (st : ChkStatus) × (lookup r.made.stats c.id ≡ some st)
    known nm ch rest res r h zero c e =
        subst (λ z. (st : ChkStatus) × (lookup r.made.stats z.id ≡ some st)) (some-injective ch c e)
          h
    known nm ch rest res r h (suc j) c e = r.knows j c e

    rebuild_from-Rebuilt :
        (stats : List (ℕ × ChkStatus)) (rest : List Chunk) (nm : ChkSelector) (k : ℕ)
        → ((j : ℕ) (c : Chunk) → get_elem? rest j ≡ some c → get_elem? cks (k + j) ≡ some c)
        → IsFresh nm.stats
        → Rebuilt nm.stats rest (rebuild_from tmidx rng stats (map s.info rest) rest nm)
    unfolding rebuild_from
    rebuild_from-Rebuilt stats [] nm k at f = record {
      made = nm;
      answer = refl;
      is_fresh = f;
      keeps = λ k st e. (st, e);
      knows = λ j c e. absurd (ground arith);
    }
    rebuild_from-Rebuilt stats (ch ∷ rest) nm k at f =
        let old : ChkStatus = elim (lookup stats (s.info ch).id) [
          | none ↦ record { min_pos = 0; max_pos = 0; count = 0 }
          | some st ↦ st
        ] in
        let up = update_poss tmidx rng ch (record old { count = ch.count }) (s.info ch) in
        let z : k + 0 ≡ k = omega arith in
        let e0 : get_elem? cks k ≡ some ch = rw z at (at 0 ch refl) in
        let nm' : ChkSelector = record {
          stats = insert nm.stats (s.info ch).id up.0;
          rebuilds = nm.rebuilds ++ up.1;
        } in
        let f' : IsFresh nm'.stats =
          insert-IsFresh k ch (s.info ch).id up.0 nm.stats e0 (s.same_id ch)
            (update_poss-Tells k ch (record old { count = ch.count }) e0 refl) f in
        let same = s.same_id ch in
        let r =
          rebuild_from-Rebuilt stats rest nm' (suc k)
            (λ j c e. let y : suc k + j ≡ k + suc j = omega arith in rw y (at (suc j) c e)) f' in
        record {
          made = r.made;
          answer = r.answer;
          is_fresh = r.is_fresh;
          keeps = λ id st e. elim (ℕ_discrete ch.id id) [
            | yes eq ↦
                r.keeps id up.0 (lookup-insert nm.stats (s.info ch).id id up.0 ∙ (ground arith))
            | no ne ↦ r.keeps id st (lookup-insert nm.stats (s.info ch).id id up.0 ∙ (ground arith))
          ];
          knows =
              known nm'.stats ch rest (rebuild_from tmidx rng stats (map s.info rest) rest nm') r (
                r.keeps ch.id up.0
                  (lookup-insert nm.stats (s.info ch).id ch.id up.0 ∙ (ground arith)));
        }

    -- The answer of `getChunkStatus`: a true status, and a map that is still sound.
    pub record StatusOf (c : Chunk) (res : Option (ChkStatus × ChkSelector)) : Type 0 where
      pub st : ChkStatus
      pub after : ChkSelector
      pub is_answer : res ≡ some (st, after)
      pub tells : Tells st c
      pub is_sound : IsSound after.stats

    rebuilt_status-StatusOf :
        (cs : ChkSelector) (i : ℕ) (c : Chunk)
        → get_elem? cks i ≡ some c
        → StatusOf c (rebuilt_status tmidx rng cs c cks)
    unfolding rebuilt_status rebuild_chunk_statuses lookup
    rebuilt_status-StatusOf cs i c e =
        let r =
          rebuild_from-Rebuilt cs.stats cks (record { stats = []; rebuilds = cs.rebuilds }) 0
            (λ j d h. let z : 0 + j ≡ j = omega arith in rw z h)
            (record { fresh = λ j d st h l. absurd (ground arith) }) in
        let (st, l) = r.knows i c e in
        record {
          st = st;
          after = r.made;
          is_answer = rw (rebuilt_status, rebuild_chunk_statuses, s.sync, r.answer, l) refl;
          tells = r.is_fresh.fresh i c st e l;
          is_sound = record { sound = λ j d st' h l' n. r.is_fresh.fresh j d st' h l' };
        }

    -- On a journal with ascending ids, with an index that bounds the records from a time `lo` on,
    -- which is MinTs or later, and up to MaxTs: from a map in which each status with the right count
    -- allows all records of its chunk with these times, `getChunkStatus` answers a status of the chunk that
    -- counts its records and allows all those whose time is from `lo` to MaxTs (with `lo` = MinTs,
    -- all of the range), and leaves a map of this kind.
    pub get_chunk_status_lem :
        (cs : ChkSelector) (i : ℕ) (c : Chunk)
        → IsSound cs.stats
        → get_elem? cks i ≡ some c
        → StatusOf c (get_chunk_status tmidx rng cs c cks)
    unfolding get_chunk_status
    get_chunk_status_lem cs i c sd e = go (lookup cs.stats c.id) refl
      where
        go :
            (found : Option ChkStatus)
            → lookup cs.stats c.id ≡ found
            → StatusOf c (get_chunk_status tmidx rng cs c cks)
        go none l = rw (get_chunk_status, l) (rebuilt_status-StatusOf cs i c e)
        go (some st) l = elim (ℕ_discrete (length cks) (length cs.stats)) [
          | no ne ↦
              let t : (length cks == length cs.stats) ≡ false = ground arith in
              rw (get_chunk_status, l, t) (rebuilt_status-StatusOf cs i c e)
          | yes eq ↦
              let t : (length cks == length cs.stats) ≡ true = ground arith in
              elim (ℕ_discrete st.count c.count) [
                | yes n ↦
                    let u : (st.count == c.count) ≡ true = ground arith in
                    rw (get_chunk_status, l, t, u)
                      (record {
                        st = st;
                        after = cs;
                        is_answer = refl;
                        tells = sd.sound i c st e l n;
                        is_sound = sd;
                      })
                | no ne ↦
                    let u : (st.count == c.count) ≡ false = ground arith in
                    let up = update_poss tmidx rng c (record st { count = c.count }) (s.info c) in
                    let tells = update_poss-Tells i c (record st { count = c.count }) e refl in
                    rw (get_chunk_status, l, t, u, s.ask i c e)
                      (record {
                        st = up.0;
                        after = record {
                          stats = insert cs.stats c.id up.0;
                          rebuilds = cs.rebuilds ++ up.1;
                        };
                        is_answer = refl;
                        tells = tells;
                        is_sound = insert-IsSound i c up.0 cs.stats e tells sd;
                      })
              ]
        ]
