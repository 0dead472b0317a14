-- ===== src/Tmindex/Cindex/Rebuild/Pieces.antt =====
-- What rebuildIndexInt writes: index files that record the intervals show it.
use logrange.Prelude.{
  ℕ, zero, suc, ◌+◌, ◌-◌, ◌<◌, ◌≤◌, ◌≡◌, refl, sym, ap, subst, ◌∙◌, true, false, ltb, ltb→lt, ◌==◌,
  List, [], ◌∷◌, ◌++◌, Bool-cases, inl, inr, none, some, arith, tests, map, length, get_elem?,
  ℕ_discrete, get_elem?-append_left, get_elem?-append_right,
}
use mathlib.Core.Option.{some-injective}
use logrange.Prelude.Int.{ℤ, pos, ◌≤ℤ◌}
use logrange.Prelude.Cases.{option_case, if_case, bool_case}
use logrange.Partition.Selector.{RecordsInfo}
use logrange.Tmindex.Block.{Interval, Record}
use logrange.Tmindex.Cindex.{Item, ChunkData, Written, Ctrlr, no_answer, apply_ts, sparse_space}
use logrange.Tmindex.Cindex.Rebuild.{
  Rebuilt, new_segment, write_index_interval, rebuild_loop, rebuild_from_first, rebuild_index_int,
}

-- Index files that keep the intervals that they are given.
abbrev pub recorder : Ctrlr (List Interval)
recorder = record {
  arrange_root = λ log it. record {
    root = record { index_id = 1; block = 0 };
    saved = true;
    ctrlr = log ++ it ∷ [];
  };
  on_write = λ log root it. record { root = root; saved = true; ctrlr = log ++ it ∷ [] };
  gr_eq = λ log root ts. no_answer;
  less = λ log root ts. no_answer;
  get_index = λ log id. none;
  remove_item = λ log root. log;
  remove_index = λ log id. log;
}

-- The interval of at most 250 records has the record `x` with the time `t`.
pub record HasRecord (it : Interval) (x : ℕ) (t : ℤ) : Type 0 where
  pub from_ : it.p0.idx ≤ x
  pub to_ : x < it.p1.idx
  pub short : it.p1.idx ≤ it.p0.idx + sparse_space
  pub starts : it.p0.ts ≤ℤ t
  pub ends : t ≤ℤ it.p1.ts

abbrev pub Holds : List Interval → List ℤ → ℕ → Type 0
Holds log times n =
    (x : ℕ) (t : ℤ)
    → x < n
    → get_elem? times x ≡ some t
    → (l : ℕ) × (it : Interval) × (get_elem? log l ≡ some it) × HasRecord it x t

-- The span has the times of the records from `a` to `n`.
abbrev pub IsSpan : RecordsInfo → List ℤ → ℕ → ℕ → Type 0
IsSpan ri times a n =
    (x : ℕ) (t : ℤ)
    → a ≤ x
    → x < n
    → get_elem? times x ≡ some t
    → (ri.min_ts ≤ℤ t) × (t ≤ℤ ri.max_ts)

IsSpan-apply_ts :
    (ri : RecordsInfo) (times : List ℤ) (a n : ℕ) (t : ℤ)
    → get_elem? times n ≡ some t
    → IsSpan ri times a n
    → IsSpan (apply_ts ri t) times a (n + 1)
unfolding apply_ts
IsSpan-apply_ts ri times a n t e span x u lo hi eu = elim (ℕ_discrete n x) [
  | yes h ↦
      subst (λ z. ((apply_ts ri t).min_ts ≤ℤ z) × (z ≤ℤ (apply_ts ri t).max_ts))
        (some-injective t u (sym e ∙ ap (get_elem? times) h ∙ eu)) (ground arith, ground arith)
  | no ne ↦ (let (below, above) = span x u lo (ground arith) eu in (ground arith, ground arith))
]

inside : (log : List Interval) (l : ℕ) (it : Interval) → get_elem? log l ≡ some it → l < length log
inside [] l it e = absurd (ground arith)
inside (d ∷ log) zero it e = omega arith
inside (d ∷ log) (suc l) it e = let ih = inside log l it e in omega arith

Holds-append :
    (log : List Interval) (times : List ℤ) (pos0 pos1 : ℕ) (segm : RecordsInfo) (it : Interval)
    → Holds log times pos0
    → IsSpan segm times pos0 pos1
    → it.p0.idx ≡ pos0
    → it.p1.idx ≡ pos1
    → it.p0.ts ≡ segm.min_ts
    → it.p1.ts ≡ segm.max_ts
    → pos1 ≤ pos0 + sparse_space
    → Holds (log ++ it ∷ []) times pos1
Holds-append log times pos0 pos1 segm it held span i0 i1 t0 t1 short x t lt e =
    elim (Bool-cases (ltb x pos0)) [
      | inl old ↦
          (let (l, it', el, has) = held x t (ltb→lt x pos0 old) e in
            (l, it', get_elem?-append_left log (it ∷ []) l (inside log l it' el) ∙ el, has))
      | inr new ↦
          (let (below, above) = span x t (ground arith) lt e in
            (
              length log,
              it,
              get_elem?-append_right log (it ∷ []) (length log) 0 (omega arith),
              record {
                from_ = ground arith;
                to_ = ground arith;
                short = ground arith;
                starts = subst (λ z. z ≤ℤ t) (sym t0) below;
                ends = subst (λ z. t ≤ℤ z) (sym t1) above;
              },
            ))
    ]

write_saves :
    (log : List Interval) (root : Item) (segm : RecordsInfo) (pos0 pos1 : ℕ)
    → (write_index_interval recorder log root segm pos0 pos1).saved ≡ true
unfolding write_index_interval
write_saves log root segm pos0 pos1 =
    if_case (λ (w : Written (List Interval)). w.saved ≡ true) (pos0 == pos1) (λ h. refl) (λ h. refl)

write-Holds :
    (log : List Interval) (times : List ℤ) (root : Item) (segm : RecordsInfo) (pos0 pos1 : ℕ)
    → Holds log times pos0
    → IsSpan segm times pos0 pos1
    → pos0 ≤ pos1
    → pos1 < 4294967296
    → pos1 ≤ pos0 + sparse_space
    → Holds (write_index_interval recorder log root segm pos0 pos1).ctrlr times pos1
unfolding write_index_interval
write-Holds log times root segm pos0 pos1 held span le word short =
    if_case (λ (w : Written (List Interval)). Holds w.ctrlr times pos1) (pos0 == pos1)
      (λ h. subst (Holds log times) (ground arith) held)
      (λ h.
        Holds-append log times pos0 pos1 segm _ held span (omega arith) (omega arith) refl refl
          short)

-- What is to hold after all the records.
pub record IsRebuilt (times : List ℤ) (r : Rebuilt (List Interval)) : Type 0 where
  pub no_error : r.failed ≡ false
  pub spans : IsSpan r.info times 0 (length times)
  pub holds : Holds r.ctrlr times (length times)

rebuild_loop-IsRebuilt :
    (rest times : List ℤ) (info segm : RecordsInfo) (root : Item) (pos0 pos1 : ℕ)
    (log : List Interval)
    → ((x : ℕ) → get_elem? rest x ≡ get_elem? times (pos1 + x))
    → length times ≡ pos1 + length rest
    → length times < 4294967296
    → pos0 ≤ pos1
    → pos1 < pos0 + sparse_space
    → Holds log times pos0
    → IsSpan info times 0 pos1
    → IsSpan segm times pos0 pos1
    → IsRebuilt times (rebuild_loop recorder info segm root pos0 pos1 log (map some rest))
unfolding rebuild_loop write_index_interval
rebuild_loop-IsRebuilt [] times info segm root pos0 pos1 log at len word le short held span
      segment =
    let all : pos1 ≡ length times = omega (arith, len) in
    record {
      no_error = refl;
      spans = subst (IsSpan info times 0) all span;
      holds =
          subst (Holds (write_index_interval recorder log root segm pos0 pos1).ctrlr times) all
            (write-Holds log times root segm pos0 pos1 held segment le (omega arith) (omega arith));
    }
rebuild_loop-IsRebuilt (t ∷ rest) times info segm root pos0 pos1 log at len word le short held span
      segment =
    let P = λ (r : Rebuilt (List Interval)). IsRebuilt times r in
    let here : get_elem? times pos1 ≡ some t = ap (get_elem? times) (omega arith) ∙ sym (at 0) in
    let later : (x : ℕ) → get_elem? rest x ≡ get_elem? times (pos1 + 1 + x) =
      (λ x. at (suc x) ∙ ap (get_elem? times) (omega arith)) in
    let span' = IsSpan-apply_ts info times 0 pos1 t here span in
    let segment' = IsSpan-apply_ts segm times pos0 pos1 t here segment in
    bool_case P (ltb (pos1 + 1 - pos0) sparse_space)
      (λ more.
        rebuild_loop-IsRebuilt rest times (apply_ts info t) (apply_ts segm t) root pos0 (pos1 + 1)
          log later (omega (arith, len)) word (omega arith) (omega (tests, more)) held span'
          segment')
      (λ full.
        bool_case P (write_index_interval recorder log root (apply_ts segm t) pos0 (pos1 + 1)).saved
          (λ saved.
            rebuild_loop-IsRebuilt rest times (apply_ts info t) new_segment _ (pos1 + 1) (pos1 + 1)
              _ later (omega (arith, len)) word (omega arith) (omega arith)
              (write-Holds log times root (apply_ts segm t) pos0 (pos1 + 1) held segment'
                (omega arith) (omega (arith, len)) (omega arith))
              span' (λ x u lo hi e. absurd (omega arith)))
          (λ lost.
            absurd
              (let s = write_saves log root (apply_ts segm t) pos0 (pos1 + 1) in ground arith)))

-- With index files that take every interval, a chunk that counts records, less than 2^32, which can
-- all be read, is rebuilt without an error: the span has the time of every record, and every record
-- is in an interval of at most 250 records that was written to the index, with its time.
pub rebuild_index_int-IsRebuilt :
    (chk : ChunkData) (t : ℤ) (times : List ℤ)
    → 0 < chk.count
    → chk.iterator ≡ some (map some (t ∷ times))
    → length (t ∷ times) < 4294967296
    → IsRebuilt (t ∷ times) (rebuild_index_int recorder [] chk)
unfolding rebuild_index_int rebuild_from_first
rebuild_index_int-IsRebuilt chk t times some_records reads word =
    let P = λ (r : Rebuilt (List Interval)). IsRebuilt (t ∷ times) r in
    let info : RecordsInfo = record { id = chk.id; min_ts = pos 0; max_ts = pos 0 } in
    let first : Record = record { ts = t; idx = 0 } in
    if_case P (ltb 0 chk.count)
      (λ h.
        option_case P chk.iterator (λ e. absurd (ground arith))
          (λ recs e.
            subst (λ z. P (rebuild_from_first recorder info [] z))
              (some-injective (map some (t ∷ times)) recs (sym reads ∙ e))
              (rebuild_loop-IsRebuilt (t ∷ times) (t ∷ times)
                (record info { min_ts = t; max_ts = t }) new_segment
                (record { index_id = 1; block = 0 }) 0 0 (record { p0 = first; p1 = first } ∷ [])
                (λ x. ap (get_elem? (t ∷ times)) (omega arith)) (omega arith) word (omega arith)
                (omega arith) (λ x u lt e. absurd (omega arith))
                (λ x u lo hi e. absurd (omega arith)) (λ x u lo hi e. absurd (omega arith)))))
      (λ h. absurd (ground arith))

rebuild_loop_reports :
    {C : Type 0} (cc : Ctrlr C) (times : List ℤ) (info segm : RecordsInfo) (root : Item)
    (pos0 pos1 : ℕ) (st : C)
    → (rebuild_loop cc info segm root pos0 pos1 st (map some times)).failed ≡ false
unfolding rebuild_loop
rebuild_loop_reports cc [] info segm root pos0 pos1 st = refl
rebuild_loop_reports cc (t ∷ times) info segm root pos0 pos1 st =
    let P = λ (r : Rebuilt _). r.failed ≡ false in
    let w = write_index_interval cc st root (apply_ts segm t) pos0 (pos1 + 1) in
    bool_case P (ltb (pos1 + 1 - pos0) sparse_space)
      (λ more.
        rebuild_loop_reports cc times (apply_ts info t) (apply_ts segm t) root pos0 (pos1 + 1) st)
      (λ full.
        bool_case P w.saved
          (λ saved.
            rebuild_loop_reports cc times (apply_ts info t) new_segment w.root (pos1 + 1) (pos1 + 1)
              w.ctrlr)
          (λ lost. refl))

-- However the writes to the index go, once a root was allocated rebuildIndexInt reports no error of
-- a chunk whose records can all be read: an error of a write is lost.
pub rebuild_index_int_reports :
    {C : Type 0} (cc : Ctrlr C) (st : C) (chk : ChunkData) (t : ℤ) (times : List ℤ)
    → chk.iterator ≡ some (map some (t ∷ times))
    → (cc.arrange_root st
        (record { p0 = record { ts = t; idx = 0 }; p1 = record { ts = t; idx = 0 } })).saved
      ≡ true
    → (rebuild_index_int cc st chk).failed ≡ false
unfolding rebuild_index_int rebuild_from_first
rebuild_index_int_reports cc st chk t times reads root =
    let P = λ (r : Rebuilt _). r.failed ≡ false in
    let info : RecordsInfo = record { id = chk.id; min_ts = pos 0; max_ts = pos 0 } in
    let w =
      cc.arrange_root st
        (record { p0 = record { ts = t; idx = 0 }; p1 = record { ts = t; idx = 0 } }) in
    if_case P (ltb 0 chk.count)
      (λ h.
        option_case P chk.iterator (λ e. absurd (ground arith))
          (λ recs e.
            subst (λ z. P (rebuild_from_first cc info st z))
              (some-injective (map some (t ∷ times)) recs (sym reads ∙ e))
              (if_case P w.saved
                (λ h.
                  rebuild_loop_reports cc (t ∷ times) (record info { min_ts = t; max_ts = t })
                    new_segment w.root 0 0 w.ctrlr)
                (λ h. absurd (ground arith)))))
      (λ h. refl)
