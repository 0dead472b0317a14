-- ===== src/Cursor/Fiterator/Refine.antt =====
-- The filtering iterator runs through the events that fit, in their order.
use logrange.Prelude.{
  ℕ, zero, suc, ◌≤◌, ◌≡◌, refl, sym, ap, ◌∙◌, ◌⊎◌, inl, inr, Bool, true, false, ◌&&◌, List, [], ◌∷◌,
  drop, length, if◌then◌else◌, arith, Bool-cases,
}
use logrange.Prelude.Int.{leb_ℤ}
use logrange.Model.Iterator.{
  LogEvent, Event, Got, event, eof, failed, first_of, first_event, first_eof, first_failed,
  Iterator, IsIterator,
}
use logrange.Partition.Selector.{TimeRange}
use logrange.Cursor.Fiterator.{
  Fiterator, FitGot, got, out_of_fuel, fit_in_range, fit_next, fit_round, fit_get, fit_release,
}

-- The events for which a test holds, in their order.
pub keep : (Event → Bool) → List Event → List Event
keep test [] = []
keep test (e ∷ es) = let rest = keep test es in if test e then e ∷ rest else rest

module _ {S : Type 0} (i : Iterator S) (flt_f : LogEvent → Bool) (valid : S → Type 0)
    (rest : S → List Event) (may_fail : Type 0) (ok : IsIterator i valid rest may_fail) where
  -- The event fits the condition and the range of times.
  abbrev pub fits : TimeRange → Event → Bool
  fits r e = flt_f e.le && (leb_ℤ r.min_ts e.le.timestamp && leb_ℤ e.le.timestamp r.max_ts)

  -- The events that the filter has still to answer.
  unfoldable pub to_come : Fiterator S → List Event
  unfolding keep
  to_come fit = keep (fits fit.tm_range) (rest fit.it)

  -- A current event that the filter holds fits, and is the first one of the underlying iterator.
  pub record IsValidFit (fit : Fiterator S) : Type 0 where
    pub valid_it : valid fit.it
    pub current :
        fit.is_fit ≡ true
        → (es : List Event) × (rest fit.it ≡ fit.ev ∷ es) × (fits fit.tm_range fit.ev ≡ true)

  -- What `Get` answers and leaves with the fuel `f`.
  pub record GetAnswer (f : ℕ) (fit : Fiterator S) (r : FitGot × Fiterator S) : Type 0 where
    pub is_valid : IsValidFit r.1
    pub same : to_come r.1 ≡ to_come fit
    pub answer :
        (r.0 ≡ got (first_of (to_come fit)))
        ⊎ ((r.0 ≡ got failed) × may_fail)
        ⊎ ((r.0 ≡ out_of_fuel) × (may_fail ⊎ (f ≤ length (rest fit.it))))

  keep-true :
      (test : Event → Bool) (e : Event) (es : List Event)
      → test e ≡ true
      → keep test (e ∷ es) ≡ e ∷ keep test es
  unfolding keep
  keep-true test e es h = rw (keep, h) refl

  keep-false :
      (test : Event → Bool) (e : Event) (es : List Event)
      → test e ≡ false
      → keep test (e ∷ es) ≡ keep test es
  unfolding keep
  keep-false test e es h = rw (keep, h) refl

  -- The event `e` does not fit, and the next round goes on behind it.
  skipped :
      (f : ℕ) (again : Fiterator S → FitGot × Fiterator S)
      → ((fit : Fiterator S) → IsValidFit fit → GetAnswer f fit (again fit))
      → (fit : Fiterator S) (e : Event) (s' : S) (es : List Event) → valid s'
      → rest s' ≡ rest fit.it
      → rest fit.it ≡ e ∷ es
      → fits fit.tm_range e ≡ false
      → GetAnswer
          (suc f)
          fit
          (again (fit_next i flt_f (record fit { it = s'; ev = e; is_fit = false })))
  unfolding to_come fit_next
  skipped f again next fit e s' es w same l t =
      let fit' = fit_next i flt_f (record fit { it = s'; ev = e; is_fit = false }) in
      let a =
        next fit'
          (record { valid_it = ok.next_valid s' w; current = λ x. absurd (ground arith) }) in
      let behind : keep (fits fit.tm_range) (rest fit.it) ≡ keep (fits fit.tm_range) es =
        rw (l, keep-false (fits fit.tm_range) e es t) refl in
      elim (ok.next_rest s' w) [
        | inl n ↦
            let n' : rest (i.next s') ≡ es = rw (same, l) at n in
            let eq : to_come fit' ≡ to_come fit = ap (keep (fits fit.tm_range)) n' ∙ sym behind in
            record {
              is_valid = a.is_valid;
              same = a.same ∙ eq;
              answer = elim a.answer [
                | inl g ↦ inl (g ∙ ap (λ z. got (first_of z)) eq)
                | inr (inl g) ↦ inr (inl g)
                | inr (inr (g, inl may)) ↦ inr (inr (g, inl may))
                | inr (inr (g, inr le)) ↦ inr (
                    inr (
                      g,
                      inr (
                          let m : length (rest (i.next s')) ≡ length es = ap length n' in
                          let m' : length (rest fit.it) ≡ suc (length es) = ap length l in
                          omega arith),
                    ))
              ];
            }
        | inr (n, may) ↦
            let eq : to_come fit' ≡ to_come fit = ap (keep (fits fit.tm_range)) (n ∙ same) in
            record {
              is_valid = a.is_valid;
              same = a.same ∙ eq;
              answer = elim a.answer [
                | inl g ↦ inl (g ∙ ap (λ z. got (first_of z)) eq)
                | inr (inl g) ↦ inr (inl g)
                | inr (inr (g, why)) ↦ inr (inr (g, inl may))
              ];
            }
      ]

  -- One round, where the next one keeps the promise.
  round-GetAnswer :
      (f : ℕ) (again : Fiterator S → FitGot × Fiterator S)
      → ((fit : Fiterator S) → IsValidFit fit → GetAnswer f fit (again fit))
      → (fit : Fiterator S) → fit.is_fit ≡ false
      → (r : Got × S) → valid r.1
      → rest r.1 ≡ rest fit.it
      → (r.0 ≡ first_of (rest fit.it)) ⊎ (r.0 ≡ failed) × may_fail
      → GetAnswer (suc f) fit (fit_round i flt_f again fit r)
  unfolding fit_round fit_in_range to_come fit_next
  round-GetAnswer f again next fit h (failed, s') w same (inl first) =
      absurd (first_failed (rest fit.it) first)
  round-GetAnswer f again next fit h (failed, s') w same (inr (x, may)) = record {
    is_valid = record { valid_it = w; current = λ e. absurd (ground arith) };
    same = rw same refl;
    answer = inr (inl (refl, may));
  }
  round-GetAnswer f again next fit h (eof, s') w same (inr (x, may)) = absurd (ground arith)
  round-GetAnswer f again next fit h (eof, s') w same (inl first) =
      let l = first_eof (rest fit.it) first in
      record {
        is_valid = record { valid_it = w; current = λ e. absurd (ground arith) };
        same = rw same refl;
        answer = inl (rw (l, keep) refl);
      }
  round-GetAnswer f again next fit h (event e, s') w same (inr (x, may)) = absurd (ground arith)
  round-GetAnswer f again next fit h (event e, s') w same (inl first) =
      let (es, l) = first_event (rest fit.it) e first in
      elim (Bool-cases (fits fit.tm_range e)) [
        | inl t ↦ rw t (record {
          is_valid = record { valid_it = w; current = λ x. (es, same ∙ l, t) };
          same = rw same refl;
          answer = inl (rw (l, keep-true (fits fit.tm_range) e es t) refl);
        })
        | inr t ↦ rw t (skipped f again next fit e s' es w same l t)
      ]

  -- A current event that the filter holds is the answer.
  current-GetAnswer :
      (f : ℕ) (fit : Fiterator S)
      → IsValidFit fit
      → fit.is_fit ≡ true
      → GetAnswer f fit (got (event fit.ev), fit)
  unfolding to_come
  current-GetAnswer f fit v h =
      let (es, l, t) = v.current h in
      record {
        is_valid = v;
        same = refl;
        answer = inl (rw (l, keep-true (fits fit.tm_range) fit.ev es t) refl);
      }

  get_current :
      (f : ℕ) (fit : Fiterator S)
      → fit.is_fit ≡ true
      → fit_get i flt_f f fit ≡ (got (event fit.ev), fit)
  unfolding fit_get
  get_current zero fit h = rw (fit_get, h) refl
  get_current (suc f) fit h = rw (fit_get, h) refl

  get_zero : (fit : Fiterator S) → fit.is_fit ≡ false → fit_get i flt_f 0 fit ≡ (out_of_fuel, fit)
  unfolding fit_get
  get_zero fit h = rw (fit_get, h) refl

  get_round :
      (f : ℕ) (fit : Fiterator S)
      → fit.is_fit ≡ false
      → fit_get i flt_f (suc f) fit ≡ fit_round i flt_f (fit_get i flt_f f) fit (i.get fit.it)
  unfolding fit_get
  get_round f fit h = rw (fit_get, h) refl

  -- In a valid state `Get` answers the first event that fits, or the end exactly if none is left,
  -- and it does not move. It fails only where the underlying iterator may fail, and its fuel runs out only there or
  -- if the fuel is not more than the number of the events to come.
  pub fit_get-GetAnswer :
      (f : ℕ) (fit : Fiterator S) → IsValidFit fit → GetAnswer f fit (fit_get i flt_f f fit)
  unfolding fit_get
  fit_get-GetAnswer zero fit v = elim (Bool-cases fit.is_fit) [
    | inl h ↦ rw (get_current 0 fit h) (current-GetAnswer 0 fit v h)
    | inr h ↦
        rw (get_zero fit h)
          (record { is_valid = v; same = refl; answer = inr (inr (refl, inr (omega arith))) })
  ]
  fit_get-GetAnswer (suc f) fit v = elim (Bool-cases fit.is_fit) [
    | inl h ↦ rw (get_current (suc f) fit h) (current-GetAnswer (suc f) fit v h)
    | inr h ↦ rw (get_round f fit h) (
        round-GetAnswer f (fit_get i flt_f f) (fit_get-GetAnswer f) fit h (i.get fit.it)
          (ok.get_valid fit.it v.valid_it) (ok.get_rest fit.it v.valid_it)
          (ok.get_first fit.it v.valid_it))
  ]

  -- In a valid state with a current event, as a `Get` leaves it, `Next` leaves out that event and no other; `Release` does
  -- not move. `Next` may stay only where the underlying iterator may fail.
  pub fit_next-drops :
      (fit : Fiterator S)
      → IsValidFit fit
      → fit.is_fit ≡ true
      → IsValidFit (fit_next i flt_f fit)
        × ((to_come (fit_next i flt_f fit) ≡ drop 1 (to_come fit))
            ⊎ (to_come (fit_next i flt_f fit) ≡ to_come fit) × may_fail)
        × IsValidFit (fit_release i flt_f fit)
        × (to_come (fit_release i flt_f fit) ≡ to_come fit)
  unfolding fit_next fit_release to_come
  fit_next-drops fit v h =
      let (es, l, t) = v.current h in
      let r = ok.release_rest fit.it v.valid_it in
      (
        record { valid_it = ok.next_valid fit.it v.valid_it; current = λ e. absurd (ground arith) },
        elim (ok.next_rest fit.it v.valid_it) [
          | inl n ↦ inl (rw (n, l, keep-true (fits fit.tm_range) fit.ev es t) refl)
          | inr (n, may) ↦ inr (rw n refl, may)
        ],
        record { valid_it = ok.release_valid fit.it v.valid_it; current = λ e. (es, r ∙ l, t) },
        rw r refl,
      )
