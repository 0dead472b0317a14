-- ===== src/Container/Timeseries/Window.antt =====
-- The total of a time series is the sum of its buckets, and the oldest one is in the window.
use logrange.Prelude.{
  ℕ, ◌+◌, ◌<◌, ◌≤◌, ◌≡◌, refl, sym, ap, ◌∙◌, ltb, leb, List, [], ◌∷◌, ◌++◌, Option, some, arith,
  subst,
}
use native.Mathlib.Nat.{mod-lt}
use mathlib.Core.Option.{some-injective}
use logrange.Prelude.Cases.{option_case, if_case, bool_case}
use logrange.Container.Timeseries.{
  TsValue, TsBucket, Timeseries, truncate, drop_old, sweep, get_bucket, add, total_at,
}

-- What a scalar value obeys.
pub record IsScalar {V : Type 0} (ts_value : TsValue V) : Type 0 where
  pub assoc : (a b c : V) → ts_value.add (ts_value.add a b) c ≡ ts_value.add a (ts_value.add b c)
  pub unit : (a : V) → ts_value.add a ts_value.new_val ≡ a
  pub cancel : (a b : V) → ts_value.sub (ts_value.add a b) a ≡ b

module _ {V : Type 0} (ts_value : TsValue V) where
  -- The sum of the buckets, the tail last.
  abbrev pub sum : List (TsBucket V) → TsBucket V → V
  sum [] t = t.val
  sum (b ∷ bs) t = ts_value.add b.val (sum bs t)

  pub record IsSummed (ts : Timeseries V) : Type 0 where
    pub sums : ts.total ≡ sum ts.older ts.tail

  module _ (s : IsScalar ts_value) where
    sum_snoc :
        (bs : List (TsBucket V)) (t : TsBucket V) (time : ℕ)
        → sum (bs ++ t ∷ []) (record { s_time = time; val = ts_value.new_val }) ≡ sum bs t
    sum_snoc [] t time = s.unit t.val
    sum_snoc (b ∷ bs) t time = ap (ts_value.add b.val) (sum_snoc bs t time)

    sum_add :
        (bs : List (TsBucket V)) (t : TsBucket V) (v : V)
        → sum bs (record { s_time = t.s_time; val = ts_value.add t.val v })
          ≡ ts_value.add (sum bs t) v
    sum_add [] t v = refl
    sum_add (b ∷ bs) t v =
        ap (ts_value.add b.val) (sum_add bs t v) ∙ sym (s.assoc b.val (sum bs t) v)

    -- The head, or the tail where there are no others, began in the window.
    abbrev pub IsInWindow : ℕ → ℕ → TsBucket V → List (TsBucket V) → Type 0
    IsInWindow now ts_dur t [] = now < t.s_time + ts_dur
    IsInWindow now ts_dur t (head ∷ bkts) = now < head.s_time + ts_dur

    drop_old_lem :
        (now ts_dur : ℕ) (t : TsBucket V) (bs : List (TsBucket V)) (total : V)
        → now < t.s_time + ts_dur
        → total ≡ sum bs t
        → (let r = drop_old ts_value now ts_dur bs total in
            (r.1 ≡ sum r.0 t) × IsInWindow now ts_dur t r.0)
    unfolding drop_old
    drop_old_lem now ts_dur t [] total lt e = (e, lt)
    drop_old_lem now ts_dur t (b ∷ bs) total lt e =
        bool_case (λ (r : List (TsBucket V) × V). (r.1 ≡ sum r.0 t) × IsInWindow now ts_dur t r.0)
          (leb (b.s_time + ts_dur) now)
          (λ old.
            drop_old_lem now ts_dur t bs (ts_value.sub total b.val) lt
              (ap (λ z. ts_value.sub z b.val) e ∙ s.cancel b.val (sum bs t)))
          (λ young. (e, ground arith))

    abbrev pub IsSwept : ℕ → Timeseries V → Type 0
    IsSwept now ts = (ts.total ≡ sum ts.older ts.tail) × IsInWindow now ts.ts_dur ts.tail ts.older

    sweep-IsSwept :
        (now : ℕ) (ts : Timeseries V)
        → 0 < ts.bkt_dur
        → ts.bkt_dur ≤ ts.ts_dur
        → IsSummed ts
        → IsSwept now (sweep ts_value now ts)
    unfolding sweep
    sweep-IsSwept now ts some_dur fits i =
        if_case (IsSwept now) (leb (ts.tail.s_time + ts.ts_dur) now)
          (λ old. (refl, (let m = mod-lt now some_dur in ground arith)))
          (λ young. drop_old_lem now ts.ts_dur ts.tail ts.older ts.total (ground arith) i.sums)

    appended :
        (now ts_dur : ℕ) (bs : List (TsBucket V)) (t t' : TsBucket V)
        → IsInWindow now ts_dur t bs
        → IsInWindow now ts_dur t' (bs ++ t ∷ [])
    appended now ts_dur [] t t' w = w
    appended now ts_dur (b ∷ bs) t t' w = w

    retailed :
        (now ts_dur : ℕ) (bs : List (TsBucket V)) (t t' : TsBucket V)
        → t'.s_time ≡ t.s_time
        → IsInWindow now ts_dur t bs
        → IsInWindow now ts_dur t' bs
    retailed now ts_dur [] t t' same w = subst (λ z. now < z + ts_dur) (sym same) w
    retailed now ts_dur (b ∷ bs) t t' same w = w

    get_bucket-IsSwept :
        (now : ℕ) (ts ts' : Timeseries V)
        → IsSwept now ts
        → get_bucket ts_value now ts ≡ some ts'
        → IsSwept now ts'
    unfolding get_bucket
    get_bucket-IsSwept now ts ts' (sums, starts) =
        let P = λ (o : Option (Timeseries V)). o ≡ some ts' → IsSwept now ts' in
        if_case P (ltb now ts.tail.s_time) (λ h e. absurd (ground arith))
          λ h.
            if_case P (ltb now (ts.tail.s_time + ts.bkt_dur))
              (λ h e. subst (IsSwept now) (some-injective ts ts' e) (sums, starts))
              (λ h e. subst (IsSwept now) (some-injective _ ts' e) (
                sums ∙ sym (sum_snoc ts.older ts.tail (truncate now ts.bkt_dur)),
                appended now ts.ts_dur ts.older ts.tail
                    (record { s_time = truncate now ts.bkt_dur; val = ts_value.new_val }) starts,
              ))

    -- For a scalar value, and a bucket's duration that is positive and no longer than the window: if
    -- the total is the sum of the buckets, then so it is after a value was added, unless that panics,
    -- and when the total is asked for; the oldest bucket began in the window then.
    pub add-IsSwept :
        (now : ℕ) (val : V) (ts : Timeseries V)
        → 0 < ts.bkt_dur
        → ts.bkt_dur ≤ ts.ts_dur
        → IsSummed ts
        → ((ts' : Timeseries V) → add ts_value now val ts ≡ some ts' → IsSwept now ts')
          × IsSwept now (total_at ts_value now ts).1
    unfolding add total_at
    add-IsSwept now val ts some_dur fits i =
        let swept = sweep-IsSwept now ts some_dur fits i in
        (
          λ ts'.
              option_case (λ (o : Option (Timeseries V)). o ≡ some ts' → IsSwept now ts')
                (get_bucket ts_value now (sweep ts_value now ts)) (λ e h. absurd (ground arith))
                (λ tb e h.
                  let (sums, starts) = get_bucket-IsSwept now (sweep ts_value now ts) tb swept e in
                  subst (IsSwept now) (some-injective _ ts' h) (
                    ap (λ z. ts_value.add z val) sums ∙ sym (sum_add tb.older tb.tail val),
                    retailed now tb.ts_dur tb.older tb.tail
                        (record { s_time = tb.tail.s_time; val = ts_value.add tb.tail.val val })
                        refl starts,
                  )),
          swept,
        )
