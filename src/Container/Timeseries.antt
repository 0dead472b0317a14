-- ===== src/Container/Timeseries.antt =====
-- pkg/container/timeseries.go: the sum of a value over a sliding window of time. The circular chain
-- of buckets is its tail and the list from the head up to it. Times and durations are nanoseconds,
-- and `now` is what the clock answers.
pub mod Window
mod Tests
use logrange.Prelude.{
  ℕ, zero, ◌+◌, ◌-◌, ◌%◌, ltb, leb, if◌then◌else◌, List, [], ◌∷◌, ◌++◌, Option, none, some, Bool,
  true, false, ◌||◌, ◌==◌,
}

-- TsValue, and newVal.
pub record TsValue (V : Type 0) : Type 0 where
  pub add : V → V → V
  pub sub : V → V → V
  pub new_val : V

pub record TsBucket (V : Type 0) : Type 0 where
  pub s_time : ℕ
  pub val : V

pub record Timeseries (V : Type 0) : Type 0 where
  pub older : List (TsBucket V)
  pub tail : TsBucket V
  pub bkt_dur : ℕ
  pub ts_dur : ℕ
  pub total : V

abbrev pub truncate : ℕ → ℕ → ℕ
truncate now dur = now - now % dur

module _ {V : Type 0} (ts_value : TsValue V) where
  -- `none` is a panic.
  pub new_timeseries : ℕ → ℕ → ℕ → Option (Timeseries V)
  new_timeseries bkt_dur ts_dur now =
      if ltb ts_dur bkt_dur || bkt_dur == 0
      then none
      else some (record {
        older = [];
        tail = record { s_time = truncate now bkt_dur; val = ts_value.new_val };
        bkt_dur = bkt_dur;
        ts_dur = ts_dur;
        total = ts_value.new_val;
      })

  -- The loop of sweep over the buckets before the tail.
  pub drop_old : ℕ → ℕ → List (TsBucket V) → V → List (TsBucket V) × V
  drop_old now ts_dur [] total = ([], total)
  drop_old now ts_dur (head ∷ bkts) total = elim (leb (head.s_time + ts_dur) now) [
    | true ↦ drop_old now ts_dur bkts (ts_value.sub total head.val)
    | false ↦ (head ∷ bkts, total)
  ]

  pub sweep : ℕ → Timeseries V → Timeseries V
  unfolding drop_old
  sweep now ts =
      let (older, total) = drop_old now ts.ts_dur ts.older ts.total in
      if leb (ts.tail.s_time + ts.ts_dur) now
      then record ts {
        older = [];
        tail = record { s_time = truncate now ts.bkt_dur; val = ts_value.new_val };
        total = ts_value.new_val;
      }
      else record ts { older = older; total = total }

  -- The tail is the bucket for `now` afterwards; a time in the past is a panic.
  pub get_bucket : ℕ → Timeseries V → Option (Timeseries V)
  get_bucket now ts =
      if ltb now ts.tail.s_time
      then none
      else if ltb now (ts.tail.s_time + ts.bkt_dur)
      then some ts
      else some (record ts {
        older = ts.older ++ ts.tail ∷ [];
        tail = record { s_time = truncate now ts.bkt_dur; val = ts_value.new_val };
      })

  pub add : ℕ → V → Timeseries V → Option (Timeseries V)
  unfolding sweep get_bucket
  add now val ts = elim (get_bucket now (sweep now ts)) [
    | none ↦ none
    | some ts' ↦ some (record ts' {
      tail = record { s_time = ts'.tail.s_time; val = ts_value.add ts'.tail.val val };
      total = ts_value.add ts'.total val;
    })
  ]

  pub total_at : ℕ → Timeseries V → V × Timeseries V
  unfolding sweep
  total_at now ts = let ts' = sweep now ts in (ts'.total, ts')

  pub start_time : Timeseries V → ℕ
  start_time ts = elim ts.older [ [] ↦ ts.tail.s_time | head ∷ bkts ↦ head.s_time ]
