-- ===== src/Container/Timeseries/Tests.antt =====
-- Runs of a time series of integers (TsInt) with buckets of 10 and a window of 30.
use logrange.Prelude.{◌≡◌, refl, [], ◌∷◌, some, arith}
use logrange.Prelude.Int.{ℤ, pos, ◌+ℤ◌, ◌-ℤ◌, int_laws}
use logrange.Container.Timeseries.{TsValue, Timeseries, add, total_at, sweep, drop_old}
use logrange.Container.Timeseries.Window.{IsScalar, IsSummed, IsSwept, add-IsSwept}

abbrev ts_int : TsValue ℤ
ts_int = record { add = λ a b. a +ℤ b; sub = λ a b. a -ℤ b; new_val = pos 0 }

ts_int-IsScalar : IsScalar ts_int
ts_int-IsScalar = record {
  assoc = λ a b c. grind int_laws;
  unit = λ a. grind int_laws;
  cancel = λ a b. grind int_laws;
}

-- 4 from 100 on, and 5 from 110 on
abbrev series : Timeseries ℤ
series = record {
  older = record { s_time = 100; val = pos 4 } ∷ [];
  tail = record { s_time = 110; val = pos 5 };
  bkt_dur = 10;
  ts_dur = 30;
  total = pos 9;
}

series-IsSummed : IsSummed ts_int series
unfolding ◌+ℤ◌
series-IsSummed = record { sums = refl }

test_total : (total_at ts_int 132 series).0 ≡ pos 5
unfolding total_at sweep drop_old ◌-ℤ◌
test_total = refl

add-IsSwept_example :
    ((ts' : Timeseries ℤ)
      → add ts_int 125 (pos 3) series ≡ some ts'
      → IsSwept ts_int ts_int-IsScalar 125 ts')
    × IsSwept ts_int ts_int-IsScalar 125 (total_at ts_int 125 series).1
add-IsSwept_example =
    add-IsSwept ts_int ts_int-IsScalar 125 (pos 3) series (omega arith) (omega arith)
      series-IsSummed
