-- ===== src/TimeSet/Index.antt =====
-- src/timeset.rs: the indices of a time set, by a number, a timeframe and a text.
use text.Mathlib.Text.{◌==◌ as str_eq}
use babylon_playground_demo.Common.{ℕ, String, Option, none, ◌==◌, if◌then◌else◌}
use babylon_playground_demo.Timeframe.{
  Timeframe, s1, m1, m3, m5, m15, m30, h1, h2, h4, h6, h8, h12, d1, d3, w1, mm1,
}
use babylon_playground_demo.TimeSet.{TimeSet}

module _ {T : Type 0} where
  -- `Index<u8>`.
  unfoldable pub index_at : ℕ → TimeSet T → Option T
  index_at index ts =
      if index == 0
      then ts.s1
      else if index == 1
      then ts.m1
      else if index == 2
      then ts.m3
      else if index == 3
      then ts.m5
      else if index == 4
      then ts.m15
      else if index == 5
      then ts.m30
      else if index == 6
      then ts.h1
      else if index == 7
      then ts.h2
      else if index == 8
      then ts.h4
      else if index == 9
      then ts.h6
      else if index == 10
      then ts.h8
      else if index == 11
      then ts.h12
      else if index == 12
      then ts.d1
      else if index == 13
      then ts.d3
      else if index == 14
      then ts.w1
      else if index == 15
      then ts.mm1
      else none

  -- `Index<Timeframe>`.
  unfoldable pub index_timeframe : Timeframe → TimeSet T → Option T
  index_timeframe s1 ts = ts.s1
  index_timeframe m1 ts = ts.m1
  index_timeframe m3 ts = ts.m3
  index_timeframe m5 ts = ts.m5
  index_timeframe m15 ts = ts.m15
  index_timeframe m30 ts = ts.m30
  index_timeframe h1 ts = ts.h1
  index_timeframe h2 ts = ts.h2
  index_timeframe h4 ts = ts.h4
  index_timeframe h6 ts = ts.h6
  index_timeframe h8 ts = ts.h8
  index_timeframe h12 ts = ts.h12
  index_timeframe d1 ts = ts.d1
  index_timeframe d3 ts = ts.d3
  index_timeframe w1 ts = ts.mm1
  index_timeframe mm1 ts = ts.mm1
  index_timeframe _ ts = none

  -- `Index<&str>`.
  unfoldable pub index_text : String → TimeSet T → Option T
  index_text timeframe ts =
      if str_eq timeframe "1s"
      then ts.s1
      else if str_eq timeframe "1m"
      then ts.m1
      else if str_eq timeframe "3m"
      then ts.m3
      else if str_eq timeframe "5m"
      then ts.m5
      else if str_eq timeframe "15m"
      then ts.m15
      else if str_eq timeframe "30m"
      then ts.m30
      else if str_eq timeframe "1h"
      then ts.h1
      else if str_eq timeframe "2h"
      then ts.h2
      else if str_eq timeframe "4h"
      then ts.h4
      else if str_eq timeframe "6h"
      then ts.h6
      else if str_eq timeframe "8h"
      then ts.h8
      else if str_eq timeframe "12h"
      then ts.h12
      else if str_eq timeframe "1d"
      then ts.d1
      else if str_eq timeframe "3d"
      then ts.d3
      else if str_eq timeframe "1w"
      then ts.mm1
      else if str_eq timeframe "1M"
      then ts.mm1
      else none
