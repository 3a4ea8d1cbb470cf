-- ===== src/Timeframe.antt =====
-- src/timeframe.rs: the timeframes, by their discriminants, which are milliseconds.
pub mod Text
pub mod Duration
use babylon_playground_demo.Common.{◌==◌, Bool, ℕ, String}

pub data Timeframe : Type 0 where
  na ms100 ms250 ms500 s1 s3 s5 s15 s30 m1 m3 m5 m15 : Timeframe
  m30 h1 h2 h4 h6 h8 h12 d1 d3 w1 mm1 : Timeframe

-- Without `Other`, which no code of the repository makes.
pub data TimeframeError : Type 0 where
  timeframe_not_found timeframe_no_value timeframe_already_exists : Timeframe → TimeframeError
  invalid_timeframe : String → TimeframeError
  unsupported_custom_timeframe : Timeframe → TimeframeError

-- `as u64`.
unfoldable pub millis : Timeframe → ℕ
millis na = 0
millis ms100 = 100
millis ms250 = 250
millis ms500 = 500
millis s1 = 1_000
millis s3 = 3_000
millis s5 = 5_000
millis s15 = 15_000
millis s30 = 30_000
millis m1 = 60_000
millis m3 = 180_000
millis m5 = 300_000
millis m15 = 900_000
millis m30 = 1_800_000
millis h1 = 3_600_000
millis h2 = 7_200_000
millis h4 = 14_400_000
millis h6 = 21_600_000
millis h8 = 28_800_000
millis h12 = 43_200_000
millis d1 = 86_400_000
millis d3 = 259_200_000
millis w1 = 604_800_000
millis mm1 = 2_592_000_000

-- The derived `==`, which compares the discriminants.
unfoldable pub timeframe_eq : Timeframe → Timeframe → Bool
unfolding millis
timeframe_eq a b = millis a == millis b
