-- ===== src/Timeframe/Text.antt =====
-- src/timeframe.rs: the texts of timeframes, their durations, and the index by seconds. A reading that panics
-- on an unknown text is `none` there.
pub mod Reading
mod Tests
use text.Mathlib.Text.{◌==◌ as str_eq}
use babylon_playground_demo.Common.{
  ℕ, ◌*◌, ◌%◌, String, Bool, true, not, ◌&&◌, ◌||◌, ltb, Option, none, some, ◌==◌, if◌then◌else◌,
}
use babylon_playground_demo.Common.Result.{Result, ok, err}
use babylon_playground_demo.Timeframe.{
  Timeframe, TimeframeError, invalid_timeframe, na, ms100, ms250, ms500, s1, s3, s5, s15, s30, m1,
  m3, m5, m15, m30, h1, h2, h4, h6, h8, h12, d1, d3, w1, mm1, millis,
}

-- `FromStr`.
unfoldable pub from_str : String → Result TimeframeError Timeframe
from_str s =
    if str_eq s "1s"
    then ok s1
    else if str_eq s "1m"
    then ok m1
    else if str_eq s "3m"
    then ok m3
    else if str_eq s "5m"
    then ok m5
    else if str_eq s "15m"
    then ok m15
    else if str_eq s "30m"
    then ok m30
    else if str_eq s "1h"
    then ok h1
    else if str_eq s "2h"
    then ok h2
    else if str_eq s "4h"
    then ok h4
    else if str_eq s "6h"
    then ok h6
    else if str_eq s "8h"
    then ok h8
    else if str_eq s "12h"
    then ok h12
    else if str_eq s "1d"
    then ok d1
    else if str_eq s "3d"
    then ok d3
    else if str_eq s "1w"
    then ok w1
    else if str_eq s "1M"
    then ok mm1
    else err (invalid_timeframe s)

-- `Display`, `Serialize` and `as_str`.
unfoldable pub as_str : Timeframe → String
as_str s1 = "1s"
as_str m1 = "1m"
as_str m3 = "3m"
as_str m5 = "5m"
as_str m15 = "15m"
as_str m30 = "30m"
as_str h1 = "1h"
as_str h2 = "2h"
as_str h4 = "4h"
as_str h6 = "6h"
as_str h8 = "8h"
as_str h12 = "12h"
as_str d1 = "1d"
as_str d3 = "3d"
as_str w1 = "1w"
as_str mm1 = "1M"
as_str _ = "NA"

-- `Deserialize`, of a text.
unfoldable pub deserialize : String → Timeframe
deserialize s =
    if str_eq s "1s"
    then s1
    else if str_eq s "1m"
    then m1
    else if str_eq s "3m"
    then m3
    else if str_eq s "5m"
    then m5
    else if str_eq s "15m"
    then m15
    else if str_eq s "30m"
    then m30
    else if str_eq s "1h"
    then h1
    else if str_eq s "2h"
    then h2
    else if str_eq s "4h"
    then h4
    else if str_eq s "6h"
    then h6
    else if str_eq s "8h"
    then h8
    else if str_eq s "12h"
    then h12
    else if str_eq s "1d"
    then d1
    else if str_eq s "3d"
    then d3
    else if str_eq s "1w"
    then w1
    else if str_eq s "1M"
    then mm1
    else na

-- `From<String>`.
unfoldable pub from_string : String → Option Timeframe
from_string value =
    if str_eq value "100ms"
    then some ms100
    else if str_eq value "250ms"
    then some ms250
    else if str_eq value "500ms"
    then some ms500
    else if str_eq value "1s"
    then some s1
    else if str_eq value "3s"
    then some s3
    else if str_eq value "5s"
    then some s5
    else if str_eq value "15s"
    then some s15
    else if str_eq value "30s"
    then some s30
    else if str_eq value "1m"
    then some m1
    else if str_eq value "3m"
    then some m3
    else if str_eq value "5m"
    then some m5
    else if str_eq value "15m"
    then some m15
    else if str_eq value "30m"
    then some m30
    else if str_eq value "1h"
    then some h1
    else if str_eq value "2h"
    then some h2
    else if str_eq value "4h"
    then some h4
    else if str_eq value "6h"
    then some h6
    else if str_eq value "8h"
    then some h8
    else if str_eq value "12h"
    then some h12
    else if str_eq value "1d"
    then some d1
    else if str_eq value "3d"
    then some d3
    else if str_eq value "1w"
    then some w1
    else if str_eq value "1M"
    then some mm1
    else none

-- `Index<u64>`.
unfoldable pub index : ℕ → Timeframe
index seconds =
    if seconds == 1
    then s1
    else if seconds == 60
    then m1
    else if seconds == 180
    then m3
    else if seconds == 300
    then m5
    else if seconds == 900
    then m15
    else if seconds == 1800
    then m30
    else if seconds == 3600
    then h1
    else if seconds == 7200
    then h2
    else if seconds == 14400
    then h4
    else if seconds == 21600
    then h6
    else if seconds == 28800
    then h8
    else if seconds == 43200
    then h12
    else if seconds == 86400
    then d1
    else if seconds == 259200
    then d3
    else if seconds == 604800
    then w1
    else if seconds == 2592000
    then mm1
    else na
