-- ===== src/Timeframe/Text/Tests.antt =====
-- Two timeframes and their texts.
use babylon_playground_demo.Common.{◌≡◌, refl, ◌⊎◌, some, none}
use babylon_playground_demo.Common.Result.{ok, err}
use babylon_playground_demo.Timeframe.{na, s3, h4, m30, invalid_timeframe}
use babylon_playground_demo.Timeframe.Text.{from_str, as_str, deserialize, from_string, index}
use babylon_playground_demo.Timeframe.Text.Reading.{from_str-as_str}

three_seconds : from_string "3s" ≡ some s3
unfolding from_string
three_seconds = refl

half_an_hour : index 1_800 ≡ m30
unfolding index
half_an_hour = refl

from_str-as_str_example :
    (from_str (as_str h4) ≡ ok h4)
      × ((from_string (as_str h4) ≡ some h4) × (deserialize (as_str h4) ≡ h4))
    ⊎ (as_str h4 ≡ "NA")
      × ((from_str (as_str h4) ≡ err (invalid_timeframe "NA"))
          × ((from_string (as_str h4) ≡ none) × (deserialize (as_str h4) ≡ na)))
from_str-as_str_example = from_str-as_str h4
