-- ===== src/Timeframe/Text/Reading.antt =====
-- src/timeframe.rs: what a printed timeframe is read as.
use babylon_playground_demo.Common.{◌≡◌, refl, ◌⊎◌, inl, inr, none, some}
use babylon_playground_demo.Common.Result.{ok, err}
use babylon_playground_demo.Timeframe.{
  Timeframe, invalid_timeframe, na, ms100, ms250, ms500, s1, s3, s5, s15, s30, m1, m3, m5, m15, m30,
  h1, h2, h4, h6, h8, h12, d1, d3, w1, mm1,
}
use babylon_playground_demo.Timeframe.Text.{from_str, as_str, deserialize, from_string}

-- The text of a timeframe is read back as the timeframe by all three readings, or it is "NA", which
-- `from_str` refuses, `From<String>` panics on, and deserialization takes for `na`.
pub from_str-as_str :
    (a : Timeframe)
    → (from_str (as_str a) ≡ ok a)
        × ((from_string (as_str a) ≡ some a) × (deserialize (as_str a) ≡ a))
      ⊎ (as_str a ≡ "NA")
        × ((from_str (as_str a) ≡ err (invalid_timeframe "NA"))
            × ((from_string (as_str a) ≡ none) × (deserialize (as_str a) ≡ na)))
unfolding from_str as_str deserialize from_string
from_str-as_str na = inr (refl, (refl, (refl, refl)))
from_str-as_str ms100 = inr (refl, (refl, (refl, refl)))
from_str-as_str ms250 = inr (refl, (refl, (refl, refl)))
from_str-as_str ms500 = inr (refl, (refl, (refl, refl)))
from_str-as_str s1 = inl (refl, (refl, refl))
from_str-as_str s3 = inr (refl, (refl, (refl, refl)))
from_str-as_str s5 = inr (refl, (refl, (refl, refl)))
from_str-as_str s15 = inr (refl, (refl, (refl, refl)))
from_str-as_str s30 = inr (refl, (refl, (refl, refl)))
from_str-as_str m1 = inl (refl, (refl, refl))
from_str-as_str m3 = inl (refl, (refl, refl))
from_str-as_str m5 = inl (refl, (refl, refl))
from_str-as_str m15 = inl (refl, (refl, refl))
from_str-as_str m30 = inl (refl, (refl, refl))
from_str-as_str h1 = inl (refl, (refl, refl))
from_str-as_str h2 = inl (refl, (refl, refl))
from_str-as_str h4 = inl (refl, (refl, refl))
from_str-as_str h6 = inl (refl, (refl, refl))
from_str-as_str h8 = inl (refl, (refl, refl))
from_str-as_str h12 = inl (refl, (refl, refl))
from_str-as_str d1 = inl (refl, (refl, refl))
from_str-as_str d3 = inl (refl, (refl, refl))
from_str-as_str w1 = inl (refl, (refl, refl))
from_str-as_str mm1 = inl (refl, (refl, refl))
