-- ===== src/TimeSet.antt =====
-- src/timeset.rs: a value for each of sixteen timeframes. What logs an error and answers `None` is `none`
-- here. `get_mut` hands out a reference, through which its caller may store a value: it is `change`.
pub mod Index
pub mod Iterate
pub mod Entries
pub mod Access
pub mod Yield
mod Tests
use text.Mathlib.Text.{◌==◌ as str_eq}
use babylon_playground_demo.Common.{
  ℕ, String, Bool, Option, none, some, List, [], ◌∷◌, ◌==◌, if◌then◌else◌,
}
use babylon_playground_demo.Common.Result.{Result, ok, err, ok_or}
use babylon_playground_demo.Timeframe.{
  Timeframe, TimeframeError, timeframe_not_found, na, s1, m1, m3, m5, m15, m30, h1, h2, h4, h6, h8,
  h12, d1, d3, w1, mm1,
}

pub record TimeSet (T : Type 0) : Type 0 where
  pub s1 : Option T
  pub m1 : Option T
  pub m3 : Option T
  pub m5 : Option T
  pub m15 : Option T
  pub m30 : Option T
  pub h1 : Option T
  pub h2 : Option T
  pub h4 : Option T
  pub h6 : Option T
  pub h8 : Option T
  pub h12 : Option T
  pub d1 : Option T
  pub d3 : Option T
  pub w1 : Option T
  pub mm1 : Option T

module _ {T : Type 0} where
  unfoldable pub new : TimeSet T
  new = record {
    s1 = none;
    m1 = none;
    m3 = none;
    m5 = none;
    m15 = none;
    m30 = none;
    h1 = none;
    h2 = none;
    h4 = none;
    h6 = none;
    h8 = none;
    h12 = none;
    d1 = none;
    d3 = none;
    w1 = none;
    mm1 = none;
  }

  unfoldable pub new_with : T → TimeSet T
  new_with value = record {
    s1 = some value;
    m1 = some value;
    m3 = some value;
    m5 = some value;
    m15 = some value;
    m30 = some value;
    h1 = some value;
    h2 = some value;
    h4 = some value;
    h6 = some value;
    h8 = some value;
    h12 = some value;
    d1 = some value;
    d3 = some value;
    w1 = some value;
    mm1 = some value;
  }

  unfoldable pub set : Timeframe → T → TimeSet T → Result TimeframeError (TimeSet T)
  set s1 value ts = ok (record ts { s1 = some value })
  set m1 value ts = ok (record ts { m1 = some value })
  set m3 value ts = ok (record ts { m3 = some value })
  set m5 value ts = ok (record ts { m5 = some value })
  set m15 value ts = ok (record ts { m15 = some value })
  set m30 value ts = ok (record ts { m30 = some value })
  set h1 value ts = ok (record ts { h1 = some value })
  set h2 value ts = ok (record ts { h2 = some value })
  set h4 value ts = ok (record ts { h4 = some value })
  set h6 value ts = ok (record ts { h6 = some value })
  set h8 value ts = ok (record ts { h8 = some value })
  set h12 value ts = ok (record ts { h12 = some value })
  set d1 value ts = ok (record ts { d1 = some value })
  set d3 value ts = ok (record ts { d3 = some value })
  set w1 value ts = ok (record ts { w1 = some value })
  set mm1 value ts = ok (record ts { mm1 = some value })
  set timeframe value ts = err (timeframe_not_found timeframe)

  unfoldable pub get : Timeframe → TimeSet T → Result TimeframeError T
  get s1 ts = ok_or ts.s1 (timeframe_not_found s1)
  get m1 ts = ok_or ts.m1 (timeframe_not_found m1)
  get m3 ts = ok_or ts.m3 (timeframe_not_found m3)
  get m5 ts = ok_or ts.m5 (timeframe_not_found m5)
  get m15 ts = ok_or ts.m15 (timeframe_not_found m15)
  get m30 ts = ok_or ts.m30 (timeframe_not_found m30)
  get h1 ts = ok_or ts.h1 (timeframe_not_found h1)
  get h2 ts = ok_or ts.h2 (timeframe_not_found h2)
  get h4 ts = ok_or ts.h4 (timeframe_not_found h4)
  get h6 ts = ok_or ts.h6 (timeframe_not_found h6)
  get h8 ts = ok_or ts.h8 (timeframe_not_found h8)
  get h12 ts = ok_or ts.h12 (timeframe_not_found h12)
  get d1 ts = ok_or ts.d1 (timeframe_not_found d1)
  get d3 ts = ok_or ts.d3 (timeframe_not_found d3)
  get w1 ts = ok_or ts.w1 (timeframe_not_found w1)
  get mm1 ts = ok_or ts.mm1 (timeframe_not_found mm1)
  get timeframe ts = err (timeframe_not_found timeframe)

  -- What the owner of a reference to the value stores there.
  abbrev stored : Timeframe → Option T → (T → TimeSet T) → Result TimeframeError (TimeSet T)
  stored timeframe none write = err (timeframe_not_found timeframe)
  stored timeframe (some value) write = ok (write value)

  unfoldable pub change : Timeframe → (T → T) → TimeSet T → Result TimeframeError (TimeSet T)
  change s1 f ts = stored s1 ts.s1 (λ v. record ts { s1 = some (f v) })
  change m1 f ts = stored m1 ts.m1 (λ v. record ts { m1 = some (f v) })
  change m3 f ts = stored m3 ts.m3 (λ v. record ts { m3 = some (f v) })
  change m5 f ts = stored m5 ts.m5 (λ v. record ts { m5 = some (f v) })
  change m15 f ts = stored m15 ts.m15 (λ v. record ts { m15 = some (f v) })
  change m30 f ts = stored m30 ts.m30 (λ v. record ts { m30 = some (f v) })
  change h1 f ts = stored h1 ts.h1 (λ v. record ts { h1 = some (f v) })
  change h2 f ts = stored h2 ts.h2 (λ v. record ts { h2 = some (f v) })
  change h4 f ts = stored h4 ts.h4 (λ v. record ts { h4 = some (f v) })
  change h6 f ts = stored h6 ts.h6 (λ v. record ts { h6 = some (f v) })
  change h8 f ts = stored h8 ts.h8 (λ v. record ts { h8 = some (f v) })
  change h12 f ts = stored h12 ts.h12 (λ v. record ts { h12 = some (f v) })
  change d1 f ts = stored d1 ts.d1 (λ v. record ts { d1 = some (f v) })
  change d3 f ts = stored d3 ts.d3 (λ v. record ts { d3 = some (f v) })
  change w1 f ts = stored w1 ts.w1 (λ v. record ts { w1 = some (f v) })
  change mm1 f ts = stored mm1 ts.mm1 (λ v. record ts { mm1 = some (f v) })
  change timeframe f ts = err (timeframe_not_found timeframe)

  unfoldable pub clear : Timeframe → TimeSet T → Result TimeframeError (TimeSet T)
  clear s1 ts = ok (record ts { s1 = none })
  clear m1 ts = ok (record ts { m1 = none })
  clear m3 ts = ok (record ts { m3 = none })
  clear m5 ts = ok (record ts { m5 = none })
  clear m15 ts = ok (record ts { m15 = none })
  clear m30 ts = ok (record ts { m30 = none })
  clear h1 ts = ok (record ts { h1 = none })
  clear h2 ts = ok (record ts { h2 = none })
  clear h4 ts = ok (record ts { h4 = none })
  clear h6 ts = ok (record ts { h6 = none })
  clear h8 ts = ok (record ts { h8 = none })
  clear h12 ts = ok (record ts { h12 = none })
  clear d1 ts = ok (record ts { d1 = none })
  clear d3 ts = ok (record ts { d3 = none })
  clear w1 ts = ok (record ts { w1 = none })
  clear mm1 ts = ok (record ts { mm1 = none })
  clear timeframe ts = err (timeframe_not_found timeframe)

unfoldable pub supported_timeframes : List Timeframe
supported_timeframes =
    s1 ∷ m1 ∷ m3 ∷ m5 ∷ m15 ∷ m30 ∷ h1 ∷ h2 ∷ h4 ∷ h6 ∷ h8 ∷ h12 ∷ d1 ∷ d3 ∷ w1 ∷ mm1 ∷ []

unfoldable pub trend_timeframe : Timeframe → Timeframe
trend_timeframe s1 = m1
trend_timeframe m1 = m5
trend_timeframe m3 = m15
trend_timeframe m5 = h1
trend_timeframe m15 = h1
trend_timeframe m30 = h2
trend_timeframe h1 = h4
trend_timeframe h2 = h8
trend_timeframe h4 = d1
trend_timeframe h6 = d1
trend_timeframe h8 = d1
trend_timeframe h12 = d3
trend_timeframe d1 = w1
trend_timeframe d3 = w1
trend_timeframe w1 = mm1
trend_timeframe mm1 = mm1
trend_timeframe _ = na
