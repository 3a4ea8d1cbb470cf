-- ===== src/TimeSet/Iterate.antt =====
-- src/timeset.rs: the iterations over a time set, and what they make of it.
use babylon_playground_demo.Common.{Bool, Option, none, some, List, [], ◌∷◌, if◌then◌else◌}
use babylon_playground_demo.Common.Result.{Result, ok}
use babylon_playground_demo.Timeframe.{
  Timeframe, TimeframeError, s1, m1, m3, m5, m15, m30, h1, h2, h4, h6, h8, h12, d1, d3, w1, mm1,
}
use babylon_playground_demo.TimeSet.{TimeSet}

-- `Option::map`.
abbrev pub on_value : {T U : Type 0} → (T → U) → Option T → Option U
on_value f none = none
on_value f (some v) = some (f v)

module _ {T : Type 0} where
  -- The array that `iter` and `iter_mut` go through.
  unfoldable pub entries : TimeSet T → List (Timeframe × Option T)
  entries ts =
      (s1, ts.s1)
      ∷ (m1, ts.m1)
      ∷ (m3, ts.m3)
      ∷ (m5, ts.m5)
      ∷ (m15, ts.m15)
      ∷ (m30, ts.m30)
      ∷ (h1, ts.h1)
      ∷ (h2, ts.h2)
      ∷ (h4, ts.h4)
      ∷ (h6, ts.h6)
      ∷ (h8, ts.h8)
      ∷ (h12, ts.h12)
      ∷ (d1, ts.d1)
      ∷ (d3, ts.d3)
      ∷ (w1, ts.w1)
      ∷ (mm1, ts.mm1)
      ∷ []

  -- `IntoIterator`, from the longest timeframe to the shortest.
  unfoldable pub into_iter : TimeSet T → List (Timeframe × Option T)
  into_iter ts =
      (mm1, ts.mm1)
      ∷ (w1, ts.w1)
      ∷ (d3, ts.d3)
      ∷ (d1, ts.d1)
      ∷ (h12, ts.h12)
      ∷ (h8, ts.h8)
      ∷ (h6, ts.h6)
      ∷ (h4, ts.h4)
      ∷ (h2, ts.h2)
      ∷ (h1, ts.h1)
      ∷ (m30, ts.m30)
      ∷ (m15, ts.m15)
      ∷ (m5, ts.m5)
      ∷ (m3, ts.m3)
      ∷ (m1, ts.m1)
      ∷ (s1, ts.s1)
      ∷ []

  -- The entries that have a value: what `filter_map` leaves of the array.
  unfoldable pub filled : List (Timeframe × Option T) → List (Timeframe × T)
  filled [] = []
  filled ((timeframe, none) ∷ rest) = filled rest
  filled ((timeframe, some value) ∷ rest) = (timeframe, value) ∷ filled rest

  unfoldable pub iter : TimeSet T → List (Timeframe × T)
  iter ts = filled (entries ts)

  -- One of the blocks of `filter`, before those that follow it.
  abbrev pub pick : (T → Bool) → Timeframe → Option T → List (Timeframe × T) → List (Timeframe × T)
  pick f timeframe none rest = rest
  pick f timeframe (some value) rest = if f value then (timeframe, value) ∷ rest else rest

  unfoldable pub filter : (T → Bool) → TimeSet T → List (Timeframe × T)
  filter f ts = pick f s1 ts.s1 (
      pick f m1 ts.m1 (
        pick f m3 ts.m3 (
          pick f m5 ts.m5 (
            pick f m15 ts.m15 (
              pick f m30 ts.m30 (
                pick f h1 ts.h1 (
                  pick f h2 ts.h2 (
                    pick f h4 ts.h4 (
                      pick f h6 ts.h6 (
                        pick f h8 ts.h8 (
                          pick f h12 ts.h12 (
                            pick f d1 ts.d1
                              (pick f d3 ts.d3 (pick f w1 ts.w1 (pick f mm1 ts.mm1 [])))))))))))))))

  -- Every value is replaced; nothing that the closure does to one depends on another.
  unfoldable pub apply : (T → T) → TimeSet T → TimeSet T
  apply f ts = record {
    s1 = on_value f ts.s1;
    m1 = on_value f ts.m1;
    m3 = on_value f ts.m3;
    m5 = on_value f ts.m5;
    m15 = on_value f ts.m15;
    m30 = on_value f ts.m30;
    h1 = on_value f ts.h1;
    h2 = on_value f ts.h2;
    h4 = on_value f ts.h4;
    h6 = on_value f ts.h6;
    h8 = on_value f ts.h8;
    h12 = on_value f ts.h12;
    d1 = on_value f ts.d1;
    d3 = on_value f ts.d3;
    w1 = on_value f ts.w1;
    mm1 = on_value f ts.mm1;
  }

module _ {T U : Type 0} where
  unfoldable pub map : (T → U) → TimeSet T → TimeSet U
  map f ts = record {
    s1 = on_value f ts.s1;
    m1 = on_value f ts.m1;
    m3 = on_value f ts.m3;
    m5 = on_value f ts.m5;
    m15 = on_value f ts.m15;
    m30 = on_value f ts.m30;
    h1 = on_value f ts.h1;
    h2 = on_value f ts.h2;
    h4 = on_value f ts.h4;
    h6 = on_value f ts.h6;
    h8 = on_value f ts.h8;
    h12 = on_value f ts.h12;
    d1 = on_value f ts.d1;
    d3 = on_value f ts.d3;
    w1 = on_value f ts.w1;
    mm1 = on_value f ts.mm1;
  }

  unfoldable pub reduce : (T → U) → TimeSet T → Result TimeframeError (TimeSet U)
  reduce f ts = ok (record {
    mm1 = on_value f ts.mm1;
    w1 = on_value f ts.w1;
    d3 = on_value f ts.d3;
    d1 = on_value f ts.d1;
    h12 = on_value f ts.h12;
    h8 = on_value f ts.h8;
    h6 = on_value f ts.h6;
    h4 = on_value f ts.h4;
    h2 = on_value f ts.h2;
    h1 = on_value f ts.h1;
    m30 = on_value f ts.m30;
    m15 = on_value f ts.m15;
    m5 = on_value f ts.m5;
    m3 = on_value f ts.m3;
    m1 = on_value f ts.m1;
    s1 = on_value f ts.s1;
  })

  unfoldable pub fold : (T → U) → TimeSet T → Result TimeframeError (TimeSet U)
  fold f ts = ok (record {
    mm1 = on_value f ts.mm1;
    w1 = on_value f ts.w1;
    d3 = on_value f ts.d3;
    d1 = on_value f ts.d1;
    h12 = on_value f ts.h12;
    h8 = on_value f ts.h8;
    h6 = on_value f ts.h6;
    h4 = on_value f ts.h4;
    h2 = on_value f ts.h2;
    h1 = on_value f ts.h1;
    m30 = on_value f ts.m30;
    m15 = on_value f ts.m15;
    m5 = on_value f ts.m5;
    m3 = on_value f ts.m3;
    m1 = on_value f ts.m1;
    s1 = on_value f ts.s1;
  })
