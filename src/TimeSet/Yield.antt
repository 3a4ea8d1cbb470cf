-- ===== src/TimeSet/Yield.antt =====
-- src/timeset.rs: what the iterations over a time set go through, and the trends of its timeframes.
use babylon_playground_demo.Common.{
  Bool, true, false, ◌||◌, ◌≡◌, refl, ap, ◌⊎◌, inl, inr, Option, none, some, List, [], ◌∷◌, ◌<◌,
  if◌then◌else◌, arith,
}
use babylon_playground_demo.Common.Result.{ok}
use babylon_playground_demo.Timeframe.{
  Timeframe, na, ms100, ms250, ms500, s1, s3, s5, s15, s30, m1, m3, m5, m15, m30, h1, h2, h4, h6,
  h8, h12, d1, d3, w1, mm1, millis, timeframe_eq,
}
use babylon_playground_demo.TimeSet.{TimeSet, trend_timeframe, supported_timeframes}
use babylon_playground_demo.TimeSet.Iterate.{
  entries, filled, iter, pick, filter, map, reduce, fold, on_value,
}

-- The entries of a list whose values pass a test, in their order.
unfoldable pub keep : {T : Type 0} → (T → Bool) → List (Timeframe × T) → List (Timeframe × T)
keep f [] = []
keep f (entry ∷ rest) = let kept = keep f rest in if f entry.1 then entry ∷ kept else kept

-- The entries of a list with their values replaced.
unfoldable pub each : {T U : Type 0} → (T → U) → List (Timeframe × T) → List (Timeframe × U)
each f [] = []
each f (entry ∷ rest) = (entry.0, f entry.1) ∷ each f rest

is_among : Timeframe → List Timeframe → Bool
is_among a [] = false
is_among a (b ∷ rest) = timeframe_eq a b || is_among a rest

-- Whether the set has a place for a timeframe.
unfoldable pub is_of_set : Timeframe → Bool
unfolding is_among
is_of_set a = is_among a supported_timeframes

module _ {T : Type 0} where
  -- The blocks of `filter` for the entries of a list.
  picks : (T → Bool) → List (Timeframe × Option T) → List (Timeframe × T)
  picks f [] = []
  picks f (entry ∷ rest) = pick f entry.0 entry.1 (picks f rest)

  keep-filled : (f : T → Bool) (es : List (Timeframe × Option T)) → picks f es ≡ keep f (filled es)
  unfolding picks keep filled
  keep-filled f [] = refl
  keep-filled f ((timeframe, none) ∷ rest) = keep-filled f rest
  keep-filled f ((timeframe, some value) ∷ rest) =
      ap (λ es. if f value then (timeframe, value) ∷ es else es) (keep-filled f rest)

  -- `filter` gives the values that `iter` goes through and that pass the test, in the same order.
  pub filter-iter : (f : T → Bool) (ts : TimeSet T) → filter f ts ≡ keep f (iter ts)
  unfolding filter iter entries picks
  filter-iter f ts = keep-filled f (entries ts)

module _ {T U : Type 0} where
  each_entry : (T → U) → List (Timeframe × Option T) → List (Timeframe × Option U)
  each_entry f [] = []
  each_entry f (entry ∷ rest) = (entry.0, on_value f entry.1) ∷ each_entry f rest

  filled-each_entry :
      (f : T → U) (es : List (Timeframe × Option T)) → filled (each_entry f es) ≡ each f (filled es)
  unfolding each_entry each filled
  filled-each_entry f [] = refl
  filled-each_entry f ((timeframe, none) ∷ rest) = filled-each_entry f rest
  filled-each_entry f ((timeframe, some value) ∷ rest) =
      ap (λ es. (timeframe, f value) ∷ es) (filled-each_entry f rest)

  -- `iter` of what `map` gives goes through the values of the time set, each replaced, and `reduce` and
  -- `fold` give the same time set as `map`.
  pub iter-map :
      (f : T → U) (ts : TimeSet T)
      → (iter (map f ts) ≡ each f (iter ts))
        × ((reduce f ts ≡ ok (map f ts)) × (fold f ts ≡ ok (map f ts)))
  unfolding iter entries map reduce fold each_entry
  iter-map f ts = (filled-each_entry f (entries ts), (refl, refl))

-- `trend_timeframe` of a timeframe of the set is a longer one, but for the month, which is its own; of a
-- timeframe that is not of the set it is `na`.
pub trend_timeframe-millis :
    (timeframe : Timeframe)
    → (is_of_set timeframe ≡ true)
        × ((millis timeframe < millis (trend_timeframe timeframe))
            ⊎ (timeframe ≡ mm1) × (trend_timeframe timeframe ≡ mm1))
      ⊎ (is_of_set timeframe ≡ false) × (trend_timeframe timeframe ≡ na)
unfolding trend_timeframe millis is_of_set supported_timeframes is_among timeframe_eq
trend_timeframe-millis na = inr (refl, refl)
trend_timeframe-millis ms100 = inr (refl, refl)
trend_timeframe-millis ms250 = inr (refl, refl)
trend_timeframe-millis ms500 = inr (refl, refl)
trend_timeframe-millis s1 = inl (refl, inl (omega arith))
trend_timeframe-millis s3 = inr (refl, refl)
trend_timeframe-millis s5 = inr (refl, refl)
trend_timeframe-millis s15 = inr (refl, refl)
trend_timeframe-millis s30 = inr (refl, refl)
trend_timeframe-millis m1 = inl (refl, inl (omega arith))
trend_timeframe-millis m3 = inl (refl, inl (omega arith))
trend_timeframe-millis m5 = inl (refl, inl (omega arith))
trend_timeframe-millis m15 = inl (refl, inl (omega arith))
trend_timeframe-millis m30 = inl (refl, inl (omega arith))
trend_timeframe-millis h1 = inl (refl, inl (omega arith))
trend_timeframe-millis h2 = inl (refl, inl (omega arith))
trend_timeframe-millis h4 = inl (refl, inl (omega arith))
trend_timeframe-millis h6 = inl (refl, inl (omega arith))
trend_timeframe-millis h8 = inl (refl, inl (omega arith))
trend_timeframe-millis h12 = inl (refl, inl (omega arith))
trend_timeframe-millis d1 = inl (refl, inl (omega arith))
trend_timeframe-millis d3 = inl (refl, inl (omega arith))
trend_timeframe-millis w1 = inl (refl, inl (omega arith))
trend_timeframe-millis mm1 = inl (refl, inr (refl, refl))
