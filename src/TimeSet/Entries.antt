-- ===== src/TimeSet/Entries.antt =====
-- src/timeset.rs: a time set as a table from the timeframes to what they hold.
use babylon_playground_demo.Common.{
  ℕ, true, ◌≡◌, refl, ◌⊎◌, inl, inr, sym, ap, ◌∙◌, Option, none, some, ◌==◌, if◌then◌else◌,
}
use babylon_playground_demo.Common.Result.{Result, ok, err, ok_or}
use babylon_playground_demo.Common.Table.{Key, find, put, number_refl, number_eq}
use babylon_playground_demo.Timeframe.{
  Timeframe, TimeframeError, timeframe_not_found, na, ms100, ms250, ms500, s1, s3, s5, s15, s30, m1,
  m3, m5, m15, m30, h1, h2, h4, h6, h8, h12, d1, d3, w1, mm1, millis, timeframe_eq,
}
use babylon_playground_demo.TimeSet.{TimeSet, set, get, clear}
use babylon_playground_demo.TimeSet.Iterate.{entries}

-- The timeframe of so many milliseconds.
of_millis : ℕ → Timeframe
of_millis n =
    if n == 100
    then ms100
    else if n == 250
    then ms250
    else if n == 500
    then ms500
    else if n == 1_000
    then s1
    else if n == 3_000
    then s3
    else if n == 5_000
    then s5
    else if n == 15_000
    then s15
    else if n == 30_000
    then s30
    else if n == 60_000
    then m1
    else if n == 180_000
    then m3
    else if n == 300_000
    then m5
    else if n == 900_000
    then m15
    else if n == 1_800_000
    then m30
    else if n == 3_600_000
    then h1
    else if n == 7_200_000
    then h2
    else if n == 14_400_000
    then h4
    else if n == 21_600_000
    then h6
    else if n == 28_800_000
    then h8
    else if n == 43_200_000
    then h12
    else if n == 86_400_000
    then d1
    else if n == 259_200_000
    then d3
    else if n == 604_800_000
    then w1
    else if n == 2_592_000_000
    then mm1
    else na

of_millis-millis : (a : Timeframe) → of_millis (millis a) ≡ a
unfolding of_millis millis
of_millis-millis na = refl
of_millis-millis ms100 = refl
of_millis-millis ms250 = refl
of_millis-millis ms500 = refl
of_millis-millis s1 = refl
of_millis-millis s3 = refl
of_millis-millis s5 = refl
of_millis-millis s15 = refl
of_millis-millis s30 = refl
of_millis-millis m1 = refl
of_millis-millis m3 = refl
of_millis-millis m5 = refl
of_millis-millis m15 = refl
of_millis-millis m30 = refl
of_millis-millis h1 = refl
of_millis-millis h2 = refl
of_millis-millis h4 = refl
of_millis-millis h6 = refl
of_millis-millis h8 = refl
of_millis-millis h12 = refl
of_millis-millis d1 = refl
of_millis-millis d3 = refl
of_millis-millis w1 = refl
of_millis-millis mm1 = refl

pub eq_of_timeframe_eq : (a b : Timeframe) → timeframe_eq a b ≡ true → a ≡ b
unfolding timeframe_eq
eq_of_timeframe_eq a b h =
    sym (of_millis-millis a) ∙ ap of_millis (number_eq (millis a) (millis b) h) ∙ of_millis-millis b

pub timeframe_eq_refl : (a : Timeframe) → timeframe_eq a a ≡ true
unfolding timeframe_eq
timeframe_eq_refl a = number_refl (millis a)

instance unfoldable pub timeframe_key : Key Timeframe
timeframe_key = record {
  same = timeframe_eq;
  same_refl = timeframe_eq_refl;
  eq_of_same = eq_of_timeframe_eq;
}

module _ {T : Type 0} where
  -- What `get` answers of what a table holds at a timeframe.
  abbrev pub answer : Timeframe → Option (Option T) → Result TimeframeError T
  answer timeframe none = err (timeframe_not_found timeframe)
  answer timeframe (some slot) = ok_or slot (timeframe_not_found timeframe)

  pub get-entries :
      (timeframe : Timeframe) (ts : TimeSet T)
      → get timeframe ts ≡ answer timeframe (find timeframe (entries ts))
  unfolding get entries find timeframe_key timeframe_eq millis
  get-entries na ts = refl
  get-entries ms100 ts = refl
  get-entries ms250 ts = refl
  get-entries ms500 ts = refl
  get-entries s1 ts = refl
  get-entries s3 ts = refl
  get-entries s5 ts = refl
  get-entries s15 ts = refl
  get-entries s30 ts = refl
  get-entries m1 ts = refl
  get-entries m3 ts = refl
  get-entries m5 ts = refl
  get-entries m15 ts = refl
  get-entries m30 ts = refl
  get-entries h1 ts = refl
  get-entries h2 ts = refl
  get-entries h4 ts = refl
  get-entries h6 ts = refl
  get-entries h8 ts = refl
  get-entries h12 ts = refl
  get-entries d1 ts = refl
  get-entries d3 ts = refl
  get-entries w1 ts = refl
  get-entries mm1 ts = refl

  -- `set` is refused where there is no entry, and else writes the entry.
  pub set-put :
      (timeframe : Timeframe) (v : T) (ts : TimeSet T)
      → ((set timeframe v ts ≡ err (timeframe_not_found timeframe))
          × (get timeframe ts ≡ err (timeframe_not_found timeframe)))
        ⊎ ((after : TimeSet T) × ((set timeframe v ts ≡ ok after)
              × (entries after ≡ put timeframe (some v) (entries ts))))
  unfolding set get entries put timeframe_key timeframe_eq millis
  set-put na v ts = inl (refl, refl)
  set-put ms100 v ts = inl (refl, refl)
  set-put ms250 v ts = inl (refl, refl)
  set-put ms500 v ts = inl (refl, refl)
  set-put s1 v ts = inr (_, (refl, refl))
  set-put s3 v ts = inl (refl, refl)
  set-put s5 v ts = inl (refl, refl)
  set-put s15 v ts = inl (refl, refl)
  set-put s30 v ts = inl (refl, refl)
  set-put m1 v ts = inr (_, (refl, refl))
  set-put m3 v ts = inr (_, (refl, refl))
  set-put m5 v ts = inr (_, (refl, refl))
  set-put m15 v ts = inr (_, (refl, refl))
  set-put m30 v ts = inr (_, (refl, refl))
  set-put h1 v ts = inr (_, (refl, refl))
  set-put h2 v ts = inr (_, (refl, refl))
  set-put h4 v ts = inr (_, (refl, refl))
  set-put h6 v ts = inr (_, (refl, refl))
  set-put h8 v ts = inr (_, (refl, refl))
  set-put h12 v ts = inr (_, (refl, refl))
  set-put d1 v ts = inr (_, (refl, refl))
  set-put d3 v ts = inr (_, (refl, refl))
  set-put w1 v ts = inr (_, (refl, refl))
  set-put mm1 v ts = inr (_, (refl, refl))

  -- `clear` is refused where there is no entry, and else writes the entry.
  pub clear-put :
      (timeframe : Timeframe) (ts : TimeSet T)
      → ((clear timeframe ts ≡ err (timeframe_not_found timeframe))
          × (get timeframe ts ≡ err (timeframe_not_found timeframe)))
        ⊎ ((after : TimeSet T) × ((clear timeframe ts ≡ ok after)
              × (entries after ≡ put timeframe (none) (entries ts))))
  unfolding clear get entries put timeframe_key timeframe_eq millis
  clear-put na ts = inl (refl, refl)
  clear-put ms100 ts = inl (refl, refl)
  clear-put ms250 ts = inl (refl, refl)
  clear-put ms500 ts = inl (refl, refl)
  clear-put s1 ts = inr (_, (refl, refl))
  clear-put s3 ts = inl (refl, refl)
  clear-put s5 ts = inl (refl, refl)
  clear-put s15 ts = inl (refl, refl)
  clear-put s30 ts = inl (refl, refl)
  clear-put m1 ts = inr (_, (refl, refl))
  clear-put m3 ts = inr (_, (refl, refl))
  clear-put m5 ts = inr (_, (refl, refl))
  clear-put m15 ts = inr (_, (refl, refl))
  clear-put m30 ts = inr (_, (refl, refl))
  clear-put h1 ts = inr (_, (refl, refl))
  clear-put h2 ts = inr (_, (refl, refl))
  clear-put h4 ts = inr (_, (refl, refl))
  clear-put h6 ts = inr (_, (refl, refl))
  clear-put h8 ts = inr (_, (refl, refl))
  clear-put h12 ts = inr (_, (refl, refl))
  clear-put d1 ts = inr (_, (refl, refl))
  clear-put d3 ts = inr (_, (refl, refl))
  clear-put w1 ts = inr (_, (refl, refl))
  clear-put mm1 ts = inr (_, (refl, refl))
