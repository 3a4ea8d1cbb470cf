-- ===== src/TimeSet/Access.antt =====
-- src/timeset.rs: what is read of a time set, by any of its readings, after any write.
use babylon_playground_demo.Common.{
  Bool, true, false, ◌≡◌, refl, sym, ap, ◌∙◌, ◌⊎◌, inl, inr, Option, none, some, [], ◌∷◌, map,
  if◌then◌else◌,
}
use babylon_playground_demo.Common.Result.{ok, err, ok_or}
use babylon_playground_demo.Common.Table.{find, put, find-put}
use babylon_playground_demo.Timeframe.{
  Timeframe, timeframe_not_found, na, ms100, ms250, ms500, s1, s3, s5, s15, s30, m1, m3, m5, m15,
  m30, h1, h2, h4, h6, h8, h12, d1, d3, w1, mm1, timeframe_eq,
}
use babylon_playground_demo.Timeframe.Text.{as_str}
use babylon_playground_demo.TimeSet.{TimeSet, set, get, clear}
use babylon_playground_demo.TimeSet.Index.{index_timeframe, index_text, index_at}
use babylon_playground_demo.TimeSet.Iterate.{entries}
use babylon_playground_demo.TimeSet.Entries.{timeframe_key, answer, get-entries, set-put, clear-put}

-- The timeframe whose value an index holds.
abbrev pub looked_up : Timeframe → Timeframe
looked_up timeframe = if timeframe_eq timeframe w1 then mm1 else timeframe

module _ {T : Type 0} where
  answer-if :
      (timeframe : Timeframe) (b : Bool) (slot : Option T) (o : Option (Option T))
      → answer timeframe (if b then some slot else o)
        ≡ (if b then ok_or slot (timeframe_not_found timeframe) else answer timeframe o)
  answer-if timeframe true slot o = refl
  answer-if timeframe false slot o = refl

  -- What is read of a table with one entry written.
  get-put :
      (timeframe other : Timeframe) (slot : Option T) (ts after : TimeSet T)
      → entries after ≡ put timeframe slot (entries ts)
      → get other after ≡ (
          if timeframe_eq timeframe other
          then ok_or slot (timeframe_not_found other)
          else get other ts)
  unfolding timeframe_key
  get-put timeframe other slot ts after written =
      get-entries other after
      ∙ ap (λ t. answer other (find other t)) written
      ∙ ap (answer other) (find-put timeframe other slot (entries ts))
      ∙ answer-if other (timeframe_eq timeframe other) slot (find other (entries ts))
      ∙ ap (λ r. if timeframe_eq timeframe other then ok_or slot (timeframe_not_found other) else r)
          (sym (get-entries other ts))

  -- `set` either is refused at a timeframe that has no place, whose `get` is refused as well, or gives a
  -- time set that holds the value at this timeframe and is as before at every other.
  pub get-set :
      (timeframe other : Timeframe) (v : T) (ts : TimeSet T)
      → ((set timeframe v ts ≡ err (timeframe_not_found timeframe))
          × (get timeframe ts ≡ err (timeframe_not_found timeframe)))
        ⊎ ((after : TimeSet T) × ((set timeframe v ts ≡ ok after)
              × (get other after ≡ (if timeframe_eq timeframe other then ok v else get other ts))))
  get-set timeframe other v ts = elim (set-put timeframe v ts) [
    | inl refused ↦ inl refused
    | inr (after, (done, written)) ↦
        inr (after, (done, get-put timeframe other (some v) ts after written))
  ]

  -- `clear` either is refused at a timeframe that has no place, whose `get` is refused as well, or gives a
  -- time set that holds nothing at this timeframe and is as before at every other.
  pub get-clear :
      (timeframe other : Timeframe) (ts : TimeSet T)
      → ((clear timeframe ts ≡ err (timeframe_not_found timeframe))
          × (get timeframe ts ≡ err (timeframe_not_found timeframe)))
        ⊎ ((after : TimeSet T) × ((clear timeframe ts ≡ ok after)
              × (get other after ≡ (
                  if timeframe_eq timeframe other
                  then err (timeframe_not_found other)
                  else get other ts))))
  get-clear timeframe other ts = elim (clear-put timeframe ts) [
    | inl refused ↦ inl refused
    | inr (after, (done, written)) ↦
        inr (after, (done, get-put timeframe other none ts after written))
  ]

  -- The index by a timeframe and the index by its text are the same. At every timeframe but the week they
  -- hold what `get` returns of this timeframe; at the week they hold what `get` returns of the month.
  pub index_timeframe-get :
      (timeframe : Timeframe) (ts : TimeSet T)
      → (index_text (as_str timeframe) ts ≡ index_timeframe timeframe ts)
        × (get (looked_up timeframe) ts
            ≡ ok_or (index_timeframe timeframe ts) (timeframe_not_found (looked_up timeframe)))
  unfolding index_text as_str index_timeframe get timeframe_eq
  index_timeframe-get na ts = (refl, refl)
  index_timeframe-get ms100 ts = (refl, refl)
  index_timeframe-get ms250 ts = (refl, refl)
  index_timeframe-get ms500 ts = (refl, refl)
  index_timeframe-get s1 ts = (refl, refl)
  index_timeframe-get s3 ts = (refl, refl)
  index_timeframe-get s5 ts = (refl, refl)
  index_timeframe-get s15 ts = (refl, refl)
  index_timeframe-get s30 ts = (refl, refl)
  index_timeframe-get m1 ts = (refl, refl)
  index_timeframe-get m3 ts = (refl, refl)
  index_timeframe-get m5 ts = (refl, refl)
  index_timeframe-get m15 ts = (refl, refl)
  index_timeframe-get m30 ts = (refl, refl)
  index_timeframe-get h1 ts = (refl, refl)
  index_timeframe-get h2 ts = (refl, refl)
  index_timeframe-get h4 ts = (refl, refl)
  index_timeframe-get h6 ts = (refl, refl)
  index_timeframe-get h8 ts = (refl, refl)
  index_timeframe-get h12 ts = (refl, refl)
  index_timeframe-get d1 ts = (refl, refl)
  index_timeframe-get d3 ts = (refl, refl)
  index_timeframe-get w1 ts = (refl, refl)
  index_timeframe-get mm1 ts = (refl, refl)

  -- The index by a number goes through the entries in their order.
  pub index_at-entries :
      (ts : TimeSet T)
      → map
          (λ i. index_at i ts)
          (0 ∷ 1 ∷ 2 ∷ 3 ∷ 4 ∷ 5 ∷ 6 ∷ 7 ∷ 8 ∷ 9 ∷ 10 ∷ 11 ∷ 12 ∷ 13 ∷ 14 ∷ 15 ∷ [])
        ≡ map (λ entry. entry.1) (entries ts)
  unfolding index_at entries
  index_at-entries ts = refl
