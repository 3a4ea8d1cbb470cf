-- ===== src/Trigger/Latch.antt =====
-- Triggers over a series of checks: how often they fire, and when.
use babylon_playground_demo.Common.{
  ℕ, suc, ◌≤◌, ◌≡◌, refl, Bool, true, false, ◌||◌, none, some, List, [], ◌∷◌, arith, if◌then◌else◌,
}
use babylon_playground_demo.Common.Result.{ok}
use babylon_playground_demo.Float.{OrderedFloat}
use babylon_playground_demo.Trigger.Simple.{DelayedTrigger}
use babylon_playground_demo.Trigger.Zone.{PausableClock}
use babylon_playground_demo.Trigger.Reached.{
  DistanceTrigger, ProximityTrigger, has_reached_distance,
}
use babylon_playground_demo.Trigger.Dispatch.{
  DynTrigger, delayed, distance, proximity, check, metadata, into_trigger,
}

module _ {W C : Type 0} ⦃f : OrderedFloat W⦄ ⦃k : PausableClock C⦄ where
  -- How many of a series of checks fire.
  unfoldable pub count_fires : DynTrigger W C → List (ℕ × W) → ℕ
  count_fires t [] = 0
  count_fires t ((now, price) ∷ rest) =
      let (fired, t') = check t now price in
      let count = count_fires t' rest in if fired then suc count else count

  -- What the trigger answers at the last of a series of checks; nothing is asked of no checks.
  unfoldable pub last_answer : Bool → DynTrigger W C → List (ℕ × W) → Bool
  last_answer answer t [] = answer
  last_answer answer t ((now, price) ∷ rest) =
      let (fired, t') = check t now price in last_answer fired t' rest

-- Does any price of the series reach the distance?
module _ {W : Type 0} ⦃f : OrderedFloat W⦄ where
  abbrev pub reached_any : DistanceTrigger W → List (ℕ × W) → Bool
  reached_any t [] = false
  reached_any t ((now, price) ∷ rest) = has_reached_distance t price || reached_any t rest

-- Variants of a `DynTrigger` that name its type of clocks.
abbrev pub delayed_in : {W : Type 0} (C : Type 0) → DelayedTrigger → DynTrigger W C
delayed_in C t = delayed t

abbrev pub distance_in : {W : Type 0} (C : Type 0) → DistanceTrigger W → DynTrigger W C
distance_in C t = distance t

module _ {W : Type 0} (C : Type 0) ⦃f : OrderedFloat W⦄ ⦃k : PausableClock C⦄ where
  spent-count_fires :
      (t : DelayedTrigger) (cs : List (ℕ × W))
      → t.triggered ≡ true
      → count_fires {W = W} (delayed_in C t) cs ≡ 0
  unfolding count_fires check
  spent-count_fires t [] h = refl
  spent-count_fires t ((now, price) ∷ cs) h = ground (arith, spent-count_fires t cs h)

  -- Between two resets a delayed trigger fires at most once.
  pub delayed-count_fires :
      (t : DelayedTrigger) (cs : List (ℕ × W)) → count_fires {W = W} (delayed_in C t) cs ≤ 1
  unfolding count_fires check
  delayed-count_fires t [] = omega arith
  delayed-count_fires t ((now, price) ∷ cs) =
      ground (arith, delayed-count_fires t cs, spent-count_fires (record t { triggered = true }) cs)

  latched-last_answer :
      (t : DistanceTrigger W) (cs : List (ℕ × W))
      → t.triggered ≡ true
      → last_answer true (distance_in C t) cs ≡ true
  unfolding last_answer check
  latched-last_answer t [] h = refl
  latched-last_answer t ((now, price) ∷ cs) h = ground (
    arith,
    latched-last_answer t cs h,
    latched-last_answer (record t { triggered = true }) cs refl,
  )

  -- A distance trigger that has not fired answers a series of checks by whether any price in it,
  -- the last or an earlier one, has reached the distance: it stays fired.
  pub distance-last_answer :
      (t : DistanceTrigger W) (cs : List (ℕ × W))
      → t.triggered ≡ false
      → last_answer false (distance_in C t) cs ≡ reached_any t cs
  unfolding last_answer check
  distance-last_answer t [] h = refl
  distance-last_answer t ((now, price) ∷ cs) h = ground (
    arith,
    distance-last_answer t cs h,
    latched-last_answer (record t { triggered = true }) cs refl,
  )

  -- A new proximity trigger does not fire at its first check, wherever the price is: it knows no
  -- earlier price. From then on it knows the last one.
  pub proximity_first_check :
      (t : ProximityTrigger W) (now : ℕ) (price : W)
      → t.previous_price ≡ none
      → t.triggered ≡ false
      → check {C = C} (proximity t) now price
        ≡ (false, proximity (record t { previous_price = some price }))
  unfolding check
  proximity_first_check t now price fresh idle = ground arith

  -- A trigger that is built from the metadata of another has the same metadata.
  pub metadata-into_trigger :
      (t u : DynTrigger W C) (now : ℕ)
      → into_trigger (metadata t) now ≡ ok u
      → metadata u ≡ metadata t
  unfolding metadata into_trigger
  metadata-into_trigger t u now h = ground arith
