-- ===== src/Trigger/Frozen.antt =====
-- src/trigger_delayed_zone.rs: what becomes of a clock that was paused.
use babylon_playground_demo.Common.{
  ◌||◌, ℕ, ◌/◌, ◌%◌, ◌^◌, ◌≤◌, ◌≡◌, refl, Bool, false, some, List, [], ◌∷◌, arith,
}
use babylon_playground_demo.Float.{OrderedFloat}
use babylon_playground_demo.Trigger.Zone.{
  DelayedZoneTrigger, PausableClock, is_in_critical_zone, check,
}

-- What the crate pausable_clock says of `pause`: the clock stands still, and to pause it again
-- changes nothing.
pub record Pauses {C : Type 0} (k : PausableClock C) : Type 0 where
  pub stands_still : (c : C) (s t : ℕ) → k.elapsed_millis (k.pause c s) t ≡ k.elapsed_millis c s
  pub pause_twice : (c : C) (s t : ℕ) → k.pause (k.pause c s) t ≡ k.pause c s

module _ {W C : Type 0} ⦃f : OrderedFloat W⦄ ⦃k : PausableClock C⦄ where
  -- Whether any of a series of checks fires.
  unfoldable pub ever_fires : DelayedZoneTrigger W C → List (ℕ × W) → Bool
  ever_fires t [] = false
  ever_fires t ((now, price) ∷ rest) =
      let (fired, t') = check t now price in let later = ever_fires t' rest in fired || later

  -- No price of the series lies in the critical zone.
  abbrev pub NeverCritical : DelayedZoneTrigger W C → List (ℕ × W) → Type 0
  NeverCritical t [] = Unit {0}
  NeverCritical t ((now, price) ∷ rest) =
      (is_in_critical_zone t price ≡ false) × NeverCritical t rest

  check_paused :
      (t : DelayedZoneTrigger W C) (c : C) (since now : ℕ) (price : W)
      → Pauses k
      → t.reset_timer_on_reentry ≡ false
      → t.clock ≡ some (k.pause c since)
      → k.elapsed_millis c since ≤ t.delay / 1_000_000 % 2 ^ 64
      → is_in_critical_zone t price ≡ false
      → check t now price ≡ (false, t)
  unfolding check
  check_paused t c since now price laws keep paused early safe =
      ground (arith, laws.stands_still c since now, laws.pause_twice c since now)

  -- A trigger that keeps its clock over reentries, and whose clock was paused before the delay had
  -- run out, does not fire again outside the critical zone, however long the price stays between
  -- target and threshold: no check resumes the clock.
  pub paused_never_fires :
      (t : DelayedZoneTrigger W C) (c : C) (since : ℕ) (cs : List (ℕ × W))
      → Pauses k
      → t.reset_timer_on_reentry ≡ false
      → t.clock ≡ some (k.pause c since)
      → k.elapsed_millis c since ≤ t.delay / 1_000_000 % 2 ^ 64
      → NeverCritical t cs
      → ever_fires t cs ≡ false
  unfolding ever_fires
  paused_never_fires t c since [] laws keep paused early safe = refl
  paused_never_fires t c since ((now, price) ∷ cs) laws keep paused early safe =
      rw (check_paused t c since now price laws keep paused early safe.0)
        (paused_never_fires t c since cs laws keep paused early safe.1)
