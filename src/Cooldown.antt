-- ===== src/Cooldown.antt =====
-- src/cooldown.rs: a number of uses, then a pause. `Instant::now()` is an argument `now` of each
-- call, in the unit of the durations; `last_used.elapsed()` is `now - last_used`, which `Instant`
-- saturates at zero as `-` on ℕ does. All readings of the clock within one call are one reading.
pub mod Rate
mod Tests
use babylon_playground_demo.Common.{
  ℕ, ◌-◌, Bool, true, false, not, ◌&&◌, ◌||◌, Option, none, some, ltb, leb, ◌==◌, if◌then◌else◌,
}

pub record Cooldown : Type 0 where
  pub duration : ℕ
  pub uses_left : ℕ  -- u32
  pub total_uses : ℕ  -- u32
  pub last_used : ℕ
  pub in_cooldown : Bool

unfoldable pub new : ℕ → ℕ → ℕ → Cooldown
new cooldown uses_per_cooldown now = record {
  duration = cooldown;
  uses_left = uses_per_cooldown;
  total_uses = uses_per_cooldown;
  last_used = now;
  in_cooldown = false;
}

unfoldable pub is_cooldown_expired : Cooldown → ℕ → Bool
is_cooldown_expired c now = c.in_cooldown && leb c.duration (now - c.last_used)

unfoldable pub is_available : Cooldown → ℕ → Bool
unfolding is_cooldown_expired
is_available c now = (ltb 0 c.uses_left && not c.in_cooldown) || is_cooldown_expired c now

-- The private method `reset`.
reset : Cooldown → Cooldown
reset c = record c { uses_left = c.total_uses; in_cooldown = false }

-- The first branch of `use_cooldown`: one use is taken, and the last one starts the pause.
take_use : Cooldown → ℕ → Cooldown
take_use c now =
    let taken = record c { uses_left = c.uses_left - 1 } in
    if taken.uses_left == 0 then record taken { in_cooldown = true; last_used = now } else taken

unfoldable pub use_cooldown : Cooldown → ℕ → Bool × Cooldown
unfolding is_cooldown_expired reset take_use
use_cooldown c now =
    if ltb 0 c.uses_left && not c.in_cooldown
    then (true, take_use c now)
    else if ltb 0 c.uses_left && is_cooldown_expired c now
    then (true, reset c)
    else if is_cooldown_expired c now
    then (true, reset c)
    else (false, c)

-- `none` is the panic of `Duration - Duration` below zero.
unfoldable pub downtime_left : Cooldown → ℕ → Option ℕ
downtime_left c now =
    if c.in_cooldown
    then (if leb (now - c.last_used) c.duration
        then some (c.duration - (now - c.last_used))
        else none)
    else some 0
