-- ===== src/Cooldown/Rate.antt =====
-- src/cooldown.rs: how many uses a cooldown grants.
use babylon_playground_demo.Common.{
  ◌==◌, leb, ◌⊎◌, ℕ, suc, ◌+◌, ◌-◌, ◌≤◌, ◌<◌, ◌≡◌, refl, true, false, none, some, List, [], ◌∷◌,
  arith, if◌then◌else◌,
}
use babylon_playground_demo.Cooldown.{Cooldown, new, use_cooldown, is_available, downtime_left}

-- `is_available` foretells `use_cooldown`, and a refused call changes nothing.
pub use_cooldown-is_available :
    (c : Cooldown) (now : ℕ)
    → ((use_cooldown c now).0 ≡ is_available c now)
      × ((is_available c now ≡ true) ⊎ ((use_cooldown c now).1 ≡ c))
unfolding use_cooldown is_available
use_cooldown-is_available c now = (ground arith, ground arith)

-- What holds of a cooldown between two calls, if it allows a use at all: it is in its pause just
-- when no use is left.
pub record IsValid (c : Cooldown) : Type 0 where
  pub some_uses : 0 < c.total_uses
  pub capped : c.uses_left ≤ c.total_uses
  pub pausing : c.in_cooldown ≡ (c.uses_left == 0)

pub new-IsValid : (d uses now : ℕ) → 0 < uses → IsValid (new d uses now)
unfolding new
new-IsValid d uses now h = ground arith

pub use_cooldown-IsValid : (c : Cooldown) (now : ℕ) → IsValid c → IsValid (use_cooldown c now).1
unfolding use_cooldown
use_cooldown-IsValid c now v = ground arith

-- How many of the calls of `use_cooldown` at these times are granted.
unfoldable pub grants : Cooldown → List ℕ → ℕ
grants c [] = 0
grants c (now ∷ times) =
    let (granted, c') = use_cooldown c now in
    let rest = grants c' times in if granted then suc rest else rest

-- All times lie in the span of the length `d` that begins at `start`.
abbrev pub Within : ℕ → ℕ → List ℕ → Type 0
Within start d [] = Unit {0}
Within start d (t ∷ ts) = (start ≤ t) × (t < start + d) × Within start d ts

-- A pause that began in the span does not end in it.
grants-le-uses_left :
    (c : Cooldown) (start : ℕ) (times : List ℕ)
    → IsValid c
    → (c.in_cooldown ≡ true → start ≤ c.last_used)
    → Within start c.duration times
    → grants c times ≤ c.uses_left
unfolding grants use_cooldown
grants-le-uses_left c start [] v h w = omega arith
grants-le-uses_left c start (now ∷ times) v h (a, b, w) =
    ground
      (arith, use_cooldown-IsValid c now v, grants-le-uses_left (use_cooldown c now).1 start times)

grants-le-pausing :
    (c : Cooldown) (start : ℕ) (times : List ℕ)
    → IsValid c
    → Within start c.duration times
    → grants c times ≤ c.uses_left + (if c.in_cooldown then suc c.total_uses else 0)
unfolding grants use_cooldown
grants-le-pausing c start [] v w = omega arith
grants-le-pausing c start (now ∷ times) v (a, b, w) = ground (
  arith,
  use_cooldown-IsValid c now v,
  grants-le-uses_left (use_cooldown c now).1 start times,
  grants-le-pausing c start times v w,
)

-- In a span that is no longer than the pause, a valid cooldown grants at most one use more than
-- its number of uses: the use that ends a pause is not counted.
pub grants-le-total_uses :
    (c : Cooldown) (start : ℕ) (times : List ℕ)
    → IsValid c
    → Within start c.duration times
    → grants c times ≤ c.total_uses + 1
grants-le-total_uses c start times v w = ground (arith, grants-le-pausing c start times v w)

abbrev pausing_since : Cooldown → ℕ → Cooldown
pausing_since c now = record c { uses_left = 0; in_cooldown = true; last_used = now }

last_use_lem :
    (c : Cooldown) (now : ℕ)
    → c.in_cooldown ≡ false
    → c.uses_left ≡ 1
    → use_cooldown c now ≡ (true, pausing_since c now)
unfolding use_cooldown
last_use_lem c now idle last = ground arith

-- After the use that empties a cooldown, a later call is granted just from the end of the pause
-- on; `downtime_left` is the time up to that end, and past it panics until the next use.
pub pause_lem :
    (c : Cooldown) (now later : ℕ)
    → c.in_cooldown ≡ false
    → c.uses_left ≡ 1
    → now ≤ later
    → let c' = (use_cooldown c now).1 in
      ((use_cooldown c now).0 ≡ true)
      × ((use_cooldown c' later).0 ≡ leb (now + c.duration) later)
      × (downtime_left c' later
          ≡ (if leb later (now + c.duration) then some (now + c.duration - later) else none))
unfolding use_cooldown downtime_left
pause_lem c now later idle last h =
    rw (last_use_lem c now idle last) (refl, ground arith, ground arith)

-- A cooldown of no uses is never available.
pub zero_uses : (d start : ℕ) (times : List ℕ) → grants (new d 0 start) times ≡ 0
unfolding grants use_cooldown new
zero_uses d start [] = refl
zero_uses d start (now ∷ times) = zero_uses d start times
