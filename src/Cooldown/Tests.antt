-- ===== src/Cooldown/Tests.antt =====
-- Cooldowns at concrete times.
use babylon_playground_demo.Common.{◌+◌, ◌≤◌, ◌≡◌, refl, false, [], ◌∷◌, arith}
use babylon_playground_demo.Cooldown.{Cooldown, use_cooldown}
use babylon_playground_demo.Cooldown.Rate.{IsValid, grants, grants-le-total_uses}

-- The scenario of the source's own test, in milliseconds.
abbrev test_cooldown : Cooldown
test_cooldown = record {
  duration = 1000;
  uses_left = 2;
  total_uses = 2;
  last_used = 0;
  in_cooldown = false;
}

scenario : grants test_cooldown (1 ∷ 2 ∷ 3 ∷ 2002 ∷ []) ≡ 3
unfolding grants use_cooldown
scenario = refl

test_cooldown-IsValid : IsValid test_cooldown
test_cooldown-IsValid = ground arith

grants-le-total_uses_example : grants test_cooldown (1 ∷ 2 ∷ 3 ∷ 900 ∷ []) ≤ 2 + 1
grants-le-total_uses_example =
    grants-le-total_uses test_cooldown 1 (1 ∷ 2 ∷ 3 ∷ 900 ∷ []) test_cooldown-IsValid (omega arith)

abbrev last_use : Cooldown
last_use = record test_cooldown { uses_left = 1 }
