-- ===== src/Semaphore/Tests.antt =====
-- Two permits and three threads.
use babylon_playground_demo.Common.{◌+◌, ◌≤◌, ◌≡◌, refl, some}
use babylon_playground_demo.Semaphore.{Semaphore, new, acquire, release, wake}
use babylon_playground_demo.Semaphore.Exclusion.{◌⟶*◌, here, onward, enter, holders-le-count}

abbrev crowded : Semaphore
crowded = record { remaining = 0; holders = 2; waiting = 1 }

crowded_reached : new 2 ⟶* crowded
unfolding new acquire
crowded_reached = onward (onward (onward here enter) enter) enter

holders-le-count_example : (crowded.holders ≤ 2) × (crowded.remaining + crowded.holders ≡ 2)
holders-le-count_example = holders-le-count 2 crowded crowded_reached

woken : wake (release crowded) ≡ some (record crowded { waiting = 0 })
unfolding wake release
woken = refl
