-- ===== src/Semaphore/Exclusion.antt =====
-- src/semaphore.rs: how many threads hold a permit at a time, where a thread releases only a permit that
-- it holds.
use babylon_playground_demo.Common.{ℕ, suc, ◌+◌, ◌≤◌, ◌<◌, ◌≡◌, refl, some, arith}
use babylon_playground_demo.Semaphore.{Semaphore, new, acquire, wake, release}

infix 40 ◌⟶◌ ◌⟶*◌
pub data ◌⟶◌ (s : Semaphore) : Semaphore → Type 0 where
  enter : s ⟶ acquire s
  retry : {u : Semaphore} → wake s ≡ some u → s ⟶ u
  leave : 0 < s.holders → s ⟶ release s

pub data ◌⟶*◌ (s : Semaphore) : Semaphore → Type 0 where
  here : s ⟶* s
  onward : {u v : Semaphore} → s ⟶* u → u ⟶ v → s ⟶* v

step_total : {s u : Semaphore} → s ⟶ u → u.remaining + u.holders ≡ s.remaining + s.holders
unfolding acquire wake release
step_total {s} enter = ground arith
step_total {s} (retry h) = ground arith
step_total {s} (leave h) = ground arith

steps_total : {s u : Semaphore} → s ⟶* u → u.remaining + u.holders ≡ s.remaining + s.holders
steps_total here = refl
steps_total (onward p e) = ground (arith, step_total e, steps_total p)

-- However the threads that share a new semaphore take turns, each releasing only what it holds, the permits left and the permits held
-- are together its count: no more threads than that hold one at a time.
pub holders-le-count :
    (count : ℕ) (s : Semaphore)
    → new count ⟶* s
    → (s.holders ≤ count) × (s.remaining + s.holders ≡ count)
unfolding new
holders-le-count count s p = (ground (arith, steps_total p), ground (arith, steps_total p))

-- A permit that a thread gives back goes to a waiting thread, if that is the next to wake up.
pub wake-release :
    (s v : Semaphore)
    → 0 < s.holders
    → wake (release s) ≡ some v
    → (v.holders ≡ s.holders) × (v.remaining ≡ s.remaining) × (suc v.waiting ≡ s.waiting)
unfolding release wake
wake-release s v h k = ground arith
