-- ===== src/Semaphore.antt =====
-- src/semaphore.rs: a counter behind a mutex and a condition variable, as steps of the threads that
-- share it. A step is what a thread does between locking the mutex and unlocking it or waiting.
pub mod Exclusion
mod Tests
use babylon_playground_demo.Common.{ℕ, zero, suc, ◌-◌, Option, none, some, List, [], ◌∷◌}

-- The permits left, which is what the mutex guards, how many threads hold one, and how many wait on the
-- condition variable.
pub record Semaphore : Type 0 where
  pub remaining : ℕ
  pub holders : ℕ
  pub waiting : ℕ

unfoldable pub new : ℕ → Semaphore
new count = record { remaining = count; holders = 0; waiting = 0 }

-- A thread enters `acquire`: it takes a permit, or waits.
abbrev acquire_at : ℕ → Semaphore → Semaphore
acquire_at zero s = record s { waiting = suc s.waiting }
acquire_at (suc left) s = record s { remaining = left; holders = suc s.holders }

unfoldable pub acquire : Semaphore → Semaphore
acquire s = acquire_at s.remaining s

-- A waiting thread wakes up, by a notice or spuriously, and tests the count again.
abbrev wake_at : ℕ → Semaphore → Option Semaphore
wake_at zero s = none
wake_at (suc others) s = some (acquire_at s.remaining (record s { waiting = others }))

unfoldable pub wake : Semaphore → Option Semaphore
wake s = wake_at s.waiting s

-- `release` tests nothing: it adds a permit, whether or not the thread holds one.
unfoldable pub release : Semaphore → Semaphore
release s = record s { remaining = suc s.remaining; holders = s.holders - 1 }
