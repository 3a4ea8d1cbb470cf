-- ===== src/Fibonacci.antt =====
-- src/util.rs: the largest Fibonacci number that is at most a given number. A sum that does not fit 64
-- bits panics, as it does in a debug build.
mod Tests
use babylon_playground_demo.Common.{
  ◌∙◌, ◌⊎◌, inl, inr, refl, zero, arith, ℕ, zero, suc, ◌+◌, ◌≤◌, ◌<◌, ◌^◌, Bool, true, false, ◌≡◌,
  refl, sym, ap, ◌∙◌, ◌⊎◌, inl, inr, Option, none, some, leb, ltb, ◌==◌, if◌then◌else◌, arith,
}

pub data Search : Type 0 where
  found : Option ℕ → Search
  overflow out_of_fuel : Search

-- The `while` loop and what follows it.
unfoldable pub search : ℕ → ℕ → ℕ → ℕ → Search
search zero a b input = out_of_fuel
search (suc fuel) a b input =
    let rest = search fuel b (a + b) input in
    if leb b input
    then (if ltb (a + b) (2 ^ 64) then rest else overflow)
    else if a == 0
    then found none
    else found (some a)

-- The loop is entered at most once for each number up to the input and once more.
unfoldable pub max_fib_leq : ℕ → Search
max_fib_leq input = search (suc (suc input)) 0 1 input

unfoldable pub fib : ℕ → ℕ
fib zero = 0
fib (suc zero) = 1
fib (suc (suc n)) = fib n + fib (suc n)

-- Of consecutive Fibonacci numbers around the input, the lower one.
Brackets : ℕ → Search → Type 0
Brackets input r =
    (k : ℕ) × ((r ≡ found (some (fib k))) × ((fib k ≤ input) × (input < fib (suc k))))

fits : (a b input : ℕ) → a ≤ b → b ≤ input → input < 2 ^ 63 → a + b < 2 ^ 64
fits a b input h g small = omega arith

at_most_or_above : (b input : ℕ) → (b ≤ input) ⊎ (input < b)
at_most_or_above b input = omega arith

search-goes_on :
    (fuel a b input : ℕ)
    → b ≤ input
    → a + b < 2 ^ 64
    → search (suc fuel) a b input ≡ search fuel b (a + b) input
unfolding search
search-goes_on fuel a b input below room = ground arith

search-ends :
    (fuel a b input : ℕ) → input < b → 1 ≤ a → search (suc fuel) a b input ≡ found (some a)
unfolding search
search-ends fuel a b input above positive = ground arith

-- With fuel for the numbers up to the input, the loop ends.
search-Brackets :
    (fuel k input : ℕ)
    → input < 2 ^ 63
    → 1 ≤ fib k
    → fib k ≤ fib (suc k)
    → fib k ≤ input
    → input + 2 ≤ fib (suc k) + fuel
    → 1 ≤ fuel
    → Brackets input (search fuel (fib k) (fib (suc k)) input)
unfolding Brackets fib
search-Brackets zero k input small positive up below enough one = absurd (omega arith)
search-Brackets (suc fuel) k input small positive up below enough one =
    elim (at_most_or_above (fib (suc k)) input) [
      | inl more ↦
          let (j, (done, around)) =
            search-Brackets fuel (suc k) input small (omega arith) (omega arith) more (omega arith)
              (omega arith) in
          let room = fits (fib k) (fib (suc k)) input up more small in
          (j, (search-goes_on fuel (fib k) (fib (suc k)) input more room ∙ done, around))
      | inr last ↦ (k, (search-ends fuel (fib k) (fib (suc k)) input last positive, (below, last)))
    ]

-- Of a number from 1 to below 2 ^ 63 the search returns a Fibonacci number that is at most the number and
-- whose successor in the sequence is above it.
pub max_fib_leq-Brackets :
    (input : ℕ)
    → 1 ≤ input
    → input < 2 ^ 63
    → (k : ℕ) × ((max_fib_leq input ≡ found (some (fib k)))
        × ((fib k ≤ input) × (input < fib (suc k))))
unfolding max_fib_leq Brackets fib
max_fib_leq-Brackets zero positive small = absurd (omega arith)
max_fib_leq-Brackets (suc n) positive small =
    let (k, (done, around)) =
      search-Brackets (suc (suc n)) 1 (suc n) small (omega arith) (omega arith) (omega arith)
        (omega arith) (omega arith) in
    (k, (search-goes_on (suc (suc n)) 0 1 (suc n) (omega arith) (omega arith) ∙ done, around))
