-- ===== src/Position/Sound.antt =====
-- src/position.rs: computations that divide only where the division is defined.
use babylon_playground_demo.Common.{
  Bool-cases, false, ◌≡◌, inl, inr, if◌then◌else◌, Option, none, some,
}
use babylon_playground_demo.Common.Result.{Result, ok, err, ok_or, ◌>>=◌}
use babylon_playground_demo.Position.{
  Decimals, Position, Panic, division_by_zero, overflow, unrepresentable, decimal, added,
  subtracted, multiplied, divided, average_of, calculate_unrealized_profit, calculate_roi,
}

-- A computation never divides by zero, and what it returns satisfies `P`.
unfoldable pub Sound : {A : Type 0} → (A → Type 0) → Result Panic A → Type 0
Sound P (ok a) = P a
Sound P (err division_by_zero) = ⊥
Sound P (err overflow) = Unit {0}
Sound P (err unrepresentable) = Unit {0}

-- It never divides by zero.
abbrev pub Safe : {A : Type 0} → Result Panic A → Type 0
Safe r = Sound (λ _. Unit {0}) r

pub chain-Sound :
    {A B : Type 0} (P : A → Type 0) (Q : B → Type 0) (m : Result Panic A) (k : A → Result Panic B)
    → Sound P m
    → ((a : A) → P a → Sound Q (k a))
    → Sound Q (m >>= k)
unfolding Sound
chain-Sound P Q (ok a) k sound after = after a sound
chain-Sound P Q (err division_by_zero) k sound after = absurd sound
chain-Sound P Q (err overflow) k sound after = tt
chain-Sound P Q (err unrepresentable) k sound after = tt

pub bind-Sound :
    {A B : Type 0} (Q : B → Type 0) (m : Result Panic A) (k : A → Result Panic B)
    → Safe m
    → ((a : A) → Sound Q (k a))
    → Sound Q (m >>= k)
bind-Sound Q m k safe after = chain-Sound (λ _. Unit {0}) Q m k safe (λ a _. after a)

-- Of two computations that are the same the second returns what the first returned.
pub bind-twice :
    {A B : Type 0} (Q : B → Type 0) (m n : Result Panic A) (k : A → A → Result Panic B)
    → n ≡ m
    → Safe m
    → ((a : A) → Sound Q (k a a))
    → Sound Q (m >>= λ a. n >>= λ b. k a b)
unfolding Sound
bind-twice Q (ok a) n k same safe sound = rw same (sound a)
bind-twice Q (err division_by_zero) n k same safe sound = absurd safe
bind-twice Q (err overflow) n k same safe sound = tt
bind-twice Q (err unrepresentable) n k same safe sound = tt

pub ok-Safe : {A : Type 0} (a : A) → Safe (ok a)
unfolding Sound
ok-Safe a = tt

-- An answer that is there or not, whose absence is no division by zero.
overflow-Safe : {A : Type 0} (o : Option A) → Safe (ok_or o overflow)
unfolding Sound
overflow-Safe none = tt
overflow-Safe (some a) = tt

unrepresentable-Safe : {A : Type 0} (o : Option A) → Safe (ok_or o unrepresentable)
unfolding Sound
unrepresentable-Safe none = tt
unrepresentable-Safe (some a) = tt

pub decimal-Safe : {W D : Type 0} (from_f64 : W → Option D) (x : W) → Safe (decimal from_f64 x)
unfolding decimal
decimal-Safe from_f64 x = unrepresentable-Safe (from_f64 x)

module _ {D : Type 0} ⦃d : Decimals D⦄ where
  pub added-Safe : (a b : D) → Safe (added a b)
  unfolding added Sound
  added-Safe a b = overflow-Safe (d.add a b)

  pub subtracted-Safe : (a b : D) → Safe (subtracted a b)
  unfolding subtracted Sound
  subtracted-Safe a b = overflow-Safe (d.sub a b)

  pub multiplied-Safe : (a b : D) → Safe (multiplied a b)
  unfolding multiplied Sound
  multiplied-Safe a b = overflow-Safe (d.mul a b)

  pub divided-Safe : (a b : D) → d.is_nil b ≡ false → Safe (divided a b)
  unfolding divided Sound
  divided-Safe a b h = rw h (overflow-Safe (d.div a b))

  -- A division that is only made where it is defined.
  guarded-Safe :
      {A : Type 0} (b : D) (m n : Result Panic A)
      → Safe m
      → (d.is_nil b ≡ false → Safe n)
      → Safe (if d.is_nil b then m else n)
  guarded-Safe b m n m_safe n_safe = elim (Bool-cases (d.is_nil b)) [
    | inl h ↦ rw h m_safe
    | inr h ↦ rw h (n_safe h)
  ]

  pub average_of-Safe : (total quantity : D) → Safe (average_of total quantity)
  unfolding average_of
  average_of-Safe total quantity = elim (Bool-cases (d.is_nil quantity)) [
    | inl h ↦ rw h (ok-Safe d.nil)
    | inr h ↦ rw h (overflow-Safe (d.div total quantity))
  ]

pub ruleset safe_rules =
    (ok-Safe, bind-Sound, decimal-Safe, added-Safe, subtracted-Safe, multiplied-Safe, divided-Safe)

module _ {W D : Type 0} ⦃d : Decimals D⦄ where
  unrealized-Safe :
      (price : D) (p : Position W D)
      → d.is_nil p.invested_capital ≡ false
      → Safe (calculate_unrealized_profit price p)
  unfolding calculate_unrealized_profit
  unrealized-Safe price p invested =
      guarded-Safe p.quantity_held _ _ (ok-Safe (d.nil, d.nil)) (λ _. search safe_rules depth 20)

  pub calculate_roi-Safe : (p : Position W D) → Safe (calculate_roi p)
  unfolding calculate_roi
  calculate_roi-Safe p =
      guarded-Safe p.invested_capital _ _ (ok-Safe (d.nil, d.nil))
        (λ invested. search (safe_rules, unrealized-Safe) depth 24)
