-- ===== src/Order/Monad.antt =====
-- The setting in which the methods of src/order.rs run. A method changes the order, which it keeps
-- also where it returns an error, and reads the world: the clock, the shared market price, which other
-- threads may store to at any time, and the random ids of new instructions.
use babylon_playground_demo.Common.{ℕ, suc}
use babylon_playground_demo.Common.Result.{Result, ok, err}
use babylon_playground_demo.Instruction.{DateTime}
use babylon_playground_demo.Order.Error.{OrderError}
use babylon_playground_demo.Order.Data.{Order}

-- What the n-th reading gives, of whatever it is.
pub record World (W : Type 0) : Type 0 where
  pub now : ℕ → DateTime
  pub market_price : ℕ → W
  pub random_id : ℕ → ℕ

pub record Machine (W T : Type 0) : Type 0 where
  pub order : Order W T
  -- How many readings have been made.
  pub reads : ℕ

-- How a call ends: it returns a value or an error, or it panics. `out_of_fuel` is no behaviour of
-- the code: it says that the model's fuel did not suffice for the nested calls.
pub data Outcome (E A : Type 0) : Type 0 where
  done : A → Outcome E A
  failed : E → Outcome E A
  panicked : Outcome E A
  out_of_fuel : Outcome E A

abbrev pub M : Type 0 → Type 0 → Type 0 → Type 0
M W T A = Machine W T → Outcome (OrderError W) A × Machine W T

module _ {W T A : Type 0} where
  unfoldable pub pure : A → M W T A
  pure a m = (done a, m)

  unfoldable pub fail : OrderError W → M W T A
  fail e m = (failed e, m)

  unfoldable pub panic : M W T A
  panic m = (panicked, m)

  unfoldable pub diverge : M W T A
  diverge m = (out_of_fuel, m)

  -- A reading of the world.
  unfoldable pub read : (ℕ → A) → M W T A
  read g m = (done (g m.reads), record m { reads = suc m.reads })

  unfoldable pub gets : (Order W T → A) → M W T A
  gets g m = (done (g m.order), m)

  -- A result of a method that does not change the order.
  unfoldable pub lift : Result (OrderError W) A → M W T A
  unfolding pure fail
  lift (ok a) = pure a
  lift (err e) = fail e

module _ {W T : Type 0} where
  unfoldable pub modify : (Order W T → Order W T) → M W T (Unit {0})
  modify g m = (done tt, record m { order = g m.order })

  abbrev pub proceed :
      {A B : Type 0}
      → Outcome (OrderError W) A
      → Machine W T
      → (A → M W T B)
      → Outcome (OrderError W) B × Machine W T
  proceed (done a) m f = f a m
  proceed (failed e) m f = (failed e, m)
  proceed panicked m f = (panicked, m)
  proceed out_of_fuel m f = (out_of_fuel, m)

  -- To unfold a block is to unfold the actions above.
  infixl 5 ◌>>=◌ ◌>>◌
  unfoldable pub ◌>>=◌ : {A B : Type 0} → M W T A → (A → M W T B) → M W T B
  unfolding pure fail panic diverge read gets lift modify
  ◌>>=◌ p f m = proceed (p m).0 (p m).1 f

  abbrev pub ◌>>◌ : {B : Type 0} → M W T (Unit {0}) → M W T B → M W T B
  ◌>>◌ p q = p >>= λ _. q
