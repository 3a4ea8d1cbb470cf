-- ===== src/Trader/Monad.antt =====
-- The setting in which the methods of src/trader.rs run, as those of the orders and of the trades: a method
-- changes the trader, which it keeps also where it returns an error, and counts the readings that were made.
use babylon_playground_demo.Common.{ℕ, suc, Option, none, some}
use babylon_playground_demo.Common.Result.{Result, ok, err}
use babylon_playground_demo.Order.Monad.{Outcome, done, failed, panicked, out_of_fuel}
use babylon_playground_demo.Trader.Error.{TraderError}
use babylon_playground_demo.Trader.Data.{Trader}

pub record TraderMachine (W D T : Type 0) : Type 0 where
  pub trader : Trader W D T
  pub reads : ℕ

abbrev pub M : Type 0 → Type 0 → Type 0 → Type 0 → Type 0
M W D T A = TraderMachine W D T → Outcome (TraderError W) A × TraderMachine W D T

-- An error is passed on by `?` as an error of the trader.
abbrev pub wrap_by : {E F A : Type 0} → (E → F) → Outcome E A → Outcome F A
wrap_by g (done a) = done a
wrap_by g (failed e) = failed (g e)
wrap_by g panicked = panicked
wrap_by g out_of_fuel = out_of_fuel

module _ {W D T A : Type 0} where
  unfoldable pub pure : A → M W D T A
  pure a m = (done a, m)

  unfoldable pub fail : TraderError W → M W D T A
  fail e m = (failed e, m)

  unfoldable pub panic : M W D T A
  panic m = (panicked, m)

  unfoldable pub read : (ℕ → A) → M W D T A
  read g m = (done (g m.reads), record m { reads = suc m.reads })

  unfoldable pub gets : (Trader W D T → A) → M W D T A
  gets g m = (done (g m.trader), m)

  -- A result that is returned by `?`.
  unfoldable pub lift : {E : Type 0} → (E → TraderError W) → Result E A → M W D T A
  unfolding pure fail
  lift g (ok a) = pure a
  lift g (err e) = fail (g e)

  -- An option that is unwrapped, or else panics.
  unfoldable pub unwrap : Option A → M W D T A
  unfolding pure panic
  unwrap none = panic
  unwrap (some a) = pure a

  -- `ok_or`, and `?`.
  unfoldable pub or_fail : TraderError W → Option A → M W D T A
  unfolding pure fail
  or_fail e none = fail e
  or_fail e (some a) = pure a

module _ {W D T : Type 0} where
  unfoldable pub modify : (Trader W D T → Trader W D T) → M W D T (Unit {0})
  modify g m = (done tt, record m { trader = g m.trader })

  abbrev pub proceed :
      {A B : Type 0}
      → Outcome (TraderError W) A
      → TraderMachine W D T
      → (A → M W D T B)
      → Outcome (TraderError W) B × TraderMachine W D T
  proceed (done a) m f = f a m
  proceed (failed e) m f = (failed e, m)
  proceed panicked m f = (panicked, m)
  proceed out_of_fuel m f = (out_of_fuel, m)

  -- To unfold a block is to unfold the actions above.
  infixl 5 ◌>>=◌ ◌>>◌
  unfoldable pub ◌>>=◌ : {A B : Type 0} → M W D T A → (A → M W D T B) → M W D T B
  unfolding pure fail panic read gets lift unwrap or_fail modify
  ◌>>=◌ p f m = proceed (p m).0 (p m).1 f

  abbrev pub ◌>>◌ : {B : Type 0} → M W D T (Unit {0}) → M W D T B → M W D T B
  ◌>>◌ p q = p >>= λ _. q
