-- ===== src/Trade/Monad.antt =====
-- The setting in which the methods of src/trade.rs run, as that of the orders in Order/Monad.antt: a method
-- changes the trade, which it keeps also where it returns an error, and reads the same world.
use babylon_playground_demo.Common.{ℕ, suc}
use babylon_playground_demo.Common.Result.{Result, ok, err}
use babylon_playground_demo.Order.Error.{OrderError}
use babylon_playground_demo.Order.Monad
use babylon_playground_demo.Order.Monad.{Outcome, done, failed, panicked, out_of_fuel, Machine}
use babylon_playground_demo.Trade.Error.{TradeError, order_error}
use babylon_playground_demo.Trade.Data.{Trade, Slot, order_at, put_order}

pub record TradeMachine (W T : Type 0) : Type 0 where
  pub trade : Trade W T
  -- How many readings have been made.
  pub reads : ℕ

abbrev pub M : Type 0 → Type 0 → Type 0 → Type 0
M W T A = TradeMachine W T → Outcome (TradeError W) A × TradeMachine W T

module _ {W A : Type 0} where
  -- An error of an order is an error of its trade, by `?`.
  abbrev pub wrap : Outcome (OrderError W) A → Outcome (TradeError W) A
  wrap (done a) = done a
  wrap (failed e) = failed (order_error e)
  wrap panicked = panicked
  wrap out_of_fuel = out_of_fuel

  abbrev dropped : Outcome (TradeError W) A → Outcome (TradeError W) (Unit {0})
  dropped (done a) = done tt
  dropped (failed e) = done tt
  dropped panicked = panicked
  dropped out_of_fuel = out_of_fuel

module _ {W T A : Type 0} where
  unfoldable pub pure : A → M W T A
  pure a m = (done a, m)

  unfoldable pub fail : TradeError W → M W T A
  fail e m = (failed e, m)

  -- A reading of the world.
  unfoldable pub read : (ℕ → A) → M W T A
  read g m = (done (g m.reads), record m { reads = suc m.reads })

  unfoldable pub gets : (Trade W T → A) → M W T A
  gets g m = (done (g m.trade), m)

  unfoldable pub lift : Result (TradeError W) A → M W T A
  unfolding pure fail
  lift (ok a) = pure a
  lift (err e) = fail e

  -- A method of one of the orders, called by the trade.
  unfoldable pub on : Slot → Monad.M W T A → M W T A
  on slot p m =
      let r = p (record { order = order_at slot m.trade; reads = m.reads }) in
      (wrap r.0, record { trade = put_order slot r.1.order m.trade; reads = r.1.reads })

  -- A call whose result is dropped.
  unfoldable pub attempt : M W T A → M W T (Unit {0})
  attempt p m = (dropped (p m).0, (p m).1)

module _ {W T : Type 0} where
  unfoldable pub modify : (Trade W T → Trade W T) → M W T (Unit {0})
  modify g m = (done tt, record m { trade = g m.trade })

  abbrev pub proceed :
      {A B : Type 0}
      → Outcome (TradeError W) A
      → TradeMachine W T
      → (A → M W T B)
      → Outcome (TradeError W) B × TradeMachine W T
  proceed (done a) m f = f a m
  proceed (failed e) m f = (failed e, m)
  proceed panicked m f = (panicked, m)
  proceed out_of_fuel m f = (out_of_fuel, m)

  -- To unfold a block is to unfold the actions above.
  infixl 5 ◌>>=◌ ◌>>◌
  unfoldable pub ◌>>=◌ : {A B : Type 0} → M W T A → (A → M W T B) → M W T B
  unfolding pure fail read gets lift modify on attempt
  ◌>>=◌ p f m = proceed (p m).0 (p m).1 f

  abbrev pub ◌>>◌ : {B : Type 0} → M W T (Unit {0}) → M W T B → M W T B
  ◌>>◌ p q = p >>= λ _. q
