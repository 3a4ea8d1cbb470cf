-- ===== src/Trader/Keeps.antt =====
-- What holds of the trader before an action and after it, however the action ends: one rule for each way to
-- build an action.
use babylon_playground_demo.Common.{
  ℕ, Bool, true, false, ◌≡◌, refl, Option, none, some, if◌then◌else◌,
}
use babylon_playground_demo.Common.Result.{Result, ok, err}
use babylon_playground_demo.Order.Monad.{Outcome, done, failed, panicked, out_of_fuel}
use babylon_playground_demo.Trader.Error.{TraderError}
use babylon_playground_demo.Trader.Data.{Trader}
use babylon_playground_demo.Trader.Monad.{
  TraderMachine, M, pure, fail, panic, read, gets, lift, unwrap, or_fail, modify, proceed, ◌>>=◌,
}

pub record Keeps {W D T A : Type 0} (P : Trader W D T → Type 0) (p : M W D T A) : Type 0 where
  pub at : (m : TraderMachine W D T) → P m.trader → P (p m).1.trader

module _ {W D T A : Type 0} {P : Trader W D T → Type 0} where
  pub Keeps-pure : (a : A) → Keeps P (pure a)
  unfolding pure
  Keeps-pure a = record { at = λ m h. h }

  pub Keeps-fail : (e : TraderError W) → Keeps P (fail {A = A} e)
  unfolding fail
  Keeps-fail e = record { at = λ m h. h }

  pub Keeps-panic : Keeps P (panic {A = A})
  unfolding panic
  Keeps-panic = record { at = λ m h. h }

  pub Keeps-read : (g : ℕ → A) → Keeps P (read g)
  unfolding read
  Keeps-read g = record { at = λ m h. h }

  pub Keeps-gets : (g : Trader W D T → A) → Keeps P (gets g)
  unfolding gets
  Keeps-gets g = record { at = λ m h. h }

  pub Keeps-lift : {E : Type 0} (g : E → TraderError W) (r : Result E A) → Keeps P (lift g r)
  unfolding lift
  Keeps-lift g (ok a) = Keeps-pure a
  Keeps-lift g (err e) = Keeps-fail (g e)

  pub Keeps-unwrap : (o : Option A) → Keeps P (unwrap o)
  unfolding unwrap
  Keeps-unwrap none = Keeps-panic
  Keeps-unwrap (some a) = Keeps-pure a

  pub Keeps-or_fail : (e : TraderError W) (o : Option A) → Keeps P (or_fail e o)
  unfolding or_fail
  Keeps-or_fail e none = Keeps-fail e
  Keeps-or_fail e (some a) = Keeps-pure a

  pub Keeps-if : (b : Bool) (p q : M W D T A) → Keeps P p → Keeps P q → Keeps P (if b then p else q)
  Keeps-if true p q kp kq = kp
  Keeps-if false p q kp kq = kq

module _ {W D T : Type 0} {P : Trader W D T → Type 0} where
  pub Keeps-modify :
      (g : Trader W D T → Trader W D T) → ((u : Trader W D T) → P u → P (g u)) → Keeps P (modify g)
  unfolding modify
  Keeps-modify g h = record { at = λ m. h m.trader }

  proceed-Keeps :
      {A B : Type 0} (r : Outcome (TraderError W) A) (m : TraderMachine W D T) (f : A → M W D T B)
      → ((a : A) → Keeps P (f a))
      → P m.trader
      → P (proceed r m f).1.trader
  proceed-Keeps (done a) m f kf h = (kf a).at m h
  proceed-Keeps (failed e) m f kf h = h
  proceed-Keeps panicked m f kf h = h
  proceed-Keeps out_of_fuel m f kf h = h

  pub Keeps-bind :
      {A B : Type 0} (p : M W D T A) (f : A → M W D T B)
      → Keeps P p
      → ((a : A) → Keeps P (f a))
      → Keeps P (p >>= f)
  unfolding ◌>>=◌
  Keeps-bind p f kp kf = record { at = λ m h. proceed-Keeps (p m).0 (p m).1 f kf (kp.at m h) }

-- A value that is looked up or else ends the call, and is known where the call goes on.
module _ {W D T A B : Type 0} (P : Trader W D T → Type 0) (k : A → M W D T B)
    (m : TraderMachine W D T) where
  pub or_fail-known :
      (e : TraderError W) (o : Option A)
      → P m.trader
      → ((a : A) → o ≡ some a → P (k a m).1.trader)
      → P ((or_fail e o >>= k) m).1.trader
  unfolding ◌>>=◌
  or_fail-known e none h kept = h
  or_fail-known e (some a) h kept = kept a refl

  pub unwrap-known :
      (o : Option A)
      → P m.trader
      → ((a : A) → o ≡ some a → P (k a m).1.trader)
      → P ((unwrap o >>= k) m).1.trader
  unfolding ◌>>=◌
  unwrap-known none h kept = h
  unwrap-known (some a) h kept = kept a refl

  -- A result that ends the call where it is an error.
  pub lift-known :
      {E : Type 0} (g : E → TraderError W) (r : Result E A)
      → P m.trader
      → ((a : A) → r ≡ ok a → P (k a m).1.trader)
      → P ((lift g r >>= k) m).1.trader
  unfolding ◌>>=◌
  lift-known g (err e) h kept = h
  lift-known g (ok a) h kept = kept a refl

pub ruleset keeps_rules = (
  Keeps-pure, Keeps-fail, Keeps-panic, Keeps-read, Keeps-gets, Keeps-lift, Keeps-unwrap,
  Keeps-or_fail, Keeps-if, Keeps-modify, Keeps-bind,
)
