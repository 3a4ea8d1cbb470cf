-- ===== src/Order/Keeps.antt =====
-- What holds of an order before an action and after it, however the action ends: one rule for each way
-- to build an action.
use babylon_playground_demo.Common.{ℕ, Bool, true, false, if◌then◌else◌}
use babylon_playground_demo.Common.Result.{Result, ok, err}
use babylon_playground_demo.Order.Error.{OrderError}
use babylon_playground_demo.Order.Data.{Order}
use babylon_playground_demo.Order.Monad.{
  Machine, Outcome, done, failed, panicked, out_of_fuel, M, pure, fail, panic, diverge, read, gets,
  lift, modify, proceed, ◌>>=◌,
}
pub mod Make

pub record Keeps {W T A : Type 0} (P : Order W T → Type 0) (p : M W T A) : Type 0 where
  pub at : (m : Machine W T) → P m.order → P (p m).1.order

module _ {W T A : Type 0} {P : Order W T → Type 0} where
  pub Keeps-pure : (a : A) → Keeps P (pure a)
  unfolding pure
  Keeps-pure a = record { at = λ m h. h }

  pub Keeps-fail : (e : OrderError W) → Keeps P (fail {A = A} e)
  unfolding fail
  Keeps-fail e = record { at = λ m h. h }

  pub Keeps-panic : Keeps P (panic {A = A})
  unfolding panic
  Keeps-panic = record { at = λ m h. h }

  pub Keeps-diverge : Keeps P (diverge {A = A})
  unfolding diverge
  Keeps-diverge = record { at = λ m h. h }

  pub Keeps-read : (g : ℕ → A) → Keeps P (read g)
  unfolding read
  Keeps-read g = record { at = λ m h. h }

  pub Keeps-gets : (g : Order W T → A) → Keeps P (gets g)
  unfolding gets
  Keeps-gets g = record { at = λ m h. h }

  pub Keeps-lift : (r : Result (OrderError W) A) → Keeps P (lift r)
  unfolding lift
  Keeps-lift (ok a) = Keeps-pure a
  Keeps-lift (err e) = Keeps-fail e

  pub Keeps-if : (b : Bool) (p q : M W T A) → Keeps P p → Keeps P q → Keeps P (if b then p else q)
  Keeps-if true p q kp kq = kp
  Keeps-if false p q kp kq = kq

pub Keeps-if-at :
    {W T A : Type 0} (P : Order W T → Type 0) (b : Bool) (p q : M W T A) (m : Machine W T)
    → P (p m).1.order
    → P (q m).1.order
    → P ((if b then p else q) m).1.order
Keeps-if-at P true p q m kp kq = kp
Keeps-if-at P false p q m kp kq = kq

module _ {W T : Type 0} {P : Order W T → Type 0} where
  pub Keeps-modify :
      (g : Order W T → Order W T) → ((o : Order W T) → P o → P (g o)) → Keeps P (modify g)
  unfolding modify
  Keeps-modify g h = record { at = λ m. h m.order }

  pub proceed-Keeps :
      {A B : Type 0} (r : Outcome (OrderError W) A) (m : Machine W T) (f : A → M W T B)
      → ((a : A) → Keeps P (f a))
      → P m.order
      → P (proceed r m f).1.order
  proceed-Keeps (done a) m f kf h = (kf a).at m h
  proceed-Keeps (failed e) m f kf h = h
  proceed-Keeps panicked m f kf h = h
  proceed-Keeps out_of_fuel m f kf h = h

  pub Keeps-bind :
      {A B : Type 0} (p : M W T A) (f : A → M W T B)
      → Keeps P p
      → ((a : A) → Keeps P (f a))
      → Keeps P (p >>= f)
  unfolding ◌>>=◌
  Keeps-bind p f kp kf = record { at = λ m h. proceed-Keeps (p m).0 (p m).1 f kf (kp.at m h) }

pub ruleset keeps_rules = (
  Keeps-pure, Keeps-fail, Keeps-panic, Keeps-diverge, Keeps-read, Keeps-gets, Keeps-lift, Keeps-if,
  Keeps-modify, Keeps-bind,
)
