-- ===== src/Trade/Keeps.antt =====
-- What holds of a trade before an action and after it, however the action ends: one rule for each way to
-- build an action. A property of a trade may say of each order what its own methods keep.
use babylon_playground_demo.Common.{◌≡◌, refl, ℕ, Bool, true, false, if◌then◌else◌}
use babylon_playground_demo.Common.Result.{Result, ok, err}
use babylon_playground_demo.Order.Data.{Order}
use babylon_playground_demo.Order.Monad
use babylon_playground_demo.Order.Monad.{Outcome, done, failed, panicked, out_of_fuel}
use babylon_playground_demo.Order.Keeps.{Keeps as OrderKeeps}
use babylon_playground_demo.Trade.Error.{TradeError}
use babylon_playground_demo.Trade.Data.{Trade, Slot, order_at, put_order}
use babylon_playground_demo.Trade.Monad.{
  TradeMachine, M, pure, fail, read, gets, lift, modify, on, attempt, proceed, ◌>>=◌, ◌>>◌,
}

pub record Keeps {W T A : Type 0} (P : Trade W T → Type 0) (p : M W T A) : Type 0 where
  pub at : (m : TradeMachine W T) → P m.trade → P (p m).1.trade

module _ {W T A : Type 0} {P : Trade W T → Type 0} where
  pub Keeps-pure : (a : A) → Keeps P (pure a)
  unfolding pure
  Keeps-pure a = record { at = λ m h. h }

  pub Keeps-fail : (e : TradeError W) → Keeps P (fail {A = A} e)
  unfolding fail
  Keeps-fail e = record { at = λ m h. h }

  pub Keeps-read : (g : ℕ → A) → Keeps P (read g)
  unfolding read
  Keeps-read g = record { at = λ m h. h }

  pub Keeps-gets : (g : Trade W T → A) → Keeps P (gets g)
  unfolding gets
  Keeps-gets g = record { at = λ m h. h }

  pub Keeps-lift : (r : Result (TradeError W) A) → Keeps P (lift r)
  unfolding lift
  Keeps-lift (ok a) = Keeps-pure a
  Keeps-lift (err e) = Keeps-fail e

  pub Keeps-if : (b : Bool) (p q : M W T A) → Keeps P p → Keeps P q → Keeps P (if b then p else q)
  Keeps-if true p q kp kq = kp
  Keeps-if false p q kp kq = kq

  pub Keeps-attempt : (p : M W T A) → Keeps P p → Keeps P (attempt p)
  unfolding attempt
  Keeps-attempt p kp = record { at = kp.at }

  -- A method of an order, which keeps `Q` of the order.
  pub Keeps-on :
      (slot : Slot) (p : Monad.M W T A) (Q : Order W T → Type 0)
      → OrderKeeps Q p
      → ((t : Trade W T) → P t → Q (order_at slot t))
      → ((t : Trade W T) (o : Order W T) → P t → Q o → P (put_order slot o t))
      → Keeps P (on slot p)
  unfolding on
  Keeps-on slot p Q kp get put = record {
    at = λ m h.
        put m.trade (p (record { order = order_at slot m.trade; reads = m.reads })).1.order h
          (kp.at (record { order = order_at slot m.trade; reads = m.reads }) (get m.trade h));
  }

pub if-Keeps :
    {W T A : Type 0} (P : Trade W T → Type 0) (b : Bool) (p q : M W T A) (m : TradeMachine W T)
    → (b ≡ true → P (p m).1.trade)
    → (b ≡ false → P (q m).1.trade)
    → P ((if b then p else q) m).1.trade
if-Keeps P true p q m kp kq = kp refl
if-Keeps P false p q m kp kq = kq refl

pub proceed-after :
    {W T A B : Type 0} (P : Trade W T → Type 0) (r : Outcome (TradeError W) A)
    (m : TradeMachine W T) (f : A → M W T B)
    → P m.trade
    → ((a : A) → P (f a m).1.trade)
    → P (proceed r m f).1.trade
proceed-after P (done a) m f h k = k a
proceed-after P (failed e) m f h k = h
proceed-after P panicked m f h k = h
proceed-after P out_of_fuel m f h k = h

-- A method of an order, where the property does not look at the orders.
pub Keeps-frame :
    {W T A : Type 0} (P : Trade W T → Type 0) (slot : Slot) (p : Monad.M W T A)
    → ((s : Slot) (t : Trade W T) (o : Order W T) → P t → P (put_order s o t))
    → Keeps P (on slot p)
unfolding on
Keeps-frame P slot p put = record { at = λ m h. put slot m.trade _ h }

module _ {W T : Type 0} {P : Trade W T → Type 0} where
  pub Keeps-modify :
      (g : Trade W T → Trade W T) → ((t : Trade W T) → P t → P (g t)) → Keeps P (modify g)
  unfolding modify
  Keeps-modify g h = record { at = λ m. h m.trade }

  pub proceed-Keeps :
      {A B : Type 0} (r : Outcome (TradeError W) A) (m : TradeMachine W T) (f : A → M W T B)
      → ((a : A) → Keeps P (f a))
      → P m.trade
      → P (proceed r m f).1.trade
  proceed-Keeps (done a) m f kf h = (kf a).at m h
  proceed-Keeps (failed e) m f kf h = h
  proceed-Keeps panicked m f kf h = h
  proceed-Keeps out_of_fuel m f kf h = h

  pub Keeps-bind :
      {A B : Type 0} (p : M W T A) (f : A → M W T B)
      → Keeps P p
      → ((a : A) → Keeps P (f a))
      → Keeps P (p >>= f)
  unfolding ◌>>=◌
  Keeps-bind p f kp kf = record { at = λ m h. proceed-Keeps (p m).0 (p m).1 f kf (kp.at m h) }

  -- A test of the trade, whose answer is known in the branches.
  pub Keeps-test :
      {A : Type 0} (test : Trade W T → Bool) (p q : M W T A)
      → ((m : TradeMachine W T) → P m.trade → test m.trade ≡ true → P (p m).1.trade)
      → ((m : TradeMachine W T) → P m.trade → test m.trade ≡ false → P (q m).1.trade)
      → Keeps P (gets test >>= λ b. if b then p else q)
  unfolding ◌>>=◌
  Keeps-test test p q kp kq = record {
    at = λ m h. if-Keeps P (test m.trade) p q m (kp m h) (kq m h);
  }

  -- The same, where more follows.
  pub Keeps-guard :
      {B : Type 0} (test : Trade W T → Bool) (p q : M W T (Unit {0})) (rest : M W T B)
      → ((m : TradeMachine W T) → P m.trade → test m.trade ≡ true → P (p m).1.trade)
      → ((m : TradeMachine W T) → P m.trade → test m.trade ≡ false → P (q m).1.trade)
      → Keeps P rest
      → Keeps P (gets test >>= λ b. (if b then p else q) >> rest)
  unfolding ◌>>=◌
  Keeps-guard test p q rest kp kq kr = record {
    at = λ m h.
        let r = (if test m.trade then p else q) m in
        proceed-Keeps r.0 r.1 (λ _. rest) (λ _. kr)
          (if-Keeps P (test m.trade) p q m (kp m h) (kq m h));
  }

pub ruleset keeps_rules = (
  Keeps-pure, Keeps-fail, Keeps-read, Keeps-gets, Keeps-lift, Keeps-if, Keeps-attempt, Keeps-modify,
  Keeps-bind,
)
