-- ===== src/Order/Ends.antt =====
-- What an action is shown to return, and in which state it leaves the order.
use babylon_playground_demo.Common.{◌≡◌, refl, Bool, false, true, none, Option, if◌then◌else◌}
use babylon_playground_demo.Instruction.{ManagedInstruction}
use babylon_playground_demo.Order.State.{OrderState}
use babylon_playground_demo.Order.Data.{Order}
use babylon_playground_demo.Order.Monad.{gets, modify, Machine, M, done, pure, ◌>>=◌}

-- The action returns, and this holds of the value and of the order afterwards.
pub record Ends {W T A : Type 0} (p : M W T A) (m : Machine W T) (P : A → Order W T → Type 0)
    : Type 0 where
  pub value : A
  pub after : Machine W T
  pub returns : p m ≡ (done value, after)
  pub holds : P value after.order

-- The order is in this state, whatever the value.
abbrev pub Within : {W T A : Type 0} → OrderState → A → Order W T → Type 0
Within s a o = o.state ≡ s

-- There is no instruction to execute, and the order is in this state.
abbrev pub Silent : {W T : Type 0} → OrderState → Option (ManagedInstruction W) → Order W T → Type 0
Silent s i o = (i ≡ none) × (o.state ≡ s)

module _ {W T : Type 0} where
  pub Ends-bind :
      {A B : Type 0} (p : M W T A) (f : A → M W T B) (m : Machine W T) (P : A → Order W T → Type 0)
      (Q : B → Order W T → Type 0)
      → Ends p m P
      → ((a : A) (k : Machine W T) → P a k.order → Ends (f a) k Q)
      → Ends (p >>= f) m Q
  unfolding ◌>>=◌
  Ends-bind p f m P Q e h =
      let r = h e.value e.after e.holds in
      record { value = r.value; after = r.after; returns = rw e.returns r.returns; holds = r.holds }

  pub Ends-pure :
      {A : Type 0} (a : A) (m : Machine W T) (P : A → Order W T → Type 0)
      → P a m.order
      → Ends (pure a) m P
  unfolding pure
  Ends-pure a m P h = record { value = a; after = m; returns = refl; holds = h }

  pub Ends-modify :
      (g : Order W T → Order W T) (m : Machine W T) (P : Unit {0} → Order W T → Type 0)
      → P tt (g m.order)
      → Ends (modify g) m P
  unfolding modify
  Ends-modify g m P h = record {
    value = tt;
    after = record m { order = g m.order };
    returns = refl;
    holds = h;
  }

  pub Ends-gets :
      {A : Type 0} (g : Order W T → A) (m : Machine W T) (P : A → Order W T → Type 0)
      → P (g m.order) m.order
      → Ends (gets g) m P
  unfolding gets
  Ends-gets g m P h = record { value = g m.order; after = m; returns = refl; holds = h }

  pub Ends-if :
      {A : Type 0} (b : Bool) (p q : M W T A) (m : Machine W T) (P : A → Order W T → Type 0)
      → Ends p m P
      → Ends q m P
      → Ends (if b then p else q) m P
  Ends-if true p q m P a b = a
  Ends-if false p q m P a b = b
