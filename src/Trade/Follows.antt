-- ===== src/Trade/Follows.antt =====
-- The methods of a trade move it along its diagram, and each of its orders along the diagram of an order.
use babylon_playground_demo.Common.{
  subst, ◌≡◌, refl, sym, ◌≢◌, ◌⊎◌, inl, inr, ℕ, Bool, true, false, Option, none, some, is_some,
  if◌then◌else◌, arith, [], ◌∷◌,
}
use babylon_playground_demo.Float.{OrderedFloat}
use babylon_playground_demo.Trigger.{Trigger}
use babylon_playground_demo.Order.State.{OrderState}
use babylon_playground_demo.Order.Monad.{World, Machine}
use babylon_playground_demo.Order.Diagram.{◌⟶*◌}
use babylon_playground_demo.Order.Operation.{Operation, perform, perform_all}
use babylon_playground_demo.Order.Journey.{perform_all-⟶*}
use babylon_playground_demo.Types.{Ustr}
use babylon_playground_demo.Instruction.{HandleId}
use babylon_playground_demo.Trade.State.{
  TradeCloseReason, TradeState, new, entering, entry_failed, exiting, exit_failed, closed,
  transition, state_eq,
}
use babylon_playground_demo.Trade.Data.{Trade, Slot, entry_slot, exit_slot, stoploss_slot}
use babylon_playground_demo.Trade.Diagram.{◌⇒◌, edges}
use babylon_playground_demo.Trade.Compute.{return, call, move_to, set_state}
use babylon_playground_demo.Trade.Monad.{M, TradeMachine, read, modify, on, ◌>>=◌}
use babylon_playground_demo.Trade.Keeps.{Keeps, keeps_rules}
pub mod Compute
pub mod Operations

-- A property of a trade that looks at nothing but its state, its reason to be closed, and the states of its
-- entry, its exit and its stoploss.
abbrev pub Aspect : Type 1
Aspect = TradeState → Option TradeCloseReason → OrderState → OrderState → OrderState → Type 0

-- One for each id of a trade and each symbol, which no method changes.
abbrev pub Family : Type 1
Family = HandleId → Ustr → Aspect

abbrev pub Follows : {W T : Type 0} → Family → Trade W T → Type 0
Follows Q t = Q t.id t.symbol t.state t.close_reason t.entry.state t.exit.state t.stoploss.state

-- A trade is closed only with a reason.
abbrev pub MayEnter : TradeState → Option TradeCloseReason → Type 0
MayEnter u r = (u ≢ closed) ⊎ (is_some r ≡ true)

-- What an aspect must withstand to hold on through the methods of a trade.
pub record Stable (Q : Aspect) : Type 0 where
  pub move :
      (s u : TradeState) (r : Option TradeCloseReason) (a b c : OrderState)
      → s ⇒ u
      → MayEnter u r
      → Q s r a b c
      → Q u r a b c
  pub explain :
      (s : TradeState) (r : Option TradeCloseReason) (reason : TradeCloseReason)
      (a b c : OrderState)
      → Q s r a b c
      → Q s (some reason) a b c
  pub enter :
      (s : TradeState) (r : Option TradeCloseReason) (a b c d : OrderState)
      → a ⟶* d
      → Q s r a b c
      → Q s r d b c
  pub exit :
      (s : TradeState) (r : Option TradeCloseReason) (a b c d : OrderState)
      → b ⟶* d
      → Q s r a b c
      → Q s r a d c
  pub stop :
      (s : TradeState) (r : Option TradeCloseReason) (a b c d : OrderState)
      → c ⟶* d
      → Q s r a b c
      → Q s r a b d

-- Whether the methods ask for this new state in this state.
abbrev pub asks : TradeState → TradeState → Bool
asks s closed = true
asks s entry_failed = true
asks entering exit_failed = false
asks s exit_failed = true
asks entering exiting = true
asks new entering = true
asks entering entering = true
asks _ _ = false

requested :
    (s u v : TradeState) → asks s u ≡ true → transition s u ≡ some v → (v ≡ u) × ((v ≡ s) ⊎ (s ⇒ v))
unfolding transition
requested s u v a h = (ground arith, grind (arith, edges))

pub asks-closed : (s : TradeState) → asks s closed ≡ true
asks-closed s = ground arith

pub asks-entry_failed : (s : TradeState) → asks s entry_failed ≡ true
asks-entry_failed s = ground arith

module _ (Q : Aspect) (stable : Stable Q) where
  follow :
      (s u v : TradeState) (r : Option TradeCloseReason) (a b c : OrderState)
      → asks s u ≡ true
      → transition s u ≡ some v
      → MayEnter u r
      → Q s r a b c
      → Q v r a b c
  follow s u v r a b c asked there reason h =
      let (same, step) = requested s u v asked there in
      elim step [
        | inl e ↦ subst (λ w. Q w r a b c) (sym e) h
        | inr e ↦ stable.move s v r a b c e (subst (λ w. MayEnter w r) (sym same) reason) h
      ]

module _ {W T : Type 0} ⦃f : OrderedFloat W⦄ ⦃t : Trigger W T⦄ (world : World W) (depth : ℕ)
    (Q : Family) (stable : (i : HandleId) (s : Ustr) → Stable (Q i s)) where
  abbrev pub Kept : {A : Type 0} → M W T A → Type 0
  Kept p = Keeps (Follows Q) p

  perform-⟶* :
      (o : Operation W T) (m : Machine W T)
      → m.order.state ⟶* (perform world depth o m).1.order.state
  unfolding perform_all
  perform-⟶* o m = perform_all-⟶* world depth (o ∷ []) m

  pub call-Follows : (slot : Slot) (o : Operation W T) → Kept (call world depth slot o)
  unfolding on
  call-Follows entry_slot o = record {
    at = λ m h.
        (stable m.trade.id m.trade.symbol).enter m.trade.state m.trade.close_reason _ _ _ _
          (perform-⟶* o (record { order = m.trade.entry; reads = m.reads })) h;
  }
  call-Follows exit_slot o = record {
    at = λ m h.
        (stable m.trade.id m.trade.symbol).exit m.trade.state m.trade.close_reason _ _ _ _
          (perform-⟶* o (record { order = m.trade.exit; reads = m.reads })) h;
  }
  call-Follows stoploss_slot o = record {
    at = λ m h.
        (stable m.trade.id m.trade.symbol).stop m.trade.state m.trade.close_reason _ _ _ _
          (perform-⟶* o (record { order = m.trade.stoploss; reads = m.reads })) h;
  }

  touch_if :
      (b : Bool)
      → Kept (
          if b
          then return
          else (do now ← read world.now; modify (λ t. record t { updated_at = some now })))
  touch_if b = search keeps_rules

  move_to-Follows :
      (u : TradeState) (r : Option TradeState) (m : TradeMachine W T)
      → asks m.trade.state u ≡ true
      → transition m.trade.state u ≡ r
      → MayEnter u m.trade.close_reason
      → Follows Q m.trade
      → Follows Q (move_to world depth m.trade.state u r m).1.trade
  unfolding move_to ◌>>=◌
  move_to-Follows u none m asked there reason h = h
  move_to-Follows u (some v) m asked there reason h =
      (touch_if (state_eq v m.trade.state)).at (record m { trade = record m.trade { state = v } })
        (follow (Q m.trade.id m.trade.symbol) (stable m.trade.id m.trade.symbol) m.trade.state u v
          m.trade.close_reason _ _ _ asked there reason h)

  pub set_state-Follows :
      (u : TradeState) (m : TradeMachine W T)
      → asks m.trade.state u ≡ true
      → MayEnter u m.trade.close_reason
      → Follows Q m.trade
      → Follows Q (set_state world depth u m).1.trade
  unfolding set_state ◌>>=◌
  set_state-Follows u m asked reason h =
      move_to-Follows u (transition m.trade.state u) m asked refl reason h
