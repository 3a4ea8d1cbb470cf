-- ===== src/Trade/Fill.antt =====
-- A fill of the entry of a trade, through the order and the trade.
use babylon_playground_demo.Common.{◌≡◌, refl, ap, ◌∙◌, ℕ, false, true, ◌==◌}
use babylon_playground_demo.Common.Result.{ok}
use babylon_playground_demo.Float.{OrderedFloat}
use babylon_playground_demo.Trigger.{Trigger}
use babylon_playground_demo.SmartId.{order_kind, entry_order}
use babylon_playground_demo.Instruction.{OrderId}
use babylon_playground_demo.Order.State.{filled, state_eq}
use babylon_playground_demo.Order.Data.{OrderFill}
use babylon_playground_demo.Order.Monad.{World, Machine, done}
use babylon_playground_demo.Order.Confirm.{validate_fill}
use babylon_playground_demo.Order.Confirm
use babylon_playground_demo.Order.Operation.{perform}
use babylon_playground_demo.Order.Filled.{confirm_filled-terms, filled_terms}
use babylon_playground_demo.Trade.Data.{entry_slot, put_order}
use babylon_playground_demo.Trade.Compute.{compute}
use babylon_playground_demo.Trade.Confirm.{confirm_filled, confirm, confirm_in, hand_on_quantity}
use babylon_playground_demo.Trade.Monad.{TradeMachine, ◌>>=◌}
use babylon_playground_demo.Trade.Terms.{compute-orders}

module _ {W T : Type 0} ⦃f : OrderedFloat W⦄ ⦃t : Trigger W T⦄ (world : World W) (depth : ℕ) where
  -- The entry order, as its own methods see it.
  abbrev pub entry_of : TradeMachine W T → Machine W T
  entry_of m = record { order = m.trade.entry; reads = m.reads }

  -- The trade whose entry has confirmed the fill, before it is computed.
  handed_on : OrderFill W → TradeMachine W T → TradeMachine W T
  handed_on fill m =
      let r = (Confirm.confirm_filled world depth fill (entry_of m)).1 in
      record { trade = hand_on_quantity (put_order entry_slot r.order m.trade); reads = r.reads }

  confirm_filled-handed_on :
      (m : TradeMachine W T) (id : OrderId) (fill : OrderFill W)
      → (m.trade.entry.local_order_id == id) ≡ true
      → order_kind id ≡ entry_order
      → (Confirm.confirm_filled world depth fill (entry_of m)).0 ≡ done tt
      → confirm_filled world depth id fill m ≡ compute world depth (handed_on fill m)
  unfolding confirm_filled confirm confirm_in handed_on perform ◌>>=◌
  confirm_filled-handed_on m id fill own kind returns = rw (own, returns, kind) refl

  -- A valid fill of the entry of a trade, which the entry confirms, makes the quantity that it reports as
  -- filled so far the entry's filled quantity and the quantity of the exit and of the stoploss, however
  -- the computation of the trade that follows ends.
  pub confirm_filled-quantity :
      (m : TradeMachine W T) (id : OrderId) (fill : OrderFill W)
      → (m.trade.entry.local_order_id == id) ≡ true
      → order_kind id ≡ entry_order
      → state_eq m.trade.entry.state filled ≡ false
      → validate_fill fill ≡ ok tt
      → (Confirm.confirm_filled world depth fill (entry_of m)).0 ≡ done tt
      → ((confirm_filled world depth id fill m).1.trade.entry.accumulated_filled_quantity
          ≡ fill.metadata.accumulated_filled_quantity)
        × (((confirm_filled world depth id fill m).1.trade.exit.initial_quantity
              ≡ fill.metadata.accumulated_filled_quantity)
            × ((confirm_filled world depth id fill m).1.trade.stoploss.initial_quantity
                ≡ fill.metadata.accumulated_filled_quantity))
  unfolding handed_on filled_terms
  confirm_filled-quantity m id fill own kind unfilled valid returns =
      let same = confirm_filled-handed_on m id fill own kind returns in
      let kept = compute-orders world depth (handed_on fill m) in
      let filled =
        ap (λ u. u.accumulated_filled_quantity)
          (confirm_filled-terms world depth (entry_of m) fill unfilled valid) in
      (
        ap (λ r. r.1.trade.entry.accumulated_filled_quantity) same
            ∙ ap (λ u. u.accumulated_filled_quantity) kept.0
            ∙ filled,
        (
          ap (λ r. r.1.trade.exit.initial_quantity) same
              ∙ ap (λ u. u.initial_quantity) kept.1.0
              ∙ filled,
          ap (λ r. r.1.trade.stoploss.initial_quantity) same
              ∙ ap (λ u. u.initial_quantity) kept.1.1
              ∙ filled,
        ),
      )
