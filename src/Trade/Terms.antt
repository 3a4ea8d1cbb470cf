-- ===== src/Trade/Terms.antt =====
-- What the three orders of a trade trade: `compute` changes nothing of it, and a fill of the entry is handed on.
use babylon_playground_demo.Common.{
  if◌then◌else◌, ◌≡◌, refl, ℕ, Bool, true, false, Option, none, some,
}
use babylon_playground_demo.Float.{OrderedFloat}
use babylon_playground_demo.Trigger.{Trigger}
use babylon_playground_demo.Instruction.{ManagedInstruction}
use babylon_playground_demo.Order.Monad.{World}
use babylon_playground_demo.Order.Keeps.{Keeps as OrderKeeps}
use babylon_playground_demo.Order.Keeps
use babylon_playground_demo.Order.Confirm.{validate_fill}
use babylon_playground_demo.Order.Confirm
use babylon_playground_demo.Order.Follows.{Terms, terms, Follows}
use babylon_playground_demo.Order.Follows.Compute.{
  compute-Follows, compute_next_instruction-Follows, cancel_pending_instruction_with-Follows,
}
use babylon_playground_demo.Order.Filled.{Settled, Settled-Stable}
use babylon_playground_demo.Order.Operation.{
  Operation, perform, compute_order, terminate, cancel_and_idle, cancel_pending_instruction,
}
use babylon_playground_demo.Trade.State.{TradeState}
use babylon_playground_demo.Trade.Data.{Trade, Slot, entry_slot, exit_slot, stoploss_slot}
use babylon_playground_demo.Trade.Compute.{call}
use babylon_playground_demo.Trade.Compute
use babylon_playground_demo.Trade.Monad.{M, TradeMachine, modify}
use babylon_playground_demo.Trade.Keeps.{Keeps, Keeps-on, Keeps-modify, keeps_rules}

-- The calls that a trade makes on its orders for itself.
abbrev is_internal : {W T : Type 0} → Operation W T → Bool
is_internal compute_order = true
is_internal terminate = true
is_internal cancel_and_idle = true
is_internal cancel_pending_instruction = true
is_internal _ = false

module _ {W T : Type 0} ⦃f : OrderedFloat W⦄ ⦃t : Trigger W T⦄ (world : World W) (depth : ℕ) where
  perform-Settled :
      (u : Terms W) (o : Operation W T)
      → is_internal o ≡ true
      → OrderKeeps (Follows (Settled u)) (perform world depth o)
  unfolding perform Confirm.terminate Confirm.cancel_and_idle Confirm.cancel_pending_instruction
  perform-Settled u compute_order e = compute-Follows world (Settled u) (Settled-Stable u) depth
  perform-Settled u terminate e = search (Keeps.keeps_rules, Settled-Stable, compute-Follows)
  perform-Settled u cancel_and_idle e =
      search (Keeps.keeps_rules, Settled-Stable, compute-Follows) depth 16
  perform-Settled u cancel_pending_instruction e = search (
    Settled-Stable, compute-Follows, compute_next_instruction-Follows,
    cancel_pending_instruction_with-Follows,
  )
  perform-Settled u _ e = cc

  module _ (a b c : Terms W) where
    abbrev P : Trade W T → Type 0
    P u = (terms u.entry ≡ a) × ((terms u.exit ≡ b) × (terms u.stoploss ≡ c))

    abbrev K : {A : Type 0} → M W T A → Type 0
    K p = Keeps P p

    call-Terms :
        (slot : Slot) (o : Operation W T) → is_internal o ≡ true → K (call world depth slot o)
    call-Terms entry_slot o e =
        Keeps-on entry_slot _ (Follows (Settled a)) (perform-Settled a o e) (λ u h. h.0)
          (λ u o h k. (k, h.1))
    call-Terms exit_slot o e =
        Keeps-on exit_slot _ (Follows (Settled b)) (perform-Settled b o e) (λ u h. h.1.0)
          (λ u o h k. (h.0, (k, h.1.1)))
    call-Terms stoploss_slot o e =
        Keeps-on stoploss_slot _ (Follows (Settled c)) (perform-Settled c o e) (λ u h. h.1.1)
          (λ u o h k. (h.0, (h.1.0, k)))

    ruleset basic = (keeps_rules, call-Terms)

    keep_if : (b : Bool) (u v : Trade W T) → P u → P v → P (if b then u else v)
    keep_if true u v hu hv = hu
    keep_if false u v hu hv = hv

    move_to-Terms :
        (old new_state : TradeState) (r : Option TradeState)
        → K (Compute.move_to {T = T} world depth old new_state r)
    unfolding Compute.move_to
    move_to-Terms old new_state none = search keeps_rules
    move_to-Terms old new_state (some s) = search keeps_rules depth 16

    set_state-Terms : (s : TradeState) → K (Compute.set_state {T = T} world depth s)
    unfolding Compute.set_state
    set_state-Terms s = search (keeps_rules, move_to-Terms)

    compute_lifecycle-Terms : K (Compute.compute_lifecycle {T = T} world depth)
    unfolding Compute.compute_lifecycle Compute.close_cancelled Compute.advance Compute.leave_entry
        Compute.close_normally
    compute_lifecycle-Terms = search (basic, set_state-Terms) depth 40

    enter-Terms : K (Compute.enter {T = T} world depth)
    unfolding Compute.enter Compute.begin_entry Compute.submit_entry Compute.offer_entry
    enter-Terms = search (basic, set_state-Terms) depth 30

    hand_over_exit-Terms : (trade : Trade W T) → K (Compute.hand_over_exit world depth trade)
    unfolding Compute.hand_over_exit Compute.make_way Compute.withdraw_stoploss Compute.offer_exit
    hand_over_exit-Terms trade = search basic depth 30

    choose-Terms :
        (trade : Trade W T) (i j : Option (ManagedInstruction W))
        → K (Compute.choose world depth trade i j)
    unfolding Compute.choose
    choose-Terms trade none none = search keeps_rules
    choose-Terms trade none (some j) = search keeps_rules depth 16
    choose-Terms trade (some i) none = hand_over_exit-Terms trade
    choose-Terms trade (some i) (some j) = search (keeps_rules, hand_over_exit-Terms)

    maintenance-Terms : K (modify Compute.maintenance)
    unfolding Compute.maintenance
    maintenance-Terms = Keeps-modify _ (λ t h. keep_if _ _ t h h)

    leave-Terms : (price : W) → K (Compute.leave {T = T} world depth price)
    unfolding Compute.leave
    leave-Terms price = search (basic, maintenance-Terms, choose-Terms) depth 24

    clear_special-Terms : K (modify Compute.clear_special)
    unfolding Compute.clear_special
    clear_special-Terms = Keeps-modify _ (λ t h. keep_if _ _ t h h)

    compute-Terms : K (Compute.compute {T = T} world depth)
    unfolding Compute.compute Compute.compute_open
    compute-Terms =
        search (keeps_rules, compute_lifecycle-Terms, enter-Terms, leave-Terms, clear_special-Terms)
          depth 24

  -- However `compute` of a trade ends, the ids, the symbols, the sides, the types, the prices, the
  -- quantities and the fills of its entry, of its exit and of its stoploss are what they were.
  pub compute-orders :
      (m : TradeMachine W T)
      → (terms (Compute.compute world depth m).1.trade.entry ≡ terms m.trade.entry)
        × ((terms (Compute.compute world depth m).1.trade.exit ≡ terms m.trade.exit)
            × (terms (Compute.compute world depth m).1.trade.stoploss ≡ terms m.trade.stoploss))
  compute-orders m =
      (compute-Terms (terms m.trade.entry) (terms m.trade.exit) (terms m.trade.stoploss)).at m
        (refl, (refl, refl))
