-- ===== src/Trade/Follows/Compute.antt =====
-- `compute` of a trade and what it calls keep to the diagrams.
use babylon_playground_demo.Common.{
  if◌then◌else◌, none, false, Option, ◌≡◌, refl, inl, inr, ℕ, Bool, true, ◌&&◌, ◌||◌, some, arith,
}
use babylon_playground_demo.Float.{OrderedFloat}
use babylon_playground_demo.Trigger.{Trigger}
use babylon_playground_demo.Order.Monad.{World}
use babylon_playground_demo.Order.Operation.{compute_order}
use babylon_playground_demo.Instruction.{ManagedInstruction, HandleId}
use babylon_playground_demo.Types.{Ustr}
use babylon_playground_demo.Order.Query.{is_finished}
use babylon_playground_demo.Trade.State.{
  cancelled, normal, TradeState, TradeCloseReason, new, entering, entry_failed, exiting, closed,
  idle, state_eq,
}
use babylon_playground_demo.Trade.Query.{is_closed, is_new, is_entering}
use babylon_playground_demo.Trade.Compute
use babylon_playground_demo.Trade.Compute.{return, set_state}
use babylon_playground_demo.Trade.Monad.{M, TradeMachine, modify, ◌>>=◌, ◌>>◌}
use babylon_playground_demo.Trade.Keeps.{
  proceed-after, Keeps-modify, if-Keeps, Keeps-pure, Keeps-guard, Keeps-bind, Keeps, keeps_rules,
  proceed-Keeps,
}
use babylon_playground_demo.Trade.Follows.{
  Trade, entry_slot, Family, Stable, Follows, call-Follows, set_state-Follows, asks, asks-closed,
  asks-entry_failed,
}

asks-exiting :
    (s : TradeState) (b : Bool) → (state_eq s entering && b) ≡ true → asks s exiting ≡ true
asks-exiting s b h = ground arith

asks-entering :
    (s : TradeState) → (state_eq s entering || state_eq s new) ≡ true → asks s entering ≡ true
asks-entering s h = ground arith

module _ {W T : Type 0} ⦃f : OrderedFloat W⦄ ⦃t : Trigger W T⦄ (world : World W) (depth : ℕ)
    (Q : Family) (stable : (i : HandleId) (s : Ustr) → Stable (Q i s)) where
  abbrev K : {A : Type 0} → M W T A → Type 0
  K p = Keeps (Follows Q) p

  ruleset basic = (keeps_rules, call-Follows)

  stay : K {A = Unit {0}} return
  stay = Keeps-pure tt

  keep_if :
      (b : Bool) (u v : Trade W T) → Follows Q u → Follows Q v → Follows Q (if b then u else v)
  keep_if true u v hu hv = hu
  keep_if false u v hu hv = hv

  fail_entry-Follows : K (set_state {T = T} world depth entry_failed)
  fail_entry-Follows = record {
    at = λ m h.
        set_state-Follows world depth Q stable entry_failed m (asks-entry_failed m.trade.state)
          (inl (λ e. cc)) h;
  }

  -- The trade is closed for a reason, and `p` follows.
  close_for :
      (reason : TradeCloseReason) (p : M W T (Unit {0}))
      → K p
      → K (
          modify (λ t. record t { close_reason = some reason })
          >> (set_state world depth closed >> p))
  unfolding ◌>>=◌
  close_for reason p kp = record {
    at = λ m h.
        let k = record m { trade = record m.trade { close_reason = some reason } } in
        proceed-Keeps (set_state world depth closed k).0 (set_state world depth closed k).1 (λ _. p)
          (λ _. kp)
          (set_state-Follows world depth Q stable closed k (asks-closed k.trade.state) (inr refl) (
            (stable m.trade.id m.trade.symbol).explain m.trade.state m.trade.close_reason reason _ _
              _ h));
  }

  close_alone :
      (reason : TradeCloseReason)
      → K (modify (λ t. record t { close_reason = some reason }) >> set_state world depth closed)
  unfolding ◌>>=◌
  close_alone reason = record {
    at = λ m h.
        set_state-Follows world depth Q stable closed
          (record m { trade = record m.trade { close_reason = some reason } })
          (asks-closed m.trade.state) (inr refl)
          ((stable m.trade.id m.trade.symbol).explain m.trade.state m.trade.close_reason reason _ _
            _ h);
  }

  close_cancelled-Follows : K (Compute.close_cancelled {T = T} world depth)
  unfolding Compute.close_cancelled
  close_cancelled-Follows =
      Keeps-bind _ _ (call-Follows world depth Q stable entry_slot _) (λ _. close_alone cancelled)

  close_normally-Follows : K (Compute.close_normally {T = T} world depth)
  unfolding Compute.close_normally
  close_normally-Follows = close_for normal _ (search keeps_rules)

  leave_entry-Follows :
      (m : TradeMachine W T)
      → Follows Q m.trade
      → (is_entering m.trade && is_finished m.trade.entry) ≡ true
      → Follows Q (Compute.leave_entry world depth m).1.trade
  unfolding Compute.leave_entry ◌>>=◌
  leave_entry-Follows m h e =
      set_state-Follows world depth Q stable exiting
        (record m { trade = record m.trade { status = idle } })
        (asks-exiting m.trade.state (is_finished m.trade.entry) e) (inl (λ e. cc)) h

  advance-Follows : K (Compute.advance {T = T} world depth)
  unfolding Compute.advance
  advance-Follows =
      Keeps-guard (λ t. is_entering t && is_finished t.entry) (Compute.leave_entry world depth)
        return _ leave_entry-Follows (λ m h e. stay.at m h)
        (search (keeps_rules, close_normally-Follows))

  pub compute_lifecycle-Follows : K (Compute.compute_lifecycle {T = T} world depth)
  unfolding Compute.compute_lifecycle
  compute_lifecycle-Follows =
      search (keeps_rules, fail_entry-Follows, close_cancelled-Follows, advance-Follows) depth 16

  offer_entry-Follows : K (Compute.offer_entry {T = T} world depth)
  unfolding Compute.offer_entry
  offer_entry-Follows = search keeps_rules

  begin_entry-Follows :
      (m : TradeMachine W T)
      → Follows Q m.trade
      → asks m.trade.state entering ≡ true
      → Follows Q (Compute.begin_entry world depth m).1.trade
  unfolding Compute.begin_entry Compute.submit_entry ◌>>=◌
  begin_entry-Follows m h asked =
      if-Keeps (Follows Q) (Compute.waits world depth m.trade) return
        (Compute.submit_entry world depth) m (λ e. stay.at m h)
        λ e.
          proceed-Keeps (set_state world depth entering m).0 (set_state world depth entering m).1
            (λ _. Compute.offer_entry world depth) (λ _. offer_entry-Follows)
            (set_state-Follows world depth Q stable entering m asked (inl (λ e. cc)) h)

  enter-Follows :
      (m : TradeMachine W T)
      → Follows Q m.trade
      → (is_entering m.trade || is_new m.trade) ≡ true
      → Follows Q (Compute.enter world depth m).1.trade
  unfolding Compute.enter ◌>>=◌
  enter-Follows m h e =
      let r = Compute.call world depth entry_slot compute_order m in
      let kept = (call-Follows world depth Q stable entry_slot compute_order).at m h in
      proceed-after (Follows Q) r.0 r.1 (λ _. Compute.begin_entry world depth) kept
        (λ _. begin_entry-Follows r.1 kept (asks-entering m.trade.state e))

  hand_over_exit-Follows : (t : Trade W T) → K (Compute.hand_over_exit {T = T} world depth t)
  unfolding Compute.hand_over_exit Compute.make_way Compute.withdraw_stoploss Compute.offer_exit
  hand_over_exit-Follows t = search basic depth 24

  choose-Follows :
      (t : Trade W T) (i j : Option (ManagedInstruction W)) → K (Compute.choose world depth t i j)
  unfolding Compute.choose
  choose-Follows t none none = search keeps_rules
  choose-Follows t none (some j) = search keeps_rules depth 16
  choose-Follows t (some i) none = hand_over_exit-Follows t
  choose-Follows t (some i) (some j) = search (keeps_rules, hand_over_exit-Follows)

  maintenance-Follows : K (modify Compute.maintenance)
  unfolding Compute.maintenance
  maintenance-Follows = Keeps-modify _ (λ t h. keep_if _ _ t h h)

  leave-Follows : (price : W) → K (Compute.leave {T = T} world depth price)
  unfolding Compute.leave
  leave-Follows price = search (basic, maintenance-Follows, choose-Follows) depth 20

  compute_open-Follows : (price : W) → K (Compute.compute_open {T = T} world depth price)
  unfolding Compute.compute_open ◌>>=◌
  compute_open-Follows price = record {
    at = λ m h.
        if-Keeps (Follows Q) (is_closed m.trade) _ _ m (λ e. stay.at m h)
          λ e.
            if-Keeps (Follows Q) (is_entering m.trade || is_new m.trade) _ _ m (enter-Follows m h)
              (λ e. (leave-Follows price).at m h);
  }

  clear_special-Follows : K (modify Compute.clear_special)
  unfolding Compute.clear_special
  clear_special-Follows = Keeps-modify _ (λ t h. keep_if _ _ t h h)

  pub compute-Follows : K (Compute.compute {T = T} world depth)
  unfolding Compute.compute
  compute-Follows =
      search (keeps_rules, compute_lifecycle-Follows, compute_open-Follows, clear_special-Follows)
        depth 16
