-- ===== src/Trade/Exclusive.antt =====
-- The two orders that may end a trade exclude each other: which of them is handed to the exchange.
use babylon_playground_demo.Common.{
  ◌≢◌, ap, ◌≡◌, refl, ◌⊎◌, inl, inr, ℕ, Bool, true, false, not, ◌&&◌, ◌||◌, Option, none, some,
  arith, if◌then◌else◌,
}
use babylon_playground_demo.Float.{OrderedFloat}
use babylon_playground_demo.Trigger.{Trigger}
use babylon_playground_demo.Instruction.{ManagedInstruction, OrderId, is_cancellation}
use babylon_playground_demo.Order.Data.{Order}
use babylon_playground_demo.Order.Monad.{World}
use babylon_playground_demo.Order.Operation.{Operation, cancel_pending_instruction}
use babylon_playground_demo.Order.Query.{is_active, is_pending_open, is_pending_cancel}
use babylon_playground_demo.Trade.Data.{
  Trade, Slot, entry_slot, exit_slot, stoploss_slot, put_order,
}
use babylon_playground_demo.Trade.Compute.{
  call, return, withdraw_stoploss, offer_exit, is_busy, make_way, hand_over_exit, choose, assign,
}
use babylon_playground_demo.Trade.Monad.{M, TradeMachine, modify}
use babylon_playground_demo.Trade.Keeps.{Keeps, Keeps-pure, Keeps-frame, if-Keeps, keeps_rules}

-- Nothing is handed over, or the order with this id.
abbrev pub Offers : {W T : Type 0} → OrderId → Trade W T → Type 0
Offers id t = (t.pending_instruction_order_id ≡ none) ⊎ (t.pending_instruction_order_id ≡ some id)

-- The stoploss is active on the exchange, or the exit is and not only about to be.
abbrev pub is_taken : {W T : Type 0} → Trade W T → Bool
is_taken t = is_active t.stoploss || not (is_pending_open t.exit) && is_active t.exit

not_free : (a b p q : Bool) → (a || b) ≡ true → (b || p || q) ≡ false → a ≢ false
not_free a b p q h e g = ground arith

module _ {W T : Type 0} ⦃f : OrderedFloat W⦄ ⦃t : Trigger W T⦄ (world : World W) (depth : ℕ)
    (id : OrderId) where
  abbrev K : {A : Type 0} → M W T A → Type 0
  K p = Keeps (Offers id) p

  put-Offers :
      (s : Slot) (t : Trade W T) (o : Order W T) → Offers id t → Offers id (put_order s o t)
  put-Offers entry_slot t o h = h
  put-Offers exit_slot t o h = h
  put-Offers stoploss_slot t o h = h

  call-Offers : (slot : Slot) (o : Operation W T) → K (call world depth slot o)
  call-Offers slot o = Keeps-frame (Offers id) slot _ put-Offers

  stay : K {A = Unit {0}} return
  stay = Keeps-pure tt

  withdraw_stoploss-Offers : K (withdraw_stoploss world depth)
  unfolding withdraw_stoploss
  withdraw_stoploss-Offers = search (keeps_rules, call-Offers)

  make_way-Offers :
      (m : TradeMachine W T)
      → is_taken m.trade ≡ true
      → is_busy world depth m.trade ≡ false
      → Offers id m.trade
      → Offers id (make_way world depth m.trade m).1.trade
  unfolding make_way
  make_way-Offers m taken free h =
      let way = withdraw_stoploss world depth in
      let offer = offer_exit world depth m.trade in
      let flagged =
        if m.trade.stoploss.cancel_and_idle_flag
        then return
        else if is_active m.trade.stoploss
        then way
        else offer in
      if-Keeps (Offers id) m.trade.stoploss.cancel_and_replace_flag
        (call world depth stoploss_slot cancel_pending_instruction) flagged m
        (λ e. (call-Offers stoploss_slot cancel_pending_instruction).at m h)
        λ e.
          if-Keeps (Offers id) m.trade.stoploss.cancel_and_idle_flag return
            (if is_active m.trade.stoploss then way else offer) m (λ e. stay.at m h)
            λ e.
              if-Keeps (Offers id) (is_active m.trade.stoploss) way offer m
                (λ e. withdraw_stoploss-Offers.at m h)
                (λ e. absurd (not_free (is_active m.trade.stoploss) _ _ _ taken free e))

  hand_over_exit-Offers :
      (m : TradeMachine W T)
      → is_taken m.trade ≡ true
      → Offers id m.trade
      → Offers id (hand_over_exit world depth m.trade m).1.trade
  unfolding hand_over_exit
  hand_over_exit-Offers m taken h =
      if-Keeps (Offers id) (is_busy world depth m.trade) return (make_way world depth m.trade) m
        (λ e. stay.at m h) (λ free. make_way-Offers m taken free h)

  offer_stoploss :
      (m : TradeMachine W T)
      → m.trade.stoploss.local_order_id ≡ id
      → Offers id (modify (assign stoploss_slot) m).1.trade
  unfolding modify
  offer_stoploss m e = inr (ap some e)

  choose_of :
      (m : TradeMachine W T) (i j : Option (ManagedInstruction W))
      → is_taken m.trade ≡ true
      → m.trade.stoploss.local_order_id ≡ id
      → Offers id m.trade
      → Offers id (choose world depth m.trade i j m).1.trade
  unfolding choose
  choose_of m none none taken e h = stay.at m h
  choose_of m (some i) none taken e h = hand_over_exit-Offers m taken h
  choose_of m (some i) (some j) taken e h =
      if-Keeps (Offers id) (is_cancellation j || is_pending_cancel m.trade.stoploss) _ _ m
        (λ c. offer_stoploss m e) (λ c. hand_over_exit-Offers m taken h)
  choose_of m none (some j) taken e h =
      if-Keeps (Offers id) (is_cancellation j || is_pending_cancel m.trade.stoploss) _ _ m
        (λ c. offer_stoploss m e)
        λ c.
          if-Keeps (Offers id) (is_active m.trade.exit) return _ m (λ c. stay.at m h)
            λ c.
              if-Keeps (Offers id) (is_active m.trade.stoploss) _ return m (λ c. offer_stoploss m e)
                (λ c. stay.at m h)

module _ {W T : Type 0} ⦃f : OrderedFloat W⦄ ⦃t : Trigger W T⦄ (world : World W) (depth : ℕ) where
  -- While the stoploss is active on the exchange, or the exit is and is not only about to be, the choice
  -- between their pending instructions hands over nothing or the stoploss's: never the exit's. It ends so
  -- also where it fails.
  pub choose-Offers :
      (m : TradeMachine W T)
      → is_taken m.trade ≡ true
      → m.trade.pending_instruction_order_id ≡ none
      → Offers m.trade.stoploss.local_order_id
          (choose world depth m.trade m.trade.exit.pending_instruction
            m.trade.stoploss.pending_instruction m).1.trade
  choose-Offers m taken e =
      choose_of world depth m.trade.stoploss.local_order_id m m.trade.exit.pending_instruction
        m.trade.stoploss.pending_instruction taken refl (inl e)
