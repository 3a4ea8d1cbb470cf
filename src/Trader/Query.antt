-- ===== src/Trader/Query.antt =====
-- src/trader.rs: what is asked of the trader. `get_context` and its like hand out guards of the lock; to
-- ask through them is `of_context`, which is `symbol_not_found` where the symbol has no context.
use babylon_playground_demo.Common.{
  ℕ, Bool, true, false, not, ◌&&◌, Option, none, some, leb, if◌then◌else◌,
}
use babylon_playground_demo.Common.Result.{Result, ok, err, ok_or, ◌>>=◌}
use babylon_playground_demo.Common.Table.{find, text_key, number_key, Table}
use babylon_playground_demo.Common.{[], ◌∷◌, suc}
use babylon_playground_demo.Float.{OrderedFloat, ◌⊗◌}
use babylon_playground_demo.Cooldown.{is_available}
use babylon_playground_demo.Appraiser
use babylon_playground_demo.Balance.{check, BalanceError}
use babylon_playground_demo.Position.{Position}
use babylon_playground_demo.Types.{
  Ustr, NormalizedOrderType, limit_maker, is_taker, NormalizedSide, buy, sell,
}
use babylon_playground_demo.Instruction.{OrderId, HandleId}
use babylon_playground_demo.SmartId.{decode, order_kind}
use babylon_playground_demo.Order.Data.{Order}
use babylon_playground_demo.Order.Query.{is_closed}
use babylon_playground_demo.Order.Monad.{Outcome, done, failed, panicked}
use babylon_playground_demo.Trade.Data.{Trade, Slot, order_at}
use babylon_playground_demo.Trade.Query.{slot_of_kind}
use babylon_playground_demo.Trader.Error.{TraderError, symbol_not_found, balance_error}
use babylon_playground_demo.Trader.Data.{Trader, TraderStats, TraderSymbolContext}

abbrev is_limit_maker : NormalizedOrderType → Bool
is_limit_maker limit_maker = true
is_limit_maker _ = false

abbrev unless : {A : Type 0} → Bool → Option A → Option A
unless b o = if b then none else o

-- The number of entries, `len`.
abbrev pub size : {K V : Type 0} → Table K V → ℕ
size [] = 0
size (e ∷ d) = suc (size d)

module _ {W T : Type 0} where
  abbrev order_in_slot : Ustr → Option Slot → Trade W T → Outcome (TraderError W) (Order W T)
  order_in_slot symbol none trade = failed (symbol_not_found symbol)
  order_in_slot symbol (some slot) trade = done (order_at slot trade)

  abbrev order_in_trade : Ustr → OrderId → Option (Trade W T) → Outcome (TraderError W) (Order W T)
  order_in_trade symbol id none = panicked
  order_in_trade symbol id (some trade) = order_in_slot symbol (slot_of_kind (order_kind id)) trade

module _ {W : Type 0} where
  abbrev with_balance_error : {A : Type 0} → Result (BalanceError W) A → Result (TraderError W) A
  with_balance_error (ok a) = ok a
  with_balance_error (err e) = err (balance_error e)

module _ {W D T : Type 0} where
  abbrev pub context_of : Ustr → Trader W D T → Option (TraderSymbolContext W D T)
  context_of symbol tr = find symbol tr.trader_symbol_contexts

  -- `get_context`.
  unfoldable pub get_context :
      Ustr → Trader W D T → Result (TraderError W) (TraderSymbolContext W D T)
  get_context symbol tr = ok_or (context_of symbol tr) (symbol_not_found symbol)

  abbrev commission_in : NormalizedOrderType → TraderSymbolContext W D T → Option W
  commission_in order_type cx =
      if is_limit_maker order_type
      then unless cx.is_zero_maker_fee cx.commission.maker
      else if is_taker order_type
      then unless cx.is_zero_taker_fee cx.commission.taker
      else none

  unfoldable pub get_commission :
      Ustr → NormalizedOrderType → Trader W D T → Result (TraderError W) (Option W)
  unfolding get_context is_taker
  get_commission symbol order_type tr = do
    cx ← get_context symbol tr
    ok (commission_in order_type cx)

  unfoldable pub get_stats_for_symbol : Ustr → Trader W D T → Result (TraderError W) TraderStats
  unfolding get_context
  get_stats_for_symbol symbol tr = do cx ← get_context symbol tr; ok cx.stats

  unfoldable pub get_position : Ustr → Trader W D T → Result (TraderError W) (Position W D)
  unfolding get_context
  get_position symbol tr = do cx ← get_context symbol tr; ok cx.position

  -- A missing trade is reported as a missing symbol: `try_map` forgets which of the two it was.
  unfoldable pub get_trade : Ustr → HandleId → Trader W D T → Result (TraderError W) (Trade W T)
  unfolding get_context
  get_trade symbol trade_id tr = do
    cx ← get_context symbol tr
    ok_or (find trade_id cx.trades) (symbol_not_found symbol)

  unfoldable pub get_orders :
      Ustr → Trader W D T → Result (TraderError W) (Table OrderId (Order W T))
  unfolding get_context
  get_orders symbol tr = do cx ← get_context symbol tr; ok cx.orders

  unfoldable pub get_trades :
      Ustr → Trader W D T → Result (TraderError W) (Table HandleId (Trade W T))
  unfolding get_context
  get_trades symbol tr = do cx ← get_context symbol tr; ok cx.trades

  abbrev order_in_context :
      Ustr → OrderId → Option (TraderSymbolContext W D T) → Outcome (TraderError W) (Order W T)
  order_in_context symbol id none = panicked
  order_in_context symbol id (some cx) =
      order_in_trade symbol id (find (decode id).handle_id cx.trades)

  -- The lookups of the context and of the trade are unwrapped.
  unfoldable pub get_order_by_local_id :
      Ustr → OrderId → Trader W D T → Outcome (TraderError W) (Order W T)
  get_order_by_local_id symbol id tr = order_in_context symbol id (context_of symbol tr)

module _ {W D T : Type 0} ⦃f : OrderedFloat W⦄ where
  unfoldable pub round_quote : Ustr → W → Trader W D T → Result (TraderError W) W
  unfolding get_context
  round_quote symbol value tr = do
    cx ← get_context symbol tr
    ok (Appraiser.round_quote cx.appraiser value)

  unfoldable pub round_base : Ustr → W → Trader W D T → Result (TraderError W) W
  unfolding get_context
  round_base symbol value tr = do
    cx ← get_context symbol tr
    ok (Appraiser.round_base cx.appraiser value)

  unfoldable pub round_normalized_quote : Ustr → W → Trader W D T → Result (TraderError W) W
  unfolding get_context
  round_normalized_quote symbol value tr = do
    cx ← get_context symbol tr
    ok (Appraiser.round_normalized_quote cx.appraiser value)

  unfoldable pub round_normalized_base : Ustr → W → Trader W D T → Result (TraderError W) W
  unfolding get_context
  round_normalized_base symbol value tr = do
    cx ← get_context symbol tr
    ok (Appraiser.round_normalized_base cx.appraiser value)

  abbrev cooled_down : TraderSymbolContext W D T → Order W T → ℕ → Bool
  cooled_down cx order now =
      if order.is_entry_order
      then is_available cx.entry_cooldown now
      else is_available cx.exit_cooldown now

  -- Whether the balance covers the order.
  abbrev covered :
      NormalizedSide
      → Trader W D T
      → TraderSymbolContext W D T
      → Order W T
      → Result (TraderError W) Bool
  covered buy tr cx order = with_balance_error (
      check cx.quote_asset
        (Appraiser.normalize_quote cx.appraiser (order.initial_quantity ⊗ order.price)) tr.balance)
  covered sell tr cx order =
      with_balance_error (check cx.base_asset order.initial_quantity tr.balance)

  abbrev pub has_room : TraderSymbolContext W D T → Order W T → ℕ → Bool
  has_room cx order now =
      not cx.is_paused
      && not (is_closed order)
      && not (leb cx.max_orders (size cx.orders))
      && cooled_down cx order now

  -- At the time `now`.
  unfoldable pub can_create_order : Order W T → ℕ → Trader W D T → Result (TraderError W) Bool
  unfolding get_context
  can_create_order order now tr = do
    cx ← get_context order.symbol tr
    if has_room cx order now then covered order.side tr cx order else ok false
