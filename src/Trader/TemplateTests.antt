-- ===== src/Trader/TemplateTests.antt =====
-- What a trader of one symbol makes from templates, at concrete prices and times.
use babylon_playground_demo.Common.{ℕ, Bool, not, ◌==◌, ◌≡◌, refl, true, false, some, [], ◌∷◌}
use babylon_playground_demo.Common.Table.{find, text_key}
use babylon_playground_demo.Common.Result.{refuse_if}
use babylon_playground_demo.Float.Units.{thousandths}
use babylon_playground_demo.Timeframe.{timeframe_eq}
use babylon_playground_demo.Trigger.Clock.{Clock, clock}
use babylon_playground_demo.Trigger.Dispatch.{DynTrigger, dyn_trigger}
use babylon_playground_demo.SmartId.{standalone_order, decode}
use babylon_playground_demo.Order.Monad.{Outcome, done, failed, panicked, out_of_fuel}
use babylon_playground_demo.Order.Data.{StoplossMetadata}
use babylon_playground_demo.Order.Validate as OrderValidate
use babylon_playground_demo.Trade.Data.{Trade}
use babylon_playground_demo.Trade.Samples.{trade, config}
use babylon_playground_demo.Trade.Builder
use babylon_playground_demo.Trade.Validate as TradeValidate
use babylon_playground_demo.Types.{opposite}
use babylon_playground_demo.Trader.Data.{new}
use babylon_playground_demo.Trader.Error.{TraderError}
use babylon_playground_demo.Trader.Monad.{TraderMachine, ◌>>=◌}
use babylon_playground_demo.Trader.Placement
use babylon_playground_demo.Trader.TradeTemplate.{trade_template}
use babylon_playground_demo.Trader.Refused.{Refuses, place_stop-Refuses}
use babylon_playground_demo.Trader.Long.{IsLong, trade_template-IsLong}
use babylon_playground_demo.Trader.Samples.{empty_context, outside, funds}

abbrev ready : TraderMachine ℕ ℕ (DynTrigger ℕ Clock)
ready = record {
  trader = record (new funds) { trader_symbol_contexts = ("BTCUSDT", empty_context) ∷ [] };
  reads = 0;
}

place_stop-Refuses_example :
    Refuses (
      Placement.stoploss_limit_buy outside 12 "BTCUSDT" 101_000 101_000 102_000 500
        standalone_order)
    × (Refuses (
          Placement.stoploss_limit_sell outside 12 "BTCUSDT" 101_000 101_000 102_000 500
            standalone_order)
        × (Refuses (
              Placement.stoploss_market_buy outside 12 "BTCUSDT" 101_000 101_000 500
                standalone_order)
            × Refuses (
                Placement.stoploss_market_sell outside 12 "BTCUSDT" 101_000 101_000 500
                  standalone_order)))
place_stop-Refuses_example =
    place_stop-Refuses outside 12 "BTCUSDT" 101_000 101_000 102_000 500 standalone_order

abbrev guard : StoplossMetadata ℕ
guard = record {
  is_trailing_enabled = false;
  reference_price = 99_000;
  initial_stop_price = 95_000;
  trailing_step_ratio = 1;
}

abbrev done_or : {A : Type 0} → A → Outcome (TraderError ℕ) A → A
done_or a (done b) = b
done_or a _ = a

abbrev is_done : {A : Type 0} → Outcome (TraderError ℕ) A → Bool
is_done (done a) = true
is_done _ = false

returned :
    {A : Type 0} (a : A) (r : Outcome (TraderError ℕ) A) → is_done r ≡ true → r ≡ done (done_or a r)
returned a (done b) h = refl
returned a (failed e) h = cc
returned a panicked h = cc
returned a out_of_fuel h = cc

abbrev made : Outcome (TraderError ℕ) (Trade ℕ (DynTrigger ℕ Clock))
made =
    (trade_template outside (λ w. not (w == 0)) (λ s. false) config 99_000 (some 110_000) guard
      ready).0

trade_template-IsLong_example : IsLong (done_or trade made)
unfolding trade_template ◌>>=◌ find OrderValidate.validate Builder.build refuse_if timeframe_eq
    text_key opposite TradeValidate.validate decode
trade_template-IsLong_example =
    trade_template-IsLong outside (λ w. not (w == 0)) (λ s. false) config 99_000 (some 110_000)
      guard ready (done_or trade made) (returned trade made refl)
