-- ===== src/Trader/Long.antt =====
-- src/trader.rs: the trades that `trade_template` makes.
use babylon_playground_demo.Common.{Bool, ◌≡◌, refl, ap, ◌∙◌, sym, subst, Option, some}
use babylon_playground_demo.Common.Result.{Result, ok, err}
use babylon_playground_demo.Float.{OrderedFloat}
use babylon_playground_demo.Types.{Ustr, NormalizedSide, sell, NormalizedOrderType}
use babylon_playground_demo.Instruction.{HandleId, OrderId, DateTime}
use babylon_playground_demo.Order.Monad.{Outcome, done, failed, panicked, out_of_fuel}
use babylon_playground_demo.Order.Data.{Order, StoplossMetadata}
use babylon_playground_demo.Trade.State.{TradeType, long, short, new}
use babylon_playground_demo.Trade.Data.{Trade}
use babylon_playground_demo.Trade.Validate.{exit_side}
use babylon_playground_demo.Trade.Closer.{CloserMetadata, into_closer}
use babylon_playground_demo.Trade.Builder.{
  TradeBuilderConfig, new_builder, with_entry, with_exit, with_stoploss, with_closer,
}
use babylon_playground_demo.Trade.Built.{IsWhole, build-IsBuilt, build-stoploss}
use babylon_playground_demo.Trader.Error.{TraderError}
use babylon_playground_demo.Trader.Data.{Outside}
use babylon_playground_demo.Trader.Template.{template, validated, stoploss_template}
use babylon_playground_demo.Trader.TradeTemplate.{built, trade_template}
use babylon_playground_demo.Trader.Monad.{TraderMachine, M, pure, lift, proceed, ◌>>=◌}

-- What is known of a value that an action returns.
pub record Yields {W D T A : Type 0} (Q : A → Type 0) (p : M W D T A) : Type 0 where
  pub of : (m : TraderMachine W D T) (a : A) → (p m).0 ≡ done a → Q a

done-inj : {E A : Type 0} (a b : A) → ◌≡◌ {A = Outcome E A} (done a) (done b) → a ≡ b
done-inj a b h = cc

module _ {W D T A B : Type 0} {Q : B → Type 0} where
  proceed-yields :
      (R : A → Type 0) (r : Outcome (TraderError W) A) (m : TraderMachine W D T) (k : A → M W D T B)
      (b : B)
      → ((a : A) → r ≡ done a → R a)
      → ((a : A) → R a → Yields Q (k a))
      → (proceed r m k).0 ≡ done b
      → Q b
  proceed-yields R (done a) m k b known kq h = (kq a (known a refl)).of m b h
  proceed-yields R (failed e) m k b known kq h = cc
  proceed-yields R panicked m k b known kq h = cc
  proceed-yields R out_of_fuel m k b known kq h = cc

  Yields-known :
      (R : A → Type 0) (p : M W D T A) (k : A → M W D T B)
      → Yields R p
      → ((a : A) → R a → Yields Q (k a))
      → Yields Q (p >>= k)
  unfolding ◌>>=◌
  Yields-known R p k kr kq = record {
    of = λ m b h. proceed-yields R (p m).0 (p m).1 k b (kr.of m) kq h;
  }

  -- Nothing need be known of the first value.
  Yields-bind :
      (p : M W D T A) (k : A → M W D T B) → ((a : A) → Yields Q (k a)) → Yields Q (p >>= k)
  Yields-bind p k kq = Yields-known (λ a. Unit {0}) p k (record { of = λ m a h. tt }) (λ a _. kq a)

module _ {W D T B : Type 0} {Q : B → Type 0} where
  Yields-pure : (b : B) → Q b → Yields {W = W} {D = D} {T = T} Q (pure b)
  unfolding pure
  Yields-pure b q = record { of = λ m c e. subst Q (done-inj b c e) q }

  Yields-lift :
      {E : Type 0} (g : E → TraderError W) (r : Result E B)
      → ((b : B) → r ≡ ok b → Q b)
      → Yields {D = D} {T = T} Q (lift g r)
  unfolding lift
  Yields-lift g (ok a) h = record { of = λ m b e. subst Q (done-inj a b e) (h a refl) }
  Yields-lift g (err x) h = record { of = λ m b e. cc }

only_long : (u : TradeType) → sell ≡ exit_side u → u ≡ long
only_long long h = refl
only_long short h = cc

some-inj : {A : Type 0} (a b : A) → some a ≡ some b → a ≡ b
some-inj a b h = cc

-- Whole, new and long.
abbrev pub IsLong : {W T : Type 0} → Trade W T → Type 0
IsLong t = IsWhole t × ((t.state ≡ new) × (t.trade_type ≡ long))

module _ {W D T : Type 0} ⦃f : OrderedFloat W⦄ (outside : Outside W D T) where
  -- Whatever side is asked for, the stoploss is to sell.
  validated-sell :
      (s : Ustr) (make : W → DateTime → DateTime → Order W T)
      → ((a : W) (b c : DateTime) → (make a b c).side ≡ sell)
      → Yields (λ o. o.side ≡ sell) (validated outside s make)
  unfolding validated
  validated-sell s make h = Yields-bind _ _ λ a.
      Yields-bind _ _
        λ b. Yields-bind _ _ λ c. Yields-bind _ _ λ u. Yields-pure (make a b c) (h a b c)

  stoploss_template-sell :
      (s : Ustr) (id : OrderId) (side : NormalizedSide) (u : NormalizedOrderType) (q r p : W)
      (l : Option W) (trailing : Bool) (step : W)
      → Yields (λ o. o.side ≡ sell) (stoploss_template outside s id side u q r p l trailing step)
  unfolding stoploss_template template
  stoploss_template-sell s id side u q r p l trailing step =
      Yields-bind _ _ λ found. Yields-bind _ _ λ cx. validated-sell s _ λ a b c. refl

  module _ (is_normal : W → Bool) (is_empty : Ustr → Bool) where
    built-IsLong :
        (config : TradeBuilderConfig W) (entry exit stoploss : Order W T)
        (metadata : CloserMetadata W) (i : HandleId)
        → stoploss.side ≡ sell
        → Yields IsLong (built outside is_normal is_empty config entry exit stoploss metadata i)
    unfolding built new_builder with_entry with_exit with_stoploss with_closer
    built-IsLong config entry exit stoploss metadata i h = Yields-bind _ _ λ price.
        Yields-bind _ _ λ now. Yields-lift _ _ λ t e.
          let b =
            with_closer (into_closer metadata)
              (with_stoploss stoploss (with_exit exit (with_entry entry (new_builder config)))) in
          let whole = build-IsBuilt is_normal is_empty price i now b t e in
          let same = build-stoploss is_normal is_empty price i now b t e in
          let sold = sym (ap (λ o. o.side) (some-inj stoploss t.stoploss same)) ∙ h in
          (whole.0, (whole.1.1.0, only_long t.trade_type (sym sold ∙ whole.0.stoploss_sided)))

    -- A trade that `trade_template` returns is new and whole, and it is a long one, whatever type was asked
    -- for: a stoploss that is made from the template is to sell.
    pub trade_template-IsLong :
        (config : TradeBuilderConfig W) (entry_price : W) (exit_price : Option W)
        (metadata : StoplossMetadata W) (m : TraderMachine W D T) (t : Trade W T)
        → (trade_template outside is_normal is_empty config entry_price exit_price metadata m).0
          ≡ done t
        → IsLong t
    unfolding trade_template
    trade_template-IsLong config entry_price exit_price metadata m t h =
        (Yields-bind _ _ λ found. Yields-bind _ _ λ cx. Yields-bind _ _ λ i.
            Yields-bind _ _ λ entry_id. Yields-bind _ _ λ exit_id. Yields-bind _ _ λ stoploss_id.
              Yields-bind _ _ λ entry. Yields-bind _ _ λ exit. Yields-bind _ _ λ limit.
                Yields-known (λ o. o.side ≡ sell) _ _
                  (stoploss_template-sell config.symbol stoploss_id exit.side _ _ _ _ _ _ _)
                  λ stoploss sold. Yields-bind _ _ λ closer.
                    built-IsLong (record config { specific_trade_id = some i })
                      (record entry {
                        timeframe = config.timeframe;
                        time_in_force = config.entry_time_in_force;
                        initial_quantity = config.quantity;
                      })
                      (record exit {
                        timeframe = config.timeframe;
                        time_in_force = config.exit_time_in_force;
                      })
                      (record stoploss { timeframe = config.timeframe }) closer i sold).of
          m t h
