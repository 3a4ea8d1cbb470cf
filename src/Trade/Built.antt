-- ===== src/Trade/Built.antt =====
-- What is known of a trade that was validated, and of one that was built.
use babylon_playground_demo.Common.{
  ◌≡◌, ◌≢◌, refl, ap, ◌∙◌, ℕ, Bool, true, false, not, ◌==◌, some, subst, if◌then◌else◌, arith,
}
use babylon_playground_demo.Common.Result.{
  Result, ok, refuse-passed, refuse-last, then-ok, bind-passed,
}
use babylon_playground_demo.Float.{OrderedFloat, ◌≈◌}
use babylon_playground_demo.Timeframe.{timeframe_eq}
use babylon_playground_demo.Types.{Ustr, NormalizedSide, side_eq}
use babylon_playground_demo.Instruction.{HandleId, DateTime}
use babylon_playground_demo.Trade.State.{new, state_eq}
use babylon_playground_demo.Trade.Data.{Trade}
use babylon_playground_demo.Trade.Query.{is_new}
use babylon_playground_demo.Trade.Validate.{
  entry_side, exit_side, validate, validate_new, validate_any,
}
use babylon_playground_demo.Trade.Builder.{TradeBuilder, build, assemble, id_or}

ok-inj : {E A : Type 0} (a b : A) → ◌≡◌ {A = Result E A} (ok a) (ok b) → a ≡ b
ok-inj a b h = cc

same_id : (a b : ℕ) → not (a == b) ≡ false → a ≡ b
same_id a b h = ground arith

other_id : (a b : ℕ) → (a == b) ≡ false → a ≢ b
other_id a b h = ground arith

same_side : (a b : NormalizedSide) → not (side_eq a b) ≡ false → a ≡ b
same_side a b h = ground arith

was_false : (b : Bool) → not b ≡ false → b ≡ true
was_false b h = ground arith

-- The three orders belong to the trade, are on the sides that its type says, and on its timeframe.
pub record IsWhole {W T : Type 0} (t : Trade W T) : Type 0 where
  pub has_id : (t.id == 0) ≡ false
  pub entry_owned : t.entry.trade_id ≡ t.id
  pub exit_owned : t.exit.trade_id ≡ t.id
  pub stoploss_owned : t.stoploss.trade_id ≡ t.id
  pub entry_sided : t.entry.side ≡ entry_side t.trade_type
  pub exit_sided : t.exit.side ≡ exit_side t.trade_type
  pub stoploss_sided : t.stoploss.side ≡ exit_side t.trade_type
  pub entry_timed : timeframe_eq t.entry.timeframe t.timeframe ≡ true
  pub exit_timed : timeframe_eq t.exit.timeframe t.timeframe ≡ true
  pub stoploss_timed : timeframe_eq t.stoploss.timeframe t.timeframe ≡ true

module _ {W T : Type 0} ⦃f : OrderedFloat W⦄ where
  validate_any-IsWhole : (t : Trade W T) → validate_any t ≡ ok tt → IsWhole t
  unfolding validate_any
  validate_any-IsWhole t h =
      let (id, h1) = refuse-passed _ _ _ tt h in
      let (entry_id, h2) = refuse-passed _ _ _ tt h1 in
      let (entry_side, h3) = refuse-passed _ _ _ tt h2 in
      let (entry_time, h4) = refuse-passed _ _ _ tt h3 in
      let (exit_id, h5) = refuse-passed _ _ _ tt h4 in
      let (exit_side, h6) = refuse-passed _ _ _ tt h5 in
      let (exit_time, h7) = refuse-passed _ _ _ tt h6 in
      let (stop_id, h8) = refuse-passed _ _ _ tt h7 in
      let (stop_side, h9) = refuse-passed _ _ _ tt h8 in
      let stop_time = refuse-last _ _ h9 in
      record {
        has_id = id;
        entry_owned = same_id _ _ entry_id;
        exit_owned = same_id _ _ exit_id;
        stoploss_owned = same_id _ _ stop_id;
        entry_sided = same_side _ _ entry_side;
        exit_sided = same_side _ _ exit_side;
        stoploss_sided = same_side _ _ stop_side;
        entry_timed = was_false _ entry_time;
        exit_timed = was_false _ exit_time;
        stoploss_timed = was_false _ stop_time;
      }

  new-passed :
      (b : Bool) (t : Trade W T)
      → b ≡ true
      → (if b then validate_new t else ok tt) ≡ ok tt
      → (t.exit.initial_quantity ≈ t.entry.initial_quantity) ≡ true
  unfolding validate_new
  new-passed false t e h = cc
  new-passed true t e h =
      let (entry_id, h1) = refuse-passed _ _ _ tt h in
      let (exit_id, h2) = refuse-passed _ _ _ tt h1 in
      let (quantity, h3) = refuse-passed _ _ _ tt h2 in was_false _ quantity

  -- A built trade is whole, has this id, is new, and its exit is to trade what its entry is.
  abbrev pub IsBuilt : HandleId → Trade W T → Type 0
  IsBuilt id t =
      IsWhole t
      × ((t.id ≡ id)
          × ((t.state ≡ new) × ((t.exit.initial_quantity ≈ t.entry.initial_quantity) ≡ true)))

  validated-IsBuilt : (t : Trade W T) → t.state ≡ new → validate t ≡ ok tt → IsBuilt t.id t
  unfolding validate
  validated-IsBuilt t e h =
      let (early, any) = then-ok _ _ tt h in
      (
        validate_any-IsWhole t any,
        (refl, (e, new-passed (is_new t) t (ap (λ s. state_eq s new) e) early)),
      )

module _ {W T : Type 0} ⦃f : OrderedFloat W⦄ (is_normal : W → Bool) (is_empty : Ustr → Bool) where
  -- A trade that the builder returns has the id that was asked for, or else the fresh one; it is new; its
  -- three orders carry its id, are on its timeframe and on the sides that its type says, and the
  -- quantity of its exit is that of its entry.
  pub build-IsBuilt :
      (market_price : W) (fresh : HandleId) (now : DateTime) (b : TradeBuilder W T) (t : Trade W T)
      → build is_normal is_empty market_price fresh now b ≡ ok t
      → IsBuilt (id_or b.config.specific_trade_id fresh) t
  unfolding build assemble
  build-IsBuilt market_price fresh now b t h =
      let (valid, h1) = then-ok _ _ t h in
      let (entry, (has_entry, h2)) = bind-passed b.entry _ _ t h1 in
      let (exit, (has_exit, h3)) = bind-passed b.exit _ _ t h2 in
      let (stoploss, (has_stoploss, h4)) = bind-passed b.stoploss _ _ t h3 in
      let (closer, (has_closer, h5)) = bind-passed b.closer _ _ t h4 in
      let (checked, same) = then-ok _ _ t h5 in
      let id = id_or b.config.specific_trade_id fresh in
      subst (IsBuilt id) (ok-inj _ t same) (validated-IsBuilt _ refl checked)

  -- Its stoploss is the builder's.
  pub build-stoploss :
      (market_price : W) (fresh : HandleId) (now : DateTime) (b : TradeBuilder W T) (t : Trade W T)
      → build is_normal is_empty market_price fresh now b ≡ ok t
      → b.stoploss ≡ some t.stoploss
  unfolding build assemble
  build-stoploss market_price fresh now b t h =
      let (valid, h1) = then-ok _ _ t h in
      let (entry, (has_entry, h2)) = bind-passed b.entry _ _ t h1 in
      let (exit, (has_exit, h3)) = bind-passed b.exit _ _ t h2 in
      let (stoploss, (has_stoploss, h4)) = bind-passed b.stoploss _ _ t h3 in
      let (closer, (has_closer, h5)) = bind-passed b.closer _ _ t h4 in
      let (checked, same) = then-ok _ _ t h5 in
      has_stoploss ∙ ap (λ u. some u.stoploss) (ok-inj _ t same)
