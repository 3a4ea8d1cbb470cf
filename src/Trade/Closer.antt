-- ===== src/Trade/Closer.antt =====
-- src/trade_closer.rs and src/trade_opener.rs: the strategies that open and close a trade, and their
-- metadata. `Closer` is the boxed trait object: one of the three closers. A `validate` that panics is
-- `none`, as is an opener that is not implemented.
use babylon_playground_demo.Common.{Bool, true, false, Option, none, some, if◌then◌else◌}
use babylon_playground_demo.Common.Result.{Result, ok}
use babylon_playground_demo.Float.{OrderedFloat, ◌⊕◌, ◌⊗◌, ◌≽◌}
use babylon_playground_demo.Timeframe.{Timeframe, na}
use babylon_playground_demo.Instruction.{ManagedInstruction}

pub data CloserError : Type 0 where
  invalid_closer missing_exit_price : CloserError

pub data CloserKind : Type 0 where
  no_closer take_profit trend_following : CloserKind

pub record CloserMetadata (W : Type 0) : Type 0 where
  pub kind : CloserKind
  pub entry_price : W
  pub is_target_ratio : Bool
  pub target_price : W
  pub timeframe : Timeframe

pub record TakeProfitCloser (W : Type 0) : Type 0 where
  pub entry_price : W
  pub is_target_ratio : Bool
  pub take_profit_price : W
  pub close_signal : Bool

pub record TrendFollowingCloser (W : Type 0) : Type 0 where
  pub entry_price : W
  pub timeframe : Timeframe
  pub close_signal : Bool

pub data Closer (W : Type 0) : Type 0 where
  never : Closer W
  profit : TakeProfitCloser W → Closer W
  trend : TrendFollowingCloser W → Closer W

module _ {W : Type 0} ⦃f : OrderedFloat W⦄ where
  -- `CloserMetadata::default()`; `no_closer()` has the same fields.
  unfoldable pub default_metadata : CloserMetadata W
  default_metadata = record {
    kind = no_closer;
    entry_price = f.nought;
    is_target_ratio = false;
    target_price = f.nought;
    timeframe = na;
  }

  unfoldable pub take_profit_metadata : W → Bool → W → CloserMetadata W
  unfolding default_metadata
  take_profit_metadata entry_price is_target_ratio target = record default_metadata {
    kind = take_profit;
    entry_price = entry_price;
    is_target_ratio = is_target_ratio;
    target_price = target;
  }

  unfoldable pub trend_following_metadata : W → Timeframe → CloserMetadata W
  unfolding default_metadata
  trend_following_metadata entry_price timeframe = record default_metadata {
    kind = trend_following;
    entry_price = entry_price;
    timeframe = timeframe;
  }

  -- `TakeProfitCloser::new`.
  unfoldable pub new_take_profit : W → Bool → W → TakeProfitCloser W
  new_take_profit entry_price is_target_ratio target = record {
    entry_price = entry_price;
    is_target_ratio = is_target_ratio;
    take_profit_price = if is_target_ratio then entry_price ⊗ (f.one ⊕ target) else target;
    close_signal = false;
  }

  -- `TrendFollowingCloser::new`.
  unfoldable pub new_trend_following : W → Timeframe → TrendFollowingCloser W
  new_trend_following entry_price timeframe = record {
    entry_price = entry_price;
    timeframe = timeframe;
    close_signal = false;
  }

  unfoldable pub closer_of_kind : CloserKind → CloserMetadata W → Closer W
  unfolding new_take_profit new_trend_following
  closer_of_kind no_closer m = never
  closer_of_kind take_profit m =
      profit (new_take_profit m.entry_price m.is_target_ratio m.target_price)
  closer_of_kind trend_following m = trend (new_trend_following m.entry_price m.timeframe)

  unfoldable pub into_closer : CloserMetadata W → Closer W
  unfolding closer_of_kind
  into_closer m = closer_of_kind m.kind m

  -- The three `compute`s, which never make an instruction.
  unfoldable pub compute :
      W → Closer W → Result CloserError (Option (ManagedInstruction W)) × Closer W
  compute price never = (ok none, never)
  compute price (profit c) = (
    ok none,
    profit (if price ≽ c.take_profit_price then record c { close_signal = true } else c),
  )
  compute price (trend c) = (ok none, trend c)

  unfoldable pub should_close : Closer W → Bool
  should_close never = false
  should_close (profit c) = c.close_signal
  should_close (trend c) = false

  unfoldable pub reset : Closer W → Closer W
  reset never = never
  reset (profit c) = profit (record c { close_signal = false })
  reset (trend c) = trend (record c { close_signal = false })

  unfoldable pub metadata : Closer W → CloserMetadata W
  unfolding default_metadata
  metadata never = default_metadata
  metadata (profit c) = record default_metadata {
    kind = no_closer;
    entry_price = c.entry_price;
    is_target_ratio = c.is_target_ratio;
    target_price = c.take_profit_price;
  }
  metadata (trend c) = default_metadata

-- The only opener that is implemented does nothing.
pub data OpenerKind : Type 0 where
  no_opener fixed_price momentum_based dip_buyer : OpenerKind

pub record OpenerMetadata (W : Type 0) : Type 0 where
  pub kind : OpenerKind
  pub current_market_price : W
  pub target_price : W
  pub momentum_threshold : W

pub data Opener : Type 0 where
  never_opens : Opener

-- `todo!()` is `none`.
unfoldable pub opener_of_kind : OpenerKind → Option Opener
opener_of_kind no_opener = some never_opens
opener_of_kind _ = none

module _ {W : Type 0} ⦃f : OrderedFloat W⦄ where
  unfoldable pub default_opener_metadata : OpenerMetadata W
  default_opener_metadata = record {
    kind = no_opener;
    current_market_price = f.nought;
    target_price = f.nought;
    momentum_threshold = f.nought;
  }

  unfoldable pub fixed_price_metadata : W → OpenerMetadata W
  unfolding default_opener_metadata
  fixed_price_metadata target = record default_opener_metadata {
    kind = fixed_price;
    target_price = target;
  }

  unfoldable pub into_opener : OpenerMetadata W → Option Opener
  unfolding opener_of_kind
  into_opener m = opener_of_kind m.kind
