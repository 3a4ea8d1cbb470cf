-- ===== src/Position/Accumulator.antt =====
-- src/position_accumulator.rs: the settings of an accumulator. No accumulator of the repository does
-- anything: `into_accumulator` gives the one that never accumulates, and panics for the other two kinds.
use babylon_playground_demo.Common.{Bool, false, Option, none, some}
use babylon_playground_demo.Float.{OrderedFloat}

pub data AccumulatorKind : Type 0 where
  no_accumulator incremental volume_based : AccumulatorKind

pub record AccumulatorMetadata (W : Type 0) : Type 0 where
  pub kind : AccumulatorKind
  pub base_price : W
  pub increment_size : W
  pub volume_threshold : W

pub data NoAccumulator : Type 0 where
  no_accumulation : NoAccumulator

-- A panic is `none`.
unfoldable pub into_accumulator : {W : Type 0} → AccumulatorMetadata W → Option NoAccumulator
into_accumulator m = elim m.kind [ no_accumulator ↦ some no_accumulation | _ ↦ none ]

unfoldable pub should_accumulate : NoAccumulator → Bool
should_accumulate no_accumulation = false

module _ {W : Type 0} ⦃f : OrderedFloat W⦄ where
  -- `Default`.
  unfoldable pub no_metadata : AccumulatorMetadata W
  no_metadata = record {
    kind = no_accumulator;
    base_price = f.nought;
    increment_size = f.nought;
    volume_threshold = f.nought;
  }

  unfoldable pub incremental_metadata : W → W → AccumulatorMetadata W
  unfolding no_metadata
  incremental_metadata base_price increment_size = record no_metadata {
    kind = incremental;
    base_price = base_price;
    increment_size = increment_size;
  }

  unfoldable pub metadata : NoAccumulator → AccumulatorMetadata W
  metadata a = no_metadata
