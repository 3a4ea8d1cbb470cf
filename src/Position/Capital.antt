-- ===== src/Position/Capital.antt =====
-- src/position.rs: what calls do to the capital of a position.
use babylon_playground_demo.Common.{ℕ, ◌≡◌, ◌⊎◌, Option, List, [], ◌∷◌}
use babylon_playground_demo.Common.Result.{Result, ok, err, ◌>>=◌}
use babylon_playground_demo.Types.{NormalizedSide}
use babylon_playground_demo.Position.{
  Decimals, Position, PositionError, Panic, overflow, unrepresentable, track_pending_order,
  notify_order_finished, wait_for_pending_order_confirmation, register_trade, compute,
}
use babylon_playground_demo.Position.Sound.{Sound}

-- The calls that may change a position.
pub data Call (W : Type 0) : Type 0 where
  track finish wait_for : ℕ → Call W
  register : NormalizedSide → W → W → Call W
  recompute : W → Call W

module _ {W D : Type 0} where
  -- The position after a call that may end in an error.
  abbrev left_by : Position W D → Result PositionError (Position W D) → Position W D
  left_by p (ok after) = after
  left_by p (err _) = p

  -- As much capital is allocated as is invested.
  abbrev pub Equal : Position W D → Type 0
  Equal p = p.allocated_capital ≡ p.invested_capital

module _ {W D : Type 0} ⦃d : Decimals D⦄ (from_f64 : W → Option D) where
  unfoldable pub perform : Call W → Position W D → Result Panic (Position W D)
  unfolding register_trade compute
  perform (track id) p = ok (left_by p (track_pending_order id p))
  perform (finish id) p = ok (left_by p (notify_order_finished id p))
  perform (wait_for id) p = ok (left_by p (wait_for_pending_order_confirmation id p))
  perform (register side amount price) p = register_trade from_f64 side amount price p
  perform (recompute price) p = compute from_f64 price p >>= λ r. ok r.0

  -- One call after the other, up to the first that panics.
  unfoldable pub perform_all : List (Call W) → Position W D → Result Panic (Position W D)
  unfolding perform
  perform_all [] p = ok p
  perform_all (call ∷ rest) p = perform call p >>= λ after. perform_all rest after

  -- What a sound outcome is, written out.
  Told : (Position W D → Type 0) → Result Panic (Position W D) → Type 0
  Told P r =
      (r ≡ err overflow)
      ⊎ ((r ≡ err unrepresentable) ⊎ ((after : Position W D) × ((r ≡ ok after) × P after)))
