-- ===== src/Order/Filled.antt =====
-- `confirm_filled` and `confirm_replaced`: what they leave of what the order trades.
use babylon_playground_demo.Common.{ℕ, ◌≡◌, refl, false, ◌++◌, ◌∷◌, []}
use babylon_playground_demo.Common.Result.{ok}
use babylon_playground_demo.Float.{OrderedFloat}
use babylon_playground_demo.Trigger.{Trigger}
use babylon_playground_demo.Order.State.{OrderState, filled, state_eq}
use babylon_playground_demo.Order.Data.{OrderFill}
use babylon_playground_demo.Order.Monad.{World, Machine, M, ◌>>=◌, ◌>>◌}
use babylon_playground_demo.Order.Keeps.{Keeps, keeps_rules}
use babylon_playground_demo.Order.Trail.{touch}
use babylon_playground_demo.Order.Follows.{
  Terms, terms, Aspect, Stable, Follows, touch-Follows, set_state_with-Follows,
}
use babylon_playground_demo.Order.Follows.Compute.{
  compute-Follows, compute_next_instruction-Follows,
}
use babylon_playground_demo.Order.Compute.{compute}
use babylon_playground_demo.Order.Confirm.{
  confirm_filled, validate_fill, unless_in, change_state, fill_state, record_fill,
}

-- The terms are these.
abbrev pub Settled : {W : Type 0} → Terms W → Aspect W
Settled u s v i = v ≡ u

pub Settled-Stable : {W : Type 0} (u : Terms W) → Stable (Settled u)
Settled-Stable u = record {
  move = λ s w v i e h. h;
  pend = λ s v i j may h. h;
  clear = λ s v i idle h. h;
}

-- The terms with a fill added, and the totals that it reports.
unfoldable pub filled_terms : {W : Type 0} → OrderFill W → Terms W → Terms W
filled_terms fill u = record u {
  accumulated_filled_quantity = fill.metadata.accumulated_filled_quantity;
  accumulated_filled_quote = fill.metadata.accumulated_filled_quote;
  fills = u.fills ++ fill ∷ [];
}

module _ {W T : Type 0} ⦃f : OrderedFloat W⦄ ⦃t : Trigger W T⦄ (world : World W) (depth : ℕ) where
  -- What follows the record of a fill.
  settle : OrderState → M W T (Unit {0})
  settle s = touch world >> change_state world depth s >> compute world depth

  settle-Follows : (u : Terms W) (s : OrderState) → Keeps (Follows (Settled u)) (settle s)
  unfolding settle change_state
  settle-Follows u s =
      search
        (
          keeps_rules, Settled-Stable, touch-Follows, set_state_with-Follows, compute-Follows,
          compute_next_instruction-Follows,
        )
        depth 16

  -- A valid fill of an order that is not filled is appended to its fills, and the filled totals become
  -- those that it reports; nothing else of what the order trades changes, however the call ends.
  pub confirm_filled-terms :
      (m : Machine W T) (fill : OrderFill W)
      → state_eq m.order.state filled ≡ false
      → validate_fill fill ≡ ok tt
      → terms (confirm_filled world depth fill m).1.order ≡ filled_terms fill (terms m.order)
  unfolding confirm_filled unless_in filled_terms settle ◌>>=◌
  confirm_filled-terms m fill unfilled valid =
      rw (unfilled, valid)
        ((settle-Follows (filled_terms fill (terms m.order)) (fill_state fill.status)).at
          (record m { order = record_fill fill m.order }) refl)
