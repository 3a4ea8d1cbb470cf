-- ===== src/Order/Diagram.antt =====
-- The diagram of an order's states, by what moves the order.
use babylon_playground_demo.Common.{◌≢◌, ◌≡◌, refl, some, arith, Bool, true, false}
use babylon_playground_demo.Order.State.{
  OrderState, idle, pending_open, open_failed, opened, partially_filled, filled, closed,
  pending_cancel, cancelled, cancelled_and_pending_replace, cancel_failed, replace_failed, replaced,
  rejected, expired, finished, transition,
}

infix 40 ◌⟶◌ ◌⟶*◌
pub data ◌⟶◌ : OrderState → OrderState → Type 0 where
  submit : idle ⟶ pending_open
  cancel_idle : idle ⟶ cancelled
  cancel_to_idle : pending_cancel ⟶ idle
  fail_open : pending_open ⟶ open_failed
  retry : open_failed ⟶ pending_open
  begin : pending_open ⟶ opened
  withdraw : pending_open ⟶ idle
  cancel_opening : pending_open ⟶ cancelled
  fill_part : opened ⟶ partially_filled
  fill : opened ⟶ filled
  request_cancel : opened ⟶ pending_cancel
  cancel_outside : opened ⟶ cancelled
  confirm_cancel : pending_cancel ⟶ cancelled
  revert_cancel : pending_cancel ⟶ opened
  rest : cancelled ⟶ idle
  finish_cancelled : cancelled ⟶ finished
  begin_replace : pending_cancel ⟶ cancelled_and_pending_replace
  replace_cancelled : cancelled ⟶ cancelled_and_pending_replace
  replace : cancelled_and_pending_replace ⟶ replaced
  fail_replace : cancelled ⟶ replace_failed
  replace_late : cancelled ⟶ replaced
  fill_replaced : replaced ⟶ filled
  reopen_failed : replace_failed ⟶ opened
  reopen : replaced ⟶ opened
  fill_more : partially_filled ⟶ partially_filled
  request_cancel_part : partially_filled ⟶ pending_cancel
  cancel_part : partially_filled ⟶ cancelled
  fill_rest : partially_filled ⟶ filled
  close : filled ⟶ closed
  restart : closed ⟶ idle
  finish_closed : closed ⟶ finished

pub data ◌⟶*◌ (s : OrderState) : OrderState → Type 0 where
  here : s ⟶* s
  onward : {t u : OrderState} → s ⟶* t → t ⟶ u → s ⟶* u

ruleset edges = (
  submit, cancel_idle, cancel_to_idle, fail_open, retry, begin, withdraw, cancel_opening, fill_part,
  fill, request_cancel, cancel_outside, confirm_cancel, revert_cancel, rest, finish_cancelled,
  begin_replace, replace_cancelled, replace, fail_replace, replace_late, fill_replaced,
  reopen_failed, reopen, fill_more, request_cancel_part, cancel_part, fill_rest, close, restart,
  finish_closed,
)

pub transition-⟶ : (s new_state t : OrderState) → transition s new_state ≡ some t → s ⟶ t
unfolding transition
transition-⟶ s new_state t h = grind (arith, edges)

pub ⟶*-trans : {s t u : OrderState} → s ⟶* t → t ⟶* u → s ⟶* u
⟶*-trans p here = p
⟶*-trans p (onward q e) = onward (⟶*-trans p q) e

-- The three states that no edge leads to.
abbrev pub is_unreached : OrderState → Bool
is_unreached rejected = true
is_unreached expired = true
is_unreached cancel_failed = true
is_unreached _ = false

no_edge_from_finished : {s t : OrderState} → s ⟶ t → s ≢ finished
no_edge_from_finished submit h = cc
no_edge_from_finished _ h = cc

edge_reached : {s t : OrderState} → s ⟶ t → is_unreached t ≡ false
edge_reached submit = refl
edge_reached _ = refl

pub ⟶*-finished : {s t : OrderState} → s ⟶* t → s ≡ finished → t ≡ finished
⟶*-finished here h = h
⟶*-finished (onward p e) h = absurd (no_edge_from_finished e (⟶*-finished p h))

pub ⟶*-unreached : {s t : OrderState} → s ⟶* t → is_unreached s ≡ false → is_unreached t ≡ false
⟶*-unreached here h = h
⟶*-unreached (onward p e) h = edge_reached e
