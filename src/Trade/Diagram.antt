-- ===== src/Trade/Diagram.antt =====
-- The diagram of a trade's states, by what moves the trade.
use babylon_playground_demo.Common.{sym, subst, ◌≢◌, ◌≡◌, refl, Bool, true, false}
use babylon_playground_demo.Trade.State.{
  TradeState, not_ready, new, entering, entry_failed, exiting, exit_failed, failed, closed,
}

infix 40 ◌⇒◌ ◌⇒*◌
pub data ◌⇒◌ : TradeState → TradeState → Type 0 where
  begin_entry : new ⇒ entering
  fail_entry : entering ⇒ entry_failed
  leave_entry : entering ⇒ exiting
  cancel_entry : entering ⇒ closed
  finish : exiting ⇒ closed
  fail_exit : exiting ⇒ exit_failed
  fail_entry_late : exiting ⇒ entry_failed

pub data ◌⇒*◌ (s : TradeState) : TradeState → Type 0 where
  here : s ⇒* s
  onward : {t u : TradeState} → s ⇒* t → t ⇒ u → s ⇒* u

pub ruleset edges =
    (begin_entry, fail_entry, leave_entry, cancel_entry, finish, fail_exit, fail_entry_late)

-- The states that no edge leaves.
abbrev pub is_final : TradeState → Bool
is_final not_ready = true
is_final entry_failed = true
is_final exit_failed = true
is_final failed = true
is_final closed = true
is_final _ = false

no_edge_from_final : {s t : TradeState} → s ⇒ t → is_final s ≢ true
no_edge_from_final begin_entry h = cc
no_edge_from_final _ h = cc

pub ⇒*-is_final : {s t : TradeState} → s ⇒* t → is_final s ≡ true → t ≡ s
⇒*-is_final here h = refl
⇒*-is_final {s} (onward p e) h =
    absurd (no_edge_from_final e (subst (λ u. is_final u ≡ true) (sym (⇒*-is_final p h)) h))
