-- ===== src/Leverage.antt =====
-- src/leverage.rs: the borrowing data of a trade, and whether what was borrowed is repaid. A failed
-- `assert!` is `none`.
use babylon_playground_demo.Common.{
  ◌≡◌, Bool, true, false, ◌&&◌, Option, none, some, is_some, if◌then◌else◌, arith,
}
use babylon_playground_demo.Float.{OrderedFloat, ◌≼◌, ◌≺◌, ◌≽◌, ◌≻◌}

pub record LeverageData (W : Type 0) : Type 0 where
  pub ratio : W
  pub borrow_fee : W
  pub borrow_price : W

pub record Leverage (W : Type 0) : Type 0 where
  pub leverage_data : Option (LeverageData W)
  pub repaid : Bool

module _ {W : Type 0} where
  unfoldable pub no_leverage : Leverage W
  no_leverage = record { leverage_data = none; repaid = false }

  unfoldable pub is_leveraged : Leverage W → Bool
  is_leveraged l = is_some l.leverage_data

  unfoldable pub confirm_repayment : Leverage W → Option (Leverage W)
  confirm_repayment l = if is_some l.leverage_data then some (record l { repaid = true }) else none

  abbrev data_ratio : Option (LeverageData W) → Option W
  data_ratio none = none
  data_ratio (some d) = some d.ratio

  unfoldable pub ratio : Leverage W → Option W
  ratio l = data_ratio l.leverage_data

module _ {W : Type 0} ⦃f : OrderedFloat W⦄ (hundred : W) where
  -- `with_leverage`, with the constant 100.0.
  unfoldable pub with_leverage : W → W → W → Option (Leverage W)
  with_leverage ratio borrow_fee borrow_price =
      if ratio ≻ f.nought && ratio ≼ hundred
      then (if borrow_fee ≽ f.nought && borrow_fee ≺ f.one
          then some (record {
            leverage_data =
                some
                  (record { ratio = ratio; borrow_fee = borrow_fee; borrow_price = borrow_price });
            repaid = false;
          })
          else none)
      else none

-- Only a leveraged trade can be confirmed as repaid, a trade begins unrepaid, and to confirm the
-- repayment changes nothing else.
module _ {W : Type 0} where
  pub confirm_repayment_lem :
      (l m : Leverage W)
      → confirm_repayment l ≡ some m
      → (is_leveraged l ≡ true) × (m.repaid ≡ true) × (m.leverage_data ≡ l.leverage_data)
  unfolding confirm_repayment is_leveraged
  confirm_repayment_lem l m h = ground arith
