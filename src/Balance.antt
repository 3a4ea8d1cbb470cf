-- ===== src/Balance.antt =====
-- src/balance.rs: the free and the locked amounts of an account. The mutex around the map is not modelled:
-- every method holds it while it reads or writes, but for `set_free` and `set_locked`, which take it
-- once to find the asset and once more to insert it.
pub mod Funds
mod Tests
use babylon_playground_demo.Common.{Bool, Option, none, some, if◌then◌else◌}
use babylon_playground_demo.Common.Result.{Result, ok, err, ok_or, ◌>>=◌}
use babylon_playground_demo.Common.Table.{Table, find, put, text_key}
use babylon_playground_demo.Float.{OrderedFloat, ◌⊕◌, ◌⊗◌, ◌≽◌, ◌≺◌}
use babylon_playground_demo.Types.{Ustr}

-- Of src/model.rs.
pub record Balance (W : Type 0) : Type 0 where
  pub asset : Ustr
  pub free : W
  pub locked : W

-- Of src/types.rs.
pub data Amount (W : Type 0) : Type 0 where
  nothing : Amount W
  exact : W → Amount W
  ratio_of_available : W → Amount W
  ratio_of_total : W → Amount W
  all_available : Amount W

pub data BalanceError (W : Type 0) : Type 0 where
  asset_not_found : Ustr → BalanceError W
  -- requested, available
  insufficient_funds : W → W → BalanceError W

abbrev pub BalanceSheet : Type 0 → Type 0
BalanceSheet W = Table Ustr (Balance W)

module _ {W : Type 0} ⦃f : OrderedFloat W⦄ where
  unfoldable pub get : Ustr → BalanceSheet W → Result (BalanceError W) (Balance W)
  get asset sheet = ok_or (find asset sheet) (asset_not_found asset)

  abbrev freed : Ustr → W → Option (Balance W) → Balance W
  freed asset amount none = record { asset = asset; free = amount; locked = f.nought }
  freed asset amount (some b) = record b { free = amount }

  abbrev lock : Ustr → W → Option (Balance W) → Balance W
  lock asset amount none = record { asset = asset; free = f.nought; locked = amount }
  lock asset amount (some b) = record b { locked = amount }

  unfoldable pub set_free : Ustr → W → BalanceSheet W → BalanceSheet W
  set_free asset amount sheet = put asset (freed asset amount (find asset sheet)) sheet

  unfoldable pub set_locked : Ustr → W → BalanceSheet W → BalanceSheet W
  set_locked asset amount sheet = put asset (lock asset amount (find asset sheet)) sheet

  unfoldable pub total : Ustr → BalanceSheet W → Result (BalanceError W) W
  unfolding get
  total asset sheet = do balance ← get asset sheet; ok (balance.free ⊕ balance.locked)

  unfoldable pub free : Ustr → BalanceSheet W → Result (BalanceError W) W
  unfolding get
  free asset sheet = do balance ← get asset sheet; ok balance.free

  -- Whether there are enough funds.
  unfoldable pub check : Ustr → W → BalanceSheet W → Result (BalanceError W) Bool
  unfolding free
  check asset amount sheet = do available ← free asset sheet; ok (available ≽ amount)

  abbrev pub value_of : Amount W → Balance W → W
  value_of nothing b = f.nought
  value_of (exact value) b = value
  value_of (ratio_of_available pc) b = b.free ⊗ pc
  value_of (ratio_of_total pc) b = (b.free ⊕ b.locked) ⊗ pc
  value_of all_available b = b.free

  abbrev pub granted : W → Balance W → Result (BalanceError W) W
  granted value b = if b.free ≺ value then err (insufficient_funds value b.free) else ok value

  -- The argument `check_funds` of the source is not read.
  unfoldable pub query : Ustr → Amount W → Bool → BalanceSheet W → Result (BalanceError W) W
  unfolding get
  query asset amount check_funds sheet = do
    balance ← get asset sheet
    granted (value_of amount balance) balance
