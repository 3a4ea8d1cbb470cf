-- ===== src/Balance/Tests.antt =====
-- A sheet with the account of one asset, and another without.
use babylon_playground_demo.Common.{◌∷◌, ℕ, ◌≡◌, refl, ◌⊎◌, true, [], if◌then◌else◌}
use babylon_playground_demo.Common.Result.{ok, err}
use babylon_playground_demo.Common.Table.{find, text_key}
use babylon_playground_demo.Float.{◌≼◌}
use babylon_playground_demo.Float.Units.{thousandths}
use babylon_playground_demo.Balance.{
  Balance, BalanceSheet, asset_not_found, insufficient_funds, ratio_of_available, all_available,
  exact, get, check, query, value_of,
}
use babylon_playground_demo.Balance.Funds.{query-check}

abbrev account : BalanceSheet ℕ
account = ("USDT", record { asset = "USDT"; free = 1000; locked = 200 }) ∷ []

half_of_it : query "USDT" (ratio_of_available 500) true account ≡ ok 500
unfolding query get find text_key
half_of_it = refl

all_of_it : query "USDT" all_available true account ≡ ok 1000
unfolding query get find text_key
all_of_it = refl

too_much : query "USDT" (exact 1500) true account ≡ err (insufficient_funds 1500 1000)
unfolding query get find text_key
too_much = refl

no_account : get "BTC" account ≡ err (asset_not_found "BTC")
unfolding get find text_key
no_account = refl

query-check_example :
    ((b : Balance ℕ) × ((get "USDT" account ≡ ok b)
        × ((check "USDT" (value_of (exact 1500) b) account ≡ ok (value_of (exact 1500) b ≼ b.free))
            × (query "USDT" (exact 1500) true account ≡ (
                if value_of (exact 1500) b ≼ b.free
                then ok (value_of (exact 1500) b)
                else err (insufficient_funds (value_of (exact 1500) b) b.free))))))
    ⊎ ((query "USDT" (exact 1500) true account ≡ err (asset_not_found "USDT"))
        × (check "USDT" 10 account ≡ err (asset_not_found "USDT")))
query-check_example = query-check "USDT" (exact 1500) true 10 account
