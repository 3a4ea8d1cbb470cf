-- ===== src/Balance/Funds.antt =====
-- src/balance.rs: what is read of an account after it was written, and what is granted of it.
use babylon_playground_demo.Common.{
  ◌≡◌, refl, ap, ◌∙◌, ◌⊎◌, inl, inr, Bool, false, Option, none, some, if◌then◌else◌, arith,
}
use babylon_playground_demo.Common.Result.{Result, ok, err, ok_or, ◌>>=◌}
use babylon_playground_demo.Common.Table.{find, put, find-put_same, find-put_other, text_key}
use babylon_playground_demo.Float.{OrderedFloat, ◌≼◌, ◌≽◌, ◌⊕◌}
use babylon_playground_demo.Types.{Ustr}
use babylon_playground_demo.Balance.{
  Balance, BalanceSheet, BalanceError, Amount, asset_not_found, insufficient_funds, get, set_free,
  freed, set_locked, lock, query, check, total, free, value_of, granted,
}

module _ {W : Type 0} ⦃f : OrderedFloat W⦄ where
  -- The account after both amounts were set.
  funded : Ustr → W → W → BalanceSheet W → Balance W
  funded asset a b sheet = lock asset b (some (freed asset a (find asset sheet)))

  funded-free :
      (asset : Ustr) (a b : W) (o : Option (Balance W))
      → (lock asset b (some (freed asset a o))).free ≡ a
  funded-free asset a b none = refl
  funded-free asset a b (some _) = refl

  get-funded :
      (asset : Ustr) (a b : W) (sheet : BalanceSheet W)
      → get asset (set_locked asset b (set_free asset a sheet)) ≡ ok (funded asset a b sheet)
  unfolding get set_locked set_free funded
  get-funded asset a b sheet =
      let seen = find-put_same asset (freed asset a (find asset sheet)) sheet in
      ap (λ o. ok_or o (asset_not_found asset))
        (find-put_same asset _ (put asset (freed asset a (find asset sheet)) sheet)
          ∙ ap (λ o. some (lock asset b o)) seen)

  -- After `set_free` and `set_locked` of an asset its free balance is the one amount, its total is the sum of
  -- both, and what is read of any other asset is as before.
  pub set_free-set_locked :
      (asset other : Ustr) (a b : W) (sheet : BalanceSheet W)
      → text_key.same asset other ≡ false
      → (free asset (set_locked asset b (set_free asset a sheet)) ≡ ok a)
        × ((total asset (set_locked asset b (set_free asset a sheet)) ≡ ok (a ⊕ b))
            × (get other (set_locked asset b (set_free asset a sheet)) ≡ get other sheet))
  unfolding free total get set_locked set_free funded
  set_free-set_locked asset other a b sheet differ =
      let seen = get-funded asset a b sheet in
      let same = funded-free asset a b (find asset sheet) in
      (
        ap (λ r. r >>= (λ x. ok x.free)) seen ∙ ap ok same,
        (
          ap (λ r. r >>= (λ x. ok (x.free ⊕ x.locked))) seen ∙ ap (λ x. ok (x ⊕ b)) same,
          ap (λ o. ok_or o (asset_not_found other))
              (find-put_other asset other _ _ differ ∙ find-put_other asset other _ sheet differ),
        ),
      )

  granted_as :
      (v : W) (b : Balance W)
      → granted v b ≡ (if v ≼ b.free then ok v else err (insufficient_funds v b.free))
  granted_as v b = ground arith

  abbrev account : Ustr → Option (Balance W) → Result (BalanceError W) (Balance W)
  account asset o = ok_or o (asset_not_found asset)

  answers :
      (asset : Ustr) (amount : Amount W) (v : W) (o : Option (Balance W))
      → ((b : Balance W) × ((account asset o ≡ ok b)
            × (((account asset o >>= (λ x. ok x.free)) >>= (λ x. ok (x ≽ value_of amount b))
                  ≡ ok (value_of amount b ≼ b.free))
                × ((account asset o >>= (λ x. granted (value_of amount x) x)) ≡ (
                    if value_of amount b ≼ b.free
                    then ok (value_of amount b)
                    else err (insufficient_funds (value_of amount b) b.free))))))
        ⊎ (((account asset o >>= (λ x. granted (value_of amount x) x))
              ≡ err (asset_not_found asset))
            × ((account asset o >>= (λ x. ok x.free)) >>= (λ x. ok (x ≽ v))
                ≡ err (asset_not_found asset)))
  answers asset amount v none = inr (refl, refl)
  answers asset amount v (some b) = inl (b, (refl, (refl, granted_as (value_of amount b) b)))

  -- Of an asset that has an account `query` grants the value that was asked for just where `check` says
  -- that the free balance covers it, and otherwise gives the error with both amounts. Of an asset
  -- without an account both give `asset_not_found`.
  pub query-check :
      (asset : Ustr) (amount : Amount W) (flag : Bool) (v : W) (sheet : BalanceSheet W)
      → ((b : Balance W) × ((get asset sheet ≡ ok b)
            × ((check asset (value_of amount b) sheet ≡ ok (value_of amount b ≼ b.free))
                × (query asset amount flag sheet ≡ (
                    if value_of amount b ≼ b.free
                    then ok (value_of amount b)
                    else err (insufficient_funds (value_of amount b) b.free))))))
        ⊎ ((query asset amount flag sheet ≡ err (asset_not_found asset))
            × (check asset v sheet ≡ err (asset_not_found asset)))
  unfolding query check free get
  query-check asset amount flag v sheet = answers asset amount v (find asset sheet)
