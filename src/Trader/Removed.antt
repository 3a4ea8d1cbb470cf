-- ===== src/Trader/Removed.antt =====
-- That `compute` of the trader removes the trades that are closed.
use babylon_playground_demo.Common.{
  ℕ, suc, Bool, true, false, ◌≡◌, refl, sym, ap, ◌∙◌, subst, inl, inr, ◌||◌, ◌==◌, none, some, List,
  [], ◌∷◌, ◌++◌, Bool-cases, arith,
}
use babylon_playground_demo.Common.Table.{Key, Table, find, text_key, number_key}
use babylon_playground_demo.Common.Table.Distinct.{
  Distinct, among, find-same, find-other, if-true, erase_all-among,
}
use babylon_playground_demo.Float.{OrderedFloat}
use babylon_playground_demo.Trigger.{Trigger}
use babylon_playground_demo.Types.{Ustr}
use babylon_playground_demo.Instruction.{HandleId, OrderId, ManagedInstruction}
use babylon_playground_demo.Order.Monad.{Outcome, done, failed, panicked, out_of_fuel}
use babylon_playground_demo.Order.Data.{Order}
use babylon_playground_demo.Trade.Data.{Trade}
use babylon_playground_demo.Trade.Query.{is_closed}
use babylon_playground_demo.Trader.Error.{TraderError}
use babylon_playground_demo.Trader.Data.{TraderSymbolContext, Outside}
use babylon_playground_demo.Trader.Walk.{Step, walked, walk, walk-Distinct}
use babylon_playground_demo.Trader.Compute.{
  instruct, Found, closed_trade, closed_of, instructions_of, served_trades, served_orders,
  serve_order, serve_trade, serve_context,
}

-- Whether one of the values passes the test.
abbrev any : {A : Type 0} → (A → Bool) → List A → Bool
any g [] = false
any g (x ∷ xs) = g x || any g xs

any-left : {A : Type 0} (g : A → Bool) (xs ys : List A) → any g xs ≡ true → any g (xs ++ ys) ≡ true
any-left g [] ys h = cc
any-left g (x ∷ xs) ys h = grind (arith, any-left g xs ys)

any-right : {A : Type 0} (g : A → Bool) (xs ys : List A) → any g ys ≡ true → any g (xs ++ ys) ≡ true
any-right g [] ys h = h
any-right g (x ∷ xs) ys h = grind (arith, any-right g xs ys)

-- What is known of a step at the entry of a key, and of the loop, which has returned these values.
pub record Stepped {E A K V : Type 0} ⦃key : Key K⦄ (step : Step E A K V) (k : K) (v : V)
    (zs : List A) (d : Table K V) : Type 0 where
  pub reads : ℕ
  pub found : List A
  pub returned : (step k v reads).0 ≡ done found
  pub stored : find k d ≡ some (step k v reads).1.0
  pub kept : (g : A → Bool) → any g found ≡ true → any g zs ≡ true

done-inj : {E A : Type 0} (a b : A) → ◌≡◌ {A = Outcome E A} (done a) (done b) → a ≡ b
done-inj a b h = cc

some-inj : {A : Type 0} (a b : A) → some a ≡ some b → a ≡ b
some-inj a b h = cc

module _ {E A K V : Type 0} ⦃key : Key K⦄ (step : Step E A K V) where
  walked-Stepped :
      (j k : K) (v w : V) (n : ℕ) (r : Outcome E (List A) × (V × ℕ)) (d : Table K V)
      (rest : Outcome E (List A) × (Table K V × ℕ)) (zs : List A)
      → step j w n ≡ r
      → find k ((j, w) ∷ d) ≡ some v
      → (walked j r d rest).0 ≡ done zs
      → ((ys : List A) → find k d ≡ some v → rest.0 ≡ done ys → Stepped step k v ys rest.1.0)
      → Stepped step k v zs (walked j r d rest).1.0
  walked-Stepped j k v w n (done xs, (u, o)) d (done ys, (e, q)) zs same found end more =
      let all = done-inj (xs ++ ys) zs end in
      elim (Bool-cases (key.same j k)) [
        | inl here ↦
            let this = some-inj w v (sym (find-same j k w d here) ∙ found) in
            let eq =
              subst (λ x. step k x n ≡ (done xs, (u, o))) this
                (subst (λ i. step i w n ≡ (done xs, (u, o))) (key.eq_of_same j k here) same) in
            record {
              reads = n;
              found = xs;
              returned = ap (λ x. x.0) eq;
              stored = find-same j k u e here ∙ ap (λ x. some x.1.0) (sym eq);
              kept = λ g h. subst (λ l. any g l ≡ true) all (any-left g xs ys h);
            }
        | inr apart ↦
            let rest = more ys (sym (find-other j k w d apart) ∙ found) refl in
            record {
              reads = rest.reads;
              found = rest.found;
              returned = rest.returned;
              stored = find-other j k u e apart ∙ rest.stored;
              kept = λ g h. subst (λ l. any g l ≡ true) all (any-right g xs ys (rest.kept g h));
            }
      ]
  walked-Stepped j k v w n (done xs, (u, o)) d (failed x, (e, q)) zs same found end more = cc
  walked-Stepped j k v w n (done xs, (u, o)) d (panicked, (e, q)) zs same found end more = cc
  walked-Stepped j k v w n (done xs, (u, o)) d (out_of_fuel, (e, q)) zs same found end more = cc
  walked-Stepped j k v w n (failed x, (u, o)) d rest zs same found end more = cc
  walked-Stepped j k v w n (panicked, (u, o)) d rest zs same found end more = cc
  walked-Stepped j k v w n (out_of_fuel, (u, o)) d rest zs same found end more = cc

  pub walk-Stepped :
      (k : K) (v : V) (d : Table K V) (n : ℕ) (zs : List A)
      → find k d ≡ some v
      → (walk step d n).0 ≡ done zs
      → Stepped step k v zs (walk step d n).1.0
  unfolding walk find
  walk-Stepped k v [] n zs found end = cc
  walk-Stepped k v ((j, w) ∷ d) n zs found end =
      let r = step j w n in
      walked-Stepped j k v w n r d (walk step d r.1.1) zs refl found end
        λ ys there done. walk-Stepped k v d r.1.1 ys there done

abbrev pub closes : {W : Type 0} → HandleId → Found W → Bool
closes i (closed_trade j) = j == i
closes i _ = false

closed_of-among :
    {W : Type 0} (i : HandleId) (zs : List (Found W))
    → any (closes i) zs ≡ true
    → among i (closed_of zs) ≡ true
unfolding among number_key
closed_of-among i [] h = cc
closed_of-among i (instruct x ∷ zs) h = closed_of-among i zs h
closed_of-among i (closed_trade j ∷ zs) h = grind (arith, closed_of-among i zs)

closes-own :
    (W : Type 0) (j i : HandleId) → j ≡ i → any (closes {W = W} i) (closed_trade j ∷ []) ≡ true
closes-own W j i h = ground arith

module _ {W D T : Type 0} ⦃f : OrderedFloat W⦄ ⦃t : Trigger W T⦄ (outside : Outside W D T)
    (depth : ℕ) where
  -- A trade that is closed is found to be.
  serve_trade-closes :
      (s : Ustr) (i : HandleId) (trade : Trade W T) (n : ℕ) (xs : List (Found W))
      → is_closed trade ≡ true
      → trade.id ≡ i
      → (serve_trade outside depth s i trade n).0 ≡ done xs
      → any (closes i) xs ≡ true
  unfolding serve_trade
  serve_trade-closes s i trade n xs shut same h =
      let said =
        ap (λ (r : Outcome (TraderError W) (List (Found W)) × (Trade W T × ℕ)). r.0)
          (if-true (is_closed trade) (done (closed_trade trade.id ∷ []), (trade, n)) _ shut) in
      subst (λ l. any (closes i) l ≡ true) (done-inj (closed_trade trade.id ∷ []) xs (sym said ∙ h))
        (closes-own W trade.id i same)

  -- What is left of the trades of a context.
  served_trades-removes :
      (i : HandleId)
      (r : Outcome (TraderError W) (List (Found W)) × (List (HandleId × Trade W T) × ℕ))
      (cx : TraderSymbolContext W D T) (picked zs : List (ManagedInstruction W))
      → ((found : List (Found W)) → r.0 ≡ done found → any (closes i) found ≡ true)
      → Distinct r.1.0
      → (served_trades r cx picked).0 ≡ done zs
      → find i (served_trades r cx picked).1.0.trades ≡ none
  served_trades-removes i (done found, (trades, n)) cx picked zs known h e =
      erase_all-among (closed_of found) i trades h (closed_of-among i found (known found refl))
  served_trades-removes i (failed x, (trades, n)) cx picked zs known h e = cc
  served_trades-removes i (panicked, (trades, n)) cx picked zs known h e = cc
  served_trades-removes i (out_of_fuel, (trades, n)) cx picked zs known h e = cc

  served_orders-removes :
      (i : HandleId)
      (r : Outcome (TraderError W) (List (Found W)) × (List (OrderId × Order W T) × ℕ))
      (cx : TraderSymbolContext W D T)
      (next : List (ManagedInstruction W)
        → Outcome (TraderError W) (List (ManagedInstruction W)) × (TraderSymbolContext W D T × ℕ))
      (zs : List (ManagedInstruction W))
      → ((picked : List (ManagedInstruction W))
          → (next picked).0 ≡ done zs
          → find i (next picked).1.0.trades ≡ none)
      → (served_orders r cx next).0 ≡ done zs
      → find i (served_orders r cx next).1.0.trades ≡ none
  served_orders-removes i (done found, (orders, n)) cx next zs known e =
      known (instructions_of found) e
  served_orders-removes i (failed x, (orders, n)) cx next zs known e = cc
  served_orders-removes i (panicked, (orders, n)) cx next zs known e = cc
  served_orders-removes i (out_of_fuel, (orders, n)) cx next zs known e = cc

  pub serve_context-removes :
      (s : Ustr) (cx : TraderSymbolContext W D T) (n : ℕ) (zs : List (ManagedInstruction W))
      (i : HandleId) (trade : Trade W T)
      → Distinct cx.trades
      → find i cx.trades ≡ some trade
      → is_closed trade ≡ true
      → trade.id ≡ i
      → (serve_context outside depth s cx n).0 ≡ done zs
      → find i (serve_context outside depth s cx n).1.0.trades ≡ none
  unfolding serve_context
  serve_context-removes s cx n zs i trade h there shut same e =
      let os = walk (serve_order outside depth s) cx.orders (suc n) in
      let ts = walk (serve_trade outside depth s) cx.trades os.1.1 in
      served_orders-removes i os (record cx { orders = os.1.0 }) _ zs
        (λ picked end.
          served_trades-removes i ts (record cx { orders = os.1.0 }) picked zs
            (λ found back.
              let at =
                walk-Stepped (serve_trade outside depth s) i trade cx.trades os.1.1 found there
                  back in
              at.kept (closes i)
                (serve_trade-closes s i trade at.reads at.found shut same at.returned))
            (walk-Distinct (serve_trade outside depth s) cx.trades os.1.1 h) end)
        e
