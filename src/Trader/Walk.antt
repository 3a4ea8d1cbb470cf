-- ===== src/Trader/Walk.antt =====
-- A loop `for (k, v) in table.iter_mut()` of src/trader.rs, whose body may leave it by an error, and
-- collects values. A step takes the number of readings, and gives back the entry's new value.
use babylon_playground_demo.Common.{ℕ, List, [], ◌∷◌, ◌++◌}
use babylon_playground_demo.Common.{◌≡◌, ◌∙◌, none}
use babylon_playground_demo.Common.Table.{Key, Table, find}
use babylon_playground_demo.Common.Table.Distinct.{Distinct, find-none, find-other}
use babylon_playground_demo.Common.Table.Every.{Every}
use babylon_playground_demo.Order.Monad.{Outcome, done, failed, panicked, out_of_fuel}

abbrev pub Step : Type 0 → Type 0 → Type 0 → Type 0 → Type 0
Step E A K V = K → V → ℕ → Outcome E (List A) × (V × ℕ)

module _ {E A : Type 0} where
  abbrev pub prefixed : List A → Outcome E (List A) → Outcome E (List A)
  prefixed xs (done ys) = done (xs ++ ys)
  prefixed xs (failed e) = failed e
  prefixed xs panicked = panicked
  prefixed xs out_of_fuel = out_of_fuel

module _ {E A K V : Type 0} where
  -- After the body ended like this at an entry: the loop goes on with what is given of the others, or
  -- leaves them as they are.
  abbrev pub walked :
      K
      → Outcome E (List A) × (V × ℕ)
      → Table K V
      → Outcome E (List A) × (Table K V × ℕ)
      → Outcome E (List A) × (Table K V × ℕ)
  walked k (done xs, (v, n)) d rest = (prefixed xs rest.0, ((k, v) ∷ rest.1.0, rest.1.1))
  walked k (failed e, (v, n)) d rest = (failed e, ((k, v) ∷ d, n))
  walked k (panicked, (v, n)) d rest = (panicked, ((k, v) ∷ d, n))
  walked k (out_of_fuel, (v, n)) d rest = (out_of_fuel, ((k, v) ∷ d, n))

  unfoldable pub walk : Step E A K V → Table K V → ℕ → Outcome E (List A) × (Table K V × ℕ)
  walk step [] n = (done [], ([], n))
  walk step ((k, v) ∷ d) n = let r = step k v n in let rest = walk step d r.1.1 in walked k r d rest

  walked-Every :
      (P : K → V → Type 0) (k : K) (r : Outcome E (List A) × (V × ℕ)) (d : Table K V)
      (rest : Outcome E (List A) × (Table K V × ℕ))
      → P k r.1.0
      → Every P d
      → Every P rest.1.0
      → Every P (walked k r d rest).1.0
  unfolding Every
  walked-Every P k (done xs, (v, n)) d rest p h g = (p, g)
  walked-Every P k (failed e, (v, n)) d rest p h g = (p, h)
  walked-Every P k (panicked, (v, n)) d rest p h g = (p, h)
  walked-Every P k (out_of_fuel, (v, n)) d rest p h g = (p, h)

  -- What every step keeps of an entry, the loop keeps of all.
  pub walk-Every :
      (P : K → V → Type 0) (step : Step E A K V)
      → ((k : K) (v : V) (n : ℕ) → P k v → P k (step k v n).1.0)
      → (d : Table K V) (n : ℕ) → Every P d
      → Every P (walk step d n).1.0
  unfolding walk Every
  walk-Every P step kept [] n h = tt
  walk-Every P step kept ((k, v) ∷ d) n (p, h) =
      let r = step k v n in
      walked-Every P k r d (walk step d r.1.1) (kept k v n p) h (walk-Every P step kept d r.1.1 h)

module _ {E A K V : Type 0} ⦃key : Key K⦄ where
  walked-absent :
      (k j : K) (w : V) (r : Outcome E (List A) × (V × ℕ)) (d : Table K V)
      (rest : Outcome E (List A) × (Table K V × ℕ))
      → find j ((k, w) ∷ d) ≡ none
      → find j rest.1.0 ≡ none
      → find j (walked k r d rest).1.0 ≡ none
  walked-absent k j w (done xs, (v, n)) d rest h g =
      find-other k j v rest.1.0 (find-none k j w d h).0 ∙ g
  walked-absent k j w (failed e, (v, n)) d rest h g =
      find-other k j v d (find-none k j w d h).0 ∙ (find-none k j w d h).1
  walked-absent k j w (panicked, (v, n)) d rest h g =
      find-other k j v d (find-none k j w d h).0 ∙ (find-none k j w d h).1
  walked-absent k j w (out_of_fuel, (v, n)) d rest h g =
      find-other k j v d (find-none k j w d h).0 ∙ (find-none k j w d h).1

  walk-absent :
      (step : Step E A K V) (j : K) (d : Table K V) (n : ℕ)
      → find j d ≡ none
      → find j (walk step d n).1.0 ≡ none
  unfolding walk
  walk-absent step j [] n h = h
  walk-absent step j ((k, v) ∷ d) n h =
      let r = step k v n in
      walked-absent k j v r d (walk step d r.1.1) h
        (walk-absent step j d r.1.1 (find-none k j v d h).1)

  walked-Distinct :
      (k : K) (r : Outcome E (List A) × (V × ℕ)) (d : Table K V)
      (rest : Outcome E (List A) × (Table K V × ℕ))
      → (find k d ≡ none) × Distinct d
      → (find k rest.1.0 ≡ none) × Distinct rest.1.0
      → Distinct (walked k r d rest).1.0
  unfolding Distinct
  walked-Distinct k (done xs, (v, n)) d rest h g = g
  walked-Distinct k (failed e, (v, n)) d rest h g = h
  walked-Distinct k (panicked, (v, n)) d rest h g = h
  walked-Distinct k (out_of_fuel, (v, n)) d rest h g = h

  pub walk-Distinct :
      (step : Step E A K V) (d : Table K V) (n : ℕ) → Distinct d → Distinct (walk step d n).1.0
  unfolding walk Distinct
  walk-Distinct step [] n h = h
  walk-Distinct step ((k, v) ∷ d) n h =
      let r = step k v n in
      walked-Distinct k r d (walk step d r.1.1) h
        (walk-absent step k d r.1.1 h.0, walk-Distinct step d r.1.1 h.1)
