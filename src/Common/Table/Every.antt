-- ===== src/Common/Table/Every.antt =====
-- What holds of every entry of a table.
use mathlib.Core.Path.{sym, ◌≡◌, refl, subst}
use mathlib.Core.Bool.{Bool, true, false}
use mathlib.Core.Option.{Option, some}
use mathlib.Core.List.{List, [], ◌∷◌}
use mathlib.Core.Logic.{◌⊎◌, inl, inr}
use babylon_playground_demo.Common.Tests.{if◌then◌else◌}
use babylon_playground_demo.Common.Table.{Key, Table, find, put, erase, erase_all}

unfoldable pub Every : {K V : Type 0} → (K → V → Type 0) → Table K V → Type 0
Every P [] = Unit {0}
Every P ((k, v) ∷ d) = P k v × Every P d

pub if-holds :
    {A : Type 0} (P : A → Type 0) (b : Bool) (x y : A)
    → (b ≡ true → P x)
    → (b ≡ false → P y)
    → P (if b then x else y)
if-holds P true x y hx hy = hx refl
if-holds P false x y hx hy = hy refl

found_in :
    {V : Type 0} (b : Bool) (w v : V) (rest : Option V)
    → (if b then some w else rest) ≡ some v
    → ((b ≡ true) × (w ≡ v)) ⊎ (rest ≡ some v)
found_in true w v rest e = inl (refl, cc)
found_in false w v rest e = inr e

module _ {K V : Type 0} ⦃key : Key K⦄ (P : K → V → Type 0) where
  pub find-Every : (k : K) (v : V) (d : Table K V) → Every P d → find k d ≡ some v → P k v
  unfolding Every find
  find-Every k v [] h e = cc
  find-Every k v ((j, w) ∷ d) (p, h) e = elim (found_in (key.same j k) w v (find k d) e) [
    | inl (same, here) ↦ subst (λ x. P k x) here (subst (λ i. P i w) (key.eq_of_same j k same) p)
    | inr there ↦ find-Every k v d h there
  ]

  pub put-Every : (k : K) (v : V) (d : Table K V) → P k v → Every P d → Every P (put k v d)
  unfolding Every put
  put-Every k v [] p h = (p, tt)
  put-Every k v ((j, w) ∷ d) p (q, h) =
      if-holds (Every P) (key.same j k) ((j, v) ∷ d) ((j, w) ∷ put k v d)
        (λ same. (subst (λ i. P i v) (sym (key.eq_of_same j k same)) p, h))
        (λ _. (q, put-Every k v d p h))

  pub erase-Every : (k : K) (d : Table K V) → Every P d → Every P (erase k d)
  unfolding Every erase
  erase-Every k [] h = tt
  erase-Every k ((j, w) ∷ d) (q, h) =
      if-holds (Every P) (key.same j k) d ((j, w) ∷ erase k d) (λ _. h)
        (λ _. (q, erase-Every k d h))

  pub erase_all-Every : (ks : List K) (d : Table K V) → Every P d → Every P (erase_all ks d)
  unfolding erase_all
  erase_all-Every [] d h = h
  erase_all-Every (k ∷ ks) d h = erase_all-Every ks (erase k d) (erase-Every k d h)
