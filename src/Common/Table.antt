-- ===== src/Common/Table.antt =====
-- A map of the standard collections, with keys that can be told apart: what the code uses of it. The
-- entries are in the order of their first insertion; where the source has a hash map, nothing of the
-- model depends on the order.
pub mod Every
pub mod Distinct
use Prim.Native.Nat.{ℕ}
use Prim.Native.String.{String}
use mathlib.Core.Path.{sym, ◌∙◌, ap, ◌≡◌, refl}
use mathlib.Core.Bool.{false, Bool, true}
use mathlib.Core.Option.{Option, none, some}
use mathlib.Core.List.{List, [], ◌∷◌}
use native.Mathlib.Omega.{arith}
use text.Mathlib.Text.{◌==◌ as ◌=ₜ◌}
use text.Mathlib.TextEquality.{eq_iff}
use text.Mathlib.TextPositions.{eq_refl}
use babylon_playground_demo.Common.Tests.{◌==◌, if◌then◌else◌}

pub record Key (K : Type 0) : Type 0 where
  pub same : K → K → Bool
  pub same_refl : (a : K) → same a a ≡ true
  pub eq_of_same : (a b : K) → same a b ≡ true → a ≡ b

pub number_eq : (a b : ℕ) → (a == b) ≡ true → a ≡ b
number_eq a b h = ground arith

pub number_refl : (a : ℕ) → (a == a) ≡ true
number_refl a = ground arith

instance unfoldable pub number_key : Key ℕ
number_key = record { same = λ a b. a == b; same_refl = number_refl; eq_of_same = number_eq }

instance unfoldable pub text_key : Key String
text_key = record {
  same = λ a b. a =ₜ b;
  same_refl = eq_refl;
  eq_of_same = λ a b h. (eq_iff a b).0 h;
}

abbrev pub Table : Type 0 → Type 0 → Type 0
Table K V = List (K × V)

module _ {K : Type 0} ⦃key : Key K⦄ where
  via : (i j k : K) → key.same i k ≡ true → key.same i j ≡ key.same k j
  via i j k h = ap (λ u. key.same u j) (key.eq_of_same i k h)

  meet : (i j k : K) → key.same i j ≡ true → key.same k j ≡ true → key.same i k ≡ true
  meet i j k h g =
      ap (λ u. key.same u k) (key.eq_of_same i j h ∙ sym (key.eq_of_same k j g)) ∙ key.same_refl k

module _ {K V : Type 0} ⦃key : Key K⦄ where
  unfoldable pub find : K → Table K V → Option V
  find k [] = none
  find k ((j, v) ∷ d) = if key.same j k then some v else find k d

  -- A key that is there keeps its place.
  unfoldable pub put : K → V → Table K V → Table K V
  put k v [] = (k, v) ∷ []
  put k v ((j, w) ∷ d) = let rest = put k v d in if key.same j k then (j, v) ∷ d else (j, w) ∷ rest

  pub find-put :
      (k j : K) (v : V) (d : Table K V)
      → find j (put k v d) ≡ (if key.same k j then some v else find j d)
  unfolding find put
  find-put k j v [] = refl
  find-put k j v ((i, w) ∷ d) = ground (arith, find-put k j v d, via i j k, meet i j k)

  pub find-put_same : (k : K) (v : V) (d : Table K V) → find k (put k v d) ≡ some v
  find-put_same k v d =
      find-put k k v d ∙ ap (λ b. if b then some v else find k d) (key.same_refl k)

  pub find-put_other :
      (k j : K) (v : V) (d : Table K V) → key.same k j ≡ false → find j (put k v d) ≡ find j d
  find-put_other k j v d h = find-put k j v d ∙ ap (λ b. if b then some v else find j d) h

  -- `shift_remove`: the entries after it move up. There is at most one entry of a key.
  unfoldable pub erase : K → Table K V → Table K V
  erase k [] = []
  erase k ((j, v) ∷ d) = let rest = erase k d in if key.same j k then d else (j, v) ∷ rest

  unfoldable pub erase_all : List K → Table K V → Table K V
  erase_all [] d = d
  erase_all (k ∷ ks) d = erase_all ks (erase k d)
