-- ===== src/Common/Table/Distinct.antt =====
-- Tables whose keys are distinct, as those of a map are.
use mathlib.Core.Path.{sym, ap, ◌∙◌, ◌≡◌, refl, subst}
use mathlib.Core.Bool.{Bool, true, false, ◌||◌}
use mathlib.Core.Option.{Option, none, some}
use mathlib.Core.List.{List, [], ◌∷◌}
use mathlib.Core.Logic.{inl, inr}
use babylon_playground_demo.Common.Tests.{if◌then◌else◌, Bool-cases}
use babylon_playground_demo.Common.Table.{Key, Table, find, put, erase, erase_all, find-put}

unfoldable pub Distinct : {K V : Type 0} ⦃key : Key K⦄ → Table K V → Type 0
Distinct [] = Unit {0}
Distinct ((k, v) ∷ d) = (find k d ≡ none) × Distinct d

module _ {K : Type 0} ⦃key : Key K⦄ where
  -- Whether a key is among these.
  unfoldable pub among : K → List K → Bool
  among k [] = false
  among k (j ∷ js) = key.same j k || among k js

module _ {K : Type 0} ⦃key : Key K⦄ where
  apart-sym : (i k : K) → key.same i k ≡ false → key.same k i ≡ false
  apart-sym i k h = elim (Bool-cases (key.same k i)) [
    | inl same ↦
        subst (λ x. key.same k x ≡ false) (key.eq_of_same k i same)
          (subst (λ x. key.same x k ≡ false) (sym (key.eq_of_same k i same)) h)
    | inr apart ↦ apart
  ]

pub if-true : {A : Type 0} (b : Bool) (x y : A) → b ≡ true → (if b then x else y) ≡ x
if-true true x y h = refl
if-true false x y h = cc

if-false : {A : Type 0} (b : Bool) (x y : A) → b ≡ false → (if b then x else y) ≡ y
if-false false x y h = refl
if-false true x y h = cc

if-none :
    {A : Type 0} (b : Bool) (a : A) (o : Option A)
    → (if b then some a else o) ≡ none
    → (b ≡ false) × (o ≡ none)
if-none true a o h = cc
if-none false a o h = (refl, h)

module _ {K V : Type 0} ⦃key : Key K⦄ where
  pub find-same :
      (j k : K) (v : V) (d : Table K V) → key.same j k ≡ true → find k ((j, v) ∷ d) ≡ some v
  unfolding find
  find-same j k v d h = if-true (key.same j k) _ _ h

  pub find-other :
      (j k : K) (v : V) (d : Table K V) → key.same j k ≡ false → find k ((j, v) ∷ d) ≡ find k d
  unfolding find
  find-other j k v d h = if-false (key.same j k) _ _ h

  pub find-none :
      (j k : K) (v : V) (d : Table K V)
      → find k ((j, v) ∷ d) ≡ none
      → (key.same j k ≡ false) × (find k d ≡ none)
  unfolding find
  find-none j k v d h = if-none (key.same j k) v (find k d) h

  erase-absent : (k j : K) (d : Table K V) → find j d ≡ none → find j (erase k d) ≡ none
  unfolding erase
  erase-absent k j [] h = h
  erase-absent k j ((i, v) ∷ d) h =
      let (other, rest) = find-none i j v d h in
      elim (Bool-cases (key.same i k)) [
        | inl same ↦ ap (find j) (if-true (key.same i k) d _ same) ∙ rest
        | inr apart ↦
            ap (find j) (if-false (key.same i k) d _ apart)
            ∙ (find-other i j v (erase k d) other ∙ erase-absent k j d rest)
      ]

  pub erase_all-absent :
      (ks : List K) (j : K) (d : Table K V) → find j d ≡ none → find j (erase_all ks d) ≡ none
  unfolding erase_all
  erase_all-absent [] j d h = h
  erase_all-absent (k ∷ ks) j d h = erase_all-absent ks j (erase k d) (erase-absent k j d h)

  find-erase_same :
      (k j : K) (d : Table K V) → Distinct d → key.same k j ≡ true → find j (erase k d) ≡ none
  unfolding erase Distinct find
  find-erase_same k j [] h e = refl
  find-erase_same k j ((i, v) ∷ d) (absent, h) e = elim (Bool-cases (key.same i k)) [
    | inl same ↦
        ap (find j) (if-true (key.same i k) d _ same)
        ∙ subst (λ x. find x d ≡ none) (key.eq_of_same i k same ∙ key.eq_of_same k j e) absent
    | inr apart ↦
        ap (find j) (if-false (key.same i k) d _ apart)
        ∙ (find-other i j v (erase k d)
              (subst (λ x. key.same i x ≡ false) (key.eq_of_same k j e) apart)
            ∙ find-erase_same k j d h e)
  ]

  erase-Distinct : (k : K) (d : Table K V) → Distinct d → Distinct (erase k d)
  unfolding erase Distinct
  erase-Distinct k [] h = h
  erase-Distinct k ((i, v) ∷ d) (absent, h) = elim (Bool-cases (key.same i k)) [
    | inl same ↦ subst Distinct (sym (if-true (key.same i k) d _ same)) h
    | inr apart ↦
        subst Distinct (sym (if-false (key.same i k) d _ apart))
          (erase-absent k i d absent, erase-Distinct k d h)
  ]

  pub erase_all-Distinct : (ks : List K) (d : Table K V) → Distinct d → Distinct (erase_all ks d)
  unfolding erase_all
  erase_all-Distinct [] d h = h
  erase_all-Distinct (k ∷ ks) d h = erase_all-Distinct ks (erase k d) (erase-Distinct k d h)

  pub erase_all-among :
      (ks : List K) (j : K) (d : Table K V)
      → Distinct d
      → among j ks ≡ true
      → find j (erase_all ks d) ≡ none
  unfolding erase_all among
  erase_all-among [] j d h e = cc
  erase_all-among (k ∷ ks) j d h e = elim (Bool-cases (key.same k j)) [
    | inl same ↦ erase_all-absent ks j (erase k d) (find-erase_same k j d h same)
    | inr apart ↦
        erase_all-among ks j (erase k d) (erase-Distinct k d h)
          (subst (λ b. (b || among j ks) ≡ true) apart e)
  ]

  put-absent :
      (k j : K) (v : V) (d : Table K V)
      → key.same k j ≡ false
      → find j d ≡ none
      → find j (put k v d) ≡ none
  put-absent k j v d apart h = find-put k j v d ∙ (if-false (key.same k j) _ _ apart ∙ h)

  pub put-Distinct : (k : K) (v : V) (d : Table K V) → Distinct d → Distinct (put k v d)
  unfolding put Distinct find
  put-Distinct k v [] h = (refl, tt)
  put-Distinct k v ((i, w) ∷ d) (absent, h) = elim (Bool-cases (key.same i k)) [
    | inl same ↦ subst Distinct (sym (if-true (key.same i k) ((i, v) ∷ d) _ same)) (absent, h)
    | inr apart ↦
        subst Distinct (sym (if-false (key.same i k) ((i, v) ∷ d) _ apart))
          (put-absent k i v d (apart-sym i k apart) absent, put-Distinct k v d h)
  ]
