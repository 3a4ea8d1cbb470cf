-- ===== src/Float.antt =====
-- `OrderedFloat<f64>` of the crate ordered_float, `OrderedValueType` in src/types.rs: what the code
-- uses of it, as an interface over the type `W` of its values.
pub mod Units
use babylon_playground_demo.Common.{ℕ, Bool, true, ◌≡◌, ◌&&◌, ◌||◌, not}

pub record OrderedFloat (W : Type 0) : Type 0 where
  -- The constants 0.0, 1.0 and 0.001.
  pub nought : W
  pub one : W
  pub milli : W
  pub plus : W → W → W
  pub minus : W → W → W
  pub times : W → W → W
  pub over : W → W → W
  -- `%`, the remainder of a division that rounds to zero.
  pub modulo : W → W → W
  pub floor : W → W
  pub round : W → W
  pub abs : W → W
  -- `(10.0).powi(n)`.
  pub power_of_ten : ℕ → W
  -- The total order of `OrderedFloat`, in which NaN is above all else.
  pub le : W → W → Bool
  -- `is_zero`: equality with 0.0.
  pub is_zero : W → Bool

-- The other tests are those of a total order: `a < b` is the negation of `b <= a`, and `a == b` is
-- `a <= b` both ways.
module _ {W : Type 0} ⦃f : OrderedFloat W⦄ where
  infix 50 ◌≼◌ ◌≺◌ ◌≽◌ ◌≻◌ ◌≈◌
  abbrev pub ◌≼◌ : W → W → Bool
  a ≼ b = f.le a b

  abbrev pub ◌≺◌ : W → W → Bool
  a ≺ b = not (f.le b a)

  abbrev pub ◌≽◌ : W → W → Bool
  a ≽ b = f.le b a

  abbrev pub ◌≻◌ : W → W → Bool
  a ≻ b = not (f.le a b)

  abbrev pub ◌≈◌ : W → W → Bool
  a ≈ b = f.le a b && f.le b a

  infixl 65 ◌⊕◌ ◌⊖◌
  infixl 70 ◌⊗◌ ◌⊘◌
  abbrev pub ◌⊕◌ : W → W → W
  a ⊕ b = f.plus a b

  abbrev pub ◌⊖◌ : W → W → W
  a ⊖ b = f.minus a b

  abbrev pub ◌⊗◌ : W → W → W
  a ⊗ b = f.times a b

  abbrev pub ◌⊘◌ : W → W → W
  a ⊘ b = f.over a b

  -- `round_float_to_precision` of src/util.rs, at a precision that is not negative.
  unfoldable pub round_to_precision : W → ℕ → W
  round_to_precision x precision = f.round (x ⊗ f.power_of_ten precision) ⊘ f.power_of_ten precision

-- What `cmp` of `OrderedFloat` promises: a total preorder.
pub record IsOrdered {W : Type 0} (f : OrderedFloat W) : Type 0 where
  pub le_refl : (a : W) → f.le a a ≡ true
  pub le_trans : (a b c : W) → f.le a b ≡ true → f.le b c ≡ true → f.le a c ≡ true
  pub le_total : (a b : W) → (f.le a b || f.le b a) ≡ true
