-- ===== src/Common/Result.antt =====
-- `Result<A, E>`, with the error first.
use mathlib.Core.Path.{◌≡◌, refl}
use mathlib.Core.Bool.{Bool, true, false}
use mathlib.Core.Option.{Option, none, some}

pub data Result {ℓ κ} (E : Type ℓ) (A : Type κ) : Type (ℓ ⊔ κ) where
  ok : A → Result E A
  err : E → Result E A

-- `Option::ok_or`.
abbrev pub ok_or {ℓ κ} : {E : Type ℓ} {A : Type κ} → Option A → E → Result E A
ok_or none e = err e
ok_or (some a) e = ok a

infixl 5 ◌>>=◌ ◌>>◌
abbrev pub ◌>>=◌ {ℓ κ μ} :
    {E : Type ℓ} {A : Type κ} {B : Type μ} → Result E A → (A → Result E B) → Result E B
ok a >>= f = f a
err e >>= f = err e

abbrev pub ◌>>◌ {ℓ κ} : {E : Type ℓ} {B : Type κ} → Result E (Unit {0}) → Result E B → Result E B
m >> k = m >>= λ _. k

-- `if b { return Err(e) }`.
unfoldable pub refuse_if : {E : Type 0} → Bool → E → Result E (Unit {0})
refuse_if true e = err e
refuse_if false e = ok tt

pub refuse-passed :
    {E A : Type 0} (b : Bool) (e : E) (k : Result E A) (x : A)
    → (refuse_if b e >> k) ≡ ok x
    → (b ≡ false) × (k ≡ ok x)
unfolding refuse_if
refuse-passed true e k x h = cc
refuse-passed false e k x h = (refl, h)

pub refuse-last : {E : Type 0} (b : Bool) (e : E) → refuse_if b e ≡ ok tt → b ≡ false
unfolding refuse_if
refuse-last true e h = cc
refuse-last false e h = refl

pub then-ok :
    {E A : Type 0} (m : Result E (Unit {0})) (k : Result E A) (x : A)
    → (m >> k) ≡ ok x
    → (m ≡ ok tt) × (k ≡ ok x)
then-ok (ok u) k x h = (refl, h)
then-ok (err e) k x h = cc

-- Where an option that is asked for a value leads to a result, it had one.
pub bind-passed :
    {E A B : Type 0} (o : Option A) (e : E) (k : A → Result E B) (x : B)
    → (ok_or o e >>= k) ≡ ok x
    → (a : A) × ((o ≡ some a) × (k a ≡ ok x))
bind-passed none e k x h = cc
bind-passed (some a) e k x h = (a, (refl, h))

pub ok_or-some : {E A : Type 0} (o : Option A) (e : E) (a : A) → ok_or o e ≡ ok a → o ≡ some a
ok_or-some none e a h = cc
ok_or-some (some b) e a h = cc
