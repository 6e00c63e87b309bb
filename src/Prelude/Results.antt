-- ===== src/Prelude/Results.antt =====
-- Results that may be refused, and their `do` blocks.
use mathlib.Core.Bool.{Bool, true, false}
use mathlib.Core.Option.{Option, none, some}
use mathlib.Core.Logic.{◌⊎◌, inl, inr}
use mathlib.Core.Path.{◌≡◌, refl}

pub data Result {ℓ κ} (E : Type ℓ) (A : Type κ) : Type (ℓ ⊔ κ) where
  ok : A → Result E A
  err : E → Result E A

infixl 5 ◌>>=◌ ◌>>◌
abbrev pub ◌>>=◌ {ℓ κ μ} :
    {E : Type ℓ} {A : Type κ} {B : Type μ} → Result E A → (A → Result E B) → Result E B
ok a >>= f = f a
err e >>= f = err e

abbrev pub ◌>>◌ {ℓ κ} : {E : Type ℓ} {B : Type κ} → Result E (Unit {0}) → Result E B → Result E B
m >> k = m >>= λ _. k

-- Goes on if the test holds, and raises if not.
abbrev pub guard {ℓ} : {E : Type ℓ} → Bool → E → Result E (Unit {0})
guard true e = ok tt
guard false e = err e

-- `except`: raises another error in place of the one raised.
abbrev pub map_err {ℓ κ μ} :
    {E : Type ℓ} {F : Type κ} {A : Type μ} → (E → F) → Result E A → Result F A
map_err f (ok a) = ok a
map_err f (err e) = err (f e)

-- The value of an option, where its absence raises.
abbrev pub require {ℓ κ} : {E : Type ℓ} {A : Type κ} → Option A → E → Result E A
require none e = err e
require (some a) e = ok a

-- What is known of a chain that did not raise.
pub guard_ok {ℓ κ} :
    {E : Type ℓ} {B : Type κ} (b : Bool) (e : E) (k : Result E B) (y : B)
    → (guard b e >> k) ≡ ok y
    → (b ≡ true) × (k ≡ ok y)
guard_ok true e k y h = (refl, h)
guard_ok false e k y h = cc

pub guard_holds {ℓ} : {E : Type ℓ} (b : Bool) (e : E) → guard b e ≡ ok tt → b ≡ true
guard_holds true e h = refl
guard_holds false e h = cc

module _ {ℓ κ μ} {E : Type ℓ} {A : Type κ} {B : Type μ} where
  pub require_ok :
      (o : Option A) (e : E) (k : A → Result E B) (y : B)
      → (require o e >>= k) ≡ ok y
      → (a : A) × (o ≡ some a) × (k a ≡ ok y)
  require_ok none e k y h = cc
  require_ok (some a) e k y h = (a, refl, h)

  pub bind_ok :
      (m : Result E A) (k : A → Result E B) (y : B)
      → (m >>= k) ≡ ok y
      → (a : A) × (m ≡ ok a) × (k a ≡ ok y)
  bind_ok (ok a) k y h = (a, refl, h)
  bind_ok (err e) k y h = cc

  pub map_err_ok : (m : Result E A) (f : E → B) (a : A) → map_err f m ≡ ok a → m ≡ ok a
  map_err_ok (ok x) f a h = cc
  map_err_ok (err e) f a h = cc

pub Result-cases {ℓ κ} :
    {E : Type ℓ} {A : Type κ} (r : Result E A) → ((e : E) × (r ≡ err e)) ⊎ ((a : A) × (r ≡ ok a))
Result-cases (ok a) = inr (a, refl)
Result-cases (err e) = inl (e, refl)

pub require-some {ℓ κ} :
    {E : Type ℓ} {A : Type κ} (o : Option A) (e : E) (a : A) → require o e ≡ ok a → o ≡ some a
require-some none e a h = cc
require-some (some x) e a h = cc

-- A result has one value.
pub ok_unique {ℓ κ} :
    {E : Type ℓ} {A : Type κ} (r : Result E A) (a b : A) → r ≡ ok a → r ≡ ok b → a ≡ b
ok_unique (ok x) a b h k = cc
ok_unique (err e) a b h k = cc
