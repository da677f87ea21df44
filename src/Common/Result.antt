-- ===== src/Common/Result.antt =====
-- Go's `(value, error)`, over the errors that the operation can return.
use agentic_preview.Common.Tests.{if◌then◌else◌}
use mathlib.Core.Logic.{◌⊎◌, inl, inr}
use mathlib.Core.Path.{◌≡◌, refl}
use mathlib.Core.Bool.{Bool, true, false}

pub data Result {ℓ} (E : Type 0) (A : Type ℓ) : Type ℓ where
  ok : A → Result E A
  err : E → Result E A

module _ {E : Type 0} where
  infixl 5 ◌>>=◌
  abbrev pub ◌>>=◌ {ℓ κ} : {A : Type ℓ} {B : Type κ} → Result E A → (A → Result E B) → Result E B
  err why >>= next = err why
  ok value >>= next = next value

  infixl 5 ◌>>◌
  abbrev pub ◌>>◌ {κ} : {B : Type κ} → Result E (Unit {0}) → Result E B → Result E B
  err why >> next = err why
  ok done >> next = next

  -- `if !b { return err }`
  abbrev pub require : Bool → E → Result E (Unit {0})
  require true e = ok tt
  require false e = err e

  -- `if b { return err }`
  abbrev pub refuse : Bool → E → Result E (Unit {0})
  refuse true e = err e
  refuse false e = ok tt

  pub >>=-eq-ok {ℓ κ} :
      {A : Type ℓ} {B : Type κ} (m : Result E A) (f : A → Result E B) {b : B}
      → (m >>= f) ≡ ok b
      → (a : A) × (m ≡ ok a) × (f a ≡ ok b)
  >>=-eq-ok (err why) f h = cc
  >>=-eq-ok (ok value) f h = (value, refl, h)

  pub require-eq-ok :
      {B : Type 0} (b : Bool) (e : E) (m : Result E B) {r : B}
      → (require b e >> m) ≡ ok r
      → (b ≡ true) × (m ≡ ok r)
  require-eq-ok true e m h = (refl, h)
  require-eq-ok false e m h = cc

  pub refuse-eq-ok :
      {B : Type 0} (b : Bool) (e : E) (m : Result E B) {r : B}
      → (refuse b e >> m) ≡ ok r
      → (b ≡ false) × (m ≡ ok r)
  refuse-eq-ok false e m h = (refl, h)
  refuse-eq-ok true e m h = cc

  pub ok-inj {ℓ} : {A : Type ℓ} {x y : A} → ◌≡◌ {A = Result E A} (ok x) (ok y) → x ≡ y
  ok-inj h = cc

  pub if-eq-ok {ℓ} :
      {A : Type ℓ} (b : Bool) (m n : Result E A) {r : A}
      → (if b then m else n) ≡ ok r
      → ((b ≡ true) × (m ≡ ok r)) ⊎ ((b ≡ false) × (n ≡ ok r))
  if-eq-ok true m n h = inl (refl, h)
  if-eq-ok false m n h = inr (refl, h)
