-- ===== src/Prelude/Result.antt =====
-- Code that returns or raises.
use mathlib.Core.Path.{◌≡◌, refl}
use mathlib.Core.Bool.{Bool, true, false}

pub data Result {ℓ} (E A : Type ℓ) : Type ℓ where
  ok : A → Result E A
  err : E → Result E A

module _ {ℓ} {E : Type ℓ} where
  infixl 5 ◌>>=◌ ◌>>◌
  abbrev pub ◌>>=◌ : {A B : Type ℓ} → Result E A → (A → Result E B) → Result E B
  ok a >>= f = f a
  err e >>= f = err e

  abbrev pub ◌>>◌ : {A B : Type ℓ} → Result E A → Result E B → Result E B
  m >> k = m >>= λ _. k

  -- `if c: raise e`
  abbrev pub raise_if : Bool → E → Result E (Unit {ℓ})
  raise_if true e = err e
  raise_if false e = ok tt

  -- Inversions of code that returned.
  pub >>=-ok :
      {A B : Type ℓ} (m : Result E A) (f : A → Result E B) (b : B)
      → (m >>= f) ≡ ok b
      → (a : A) × (m ≡ ok a) × (f a ≡ ok b)
  >>=-ok (ok a) f b h = (a, refl, h)
  >>=-ok (err e) f b h = cc

  pub raise_if-ok :
      {B : Type ℓ} (c : Bool) (e : E) (k : Result E B) (b : B)
      → (raise_if c e >> k) ≡ ok b
      → (c ≡ false) × (k ≡ ok b)
  raise_if-ok true e k b h = cc
  raise_if-ok false e k b h = (refl, h)
