-- ===== src/Base/Outcome.antt =====
-- Go's `(value, error)` pair as a sum over the error type of the component, and its `do` blocks.
use mathlib.Core.Bool.{Bool, true, false}
use mathlib.Core.Path.{◌≡◌, refl}

pub data Outcome {ℓ} (E A : Type ℓ) : Type ℓ where
  ok : A → Outcome E A
  err : E → Outcome E A

infixl 5 ◌>>=◌ ◌>>◌
abbrev pub ◌>>=◌ {ℓ} : {E A B : Type ℓ} → Outcome E A → (A → Outcome E B) → Outcome E B
ok a >>= f = f a
err e >>= f = err e

abbrev pub ◌>>◌ {ℓ} : {E B : Type ℓ} → Outcome E (Unit {ℓ}) → Outcome E B → Outcome E B
m >> k = m >>= λ _. k

-- `if bad { return err }`
abbrev pub refuse {ℓ} : {E : Type ℓ} → Bool → E → Outcome E (Unit {ℓ})
refuse true e = err e
refuse false e = ok tt

-- The same for calls that change a state, which stays changed beside an error.
abbrev pub and_then {ℓ} :
    {E A B S : Type ℓ} → Outcome E A × S → (A → S → Outcome E B × S) → Outcome E B × S
and_then (ok a, s) f = f a s
and_then (err e, s) f = (err e, s)

-- What comes of a chain that returns a value.
pub bind_ok {ℓ} :
    {E A B : Type ℓ} (m : Outcome E A) (f : A → Outcome E B) {b : B}
    → (m >>= f) ≡ ok b
    → (a : A) × (m ≡ ok a) × (f a ≡ ok b)
bind_ok (ok a) f h = (a, refl, h)
bind_ok (err e) f h = cc

pub refuse_ok {ℓ} :
    {E B : Type ℓ} (bad : Bool) (e : E) (m : Outcome E B) {b : B}
    → (refuse bad e >> m) ≡ ok b
    → (bad ≡ false) × (m ≡ ok b)
refuse_ok true e m h = cc
refuse_ok false e m h = (refl, h)

pub ok-injective {ℓ} : {E A : Type ℓ} {a b : A} (e : Path (Outcome E A) (ok a) (ok b)) → a ≡ b
ok-injective h = cc
