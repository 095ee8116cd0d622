-- ===== src/Base/Results.antt =====
-- How a call of the program's C++ code ends.
use mathlib.Core.Path.{◌≡◌, refl}

-- `returned a` returns `a`; `exited` is `exit(EXIT_FAILURE)` behind a message on stderr; `aborted` is a
-- failed `assert` or an uncaught exception; `running` is a loop that is still going when the fuel is
-- used up.
pub data Run {ℓ} (A : Type ℓ) : Type ℓ where
  returned : A → Run A
  exited : Run A
  aborted : Run A
  running : Run A

infixl 5 ◌>>=◌ ◌>>◌
abbrev pub ◌>>=◌ {ℓ κ} : {A : Type ℓ} {B : Type κ} → Run A → (A → Run B) → Run B
returned a >>= f = f a
exited >>= f = exited
aborted >>= f = aborted
running >>= f = running

abbrev pub ◌>>◌ {ℓ} : {B : Type ℓ} → Run (Unit {0}) → Run B → Run B
m >> k = m >>= λ _. k

-- Inversion of a bind that returns.
pub >>=-eq-returned {ℓ κ} :
    {A : Type ℓ} {B : Type κ} (m : Run A) (f : A → Run B) {b : B}
    → (m >>= f) ≡ returned b
    → (a : A) × (m ≡ returned a) × (f a ≡ returned b)
>>=-eq-returned (returned a) f h = (a, refl, h)
>>=-eq-returned exited f h = cc
>>=-eq-returned aborted f h = cc
>>=-eq-returned running f h = cc

pub returned-injective {ℓ} : {A : Type ℓ} {a b : A} → returned a ≡ returned b → a ≡ b
returned-injective e = cc

pub exited-ne-returned {ℓ} : {A : Type ℓ} {a : A} → exited ≡ returned a → ⊥
exited-ne-returned e = cc

pub running-ne-returned {ℓ} : {A : Type ℓ} {a : A} → running ≡ returned a → ⊥
running-ne-returned e = cc

pub aborted-ne-returned {ℓ} : {A : Type ℓ} {a : A} → aborted ≡ returned a → ⊥
aborted-ne-returned e = cc
