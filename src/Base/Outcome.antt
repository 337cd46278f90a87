-- ===== src/Base/Outcome.antt =====
-- What a piece of C does: it returns a value, or it writes past the end of an array, after which
-- the language promises nothing.
use mathlib.Core.Path.{◌≡◌, refl}
use mathlib.Core.Logic.{◌⊎◌, inl, inr}

pub data Exec {ℓ} (A : Type ℓ) : Type ℓ where
  done : A → Exec A
  overrun : Exec A

infixl 5 ◌>>=◌
abbrev pub ◌>>=◌ {ℓ κ} : {A : Type ℓ} {B : Type κ} → Exec A → (A → Exec B) → Exec B
done a >>= f = f a
overrun >>= f = overrun

pub >>=-eq-done {ℓ κ} :
    {A : Type ℓ} {B : Type κ} (m : Exec A) (f : A → Exec B) {b : B}
    → (m >>= f) ≡ done b
    → (a : A) × (m ≡ done a) × (f a ≡ done b)
>>=-eq-done (done a) f h = (a, refl, h)
>>=-eq-done overrun f h = cc

pub Exec-cases {ℓ} : {A : Type ℓ} (m : Exec A) → (m ≡ overrun) ⊎ ((a : A) × (m ≡ done a))
Exec-cases (done a) = inr (a, refl)
Exec-cases overrun = inl refl
