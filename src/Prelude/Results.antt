-- ===== src/Prelude/Results.antt =====
-- Results of calls that may throw, and the chains of `do` blocks.
use mathlib.Core.Path.{◌≡◌, refl, subst}

pub data Result {ℓ κ} (E : Type ℓ) (A : Type κ) : Type (ℓ ⊔ κ) where
  ok : A → Result E A
  err : E → Result E A

infixl 5 ◌>>=◌
abbrev pub ◌>>=◌ {ℓ κ μ} :
    {E : Type ℓ} {A : Type κ} {B : Type μ} → Result E A → (A → Result E B) → Result E B
ok a >>= f = f a
err e >>= f = err e

-- What a call promises if it returns.
abbrev pub IfOk {ℓ κ μ} : {E : Type ℓ} {A : Type κ} → (A → Type μ) → Result E A → Type μ
IfOk P (ok a) = P a
IfOk P (err e) = Unit

module _ {ℓ κ} {E : Type ℓ} {A : Type κ} where
  pub IfOk-intro {μ} : (P : A → Type μ) (r : Result E A) → ((a : A) → r ≡ ok a → P a) → IfOk P r
  IfOk-intro P (ok a) h = h a refl
  IfOk-intro P (err e) h = tt

  pub IfOk-elim {μ} : (P : A → Type μ) (r : Result E A) (a : A) → IfOk P r → r ≡ ok a → P a
  IfOk-elim P r a h e = subst (IfOk P) e h

  pub IfOk-bind {μ ν ρ} :
      {B : Type ν} (Q : A → Type μ) (P : B → Type ρ) (r : Result E A) (f : A → Result E B)
      → IfOk Q r
      → ((a : A) → Q a → IfOk P (f a))
      → IfOk P (r >>= f)
  IfOk-bind Q P (ok a) f q h = h a q
  IfOk-bind Q P (err e) f q h = tt

  pub IfOk-map {μ ν} :
      (P : A → Type μ) (Q : A → Type ν) (r : Result E A)
      → ((a : A) → P a → Q a)
      → IfOk P r
      → IfOk Q r
  IfOk-map P Q (ok a) f h = f a h
  IfOk-map P Q (err e) f h = tt
