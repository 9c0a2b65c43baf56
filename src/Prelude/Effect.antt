-- ===== src/Prelude/Effect.antt =====
-- Python code that mutates a state and may raise: a raise keeps the mutations made before it.
use mathlib.Core.Path.{◌≡◌, refl}
use mathlib.Core.Logic.{◌⊎◌, inl, inr}

pub data Outcome {ℓ κ} (E : Type ℓ) (A : Type κ) : Type (ℓ ⊔ κ) where
  ok : A → Outcome E A
  raise : E → Outcome E A

abbrev pub M {ℓ κ μ} : Type ℓ → Type κ → Type μ → Type (ℓ ⊔ κ ⊔ μ)
M S E A = S → S × Outcome E A

module _ {ℓ κ μ ν} {S : Type ℓ} {E : Type κ} {A : Type μ} {B : Type ν} where
  abbrev pub and_then : S × Outcome E A → (A → M S E B) → S × Outcome E B
  and_then (s, ok a) f = f a s
  and_then (s, raise e) f = (s, raise e)

  infixl 5 ◌>>=◌ ◌>>◌
  abbrev pub ◌>>=◌ : M S E A → (A → M S E B) → M S E B
  ◌>>=◌ m f s = and_then (m s) f

  abbrev pub ◌>>◌ : M S E A → M S E B → M S E B
  ◌>>◌ m k s = and_then (m s) (λ _. k)

module _ {ℓ κ μ} {S : Type ℓ} {E : Type κ} {A : Type μ} where
  abbrev pub return : A → M S E A
  return a s = (s, ok a)

  abbrev pub throw : E → M S E A
  throw e s = (s, raise e)

  abbrev pub gets : (S → A) → M S E A
  gets f s = (s, ok (f s))

  -- A call that touches no state.
  abbrev pub lift : Outcome E A → M S E A
  lift r s = (s, r)

abbrev pub modify {ℓ κ} : {S : Type ℓ} {E : Type κ} → (S → S) → M S E (Unit {0})
modify f s = (f s, ok tt)

pub Outcome-cases :
    {E A : Type 0} (r : Outcome E A) → ((a : A) × (r ≡ ok a)) ⊎ ((e : E) × (r ≡ raise e))
Outcome-cases (ok a) = inl (a, refl)
Outcome-cases (raise e) = inr (e, refl)
