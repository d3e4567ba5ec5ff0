-- ===== src/Prelude/Outcomes.antt =====
-- `Result<T, E>`, with `?` as a bind and `map_err`.
use mathlib.Core.Path.{◌≡◌, refl}

pub data Outcome {ℓ κ} (E : Type κ) (A : Type ℓ) : Type (ℓ ⊔ κ) where
  ok : A → Outcome E A
  err : E → Outcome E A

module _ {E A B : Type 0} where
  infixl 5 ◌>>=◌ ◌>>◌
  abbrev pub ◌>>=◌ : Outcome E A → (A → Outcome E B) → Outcome E B
  ok a >>= f = f a
  err e >>= f = err e

  abbrev pub ◌>>◌ : Outcome E A → Outcome E B → Outcome E B
  m >> n = m >>= λ _. n

abbrev pub map_err : {E F A : Type 0} → (E → F) → Outcome E A → Outcome F A
map_err f (ok a) = ok a
map_err f (err e) = err (f e)

-- A chain of two calls that returned: both of them have.
abbrev pub Passes : {E A B : Type 0} → Outcome E A → (A → Outcome E B) → B → Type 0
Passes {A = A} first second b = (a : A) × (first ≡ ok a) × (second a ≡ ok b)

pub bind-Passes :
    {E A B : Type 0} (first : Outcome E A) (second : A → Outcome E B) {b : B}
    → (first >>= second) ≡ ok b
    → Passes first second b
bind-Passes (err e) second h = absurd (cc)
bind-Passes (ok a) second h = (a, refl, h)

pub map_err-eq-ok :
    {E F A : Type 0} (f : E → F) (m : Outcome E A) {a : A} → map_err f m ≡ ok a → m ≡ ok a
map_err-eq-ok f (ok a) h = cc
map_err-eq-ok f (err e) h = absurd (cc)

pub ok_injective : {E A : Type 0} {a b : A} → ◌≡◌ {A = Outcome E A} (ok a) (ok b) → a ≡ b
ok_injective h = cc
