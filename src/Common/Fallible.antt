-- ===== src/Common/Fallible.antt =====
-- Results with an error, and `do` blocks for a chain of them.
use mathlib.Core.Path.{◌≡◌, refl}
use mathlib.Core.Logic.{◌⊎◌, inl, inr}

pub data Fallible {ℓ κ} (E : Type ℓ) (A : Type κ) : Type (ℓ ⊔ κ) where
  value : A → Fallible E A
  failure : E → Fallible E A

infixl 5 ◌>>=◌
abbrev pub ◌>>=◌ {ℓ κ μ} :
    {E : Type ℓ} {A : Type κ} {B : Type μ} → Fallible E A → (A → Fallible E B) → Fallible E B
value a >>= f = f a
failure e >>= f = failure e

-- What a chain that succeeds says of its first step.
pub >>=-value {ℓ κ μ} :
    {E : Type ℓ} {A : Type κ} {B : Type μ} (m : Fallible E A) (f : A → Fallible E B) {b : B}
    → (m >>= f) ≡ value b
    → (a : A) × (m ≡ value a) × (f a ≡ value b)
>>=-value (value a) f h = (a, refl, h)
>>=-value (failure e) f h = absurd cc

pub Fallible-cases {ℓ κ} :
    {E : Type ℓ} {A : Type κ} (m : Fallible E A)
    → ((a : A) × (m ≡ value a)) ⊎ ((e : E) × (m ≡ failure e))
Fallible-cases (value a) = inl (a, refl)
Fallible-cases (failure e) = inr (e, refl)

pub value-injective {ℓ κ} :
    {E : Type ℓ} {A : Type κ} {a b : A} → ◌≡◌ {A = Fallible E A} (value a) (value b) → a ≡ b
value-injective h = cc

module _ {ℓ κ μ} {E : Type ℓ} {A : Type κ} {B : Type μ} where
  pub >>=-cong :
      (m : Fallible E A) (f g : A → Fallible E B) → ((a : A) → f a ≡ g a) → (m >>= f) ≡ (m >>= g)
  >>=-cong (value a) f g h = h a
  >>=-cong (failure e) f g h = refl

  pub >>=-assoc {ν} :
      {C : Type ν} (m : Fallible E A) (f : A → Fallible E B) (g : B → Fallible E C)
      → (m >>= f >>= g) ≡ (m >>= λ a. f a >>= g)
  >>=-assoc (value a) f g = refl
  >>=-assoc (failure e) f g = refl
