-- ===== src/Base/Outcome.antt =====
-- The outcome of a C function: a value, the machine stopped by `HALT`, or an access that the
-- modelled memory does not hold. `out_of_fuel` is the model's own: a theorem shows that it does
-- not come up.
use mathlib.Core.Path.{◌≡◌, refl}

pub data Run {ℓ} (A : Type ℓ) : Type ℓ where
  ok : A → Run A
  halted : Run A
  fault : Run A
  out_of_fuel : Run A

infixl 5 ◌>>=◌
abbrev pub ◌>>=◌ {ℓ₁ ℓ₂} : {X : Type ℓ₁} {Y : Type ℓ₂} → Run X → (X → Run Y) → Run Y
halted >>= next = halted
fault >>= next = fault
out_of_fuel >>= next = out_of_fuel
ok x >>= next = next x

-- The parts of a chain that returned.
pub >>=-eq-ok {ℓ₁ ℓ₂} :
    {X : Type ℓ₁} {Y : Type ℓ₂} (first : Run X) (next : X → Run Y) {y : Y}
    → (first >>= next) ≡ ok y
    → (x : X) × (first ≡ ok x) × (next x ≡ ok y)
>>=-eq-ok halted next e = cc
>>=-eq-ok fault next e = cc
>>=-eq-ok out_of_fuel next e = cc
>>=-eq-ok (ok x) next e = (x, refl, e)

-- The laws of a chain.
module _ {ℓ} {X : Type ℓ} where
  pub >>=-ok : (first : Run X) → (first >>= ok) ≡ first
  >>=-ok halted = refl
  >>=-ok fault = refl
  >>=-ok out_of_fuel = refl
  >>=-ok (ok x) = refl

module _ {ℓ₁ ℓ₂} {X : Type ℓ₁} {Y : Type ℓ₂} where
  pub >>=-ext :
      (first : Run X) (f g : X → Run Y) → ((x : X) → f x ≡ g x) → (first >>= f) ≡ (first >>= g)
  >>=-ext halted f g h = refl
  >>=-ext fault f g h = refl
  >>=-ext out_of_fuel f g h = refl
  >>=-ext (ok x) f g h = h x

module _ {ℓ₁ ℓ₂ ℓ₃} {X : Type ℓ₁} {Y : Type ℓ₂} {Z : Type ℓ₃} where
  pub >>=-assoc :
      (first : Run X) (f : X → Run Y) (g : Y → Run Z)
      → ((first >>= f) >>= g) ≡ (first >>= λ x. f x >>= g)
  >>=-assoc halted f g = refl
  >>=-assoc fault f g = refl
  >>=-assoc out_of_fuel f g = refl
  >>=-assoc (ok x) f g = refl
