-- ===== src/Base/Outcomes.antt =====
-- What a Go call that returns `(T, error)` may do: return a value, return an error, or panic.
use mathlib.Core.Path.{◌≡◌, refl}

pub data Outcome {ℓ} (E : Type 0) (A : Type ℓ) : Type ℓ where
  panic : Outcome E A
  err : E → Outcome E A
  ok : A → Outcome E A

infixl 5 ◌>>=◌
abbrev pub ◌>>=◌ {ℓ κ} :
    {E : Type 0} {A : Type ℓ} {B : Type κ} → Outcome E A → (A → Outcome E B) → Outcome E B
panic >>= k = panic
err cause >>= k = err cause
ok value >>= k = k value

-- What returns a value through two calls is a first call and a second one that return.
pub bind_ok {ℓ κ} :
    {A : Type ℓ} {E : Type 0} {B : Type κ} {last : B} (call : Outcome E A) (next : A → Outcome E B)
    → (call >>= next) ≡ ok last
    → (first : A) × (call ≡ ok first) × (next first ≡ ok last)
bind_ok panic next returned = cc
bind_ok (err cause) next returned = cc
bind_ok (ok first) next returned = (first, refl, returned)

-- Two runs of a bind agree where their continuations do.
pub bind_through {ℓ κ μ} :
    {E : Type 0} {A : Type ℓ} {B : Type κ} {C : Type μ} (m : Outcome E A) (f : A → Outcome E B)
    (g : A → Outcome E C) (h : C → Outcome E B)
    → ((a : A) → f a ≡ (g a >>= h))
    → (m >>= f) ≡ (m >>= g >>= h)
bind_through (ok a) f g h e = e a
bind_through (err x) f g h e = refl
bind_through panic f g h e = refl

pub bind_values {ℓ κ μ} :
    {E : Type 0} {A : Type ℓ} {B : Type κ} {C : Type μ} (m : Outcome E A) (f : A → B) (g : A → C)
    (h : C → B)
    → ((a : A) → f a ≡ h (g a))
    → (m >>= λ a. ok (f a)) ≡ (m >>= (λ a. ok (g a)) >>= λ c. ok (h c))
bind_values (ok a) f g h e = λ i. ok (e a i)
bind_values (err x) f g h e = refl
bind_values panic f g h e = refl
