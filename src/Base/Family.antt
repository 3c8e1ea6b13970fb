-- ===== src/Base/Family.antt =====
-- Families indexed by a client, a worker or a workload: a write at one index, and sums over the first ones.
use Prim.Native.Nat.{ℕ, zero, suc, ◌+◌, ◌*◌, ◌≤◌, ◌<◌}
use mathlib.Core.Path.{◌≡◌, refl}
use native.Mathlib.Omega.{arith}
use mathlib.Core.Logic.{ite}
use native.Mathlib.Decide.{ℕ_discrete, dec_lt}

-- The family that answers `written` at `at`, and elsewhere what `before` does.
abbrev pub update {ℓ} : {A : Type ℓ} → (ℕ → A) → ℕ → A → ℕ → A
update before at written j = ite (ℕ_discrete at j) written (before j)

-- What holds of every member, and of the one that is written, holds of every member afterwards.
pub update_each {ℓ κ} :
    {A : Type ℓ} (P : A → Type κ) (f : ℕ → A) (i : ℕ) (a : A)
    → P a
    → ((j : ℕ) → P (f j))
    → (j : ℕ) → P (update f i a j)
update_each P f i a here each j = elim (ℕ_discrete i j) as (λ d. P (ite d a (f j))) [
  | yes e ↦ here
  | no e ↦ each j
]

module _ {ℓ} {A : Type ℓ} (weight : A → ℕ) where
  unfoldable pub sum_below : ℕ → (ℕ → A) → ℕ
  sum_below zero family = 0
  sum_below (suc n) family = weight (family n) + sum_below n family

  sum_below-same :
      (n : ℕ) (f g : ℕ → A) → ((j : ℕ) → j < n → f j ≡ g j) → sum_below n f ≡ sum_below n g
  unfolding sum_below
  sum_below-same zero f g same = refl
  sum_below-same (suc n) f g same =
      let below = sum_below-same n f g (λ j less. same j (omega (arith, less))) in
      rw (same n (omega arith)) (rw below refl)

  update-other : (f : ℕ → A) (i j : ℕ) (a : A) → j < i → update f i a j ≡ f j
  update-other f i j a less = ground (arith, less)

  -- A write replaces one weight of the sum.
  pub sum_below-update :
      (n : ℕ) (f : ℕ → A) (i : ℕ) (a : A)
      → i < n
      → sum_below n (update f i a) + weight (f i) ≡ sum_below n f + weight a
  unfolding sum_below
  sum_below-update zero f i a h = absurd (omega arith)
  sum_below-update (suc n) f i a h =
      let untouched = λ (is : i ≡ n).
        sum_below-same n (update f i a) f
          (λ j less. update-other f i j a (omega (arith, less, is))) in
      elim (dec_lt i n) [
        | yes earlier ↦ ground (arith, sum_below-update n f i a earlier)
        | no latest ↦ ground (arith, untouched (omega (arith, latest, h)))
      ]

  pub sum_below-le :
      (bound : ℕ) → ((a : A) → weight a ≤ bound) → (n : ℕ) (f : ℕ → A) → sum_below n f ≤ n * bound
  unfolding sum_below
  sum_below-le bound most zero f = omega arith
  sum_below-le bound most (suc n) f = grind (arith, most (f n), sum_below-le bound most n f)

  -- A member with a weight is part of the sum.
  pub weight-le-sum_below : (n : ℕ) (f : ℕ → A) (i : ℕ) → i < n → weight (f i) ≤ sum_below n f
  unfolding sum_below
  weight-le-sum_below zero f i h = absurd (omega arith)
  weight-le-sum_below (suc n) f i h = elim (dec_lt i n) [
    | yes earlier ↦ omega (arith, weight-le-sum_below n f i earlier)
    | no latest ↦ ground (arith, latest, h)
  ]
