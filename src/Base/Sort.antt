-- ===== src/Base/Sort.antt =====
-- Sorting by a three-way comparison, as slices.Sort, slices.SortFunc and sort.SliceStable order
-- their elements. Elements that compare equal keep their order, which Go's unstable sorts leave
-- open.
use mathlib.Core.List.Perm
use mathlib.Core.List.{Perm, Permᴰ, List, [], ◌∷◌}
use Prim.Native.Nat.{Ordering}
use mathlib.Core.Path.{◌≡◌, refl, ap, ◌∙◌}
use mathlib.Core.Logic.{◌≢◌, ◌↔◌, ∥∥₁_elim}
use optimizer_canary_service.Base.Lists.{All}
use native.Mathlib.Omega.{arith}

module _ {ℓ} {A : Type ℓ} (cmp : A → A → Ordering) where
  unfoldable pub insert : A → List A → List A
  insert x [] = x ∷ []
  insert x (y ∷ ys) =
      let later = y ∷ insert x ys in elim (cmp x y) [ Ordering.gt ↦ later | _ ↦ x ∷ y ∷ ys ]

  unfoldable pub sort : List A → List A
  unfolding insert
  sort [] = []
  sort (x ∷ xs) = insert x (sort xs)

  insert-perm : (x : A) (ys : List A) → Perm (insert x ys) (x ∷ ys)
  unfolding insert
  insert-perm x [] = Perm.refl _
  insert-perm x (y ∷ ys) =
      elim (cmp x y)
        as (λ o. Perm (elim o [ Ordering.gt ↦ y ∷ insert x ys | _ ↦ x ∷ y ∷ ys ]) (x ∷ y ∷ ys)) [
          | Ordering.gt ↦ Perm.trans (Perm.cons y (insert-perm x ys)) (Perm.swap x y ys)
          | _ ↦ Perm.refl _
        ]

  pub sort-perm : (xs : List A) → Perm (sort xs) xs
  unfolding sort
  sort-perm [] = Perm.refl _
  sort-perm (x ∷ xs) = Perm.trans (insert-perm x (sort xs)) (Perm.cons x (sort-perm xs))

  -- Each element does not compare above a later one.
  abbrev pub IsSorted : List A → Type 0
  IsSorted [] = Unit
  IsSorted (x ∷ xs) = All (λ y. cmp x y ≢ Ordering.gt) xs × IsSorted xs

-- The comparison is a linear order, whose equal elements are one.
pub record Linear {ℓ} {A : Type ℓ} (cmp : A → A → Ordering) : Type ℓ where
  pub total : (x y : A) → cmp x y ≡ Ordering.gt → cmp y x ≢ Ordering.gt
  pub antisym : (x y : A) → cmp x y ≢ Ordering.gt → cmp y x ≢ Ordering.gt → x ≡ y
  pub trans : (x y z : A) → cmp x y ≢ Ordering.gt → cmp y z ≢ Ordering.gt → cmp x z ≢ Ordering.gt

module _ {ℓ} {A : Type ℓ} (cmp : A → A → Ordering) where
  All-weaken :
      (L : Linear cmp) (x y : A) (ys : List A)
      → cmp x y ≢ Ordering.gt
      → All (λ z. cmp y z ≢ Ordering.gt) ys
      → All (λ z. cmp x z ≢ Ordering.gt) ys
  All-weaken L x y [] h a = tt
  All-weaken L x y (z ∷ ys) h a = (L.trans x y z h a.0, All-weaken L x y ys h a.1)

  insert_comm :
      (L : Linear cmp) (x y : A) (l : List A)
      → insert cmp x (insert cmp y l) ≡ insert cmp y (insert cmp x l)
  unfolding insert
  insert_comm L x y [] = ground (arith, L.total x y, L.total y x, L.antisym x y)
  insert_comm L x y (z ∷ l) = ground (
    arith,
    L.total x y,
    L.total y x,
    L.antisym x y,
    L.total x z,
    L.total y z,
    L.trans x y z,
    L.trans y x z,
    L.trans x z y,
    L.trans y z x,
    insert_comm L x y l,
  )

  sort-permᴰ : {xs ys : List A} → Linear cmp → Permᴰ xs ys → sort cmp xs ≡ sort cmp ys
  unfolding sort
  sort-permᴰ L Permᴰ.nil = refl
  sort-permᴰ L (Permᴰ.cons {b} e p) = rw e (ap (insert cmp b) (sort-permᴰ L p))
  sort-permᴰ L (Permᴰ.swap {a'} {b'} {l} e f) = rw (e, f) (insert_comm L b' a' (sort cmp l))
  sort-permᴰ L (Permᴰ.trans p q) = sort-permᴰ L p ∙ sort-permᴰ L q

  -- Two lists sort alike exactly when they hold the same elements, as often.
  pub sort-eq_iff :
      {xs ys : List A} → Linear cmp → IsSet (List A) → (sort cmp xs ≡ sort cmp ys) ↔ Perm xs ys
  sort-eq_iff {xs} {ys} L set = (
    λ e. Perm.trans (Perm.symm (sort-perm cmp xs)) (rw e (sort-perm cmp ys)),
    λ p. ∥∥₁_elim p (set _ _) (λ d. sort-permᴰ L d),
  )

  pub insert-All : (P : A → Type 0) (x : A) (ys : List A) → P x → All P ys → All P (insert cmp x ys)
  unfolding insert
  insert-All P x [] h a = (h, tt)
  insert-All P x (y ∷ ys) h a = ground (arith, insert-All P x ys h a.1)

  insert-IsSorted :
      (L : Linear cmp) (x : A) (ys : List A) → IsSorted cmp ys → IsSorted cmp (insert cmp x ys)
  unfolding insert
  insert-IsSorted L x [] s = (tt, tt)
  insert-IsSorted L x (y ∷ ys) s = ground (
    arith,
    L.total x y,
    All-weaken L x y ys,
    insert-IsSorted L x ys s.1,
    insert-All (λ z. cmp y z ≢ Ordering.gt) x ys,
  )

  pub sort-IsSorted : (xs : List A) → Linear cmp → IsSorted cmp (sort cmp xs)
  unfolding sort
  sort-IsSorted [] L = tt
  sort-IsSorted (x ∷ xs) L = insert-IsSorted L x (sort cmp xs) (sort-IsSorted xs L)
