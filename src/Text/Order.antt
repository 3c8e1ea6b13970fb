-- ===== src/Text/Order.antt =====
-- `strings.Compare` is a linear order.
use optimizer_canary_service.Base.{Ordering, ◌≡◌, refl, ◌≢◌, [], ◌∷◌, arith}
use optimizer_canary_service.Base.Sort.{Linear}
use optimizer_canary_service.Text.Basic.{Bytes, compare_bytes}

total : (s t : Bytes) → compare_bytes s t ≡ Ordering.gt → compare_bytes t s ≢ Ordering.gt
unfolding compare_bytes
total (x ∷ s) (y ∷ t) h = ground (arith, total s t)
total _ _ h = ground arith

antisym : (s t : Bytes) → compare_bytes s t ≢ Ordering.gt → compare_bytes t s ≢ Ordering.gt → s ≡ t
unfolding compare_bytes
antisym (x ∷ s) (y ∷ t) h k = ground (arith, antisym s t)
antisym _ _ h k = ground arith

trans :
    (s t u : Bytes)
    → compare_bytes s t ≢ Ordering.gt
    → compare_bytes t u ≢ Ordering.gt
    → compare_bytes s u ≢ Ordering.gt
unfolding compare_bytes
trans (x ∷ s) (y ∷ t) (z ∷ u) h k = ground (arith, trans s t u)
trans _ _ _ h k = ground arith

pub compare_bytes-Linear : Linear compare_bytes
compare_bytes-Linear = record { total = total; antisym = antisym; trans = trans }

-- Two texts compare equal exactly when they are equal.
pub compare_bytes-eq : (s t : Bytes) → compare_bytes s t ≡ Ordering.eq → s ≡ t
unfolding compare_bytes
compare_bytes-eq (x ∷ s) (y ∷ t) h = ground (arith, compare_bytes-eq s t)
compare_bytes-eq _ _ h = ground arith

pub compare_bytes_refl : (s : Bytes) → compare_bytes s s ≡ Ordering.eq
unfolding compare_bytes
compare_bytes_refl [] = refl
compare_bytes_refl (x ∷ s) = ground (arith, compare_bytes_refl s)
