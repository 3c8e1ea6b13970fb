-- ===== src/Compare/Summary/Totals.antt =====
-- What `aggregateSqlInfos` keeps.
use optimizer_canary_service.Base.{
  ℕ, ◌+◌, ◌≡◌, refl, sym, ◌↔◌, inl, inr, true, false, List, [], ◌∷◌, arith, if◌then◌else◌,
  Bool-cases, All,
}
use optimizer_canary_service.Base.Sort.{sort, insert, insert-All}
use optimizer_canary_service.Text.{Bytes, bytes_eq_iff}
use optimizer_canary_service.Compare.Summary.Infos.{
  SqlInfo, u64, same_key, merge, add_info, add_infos, info_order, aggregate_sql_infos,
}

abbrev pub Key : Type 0
Key = Bytes × Bytes × Bytes

abbrev pub key : SqlInfo → Key
key info = (info.schema, info.sql_digest, info.plan_digest)

pub same_key_iff : (a b : SqlInfo) → (same_key a b ≡ true) ↔ (key a ≡ key b)
unfolding same_key
same_key_iff a b = ground (
  arith,
  bytes_eq_iff a.schema b.schema,
  bytes_eq_iff a.sql_digest b.sql_digest,
  bytes_eq_iff a.plan_digest b.plan_digest,
)

same_key_comm : (a b : SqlInfo) → same_key a b ≡ false → same_key b a ≡ false
same_key_comm a b h = elim (Bool-cases (same_key b a)) [
  | inr e ↦ e
  | inl e ↦ cc (h, (same_key_iff a b).1 (sym ((same_key_iff b a).0 e)))
]

-- Rows with one key are alike in the tests against any row.
same_key_trans : (k a b : SqlInfo) → same_key a b ≡ true → same_key k a ≡ same_key k b
same_key_trans k a b h = ground (arith, same_key_iff a b, same_key_iff k a, same_key_iff k b)

same_key-merge : (k old new : SqlInfo) → same_key k (merge old new) ≡ same_key k old
unfolding same_key
same_key-merge k old new = refl

-- The sum of a field over the rows with the key of `k`.
abbrev pub total_of : (SqlInfo → ℕ) → SqlInfo → List SqlInfo → ℕ
total_of f k [] = 0
total_of f k (x ∷ xs) = (if same_key k x then f x else 0) + total_of f k xs

-- No two rows have one key.
abbrev pub HasDistinctKeys : List SqlInfo → Type 0
HasDistinctKeys [] = Unit
HasDistinctKeys (x ∷ xs) = All (λ y. same_key x y ≡ false) xs × HasDistinctKeys xs

module _ (f : SqlInfo → ℕ) (merges : (a b : SqlInfo) → f (merge a b) ≡ u64 (f a + f b)) where
  total_of-merge :
      (k old new : SqlInfo)
      → same_key old new ≡ true
      → u64 (if same_key k (merge old new) then f (merge old new) else 0)
        ≡ u64 ((if same_key k old then f old else 0) + (if same_key k new then f new else 0))
  total_of-merge k old new h =
      ground (arith, same_key-merge k old new, same_key_trans k old new h, merges old new)

  total_of-add_info :
      (k : SqlInfo) (done : List SqlInfo) (new : SqlInfo)
      → u64 (total_of f k (add_info done new)) ≡ u64 (total_of f k (new ∷ done))
  unfolding add_info
  total_of-add_info k [] new = refl
  total_of-add_info k (old ∷ olds) new =
      ground (arith, total_of-merge k old new, total_of-add_info k olds new)

  total_of-add_infos :
      (k : SqlInfo) (done news : List SqlInfo)
      → u64 (total_of f k (add_infos done news)) ≡ u64 (total_of f k done + total_of f k news)
  unfolding add_infos
  total_of-add_infos k done [] = omega arith
  total_of-add_infos k done (new ∷ news) =
      omega (arith, total_of-add_infos k (add_info done new) news, total_of-add_info k done new)

total_of-insert :
    (f : SqlInfo → ℕ) (k x : SqlInfo) (xs : List SqlInfo)
    → total_of f k (insert info_order x xs) ≡ total_of f k (x ∷ xs)
unfolding insert
total_of-insert f k x [] = refl
total_of-insert f k x (y ∷ ys) = ground (arith, total_of-insert f k x ys)

total_of-sort :
    (f : SqlInfo → ℕ) (k : SqlInfo) (xs : List SqlInfo)
    → total_of f k (sort info_order xs) ≡ total_of f k xs
unfolding sort
total_of-sort f k [] = refl
total_of-sort f k (x ∷ xs) =
    omega (arith, total_of-insert f k x (sort info_order xs), total_of-sort f k xs)

add_info-All :
    (k new : SqlInfo) (done : List SqlInfo)
    → same_key k new ≡ false
    → All (λ y. same_key k y ≡ false) done
    → All (λ y. same_key k y ≡ false) (add_info done new)
unfolding add_info
add_info-All k new [] h a = (h, tt)
add_info-All k new (old ∷ olds) h a = elim (Bool-cases (same_key old new)) [
  | inl e ↦ rw e (rw (same_key-merge k old new) a.0, a.1)
  | inr e ↦ rw e (a.0, add_info-All k new olds h a.1)
]

add_info-HasDistinctKeys :
    (new : SqlInfo) (done : List SqlInfo)
    → HasDistinctKeys done
    → HasDistinctKeys (add_info done new)
unfolding add_info
add_info-HasDistinctKeys new [] d = (tt, tt)
add_info-HasDistinctKeys new (old ∷ olds) d = elim (Bool-cases (same_key old new)) [
  | inl e ↦ rw e (unfold same_key in d)
  | inr e ↦ rw e (add_info-All old new olds e d.0, add_info-HasDistinctKeys new olds d.1)
]

add_infos-HasDistinctKeys :
    (done news : List SqlInfo) → HasDistinctKeys done → HasDistinctKeys (add_infos done news)
unfolding add_infos
add_infos-HasDistinctKeys done [] d = d
add_infos-HasDistinctKeys done (new ∷ news) d =
    add_infos-HasDistinctKeys (add_info done new) news (add_info-HasDistinctKeys new done d)

insert-HasDistinctKeys :
    (x : SqlInfo) (xs : List SqlInfo)
    → HasDistinctKeys (x ∷ xs)
    → HasDistinctKeys (insert info_order x xs)
unfolding insert
insert-HasDistinctKeys x [] d = d
insert-HasDistinctKeys x (y ∷ ys) d = ground (
  arith,
  same_key_comm x y,
  insert-HasDistinctKeys x ys,
  insert-All info_order (λ z. same_key y z ≡ false) x ys,
)

insert_info-All :
    (k x : SqlInfo) (xs : List SqlInfo)
    → same_key k x ≡ false
    → All (λ y. same_key k y ≡ false) xs
    → All (λ y. same_key k y ≡ false) (insert info_order x xs)
insert_info-All k x xs = insert-All info_order (λ y. same_key k y ≡ false) x xs

sort_infos-All :
    (k : SqlInfo) (xs : List SqlInfo)
    → All (λ y. same_key k y ≡ false) xs
    → All (λ y. same_key k y ≡ false) (sort info_order xs)
unfolding sort
sort_infos-All k [] a = tt
sort_infos-All k (x ∷ xs) a = insert_info-All k x (sort info_order xs) a.0 (sort_infos-All k xs a.1)

sort-HasDistinctKeys :
    (xs : List SqlInfo) → HasDistinctKeys xs → HasDistinctKeys (sort info_order xs)
unfolding sort
sort-HasDistinctKeys [] d = tt
sort-HasDistinctKeys (x ∷ xs) d =
    insert-HasDistinctKeys x (sort info_order xs)
      (sort_infos-All x xs d.0, sort-HasDistinctKeys xs d.1)

-- After `aggregateSqlInfos` no two rows have one schema, SQL digest and plan digest.
aggregate_sql_infos-HasDistinctKeys :
    (infos : List SqlInfo) → HasDistinctKeys (aggregate_sql_infos infos)
unfolding aggregate_sql_infos
aggregate_sql_infos-HasDistinctKeys infos =
    sort-HasDistinctKeys (add_infos [] infos) (add_infos-HasDistinctKeys [] infos tt)

total_of-aggregate :
    (f : SqlInfo → ℕ)
    → ((a b : SqlInfo) → f (merge a b) ≡ u64 (f a + f b))
    → (k : SqlInfo) (infos : List SqlInfo)
    → u64 (total_of f k (aggregate_sql_infos infos)) ≡ u64 (total_of f k infos)
unfolding aggregate_sql_infos
total_of-aggregate f merges k infos =
    omega (arith, total_of-sort f k (add_infos [] infos), total_of-add_infos f merges k [] infos)

-- After `aggregateSqlInfos` no two rows have one schema, SQL digest and plan digest; and for each of
-- these keys the execution counts and the execution times add up, in uint64, to what they added up to
-- before.
pub aggregate_sql_infos_lem :
    (infos : List SqlInfo)
    → HasDistinctKeys (aggregate_sql_infos infos)
      × ((k : SqlInfo)
          → (u64 (total_of (λ x. x.exec_count) k (aggregate_sql_infos infos))
              ≡ u64 (total_of (λ x. x.exec_count) k infos))
            × (u64 (total_of (λ x. x.exec_time) k (aggregate_sql_infos infos))
                ≡ u64 (total_of (λ x. x.exec_time) k infos)))
aggregate_sql_infos_lem infos = (
  aggregate_sql_infos-HasDistinctKeys infos,
  λ k. (
    total_of-aggregate (λ x. x.exec_count) (λ a b. refl) k infos,
    total_of-aggregate (λ x. x.exec_time) (λ a b. refl) k infos,
  ),
)
