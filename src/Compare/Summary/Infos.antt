-- ===== src/Compare/Summary/Infos.antt =====
-- The rows of cluster_statements_summary and their aggregation. `ExecCount` and `ExecTime` are
-- uint64, so their sums wrap.
use optimizer_canary_service.Base.{
  ℕ, ◌+◌, ◌%◌, ◌^◌, Ordering, Bool, ◌&&◌, List, [], ◌∷◌, if◌then◌else◌,
}
use optimizer_canary_service.Base.Sort.{sort}
use optimizer_canary_service.Text.{Bytes, bytes_eq, compare_bytes}

pub record Sample : Type 0 where
  pub schema : Bytes
  pub sql : Bytes

pub record SqlInfo : Type 0 where
  pub sample : Sample
  pub open sample use *
  pub sql_digest : Bytes
  pub plan_digest : Bytes
  pub exec_count : ℕ
  pub exec_time : ℕ
  pub plan_hint : Bytes
  pub plan : Bytes

abbrev pub u64 : ℕ → ℕ
u64 n = n % 2 ^ 64

-- The key of the aggregation: schema, SQL digest and plan digest.
unfoldable pub same_key : SqlInfo → SqlInfo → Bool
same_key a b =
    bytes_eq a.schema b.schema
    && bytes_eq a.sql_digest b.sql_digest
    && bytes_eq a.plan_digest b.plan_digest

abbrev pub merge : SqlInfo → SqlInfo → SqlInfo
merge old new = record old {
  exec_count = u64 (old.exec_count + new.exec_count);
  exec_time = u64 (old.exec_time + new.exec_time);
}

-- One round of the loop. The map `indices` leads to the one element with the key.
unfoldable pub add_info : List SqlInfo → SqlInfo → List SqlInfo
add_info [] new = new ∷ []
add_info (old ∷ olds) new =
    let rest = add_info olds new in if same_key old new then merge old new ∷ olds else old ∷ rest

unfoldable pub add_infos : List SqlInfo → List SqlInfo → List SqlInfo
unfolding add_info
add_infos done [] = done
add_infos done (new ∷ news) = add_infos (add_info done new) news

abbrev pub or_else : Ordering → Ordering → Ordering
or_else Ordering.eq o = o
or_else Ordering.lt o = Ordering.lt
or_else Ordering.gt o = Ordering.gt

unfoldable pub info_order : SqlInfo → SqlInfo → Ordering
info_order a b =
    or_else (compare_bytes a.sql_digest b.sql_digest)
      (or_else (compare_bytes a.schema b.schema) (compare_bytes a.plan_digest b.plan_digest))

unfoldable pub aggregate_sql_infos : List SqlInfo → List SqlInfo
unfolding add_infos same_key sort info_order
aggregate_sql_infos infos = sort info_order (add_infos [] infos)
