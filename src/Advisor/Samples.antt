-- ===== src/Advisor/Samples.antt =====
-- `aggregateAndSortSamples` of diagnosis/index_advisor/recommend_index.go. `F` is float64, with its
-- operations as parameters; counts and times are uint64, so their sums wrap.
use optimizer_canary_service.Base.{
  ℕ, ◌+◌, ◌%◌, ◌^◌, compare, Ordering, Bool, ◌&&◌, List, [], ◌∷◌, ltb, if◌then◌else◌,
}
use optimizer_canary_service.Base.Sort.{sort}
use optimizer_canary_service.Text.{Bytes, bytes_eq, compare_bytes}

pub record Sample : Type 0 where
  pub schema : Bytes
  pub sql : Bytes

pub record RecommendIndexSample (F : Type 0) : Type 0 where
  pub sample : Sample
  pub open sample use *
  pub digest : Bytes
  pub plan : Bytes
  pub exec_time : ℕ
  pub exec_count : ℕ
  pub avg_mem : F
  pub avg_request_unit_read : F

-- The arithmetic of float64 that the averages use.
pub record Floats (F : Type 0) : Type 0 where
  pub of_uint : ℕ → F
  pub plus : F → F → F
  pub times : F → F → F
  pub divided : F → F → F

abbrev pub u64 : ℕ → ℕ
u64 n = n % 2 ^ 64

-- `recommendIndexSampleKey`.
abbrev pub Key : Type 0
Key = Bytes × Bytes × Bytes × Bytes

abbrev pub key_of : {F : Type 0} → RecommendIndexSample F → Key
key_of x = (x.schema, x.digest, x.sql, x.plan)

abbrev pub key_eq : Key → Key → Bool
key_eq (a, b, c, d) (a', b', c', d') =
    bytes_eq a a' && bytes_eq b b' && bytes_eq c c' && bytes_eq d d'

module _ {F : Type 0} (floats : Floats F) where
  open floats use {of_uint, plus, times, divided}

  -- The average of two averages by their counts.
  abbrev pub weighted : F → ℕ → F → ℕ → ℕ → F
  weighted a m b n total =
      divided (plus (times a (of_uint m)) (times b (of_uint n))) (of_uint total)

  unfoldable pub merge : RecommendIndexSample F → RecommendIndexSample F → RecommendIndexSample F
  merge old new =
      let total = u64 (old.exec_count + new.exec_count) in
      let any_count = ltb 0 total in
      record old {
        exec_count = total;
        exec_time = u64 (old.exec_time + new.exec_time);
        avg_mem =
            if any_count
            then weighted old.avg_mem old.exec_count new.avg_mem new.exec_count total
            else old.avg_mem;
        avg_request_unit_read =
            if any_count
            then weighted old.avg_request_unit_read old.exec_count new.avg_request_unit_read
                new.exec_count total
            else old.avg_request_unit_read;
      }

  -- The map `byKey`, as the list of its values; a new key comes last.
  unfoldable pub add_sample :
      List (RecommendIndexSample F) → RecommendIndexSample F → List (RecommendIndexSample F)
  unfolding merge bytes_eq
  add_sample [] new = new ∷ []
  add_sample (old ∷ samples) new =
      let rest = add_sample samples new in
      if key_eq (key_of old) (key_of new) then merge old new ∷ samples else old ∷ rest

  unfoldable pub add_samples :
      List (RecommendIndexSample F) → List (RecommendIndexSample F) → List (RecommendIndexSample F)
  unfolding add_sample
  add_samples samples [] = samples
  add_samples samples (new ∷ raw) = add_samples (add_sample samples new) raw

  -- The longest time first, then by digest.
  abbrev pub sample_order : RecommendIndexSample F → RecommendIndexSample F → Ordering
  unfolding compare_bytes
  sample_order a b =
      let by_digest = compare_bytes a.digest b.digest in
      elim (compare b.exec_time a.exec_time) [
        | Ordering.lt ↦ Ordering.lt
        | Ordering.gt ↦ Ordering.gt
        | Ordering.eq ↦ by_digest
      ]

  -- `iterate` is the order in which a `range` over the map meets its values.
  unfoldable pub aggregate_and_sort_samples :
      (List (RecommendIndexSample F) → List (RecommendIndexSample F))
      → List (RecommendIndexSample F)
      → List (RecommendIndexSample F)
  unfolding add_samples
  aggregate_and_sort_samples iterate raw = sort sample_order (iterate (add_samples [] raw))
