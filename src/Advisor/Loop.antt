-- ===== src/Advisor/Loop.antt =====
-- `RecommendIndex` of diagnosis/index_advisor/recommend_index.go.
use optimizer_canary_service.Base.{
  ℕ, String, ◌⊎◌, inl, inr, Bool, true, false, ◌||◌, Option, none, some, List, [], ◌∷◌, ◌++◌, leb,
  if◌then◌else◌, length, Outcome, ok, err, panic, ◌>>=◌,
}
use optimizer_canary_service.Base.Exec.{Exec, continue, pure, wrapped}
use optimizer_canary_service.Text.{Bytes, codes, bytes_eq, to_lower}
use optimizer_canary_service.Text.Trim.{trim_space}
use optimizer_canary_service.Text.Search.{contains}
use optimizer_canary_service.Compare.Binding.Words.{BindingError}
use optimizer_canary_service.Advisor.Samples.{
  Sample, RecommendIndexSample, Floats, aggregate_and_sort_samples,
}
use optimizer_canary_service.Advisor.Statement.{
  convert_to_recommendable_statement, build_hypo_index_sql,
}
use optimizer_canary_service.Advisor.Recommend.{
  AdvisorDatabase, AdvisorError, acquire_recommend, select_recommend, run_recommend,
  recommend_columns, scan_recommend, index_size, read_recommend, acquire_explain, select_explain,
  run_explain, explain_columns, scan_explain, read_explain, Advice, recommend_for, get_sql_plan,
}

abbrev pub max_results : ℕ
max_results = 30

pub record RecommendIndexResult (F : Type 0) : Type 0 where
  pub schema : Bytes
  pub digest : Bytes
  pub sql : Bytes
  pub exec_time : ℕ
  pub avg_mem : F
  pub avg_request_unit_read : F
  pub exec_count : ℕ
  pub recommendations : List (Advice F)
  pub old_plan : Bytes

-- The answer of `recommendIndexSampleQuery`.
pub record SampleRows (E F : Type 0) : Type 0 where
  pub rows : List (E ⊎ RecommendIndexSample F)
  pub rows_err : Option E

pub data LoopError (E : Type 0) : Type 0 where
  query_samples scan_sample read_samples : E → LoopError E
  advisor : AdvisorError E → LoopError E
  hint : BindingError → LoopError E

abbrev pub is_blank : Bytes → Bool
is_blank text = bytes_eq (trim_space text) []

module _ {E F : Type 0} where
  abbrev pub after_samples : Option E → Outcome (LoopError E) (List (RecommendIndexSample F))
  after_samples none = ok []
  after_samples (some e) = err (read_samples e)

  unfoldable pub collect_samples :
      List (E ⊎ RecommendIndexSample F)
      → Option E
      → Outcome (LoopError E) (List (RecommendIndexSample F))
  collect_samples [] rows_err = after_samples rows_err
  collect_samples (inl e ∷ rows) rows_err = err (scan_sample e)
  collect_samples (inr x ∷ rows) rows_err =
      collect_samples rows rows_err >>= λ rest. ok (if is_blank x.sql then rest else x ∷ rest)

  abbrev pub samples_of :
      Outcome E (SampleRows E F) → Outcome (LoopError E) (List (RecommendIndexSample F))
  samples_of (ok answer) = collect_samples answer.rows answer.rows_err
  samples_of (err e) = err (query_samples e)
  samples_of panic = panic

module _ {S E F : Type 0} (database : AdvisorDatabase S E F) where
  open database use {message, quote}

  -- `Error()`: what wraps, and the text of the cause. The error of strconv.ParseUint may also say that
  -- the value is out of range, which no test tells apart.
  abbrev pub wraps : String → E → Bytes
  wraps prefix e = codes prefix ++ message e

  unfoldable pub error_text : AdvisorError E → Bytes
  error_text (acquire_recommend e) = wraps "acquire connection for RECOMMEND INDEX: " e
  error_text (select_recommend schema e) =
      codes "select schema " ++ quote schema ++ wraps " for RECOMMEND INDEX: " e
  error_text (run_recommend e) = wraps "recommend index run for statement: " e
  error_text (recommend_columns e) = wraps "read RECOMMEND INDEX columns: " e
  error_text (scan_recommend e) = wraps "scan RECOMMEND INDEX result: " e
  error_text (index_size text) =
      codes "parse estimated index size "
      ++ quote text
      ++ codes ": strconv.ParseUint: parsing "
      ++ quote text
      ++ codes ": invalid syntax"
  error_text (read_recommend e) = wraps "read RECOMMEND INDEX result: " e
  error_text (acquire_explain e) = wraps "acquire connection for EXPLAIN: " e
  error_text (select_explain schema e) =
      codes "select schema " ++ quote schema ++ wraps " for EXPLAIN: " e
  error_text (run_explain e) = wraps "explain statement: " e
  error_text (explain_columns e) = wraps "read EXPLAIN columns: " e
  error_text (scan_explain e) = wraps "scan EXPLAIN result: " e
  error_text (read_explain e) = wraps "read EXPLAIN result: " e

  unfoldable pub is_empty_query_set_error : AdvisorError E → Bool
  unfolding error_text contains
  is_empty_query_set_error e =
      contains (error_text e) (codes "empty query set after filtering invalid queries")

  unfoldable pub is_sql_syntax_error : AdvisorError E → Bool
  unfolding error_text contains to_lower
  is_sql_syntax_error e =
      contains (to_lower (error_text e)) (codes "you have an error in your sql syntax")
      || contains (to_lower (error_text e)) (codes "syntax error")

  -- A result, or a reason to skip it, or the error that ends the loop.
  abbrev pub unless_skipped :
      {A : Type 0}
      → (AdvisorError E → Bool)
      → Outcome (AdvisorError E) A
      → Outcome (LoopError E) (Option A)
  unless_skipped skips (ok a) = ok (some a)
  unless_skipped skips (err e) = if skips e then ok none else err (advisor e)
  unless_skipped skips panic = panic

  -- A call, with the errors that are skipped.
  abbrev pub try_call :
      {A : Type 0}
      → (AdvisorError E → Bool)
      → Outcome (AdvisorError E) A × S
      → Outcome (LoopError E) (Option A) × S
  try_call skips (result, s) = (unless_skipped skips result, s)

  abbrev pub completed : Advice F → Bytes → Option Bytes → List (Advice F) → List (Advice F)
  completed advice sql none rest = rest
  completed advice sql (some plan) rest = record advice { new_sql = sql; new_plan = plan } ∷ rest

  -- The loop over the advice for one statement.
  unfoldable pub complete_advice : Sample → List (Advice F) → Exec S (LoopError E) (List (Advice F))
  unfolding is_sql_syntax_error
  complete_advice sample [] s = (ok [], s)
  complete_advice sample (advice ∷ rest) s =
      continue (wrapped hint (build_hypo_index_sql sample.sql (advice.index ∷ [])), s)
        λ sql. λ s.
          continue (try_call is_sql_syntax_error (get_sql_plan database sample sql s)) λ plan. λ s.
            continue (complete_advice sample rest s) λ done. pure (completed advice sql plan done)

  abbrev pub result_of :
      RecommendIndexSample F → Bytes → List (Advice F) → Option (RecommendIndexResult F)
  result_of x old_plan [] = none
  result_of x old_plan (advice ∷ rest) = some record {
    schema = x.schema;
    digest = x.digest;
    sql = x.sql;
    exec_time = x.exec_time;
    avg_mem = x.avg_mem;
    avg_request_unit_read = x.avg_request_unit_read;
    exec_count = x.exec_count;
    recommendations = advice ∷ rest;
    old_plan = old_plan;
  }

  abbrev pub with_old_plan :
      RecommendIndexSample F
      → List (Advice F)
      → Option Bytes
      → Exec S (LoopError E) (Option (RecommendIndexResult F))
  with_old_plan x recommendations none s = (ok none, s)
  with_old_plan x recommendations (some old_plan) s =
      continue (complete_advice x.sample recommendations s) λ done. pure (result_of x old_plan done)

  abbrev pub with_recommendations :
      RecommendIndexSample F
      → Option (List (Advice F))
      → Exec S (LoopError E) (Option (RecommendIndexResult F))
  with_recommendations x none s = (ok none, s)
  with_recommendations x (some []) s = (ok none, s)
  with_recommendations x (some (advice ∷ rest)) s =
      continue
        (try_call is_sql_syntax_error
          (get_sql_plan database x.sample (convert_to_recommendable_statement x.sql) s))
        λ old_plan. with_old_plan x (advice ∷ rest) old_plan

  -- One round of the loop over the samples: a result, or none where the statement is skipped.
  unfoldable pub recommend_one :
      RecommendIndexSample F → Exec S (LoopError E) (Option (RecommendIndexResult F))
  unfolding complete_advice is_sql_syntax_error is_empty_query_set_error
  recommend_one x s =
      continue
        (try_call (λ e. is_sql_syntax_error e || is_empty_query_set_error e)
          (recommend_for database x.sample s))
        λ found. with_recommendations x found

  abbrev pub append_result :
      List (RecommendIndexResult F)
      → Option (RecommendIndexResult F)
      → List (RecommendIndexResult F)
  append_result results none = results
  append_result results (some result) = results ++ result ∷ []

  -- The test behind the append, which a skipped statement does not reach.
  abbrev pub is_full : List (RecommendIndexResult F) → Option (RecommendIndexResult F) → Bool
  is_full results none = false
  is_full results (some result) = leb max_results (length results)

  abbrev pub break_or :
      Bool
      → List (RecommendIndexResult F)
      → S
      → (List (RecommendIndexResult F) → Outcome (LoopError E) (List (RecommendIndexResult F)) × S)
      → Outcome (LoopError E) (List (RecommendIndexResult F)) × S
  break_or true results s more = (ok results, s)
  break_or false results s more = more results

  unfoldable pub recommend_all :
      List (RecommendIndexResult F)
      → List (RecommendIndexSample F)
      → Exec S (LoopError E) (List (RecommendIndexResult F))
  unfolding recommend_one
  recommend_all results [] s = (ok results, s)
  recommend_all results (x ∷ samples) s = continue (recommend_one x s) λ found. λ s.
      let results' = append_result results found in
      break_or (is_full results' found) results' s (λ rs. recommend_all rs samples s)

  unfoldable pub recommend_index :
      Floats F
      → (List (RecommendIndexSample F) → List (RecommendIndexSample F))
      → (S → Outcome E (SampleRows E F) × S)
      → Exec S (LoopError E) (List (RecommendIndexResult F))
  unfolding collect_samples aggregate_and_sort_samples recommend_all
  recommend_index floats iterate query_rows s =
      let (answer, s') = query_rows s in
      continue (samples_of answer, s')
        λ raw. recommend_all [] (aggregate_and_sort_samples floats iterate raw)
