-- ===== src/Advisor/LoopTests.antt =====
-- One statement with one advice, by evaluation.
use optimizer_canary_service.Base.{
  ℕ, suc, ◌≡◌, refl, inr, true, none, [], ◌∷◌, ◌==◌, if◌then◌else◌, Outcome, ok,
}
use optimizer_canary_service.Base.Sort.{sort}
use optimizer_canary_service.Text.{Bytes, codes, bytes_eq}
use optimizer_canary_service.Advisor.Samples.{
  RecommendIndexSample, Floats, aggregate_and_sort_samples,
}
use optimizer_canary_service.Advisor.Recommend.{
  AdvisorDatabase, CellRows, raw, null, get_sql_plan, recommend_text, run_recommend,
}
use optimizer_canary_service.Advisor.Loop.{
  SampleRows, RecommendIndexResult, is_sql_syntax_error, recommend_index,
}
use optimizer_canary_service.Advisor.Bounded.{Yields, InBounds, recommend_index-InBounds}

abbrev advice_rows : CellRows Bytes
advice_rows = record {
  columns =
      ok (codes "Table" ∷ codes "index_name" ∷ codes "index_columns" ∷ codes "est_index_size" ∷ []);
  rows =
      inr (raw (codes "t") ∷ raw (codes "idx_a") ∷ raw (codes " a ") ∷ raw (codes "10") ∷ []) ∷ [];
  rows_err = none;
}

abbrev plan_rows : CellRows Bytes
plan_rows = record {
  columns = ok (codes "id" ∷ codes "estCost" ∷ []);
  rows = inr (raw (codes "Point_Get_1") ∷ null ∷ []) ∷ [];
  rows_err = none;
}

-- The state counts the queries: the first gives the advice, the others a plan.
abbrev advisor_database : AdvisorDatabase ℕ Bytes (Unit {0})
advisor_database = record {
  conn = λ s. (none, s);
  exec = λ text s. (none, s);
  query = λ text s. (ok (if s == 0 then advice_rows else plan_rows), suc s);
  close = λ s. s;
  improvement_of = λ text. none;
  message = λ e. e;
  quote = λ text. text;
}

abbrev slow : RecommendIndexSample (Unit {0})
slow = record {
  sample = record { schema = []; sql = codes "select a from t" };
  digest = codes "d1";
  plan = [];
  exec_time = 5;
  exec_count = 2;
  avg_mem = tt;
  avg_request_unit_read = tt;
}

abbrev no_floats : Floats (Unit {0})
no_floats = record { of_uint = λ n. tt; plus = λ a b. tt; times = λ a b. tt; divided = λ a b. tt }

abbrev slow_rows : ℕ → Outcome Bytes (SampleRows Bytes (Unit {0})) × ℕ
slow_rows s = (ok (record { rows = inr slow ∷ inr slow ∷ []; rows_err = none }), s)

merged_times :
    aggregate_and_sort_samples no_floats (λ xs. xs) (slow ∷ slow ∷ [])
    ≡ record slow { exec_time = 10; exec_count = 4 } ∷ []
unfolding aggregate_and_sort_samples sort
merged_times = refl

plan_of_slow :
    get_sql_plan advisor_database slow.sample (codes "select 1;") 1
    ≡ (ok (codes "id\testCost\nPoint_Get_1\t"), 2)
unfolding get_sql_plan bytes_eq
plan_of_slow = refl

quoted_statement :
    recommend_text (codes "select 'x';") ≡ codes "RECOMMEND INDEX RUN FOR 'select ''x'''"
unfolding recommend_text
quoted_statement = refl

syntax_error :
    is_sql_syntax_error advisor_database
      (run_recommend (codes "You have an error in your SQL syntax"))
    ≡ true
unfolding is_sql_syntax_error
syntax_error = refl

recommend_index-InBounds_example :
    Yields
      (InBounds advisor_database)
      (recommend_index advisor_database no_floats (λ xs. xs) slow_rows 0)
recommend_index-InBounds_example =
    recommend_index-InBounds advisor_database no_floats (λ xs. xs) slow_rows 0

abbrev plain_result : RecommendIndexResult (Unit {0})
plain_result = record {
  schema = [];
  digest = codes "D1";
  sql = codes "select 1";
  exec_time = 5;
  avg_mem = tt;
  avg_request_unit_read = tt;
  exec_count = 2;
  recommendations = [];
  old_plan = [];
}
