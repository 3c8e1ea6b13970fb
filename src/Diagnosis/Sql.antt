-- ===== src/Diagnosis/Sql.antt =====
-- `SQLRepository` of diagnosis/repository.go. The database is a parameter: `S` is its state, `E` its
-- errors.
use optimizer_canary_service.Base.{
  ℕ, ◌+◌, ◌⊎◌, inl, inr, Bool, Option, none, some, List, [], ◌∷◌, ◌++◌, if◌then◌else◌, length, take,
  drop, Outcome, ok, err, panic, ◌>>=◌, ℤ, pos, negsuc,
}
use optimizer_canary_service.Text.{Bytes, codes, bytes_eq}
use optimizer_canary_service.Text.Trim.{trim_space}
use optimizer_canary_service.Text.Search.{index, trim_suffix}
use optimizer_canary_service.Text.Split.{replace_all}
use optimizer_canary_service.Text.Decimal.{itoa}
use optimizer_canary_service.Diagnosis.Validator.{
  Source, statement_summary, slow_query, top_sql, Sample,
}

-- The rows of a query, each scanned or with the error of its scan, and the error after the last one.
pub record SampleRows (E : Type 0) : Type 0 where
  pub rows : List (E ⊎ Sample)
  pub rows_err : Option E

pub data SampleError (E : Type 0) : Type 0 where
  negative_limit : ℤ → SampleError E
  unsupported_source : Source → SampleError E
  query_samples : E → SampleError E
  scan_sample : E → SampleError E
  read_samples : E → SampleError E

abbrev statement_summary_query : Bytes
statement_summary_query =
    codes "SELECT COALESCE(schema_name, ''), query_sample_text\n"
    ++ codes "FROM information_schema.cluster_statements_summary\n"
    ++ codes "WHERE query_sample_text IS NOT NULL AND query_sample_text <> ''\n"
    ++ codes "  AND LOWER(stmt_type) IN ('select', 'insert', 'update', 'delete', 'replace')\n"
    ++ codes "  AND LOWER(query_sample_text) NOT LIKE '%information_schema.slow_query%'\n"
    ++ codes "  AND LOWER(query_sample_text) NOT LIKE '%information_schema.statements_summary%'\n"
    ++ codes "ORDER BY RAND()\nLIMIT __LIMIT__"

unfoldable pub source_query : Source → Option Bytes
source_query slow_query = none
source_query top_sql = none
source_query statement_summary = some statement_summary_query

abbrev replaced_at : Bytes → Bytes → Bytes → Option ℕ → Bytes
replaced_at s old new none = s
replaced_at s old new (some i) = take i s ++ new ++ drop (i + length old) s

-- `strings.Replace` of the first one.
unfoldable pub replace_first : Bytes → Bytes → Bytes → Bytes
unfolding index
replace_first s old new = replaced_at s old new (index s old)

abbrev pub is_blank : Bytes → Bool
is_blank s = bytes_eq (trim_space s) []

module _ {E : Type 0} where
  abbrev pub with_sample :
      Sample → Outcome (SampleError E) (List Sample) → Outcome (SampleError E) (List Sample)
  with_sample x rest = rest >>= λ xs. ok (if is_blank x.sql then xs else x ∷ xs)

  abbrev pub after_rows : Option E → Outcome (SampleError E) (List Sample)
  after_rows none = ok []
  after_rows (some e) = err (read_samples e)

  -- The loop over the rows.
  unfoldable pub collect_samples :
      List (E ⊎ Sample) → Option E → Outcome (SampleError E) (List Sample)
  collect_samples [] rows_err = after_rows rows_err
  collect_samples (inl e ∷ rows) rows_err = err (scan_sample e)
  collect_samples (inr x ∷ rows) rows_err = with_sample x (collect_samples rows rows_err)

  abbrev pub of_answer : Outcome E (SampleRows E) → Outcome (SampleError E) (List Sample)
  of_answer (ok answer) = collect_samples answer.rows answer.rows_err
  of_answer (err e) = err (query_samples e)
  of_answer panic = panic

  module _ {S : Type 0} (query : Bytes → S → Outcome E (SampleRows E) × S) where
    abbrev pub sample_by : Source → Option Bytes → ℕ → S → Outcome (SampleError E) (List Sample) × S
    sample_by source none limit s = (err (unsupported_source source), s)
    sample_by source (some text) limit s =
        let (answer, s') = query (replace_first text (codes "__LIMIT__") (itoa limit)) s in
        (of_answer answer, s')

    unfoldable pub sample_statements : Source → ℤ → S → Outcome (SampleError E) (List Sample) × S
    unfolding replace_first itoa collect_samples source_query
    sample_statements source (negsuc n) s = (err (negative_limit (negsuc n)), s)
    sample_statements source (pos limit) s = sample_by source (source_query source) limit s

-- What `Explain` calls. A query ends with its error, or with the error after its rows.
pub record ExplainDatabase (S : Type 0) (E : Type 0) : Type 0 where
  pub conn : S → Option E × S
  pub exec : Bytes → S → Option E × S
  pub query : Bytes → S → Outcome E (Option E) × S
  pub close : S → S

pub data ExplainError (E : Type 0) : Type 0 where
  acquire : E → ExplainError E
  select_schema : Bytes → E → ExplainError E
  explain_statement : E → ExplainError E
  read_result : E → ExplainError E

unfoldable pub use_text : Bytes → Bytes
unfolding replace_all
use_text schema = codes "USE `" ++ replace_all schema b'`' (codes "``") ++ codes "`"

unfoldable pub explain_text : Bytes → Bytes
unfolding trim_space trim_suffix
explain_text sql = codes "EXPLAIN " ++ trim_suffix (trim_space sql) (codes ";")

module _ {S E : Type 0} (database : ExplainDatabase S E) where
  open database use {conn, exec, query, close}

  abbrev pub of_query : Outcome E (Option E) → Outcome (ExplainError E) (Unit {0})
  of_query (ok none) = ok tt
  of_query (ok (some e)) = err (read_result e)
  of_query (err e) = err (explain_statement e)
  of_query panic = panic

  abbrev pub after_use : Sample → Option E → S → Outcome (ExplainError E) (Unit {0}) × S
  after_use x (some e) s = (err (select_schema x.schema e), close s)
  after_use x none s =
      let (answer, s') = query (explain_text x.sql) s in (of_query answer, close s')

  abbrev pub use_schema : Bytes → S → Option E × S
  use_schema [] s = (none, s)
  use_schema (c ∷ schema) s = exec (use_text (c ∷ schema)) s

  abbrev pub after_conn : Sample → Option E → S → Outcome (ExplainError E) (Unit {0}) × S
  after_conn x (some e) s = (err (acquire e), s)
  after_conn x none s = let (failed, s') = use_schema x.schema s in after_use x failed s'

  unfoldable pub explain_sample : Sample → S → Outcome (ExplainError E) (Unit {0}) × S
  unfolding use_text explain_text
  explain_sample x s = let (failed, s') = conn s in after_conn x failed s'
