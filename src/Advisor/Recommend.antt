-- ===== src/Advisor/Recommend.antt =====
-- `recommendFor` and `getSQLPlan` of diagnosis/index_advisor/recommend_index.go. `S` is the state of the
-- database, `E` an error of its driver, `F` is float64.
use optimizer_canary_service.Base.{
  ℕ, ◌⊎◌, inl, inr, Bool, not, ◌||◌, Option, none, some, List, [], ◌∷◌, ◌++◌, map, if◌then◌else◌,
  Outcome, ok, err, panic, ◌>>=◌,
}
use optimizer_canary_service.Text.{Bytes, codes, bytes_eq, to_lower}
use optimizer_canary_service.Text.Trim.{trim_space, trim_right_byte}
use optimizer_canary_service.Text.Search.{trim_suffix}
use optimizer_canary_service.Text.Split.{join, replace_all}
use optimizer_canary_service.Compare.Samples.Arguments.{parse_uint}
use optimizer_canary_service.Advisor.Samples.{Sample}
use optimizer_canary_service.Advisor.Statement.{
  IndexRecommendation, convert_to_recommendable_statement, is_empty,
}

-- A value that the driver scans: NULL, bytes, or another, by what `fmt.Sprint` prints.
pub data Cell : Type 0 where
  null : Cell
  raw : Bytes → Cell
  other : Bytes → Cell

-- What `*sql.Rows` answers.
pub record CellRows (E : Type 0) : Type 0 where
  pub columns : Outcome E (List Bytes)
  pub rows : List (E ⊎ List Cell)
  pub rows_err : Option E

-- A connection of the pool, and the library calls that read an answer: the improvement of the first
-- impacted query, from its JSON, the text of an error of the driver, and `%q`.
pub record AdvisorDatabase (S E F : Type 0) : Type 0 where
  pub conn : S → Option E × S
  pub exec : Bytes → S → Option E × S
  pub query : Bytes → S → Outcome E (CellRows E) × S
  pub close : S → S
  pub improvement_of : Bytes → Option F
  pub message : E → Bytes
  pub quote : Bytes → Bytes

pub data AdvisorError (E : Type 0) : Type 0 where
  acquire_recommend : E → AdvisorError E
  select_recommend : Bytes → E → AdvisorError E
  run_recommend : E → AdvisorError E
  recommend_columns : E → AdvisorError E
  scan_recommend : E → AdvisorError E
  index_size : Bytes → AdvisorError E
  read_recommend : E → AdvisorError E
  acquire_explain : E → AdvisorError E
  select_explain : Bytes → E → AdvisorError E
  run_explain : E → AdvisorError E
  explain_columns : E → AdvisorError E
  scan_explain : E → AdvisorError E
  read_explain : E → AdvisorError E

pub record Advice (F : Type 0) : Type 0 where
  pub index : IndexRecommendation
  pub open index use *
  pub size_bytes : ℕ
  pub output : Bytes
  pub create_statement : Bytes
  pub database : Bytes
  pub new_sql : Bytes
  pub new_plan : Bytes
  pub improvement : Option F

unfoldable pub recommend_cell_string : Cell → Bytes
unfolding trim_space
recommend_cell_string null = []
recommend_cell_string (raw text) = trim_space text
recommend_cell_string (other text) = trim_space text

unfoldable pub plan_cell_string : Cell → Bytes
plan_cell_string null = []
plan_cell_string (raw text) = text
plan_cell_string (other text) = text

-- The last cell whose column has a name, in any case; empty where there is none. A row has as many
-- cells as there are columns.
unfoldable pub named_cell : List Bytes → List Cell → Bytes → Bytes → Bytes
unfolding bytes_eq to_lower recommend_cell_string
named_cell [] cells name found = found
named_cell (column ∷ columns) [] name found = found
named_cell (column ∷ columns) (cell ∷ cells) name found =
    named_cell columns cells name
      (if bytes_eq (to_lower column) name then recommend_cell_string cell else found)

unfoldable pub output_fields : List Bytes → List Cell → List Bytes
unfolding recommend_cell_string
output_fields [] cells = []
output_fields (column ∷ columns) [] = []
output_fields (column ∷ columns) (cell ∷ cells) =
    (column ++ codes ": " ++ recommend_cell_string cell) ∷ output_fields columns cells

unfoldable pub use_text : Bytes → Bytes
unfolding replace_all
use_text schema = codes "USE `" ++ replace_all schema b'`' (codes "``") ++ codes "`"

unfoldable pub recommend_text : Bytes → Bytes
unfolding replace_all convert_to_recommendable_statement
recommend_text sql =
    codes "RECOMMEND INDEX RUN FOR '"
    ++ replace_all (convert_to_recommendable_statement sql) b'\'' (codes "''")
    ++ codes "'"

unfoldable pub explain_text : Bytes → Bytes
unfolding trim_space trim_suffix
explain_text statement =
    codes "EXPLAIN FORMAT='verbose' " ++ trim_suffix (trim_space statement) (codes ";")

module _ {S E F : Type 0} (database : AdvisorDatabase S E F) where
  open database use {conn, exec, query, close, improvement_of}

  abbrev pub Answered : Type 0 → Type 0
  Answered A = Outcome (AdvisorError E) A × S

  abbrev pub sized : Bytes → Option ℕ → Outcome (AdvisorError E) ℕ
  sized text none = err (index_size text)
  sized text (some n) = ok n

  -- The advice of a row.
  unfoldable pub advice_of : List Bytes → List Cell → Outcome (AdvisorError E) (Advice F)
  unfolding named_cell output_fields parse_uint join
  advice_of columns cells =
      let cell = λ (name : Bytes). named_cell columns cells name [] in
      sized (cell (codes "est_index_size")) (parse_uint (cell (codes "est_index_size"))) >>= λ size.
      ok record {
        index = record {
          table = cell (codes "table");
          name = cell (codes "index_name");
          columns = cell (codes "index_columns");
        };
        size_bytes = size;
        output = join (output_fields columns cells) (codes "\n");
        create_statement = cell (codes "create_index_statement");
        database = cell (codes "database");
        new_sql = [];
        new_plan = [];
        improvement = improvement_of (cell (codes "top_impacted_query"));
      }

  abbrev pub is_advice : Advice F → Bool
  is_advice advice =
      not (is_empty advice.table) || not (is_empty advice.name) || not (is_empty advice.columns)

  abbrev pub after_rows :
      {A : Type 0} → (E → AdvisorError E) → Option E → List A → Outcome (AdvisorError E) (List A)
  after_rows wrap none values = ok values
  after_rows wrap (some e) values = err (wrap e)

  unfoldable pub collect_advice :
      List Bytes → List (E ⊎ List Cell) → Option E → Outcome (AdvisorError E) (List (Advice F))
  unfolding advice_of
  collect_advice columns [] rows_err = after_rows read_recommend rows_err []
  collect_advice columns (inl e ∷ rows) rows_err = err (scan_recommend e)
  collect_advice columns (inr cells ∷ rows) rows_err = advice_of columns cells >>= λ advice.
      collect_advice columns rows rows_err >>= λ rest.
      ok (if is_advice advice then advice ∷ rest else rest)

  abbrev pub advice_from :
      Outcome E (List Bytes)
      → List (E ⊎ List Cell)
      → Option E
      → Outcome (AdvisorError E) (List (Advice F))
  advice_from (ok columns) rows rows_err = collect_advice columns rows rows_err
  advice_from (err e) rows rows_err = err (recommend_columns e)
  advice_from panic rows rows_err = panic

  abbrev pub advice_rows : Outcome E (CellRows E) → Outcome (AdvisorError E) (List (Advice F))
  advice_rows (ok set) = advice_from set.columns set.rows set.rows_err
  advice_rows (err e) = err (run_recommend e)
  advice_rows panic = panic

  -- The lines of a plan, each with its end.
  unfoldable pub plan_lines :
      List (E ⊎ List Cell) → Option E → Outcome (AdvisorError E) (List Bytes)
  unfolding plan_cell_string join
  plan_lines [] rows_err = after_rows read_explain rows_err []
  plan_lines (inl e ∷ rows) rows_err = err (scan_explain e)
  plan_lines (inr cells ∷ rows) rows_err = plan_lines rows rows_err >>= λ rest.
      ok ((join (map plan_cell_string cells) (codes "\t") ++ codes "\n") ∷ rest)

  abbrev pub plan_from :
      Outcome E (List Bytes) → List (E ⊎ List Cell) → Option E → Outcome (AdvisorError E) Bytes
  plan_from (ok columns) rows rows_err = plan_lines rows rows_err >>= λ lines.
      ok (trim_right_byte 10 (join columns (codes "\t") ++ codes "\n" ++ join lines []))
  plan_from (err e) rows rows_err = err (explain_columns e)
  plan_from panic rows rows_err = panic

  abbrev pub plan_of_rows : Outcome E (CellRows E) → Outcome (AdvisorError E) Bytes
  plan_of_rows (ok set) = plan_from set.columns set.rows set.rows_err
  plan_of_rows (err e) = err (run_explain e)
  plan_of_rows panic = panic

  abbrev pub use_schema : Bytes → S → Option E × S
  use_schema [] s = (none, s)
  use_schema (c ∷ schema) s = exec (use_text (c ∷ schema)) s

  -- One query on a connection of its own with the schema selected, closed on every path.
  module _ {A : Type 0} (acquire : E → AdvisorError E) (select : E → AdvisorError E)
      (read : Outcome E (CellRows E) → Outcome (AdvisorError E) A) (text : Bytes) where
    abbrev pub after_use : Option E → S → Answered A
    after_use (some e) s = (err (select e), close s)
    after_use none s = let (answer, s') = query text s in (read answer, close s')

    abbrev pub after_conn : Bytes → Option E → S → Answered A
    after_conn schema (some e) s = (err (acquire e), s)
    after_conn schema none s = let (failed, s') = use_schema schema s in after_use failed s'

    unfoldable pub query_once : Bytes → S → Answered A
    unfolding use_text
    query_once schema s = let (failed, s') = conn s in after_conn schema failed s'

  unfoldable pub recommend_for : Sample → S → Answered (List (Advice F))
  unfolding query_once recommend_text collect_advice
  recommend_for sample s =
      query_once acquire_recommend (select_recommend sample.schema) advice_rows
        (recommend_text sample.sql) sample.schema s

  unfoldable pub get_sql_plan : Sample → Bytes → S → Answered Bytes
  unfolding query_once explain_text plan_lines trim_right_byte
  get_sql_plan sample statement s =
      query_once acquire_explain (select_explain sample.schema) plan_of_rows
        (explain_text statement) sample.schema s
