-- ===== src/Advisor/Report.antt =====
-- `RenderRecommendIndex` and its helpers of diagnosis/index_advisor/recommend_index.go; `none` is that
-- the fuel for a fence ran out. The comparison of improvements and their format are parameters.
use optimizer_canary_service.Base.{
  ℕ, zero, suc, compare, Ordering, Bool, Option, none, some, List, [], ◌∷◌, ◌++◌, if◌then◌else◌,
  length,
}
use optimizer_canary_service.Base.Sort.{sort}
use optimizer_canary_service.Text.{Bytes, codes, to_lower, compare_bytes}
use optimizer_canary_service.Text.Decimal.{itoa}
use optimizer_canary_service.Compare.Report.Cell.{first_eight, escape_html}
use optimizer_canary_service.Compare.Report.Time.{format_exec_time}
use optimizer_canary_service.Compare.Report.Fence.{ticks, fence_from, fence_fuel}
use optimizer_canary_service.Compare.Report.Columns.{without_plan_columns}
use optimizer_canary_service.Advisor.Align.{align_plan_columns}
use optimizer_canary_service.Advisor.Statement.{top_plan_cost}
use optimizer_canary_service.Advisor.Recommend.{Advice}
use optimizer_canary_service.Advisor.Loop.{RecommendIndexResult}

-- `writeRecommendSQLBlock`.
abbrev pub sql_fenced : Bytes → Option ℕ → Option Bytes
sql_fenced content none = none
sql_fenced content (some n) =
    some (ticks n ++ codes "sql\n" ++ content ++ codes "\n" ++ ticks n ++ codes "\n")

unfoldable pub write_recommend_sql_block : Bytes → Option Bytes
unfolding fence_from
write_recommend_sql_block content = sql_fenced content (fence_from (fence_fuel content) 3 content)

unfoldable pub write_metadata_block : Bytes → Bytes
unfolding escape_html
write_metadata_block content =
    codes
      "<pre style=\"background: transparent; border: none; box-shadow: none; padding: 0; white-space: pre; overflow-x: auto; font-family: monospace;\">"
    ++ escape_html content
    ++ codes "</pre>\n"

unfoldable pub write_plan_block : Bytes → Bytes
unfolding escape_html
write_plan_block plan =
    codes
      "<pre style=\"white-space: pre; overflow-x: auto; max-width: 100%;\"><code style=\"white-space: pre; overflow-wrap: normal; word-break: normal;\">"
    ++ escape_html plan
    ++ codes "</code></pre>\n"

-- `firstEightRecommend` and `formatRecommendExecTime` are written like those of the comparison.
abbrev pub first_eight_recommend : Bytes → Bytes
first_eight_recommend value = first_eight value

abbrev pub format_recommend_exec_time : ℕ → Bytes
format_recommend_exec_time ns = format_exec_time ns

-- The pieces of a report, where each can be written.
infixr 60 ◌<+>◌
abbrev pub ◌<+>◌ : Option Bytes → Option Bytes → Option Bytes
none <+> b = none
some a <+> none = none
some a <+> some b = some (a ++ b)

module _ {F : Type 0} (greater : F → F → Bool) (percent : F → Bytes) where
  abbrev pub better : Option F → Option F → Option F
  better best none = best
  better none (some x) = some x
  better (some best) (some x) = if greater x best then some x else some best

  unfoldable pub best_improvement : Option F → List (Advice F) → Option F
  best_improvement best [] = best
  best_improvement best (advice ∷ rest) = best_improvement (better best advice.improvement) rest

  abbrev pub improvement_text : Option F → Bytes
  improvement_text none = codes "N/A"
  improvement_text (some x) = percent x

  unfoldable pub format_est_improvement : List (Advice F) → Bytes
  unfolding best_improvement
  format_est_improvement recommendations = improvement_text (best_improvement none recommendations)

  abbrev pub result_order : RecommendIndexResult F → RecommendIndexResult F → Ordering
  unfolding compare_bytes
  result_order a b =
      let by_digest = compare_bytes a.digest b.digest in
      elim (compare b.exec_time a.exec_time) [
        | Ordering.lt ↦ Ordering.lt
        | Ordering.gt ↦ Ordering.gt
        | Ordering.eq ↦ by_digest
      ]

  abbrev pub advice_count : List (Advice F) → ℕ
  advice_count recommendations = length recommendations

  -- The cells of a result, in the row of its first advice.
  abbrev pub result_cells : RecommendIndexResult F → Bytes
  result_cells result =
      let span =
        codes "<td rowspan=\"" ++ itoa (advice_count result.recommendations) ++ codes "\">" in
      span
      ++ codes "<a href=\"#sql-"
      ++ escape_html (to_lower result.digest)
      ++ codes "\">"
      ++ escape_html (first_eight_recommend result.digest)
      ++ codes "</a></td>"
      ++ span
      ++ format_recommend_exec_time result.exec_time
      ++ codes "</td>"
      ++ span
      ++ itoa result.exec_count
      ++ codes "</td>"

  abbrev pub first_cells : RecommendIndexResult F → ℕ → Bytes
  first_cells result zero = result_cells result
  first_cells result (suc i) = []

  abbrev pub database_of : Bytes → Bytes → Bytes
  database_of schema [] = schema
  database_of schema (c ∷ database) = c ∷ database

  unfoldable pub overview_row : RecommendIndexResult F → ℕ → Advice F → Bytes
  unfolding escape_html itoa format_est_improvement top_plan_cost first_eight to_lower
      format_exec_time
  overview_row result i advice =
      codes "<tr>"
      ++ first_cells result i
      ++ codes "<td>"
      ++ escape_html (database_of result.schema advice.database)
      ++ codes "</td><td>"
      ++ escape_html advice.table
      ++ codes "</td><td>"
      ++ escape_html
          (top_plan_cost result.old_plan ++ codes " -> " ++ top_plan_cost advice.new_plan)
      ++ codes "</td><td>"
      ++ format_est_improvement (advice ∷ [])
      ++ codes "</td><td><a href=\"#index-advice-"
      ++ escape_html (to_lower result.digest)
      ++ codes "-"
      ++ itoa (suc i)
      ++ codes "\">detail</a></td></tr>\n"

  unfoldable pub overview_rows : RecommendIndexResult F → ℕ → List (Advice F) → Bytes
  unfolding overview_row
  overview_rows result i [] = []
  overview_rows result i (advice ∷ rest) =
      overview_row result i advice ++ overview_rows result (suc i) rest

  unfoldable pub overview : List (RecommendIndexResult F) → Bytes
  unfolding overview_rows
  overview [] = []
  overview (result ∷ results) = overview_rows result 0 result.recommendations ++ overview results

  abbrev pub advice_head : RecommendIndexResult F → ℕ → Bytes
  advice_head result i =
      codes "\n<a id=\"index-advice-"
      ++ to_lower result.digest
      ++ codes "-"
      ++ itoa (suc i)
      ++ codes "\"></a>\n\n### Advice\n\n#### Create Index Statement\n\n"

  abbrev pub plans_head : RecommendIndexResult F → Bytes
  plans_head result =
      codes "\n#### Old Plan\n\n"
      ++ write_plan_block (
          align_plan_columns (
            without_plan_columns result.old_plan
              (codes "actRows" ∷ codes "execution info" ∷ codes "memory" ∷ codes "disk" ∷ [])))
      ++ codes "\n#### New Plan\n\n"

  abbrev pub new_plan_part : Advice F → Bytes
  new_plan_part advice = codes "\n" ++ write_plan_block (align_plan_columns advice.new_plan)

  unfoldable pub advice_section : RecommendIndexResult F → ℕ → Advice F → Option Bytes
  unfolding write_recommend_sql_block write_plan_block align_plan_columns without_plan_columns itoa
      to_lower
  advice_section result i advice =
      some (advice_head result i)
      <+> write_recommend_sql_block advice.create_statement
      <+> some (plans_head result)
      <+> write_recommend_sql_block (codes "-- Sql with hypo_index hint\n" ++ advice.new_sql)
      <+> some (new_plan_part advice)

  unfoldable pub advice_sections : RecommendIndexResult F → ℕ → List (Advice F) → Option Bytes
  unfolding advice_section
  advice_sections result i [] = some []
  advice_sections result i (advice ∷ rest) =
      advice_section result i advice <+> advice_sections result (suc i) rest

  abbrev pub result_head : RecommendIndexResult F → Bytes
  result_head result =
      codes "\n<a id=\"sql-"
      ++ to_lower result.digest
      ++ codes "\"></a>\n\n## SQL: "
      ++ escape_html (first_eight_recommend result.digest)
      ++ codes "\n\n"
      ++ write_metadata_block (codes "SQL Digest: " ++ result.digest)
      ++ codes "\n### SQL Statement\n\n"

  unfoldable pub result_section : RecommendIndexResult F → Option Bytes
  unfolding advice_sections write_metadata_block write_recommend_sql_block first_eight escape_html
      to_lower
  result_section result =
      some (result_head result)
      <+> write_recommend_sql_block result.sql
      <+> advice_sections result 0 result.recommendations

  unfoldable pub result_sections : List (RecommendIndexResult F) → Option Bytes
  unfolding result_section
  result_sections [] = some []
  result_sections (result ∷ results) = result_section result <+> result_sections results

  abbrev pub report_head : List (RecommendIndexResult F) → Bytes
  report_head sorted =
      codes "# Index Recommendation Overview\n\n"
      ++ codes
          "<table>\n<thead><tr><th>SQL</th><th>Total Time</th><th>Count</th><th>Database</th><th>Table</th><th>Est Cost Change</th><th>Est Improvement</th><th>Advice</th></tr></thead>\n<tbody>\n"
      ++ overview sorted
      ++ codes "</tbody>\n</table>\n"
      ++ codes "\n# Recommendation List\n"

  -- The report, of the results as they are sorted.
  unfoldable pub render_recommend_index : List (RecommendIndexResult F) → Option Bytes
  unfolding overview result_sections
  render_recommend_index results =
      let sorted = sort result_order results in some (report_head sorted) <+> result_sections sorted
