-- ===== src/Compare/Report/Tests.antt =====
-- Pieces of a report, by evaluation.
use optimizer_canary_service.Base.{
  ℕ, suc, ◌≤◌, ◌<◌, ◌≡◌, refl, ◌≢◌, true, false, not, some, List, [], ◌∷◌, ◌++◌, map, length, keep,
  any,
}
use optimizer_canary_service.Text.{Bytes, codes, to_lower, equal_fold}
use optimizer_canary_service.Text.Search.{contains}
use optimizer_canary_service.Text.Split.{split}
use optimizer_canary_service.Compare.Summary.Tests.{first_info}
use optimizer_canary_service.Compare.Summary.Run.{ComparedPlan, ReportSummary}
use optimizer_canary_service.Compare.Report.Time.{format_exec_time}
use optimizer_canary_service.Compare.Report.Fence.{ticks, write_code_block, write_code_block-Fenced}
use optimizer_canary_service.Compare.Report.Anchor.{
  unique_heading_anchor, after, numbered, occurrences, unique_heading_anchor-after,
}
use optimizer_canary_service.Compare.Report.Columns.{
  header_fields, removed_columns, is_named, kept_fields, strip_line, without_plan_columns,
  without_plan_columns_lem,
}

half_a_second : format_exec_time 1509999999 ≡ codes "1.50s"
unfolding format_exec_time
half_a_second = refl

write_code_block-Fenced_example :
    (m : ℕ) × (write_code_block (codes "a```b")
      ≡ some (ticks m ++ codes "text\n" ++ codes "a```b" ++ codes "\n" ++ ticks m ++ codes "\n"))
    × (3 ≤ m)
    × (contains (codes "a```b") (ticks m) ≡ false)
    × ((k : ℕ) → 3 ≤ k → k < m → contains (codes "a```b") (ticks k) ≡ true)
write_code_block-Fenced_example = write_code_block-Fenced (codes "a```b")

abbrev titles : List Bytes
titles = codes "sql-ab" ∷ codes "sql-cd" ∷ []

unique_heading_anchor-after_example :
    (unique_heading_anchor (codes "SQL-ab") (after titles [])).0
    ≡ numbered (to_lower (codes "SQL-ab")) (suc (occurrences titles (codes "SQL-ab")))
unique_heading_anchor-after_example = unique_heading_anchor-after titles (codes "SQL-ab")

abbrev plan_text : Bytes
plan_text = codes "id\ttask\tactRows\nA_1\troot\t3"

abbrev plan_header : List Bytes
plan_header = codes "id" ∷ codes "task" ∷ codes "actRows" ∷ []

abbrev runtime : List Bytes
runtime = codes "actRows" ∷ []

plan_header_found : header_fields (split plan_text 10) ≡ some plan_header
unfolding header_fields split
plan_header_found = refl

plan_header_named : any (λ r. r) (removed_columns runtime plan_header) ≡ true
unfolding removed_columns equal_fold
plan_header_named = refl

without_plan_columns_lem_example :
    (split (without_plan_columns plan_text runtime) 10
      ≡ map (λ line. strip_line (removed_columns runtime plan_header) line) (split plan_text 10))
    × (kept_fields (removed_columns runtime plan_header) plan_header
        ≡ keep (λ field. not (is_named runtime field)) plan_header)
    × ((line : Bytes)
        → length (split line b'\t') ≡ length (removed_columns runtime plan_header)
        → kept_fields (removed_columns runtime plan_header) (split line b'\t') ≢ []
        → split (strip_line (removed_columns runtime plan_header) line) b'\t'
          ≡ kept_fields (removed_columns runtime plan_header) (split line b'\t'))
without_plan_columns_lem_example =
    without_plan_columns_lem plan_text runtime plan_header plan_header_found plan_header_named

abbrev changed_plan : ComparedPlan
changed_plan = record {
  statement = first_info;
  new_plan_text = codes "new";
  new_plan_digest = codes "p9";
  bindings = [];
  plan_change = codes "others";
}

abbrev one_summary : ReportSummary
one_summary = record { checked_sqls = 1; total_exec_count = 2; changed_sqls = 1 }
