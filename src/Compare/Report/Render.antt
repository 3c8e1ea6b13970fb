-- ===== src/Compare/Report/Render.antt =====
-- `renderComparison`, `writeDetailWithAnchor` and `Compare` of diagnosis/compare/compare.go. The
-- builder is a text, the groups of `detailGroups` stand in the order of `detailOrder`.
use optimizer_canary_service.Base.{
  Bool, ◌&&◌, Option, none, some, List, [], ◌∷◌, ◌++◌, map, if◌then◌else◌,
}
use optimizer_canary_service.Text.{Bytes, codes, bytes_eq}
use optimizer_canary_service.Text.Split.{join}
use optimizer_canary_service.Text.Decimal.{itoa}
use optimizer_canary_service.Base.Exec.{Exec, continue, pure}
use optimizer_canary_service.Compare.Summary.Infos.{SqlInfo}
use optimizer_canary_service.Compare.Summary.Run.{
  CompareRepository, CompareError, compare_rows, CompareRepository, ComparedPlan, ReportSummary,
}
use optimizer_canary_service.Compare.Binding.Place.{binding_statement}
use optimizer_canary_service.Compare.Report.Time.{format_exec_time}
use optimizer_canary_service.Compare.Report.Cell.{first_eight, escape_html, markdown_cell}
use optimizer_canary_service.Compare.Report.Fence.{write_code_block}
use optimizer_canary_service.Compare.Report.Anchor.{Anchors, unique_heading_anchor}
use optimizer_canary_service.Compare.Report.Columns.{without_plan_columns}

-- `sqlDetailKey`, with the anchor and the text of its group.
pub record Section : Type 0 where
  pub digest : Bytes
  pub schema : Bytes
  pub sql : Bytes
  pub anchor : Bytes
  pub details : Bytes

-- The variables of the loop.
pub record Draft : Type 0 where
  pub rows : List Bytes
  pub anchors : Anchors
  pub sections : List Section

unfoldable pub concat_all : List Bytes → Bytes
unfolding join
concat_all ps = join ps []

unfoldable pub bind_some : {A B : Type 0} → Option A → (A → Option B) → Option B
bind_some none f = none
bind_some (some a) f = f a

abbrev pub is_of : Section → SqlInfo → Bool
is_of section statement =
    bytes_eq section.digest statement.sql_digest
    && bytes_eq section.schema statement.schema
    && bytes_eq section.sql statement.sql

unfoldable pub find_section : List Section → SqlInfo → Option Section
find_section [] statement = none
find_section (section ∷ sections) statement =
    let rest = find_section sections statement in
    if is_of section statement then some section else rest

-- Text written to the group of a statement.
unfoldable pub write_section : List Section → SqlInfo → Bytes → List Section
write_section [] statement text = []
write_section (section ∷ sections) statement text =
    let rest = write_section sections statement text in
    if is_of section statement
    then record section { details = section.details ++ text } ∷ sections
    else section ∷ rest

abbrev pub heading : Bytes → Bytes → Bytes → Bytes
heading anchor marks title = concat_all (
    codes "\n<a id=\""
    ∷ escape_html anchor
    ∷ codes "\"></a>\n\n"
    ∷ marks
    ∷ title
    ∷ codes "\n\n"
    ∷ [])

unfoldable pub write_detail : Bytes → Bytes → SqlInfo → Bytes → Bytes → Option Bytes
write_detail anchor title statement plan_digest content =
    bind_some (write_code_block content) λ block. some (
      concat_all (
        heading anchor (codes "### ") title
        ∷ codes "Schema: "
        ∷ markdown_cell statement.schema
        ∷ codes "  \nSQL Digest: "
        ∷ markdown_cell statement.sql_digest
        ∷ codes "  \nPlan Digest: "
        ∷ markdown_cell plan_digest
        ∷ codes "\n\n"
        ∷ block
        ∷ []))

-- The group of a statement, made where it is new.
unfoldable pub open_section : Option Section → Draft → SqlInfo → Option (Bytes × Draft)
open_section (some section) draft statement = some (section.anchor, draft)
open_section none draft statement =
    let prefix = first_eight statement.sql_digest in
    let (anchor, anchors) = unique_heading_anchor (codes "sql-" ++ prefix) draft.anchors in
    bind_some (write_code_block statement.sql) λ block.
      let details = concat_all (
        heading anchor (codes "## ") (codes "SQL: " ++ prefix)
        ∷ codes "Schema: "
        ∷ markdown_cell statement.schema
        ∷ codes "  \nSQL Digest: "
        ∷ markdown_cell statement.sql_digest
        ∷ codes "\n\n"
        ∷ block
        ∷ []) in
      some (
        anchor,
        record draft {
          anchors = anchors;
          sections =
              draft.sections
              ++ record {
                digest = statement.sql_digest;
                schema = statement.schema;
                sql = statement.sql;
                anchor = anchor;
                details = details;
              }
                ∷ [];
        },
      )

unfoldable pub binding_text : SqlInfo → Bytes → Bytes
unfolding binding_statement
binding_text statement [] = codes "No PLAN_HINT available."
binding_text statement (c ∷ bindings) = binding_statement statement.sql (c ∷ bindings)

abbrev pub link : Bytes → Bytes → Bytes
link text anchor = concat_all (codes "[" ∷ text ∷ codes "](#" ∷ anchor ∷ codes ")" ∷ [])

abbrev pub runtime_columns : List Bytes
runtime_columns = codes "actRows" ∷ codes "execution info" ∷ codes "memory" ∷ codes "disk" ∷ []

-- One round of the loop.
unfoldable pub render_plan : Draft → ComparedPlan → Option Draft
render_plan draft plan =
    let statement = plan.statement in
    let sql_prefix = first_eight statement.sql_digest in
    let current_prefix = first_eight statement.plan_digest in
    let new_prefix = first_eight plan.new_plan_digest in
    bind_some (open_section (find_section draft.sections statement) draft statement) λ opened.
      let (current_anchor, anchors) =
        unique_heading_anchor (codes "current-plan-" ++ sql_prefix ++ codes "-" ++ current_prefix)
          opened.1.anchors in
      let (new_anchor, anchors) =
        unique_heading_anchor (codes "new-plan-" ++ sql_prefix ++ codes "-" ++ new_prefix)
          anchors in
      let (binding_anchor, anchors) =
        unique_heading_anchor (codes "binding-stmt-" ++ sql_prefix ++ codes "-" ++ current_prefix)
          anchors in
      bind_some
        (write_detail current_anchor (codes "Current Plan: " ++ current_prefix) statement
          statement.plan_digest (without_plan_columns statement.plan runtime_columns))
        λ current.
          bind_some
            (write_detail new_anchor (codes "New Plan: " ++ new_prefix) statement
              plan.new_plan_digest plan.new_plan_text)
            λ new.
              bind_some
                (write_detail binding_anchor
                  (codes "Binding Stmt: " ++ sql_prefix ++ codes "_" ++ current_prefix) statement
                  statement.plan_digest (binding_text statement plan.bindings))
                λ bound. some record {
                  rows =
                      draft.rows
                      ++ concat_all (
                          codes "| "
                          ∷ link (markdown_cell sql_prefix) opened.0
                          ∷ codes " | "
                          ∷ format_exec_time statement.exec_time
                          ∷ codes " | "
                          ∷ itoa statement.exec_count
                          ∷ codes " | "
                          ∷ link (markdown_cell current_prefix) current_anchor
                          ∷ codes " | "
                          ∷ link (markdown_cell new_prefix) new_anchor
                          ∷ codes " | "
                          ∷ markdown_cell plan.plan_change
                          ∷ codes " | "
                          ∷ link (markdown_cell (codes "binding stmt")) binding_anchor
                          ∷ codes " |\n"
                          ∷ [])
                        ∷ [];
                  anchors = anchors;
                  sections = write_section opened.1.sections statement (current ++ new ++ bound);
                }

unfoldable pub render_plans : Draft → List ComparedPlan → Option Draft
render_plans draft [] = some draft
render_plans draft (plan ∷ plans) = bind_some (render_plan draft plan) λ d. render_plans d plans

abbrev pub no_draft : Draft
no_draft = record { rows = []; anchors = []; sections = [] }

abbrev pub none_found : List ComparedPlan → Bytes
none_found [] = codes "\nNo plan differences found.\n"
none_found (plan ∷ plans) = []

unfoldable pub render_comparison : List ComparedPlan → ReportSummary → Option Bytes
render_comparison plans summary = bind_some (render_plans no_draft plans) λ draft. some (
    concat_all (
      codes "# SQL Plan Comparison\n\n## Summary\n\n- SQLs Checked: "
      ∷ itoa summary.checked_sqls
      ∷ codes "\n- Total ExecCount: "
      ∷ itoa summary.total_exec_count
      ∷ codes "\n- SQLs with Plan Changes: "
      ∷ itoa summary.changed_sqls
      ∷ codes "\n\n| SQL Digest | Total ExecTime | ExecCount | Current Plan | New Plan "
      ∷ codes "| Plan Change | Binding of the Current Plan |\n"
      ∷ codes "| --- | ---: | ---: | --- | --- | --- | --- |\n"
      ∷ concat_all draft.rows
      ∷ none_found plans
      ∷ concat_all (map (λ s. s.details) draft.sections)
      ∷ []))

-- `Compare`: the report of the comparison.
unfoldable pub compare_report :
    {S E : Type 0} → CompareRepository S E → Exec S (CompareError E) (Option Bytes)
compare_report repository s =
    continue (compare_rows repository s) λ found. pure (render_comparison found.0 found.1)
