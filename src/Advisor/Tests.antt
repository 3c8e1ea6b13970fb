-- ===== src/Advisor/Tests.antt =====
-- Statements, costs and an aligned plan, by evaluation.
use optimizer_canary_service.Base.{ℕ, ◌≡◌, refl, List, [], ◌∷◌, map, All}
use optimizer_canary_service.Text.{Bytes, codes}
use optimizer_canary_service.Text.Split.{join}
use optimizer_canary_service.Advisor.Hinted.{Hinted}
use optimizer_canary_service.Advisor.Statement.{
  IndexRecommendation, convert_to_recommendable_statement, top_plan_cost,
}
use optimizer_canary_service.Advisor.Align.{align_row, plan_rows, align_plan_columns}
use optimizer_canary_service.Advisor.Aligned.{Aligned, align_plan_columns-Aligned}

arguments_cut :
    convert_to_recommendable_statement (codes " select ? [arguments: 1]") ≡ codes "select ?"
unfolding convert_to_recommendable_statement
arguments_cut = refl

cost_read : top_plan_cost (codes "id\testCost\nA_1\t 3.5 ") ≡ codes "3.5"
unfolding top_plan_cost
cost_read = refl

abbrev plan : Bytes
plan = codes "id\ttask\nTableReader_1\troot"

align_plan_columns-Aligned_example :
    (widths : List ℕ) × (align_plan_columns plan
      ≡ join (map (align_row widths) (plan_rows plan)) (10 ∷ []))
    × All (λ row. Aligned widths row (align_row widths row)) (plan_rows plan)
align_plan_columns-Aligned_example = align_plan_columns-Aligned plan

abbrev advice : List IndexRecommendation
advice =
    record { table = codes "t"; name = codes "i"; columns = codes "a" }
    ∷ record { table = []; name = codes "j"; columns = codes "b" }
    ∷ []
