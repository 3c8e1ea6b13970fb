-- ===== src/Advisor/Statement.antt =====
-- `convertToRecommendableStatement`, `buildHypoIndexSQL` and `topPlanCost` of
-- diagnosis/index_advisor/recommend_index.go.
use optimizer_canary_service.Base.{
  ℕ, suc, Bool, true, false, not, ◌&&◌, Option, none, some, List, [], ◌∷◌, ◌++◌, map, ltb,
  if◌then◌else◌, get_or, take, keep, Outcome, ok,
}
use optimizer_canary_service.Text.{Bytes, codes, equal_fold}
use optimizer_canary_service.Text.Trim.{trim_space}
use optimizer_canary_service.Text.Search.{last_index, has_suffix, trim_suffix}
use optimizer_canary_service.Text.Split.{split, join}
use optimizer_canary_service.Compare.Binding.Words.{BindingError}
use optimizer_canary_service.Compare.Binding.Place.{add_optimizer_hint}

abbrev pub is_empty : Bytes → Bool
is_empty [] = true
is_empty (c ∷ s) = false

-- The statement before the marker at a position, if the text ends as an annotation does.
abbrev pub cut_arguments : Bytes → Option ℕ → Bytes
unfolding trim_space has_suffix
cut_arguments statement none = statement
cut_arguments statement (some i) =
    if ltb 0 i
      && not (is_empty (trim_space (take i statement)))
      && has_suffix (trim_space statement) (codes "]")
    then trim_space (take i statement)
    else statement

unfoldable pub convert_to_recommendable_statement : Bytes → Bytes
unfolding cut_arguments last_index trim_suffix trim_space
convert_to_recommendable_statement text =
    let statement = trim_space text in
    trim_suffix (cut_arguments statement (last_index statement (codes "[arguments:"))) (codes ";")

-- The fields of `IndexRecommendation` that the hint is made of.
pub record IndexRecommendation : Type 0 where
  pub table : Bytes
  pub name : Bytes
  pub columns : Bytes

abbrev pub is_whole : IndexRecommendation → Bool
is_whole advice =
    not (is_empty advice.table) && not (is_empty advice.name) && not (is_empty advice.columns)

abbrev pub hypo_index : IndexRecommendation → Bytes
hypo_index advice =
    codes "hypo_index("
    ++ advice.table
    ++ codes ", "
    ++ advice.name
    ++ codes ", "
    ++ advice.columns
    ++ codes ")"

abbrev pub with_hints : Bytes → List Bytes → Outcome BindingError Bytes
with_hints statement [] = ok statement
with_hints statement (hint ∷ hints) = add_optimizer_hint statement (join (hint ∷ hints) (codes " "))

unfoldable pub build_hypo_index_sql : Bytes → List IndexRecommendation → Outcome BindingError Bytes
unfolding convert_to_recommendable_statement join
build_hypo_index_sql statement recommendations =
    with_hints (convert_to_recommendable_statement statement)
      (map hypo_index (keep is_whole recommendations))

abbrev pub not_available : Bytes
not_available = codes "N/A"

-- The cell of the first line that is not blank.
unfoldable pub first_cell : ℕ → List Bytes → Option Bytes
unfolding trim_space split
first_cell i [] = none
first_cell i (line ∷ lines) =
    let later = first_cell i lines in
    let cell = trim_space (get_or (split line b'\t') i []) in
    if is_empty (trim_space line)
    then later
    else some (if is_empty cell then not_available else cell)

-- The loop over the header: a column `estCost` whose lines are all blank lets it go on.
abbrev pub cell_or : Option Bytes → Bytes → Bytes
cell_or (some cell) later = cell
cell_or none later = later

unfoldable pub cost_from : ℕ → List Bytes → List Bytes → Bytes
unfolding first_cell equal_fold
cost_from i [] lines = not_available
cost_from i (name ∷ names) lines =
    let later = cost_from (suc i) names lines in
    let cost = cell_or (first_cell i lines) later in
    if equal_fold (trim_space name) (codes "estCost") then cost else later

abbrev pub cost_of : List Bytes → Bytes
cost_of [] = not_available
cost_of (header ∷ []) = not_available
cost_of (header ∷ line ∷ lines) = cost_from 0 (split header b'\t') (line ∷ lines)

unfoldable pub top_plan_cost : Bytes → Bytes
unfolding cost_from split
top_plan_cost plan = cost_of (split plan 10)
