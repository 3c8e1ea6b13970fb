-- ===== src/Prepare/Workload.antt =====
-- The workloads of prepare/tpcc_queries.go and the plans that prepare/tpcc_workload.go reads.
use optimizer_canary_service.Base.{
  ℕ, suc, Bool, true, false, ◌&&◌, Option, none, some, List, [], ◌∷◌, ◌++◌, map, ltb, leb,
  if◌then◌else◌, length, get_or, take, drop, Outcome, ok, err, panic, ◌>>=◌,
}
use optimizer_canary_service.Text.{Bytes, codes, bytes_eq, to_lower, equal_fold}
use optimizer_canary_service.Text.Trim.{trim_space}
use optimizer_canary_service.Text.Split.{join}
use optimizer_canary_service.Prepare.Settings.{normalized_operator_id}

-- `tpccBindingHint`, a text: the two constants and any other.
pub data TpccBindingHint : Type 0 where
  use_index read_from_storage_tiflash : TpccBindingHint
  unsupported : Bytes → TpccBindingHint

pub record TpccWorkload : Type 0 where
  pub name : Bytes
  pub sql : Bytes
  pub bound_sql : Bytes
  pub marker : Bytes
  pub binding_hint : TpccBindingHint
  pub tables : List Bytes

abbrev pub hint_text : TpccBindingHint → List Bytes → Outcome Unit Bytes
unfolding join
hint_text use_index tables =
    ok (join (map (λ table. codes "USE_INDEX(" ++ table ++ codes ")") tables) (codes " "))
hint_text read_from_storage_tiflash tables =
    ok (codes "READ_FROM_STORAGE(TIFLASH[" ++ join tables (codes ", ") ++ codes "])")
hint_text (unsupported hint) tables = panic

-- The slice `statement[len(selectKeyword):]`.
abbrev pub behind_select : Bytes → Outcome Unit Bytes
behind_select statement = if ltb (length statement) 6 then panic else ok (drop 6 statement)

unfoldable pub build_tpcc_bound_sql : Bytes → TpccBindingHint → List Bytes → Outcome Unit Bytes
unfolding hint_text
build_tpcc_bound_sql statement hint tables = do
  optimizer_hint ← hint_text hint tables
  tail ← behind_select statement
  ok (codes "SELECT /*+ " ++ optimizer_hint ++ codes " */" ++ tail)

unfoldable pub alternate_tpcc_binding_hint : TpccBindingHint → Outcome Unit TpccBindingHint
alternate_tpcc_binding_hint use_index = ok read_from_storage_tiflash
alternate_tpcc_binding_hint read_from_storage_tiflash = ok use_index
alternate_tpcc_binding_hint (unsupported hint) = panic

abbrev pub starts_with_select : Bytes → Bool
unfolding equal_fold
starts_with_select statement =
    leb 6 (length statement) && equal_fold (take 6 statement) (codes "SELECT")

unfoldable pub new_tpcc_workload_with_hint :
    Bytes → Bytes → TpccBindingHint → List Bytes → Outcome Unit TpccWorkload
unfolding trim_space starts_with_select build_tpcc_bound_sql
new_tpcc_workload_with_hint name statement hint [] = panic
new_tpcc_workload_with_hint name statement hint (table ∷ tables) =
    let trimmed = trim_space statement in
    let marker = codes "optimizer_canary_tpcc:" ++ name in
    let sql = codes "SELECT /* " ++ marker ++ codes " */" ++ drop 6 trimmed in
    let made = build_tpcc_bound_sql sql hint (table ∷ tables) >>= λ bound. ok record {
      name = name;
      sql = sql;
      bound_sql = bound;
      marker = marker;
      binding_hint = hint;
      tables = table ∷ tables;
    } in
    if starts_with_select trimmed then made else panic

pub record PlanOperator : Type 0 where
  pub id : Bytes
  pub task : Bytes

pub data PlanReadError (E : Type 0) : Type 0 where
  query_failed : E → PlanReadError E
  no_columns : List Bytes → PlanReadError E
  no_operators : PlanReadError E

-- The index of the last column of a name, in any case.
unfoldable pub last_column : ℕ → Bytes → List Bytes → Option ℕ
unfolding bytes_eq to_lower
last_column i name [] = none
last_column i name (column ∷ columns) =
    let here = if bytes_eq (to_lower column) name then some i else none in
    elim (last_column (suc i) name columns) [ some j ↦ some j | none ↦ here ]

abbrev pub read_operator : ℕ → ℕ → List Bytes → PlanOperator
read_operator id task row = record {
  id = normalized_operator_id (get_or row id []);
  task = get_or row task [];
}

abbrev pub some_operators :
    {E : Type 0} → List PlanOperator → Outcome (PlanReadError E) (List PlanOperator)
some_operators [] = err no_operators
some_operators (operator ∷ operators) = ok (operator ∷ operators)

unfoldable pub read_operators :
    {E : Type 0}
    → List Bytes
    → List (List Bytes)
    → Option ℕ
    → Option ℕ
    → Outcome (PlanReadError E) (List PlanOperator)
unfolding normalized_operator_id
read_operators columns rows (some id) (some task) =
    some_operators (map (λ row. read_operator id task row) rows)
read_operators columns rows _ _ = err (no_columns columns)

unfoldable pub read_result :
    {E : Type 0}
    → Outcome E (List Bytes × List (List Bytes))
    → Outcome (PlanReadError E) (List PlanOperator)
read_result (ok (columns, rows)) =
    read_operators columns rows (last_column 0 (codes "id") columns)
      (last_column 0 (codes "task") columns)
read_result (err e) = err (query_failed e)
read_result panic = panic

-- `slices.Equal` of two plans.
unfoldable pub slices_equal : List PlanOperator → List PlanOperator → Bool
unfolding bytes_eq
slices_equal [] [] = true
slices_equal (x ∷ xs) (y ∷ ys) = bytes_eq x.id y.id && bytes_eq x.task y.task && slices_equal xs ys
slices_equal _ _ = false
