-- ===== src/Compare/Plan/Parse.antt =====
-- `parsePlan`: the header, the rows, and the tree.
use optimizer_canary_service.Base.{
  ℕ, zero, suc, ◌+◌, max, String, Bool, true, false, ◌||◌, Option, none, some, List, [], ◌∷◌, ◌++◌,
  map, ltb, leb, if◌then◌else◌, length, get_elem?, get_or, Outcome, ok, err, panic, ◌>>=◌, ℤ, pos,
  negsuc, sub_ℕ,
}
use optimizer_canary_service.Text.{Bytes, codes, bytes_eq, to_lower}
use optimizer_canary_service.Text.Search.{has_suffix, contains}
use optimizer_canary_service.Text.Split.{split}
use optimizer_canary_service.Text.Trim.{trim_space, fields}
use optimizer_canary_service.Compare.Plan.Json.{Operator}
use optimizer_canary_service.Compare.Plan.Line.{
  plan_depth, parse_operator_id, normalize_task, plan_index, plan_access_table,
}
use optimizer_canary_service.Compare.Plan.Tree.{PlanNode, node, nil, append_at, post_order}

pub record Plan : Type 0 where
  pub root : PlanNode
  pub post_ordered : List Operator
  pub reader : List Operator
  pub index_reader : List Operator

pub data PlanError : Type 0 where
  missing_columns : PlanError
  missing_cell : Bytes → PlanError
  bad_operator_id : Bytes → PlanError
  no_operators : PlanError
  multiple_roots : PlanError
  invalid_depth : ℕ → PlanError

-- The column numbers; the sources' -1 is `none`.
pub record Columns : Type 0 where
  pub id : Option ℕ
  pub task : Option ℕ
  pub access : Option ℕ
  pub info : Option ℕ

abbrev no_columns : Columns
no_columns = record { id = none; task = none; access = none; info = none }

note_column : Columns → ℕ → Bytes → Columns
note_column c i name =
    if bytes_eq name (codes "id")
    then record c { id = some i }
    else if bytes_eq name (codes "task")
    then record c { task = some i }
    else if bytes_eq name (codes "access object")
    then record c { access = some i }
    else if bytes_eq name (codes "operator info")
    then record c { info = some i }
    else c

read_header : Columns → ℕ → List Bytes → Columns
unfolding note_column bytes_eq to_lower
read_header c i [] = c
read_header c i (name ∷ names) = read_header (note_column c i (to_lower name)) (i + 1) names

-- The columns once both needed ones are known: those of id and task, and the two others.
abbrev pub Known : Type 0
Known = ℕ × ℕ × Option ℕ × Option ℕ

known : Option ℕ → Option ℕ → Columns → Outcome PlanError Known
known (some i) (some t) c = ok (i, t, c.access, c.info)
known _ _ c = err missing_columns

unfoldable pub header : List Bytes → Outcome PlanError Known
unfolding read_header known
header names = let c = read_header no_columns 0 names in known c.id c.task c

-- The trimmed cells of a line, and its depth.
unfoldable pub line_cells : Bytes → ℕ × List Bytes
unfolding plan_depth split fields trim_space contains
line_cells line =
    let (depth, content) = plan_depth line in
    let cells = if contains line (codes "\t") then split content b'\t' else fields content in
    (depth, map trim_space cells)

-- What a cell says by `read`, or nothing where the column or the cell is not there.
abbrev cell_says : (Bytes → Bytes) → Option ℕ → List Bytes → Bytes
cell_says read none cells = []
cell_says read (some i) cells = elim (get_elem? cells i) [ none ↦ [] | some cell ↦ read cell ]

abbrev or_else : Bytes → Bytes → Bytes
or_else [] t = t
or_else (c ∷ s) t = c ∷ s

identified : Bytes → Option (ℕ × Bytes) → Outcome PlanError (ℕ × Bytes)
identified text none = err (bad_operator_id text)
identified text (some found) = ok found

make_operator : Known → List Bytes → ℕ × Bytes → Operator
unfolding normalize_task plan_index plan_access_table
make_operator (i, t, access, info) cells (id, name) = record {
  operator = name;
  id = id;
  task = normalize_task (get_or cells t []);
  index = or_else (cell_says plan_index access cells) (cell_says plan_index info cells);
  access_table =
      or_else (cell_says plan_access_table access cells) (cell_says plan_access_table info cells);
}

abbrev is_empty : Bytes → Bool
is_empty [] = true
is_empty (c ∷ s) = false

unfoldable pub read_row : Known → Bytes → List Bytes → Outcome PlanError Operator
unfolding make_operator identified parse_operator_id
read_row (i, t, access, info) line cells =
    if leb (length cells) (max i t) || is_empty (get_or cells i []) || is_empty (get_or cells t [])
    then err (missing_cell line)
    else do
      found ← identified (get_or cells i []) (parse_operator_id (get_or cells i []))
      ok (make_operator (i, t, access, info) cells found)

abbrev base_or : Option ℕ → ℕ → ℕ
base_or none depth = depth
base_or (some base) depth = base

-- The loop over the lines: the rows that it appends, each with its depth below the first one.
unfoldable pub scan_lines :
    Option Known → Option ℕ → List Bytes → Outcome PlanError (List (Operator × ℤ))
unfolding line_cells header read_row trim_space
scan_lines columns base [] = ok []
scan_lines columns base (line ∷ lines) =
    let (depth, cells) = line_cells line in
    let skipped = scan_lines columns base lines in
    let read : Outcome PlanError (List (Operator × ℤ)) = elim columns [
      | none ↦ (do found ← header cells; scan_lines (some found) base lines)
      | some found ↦ (do
        operator ← read_row found line cells
        rows ← scan_lines (some found) (some (base_or base depth)) lines
        ok ((operator, sub_ℕ depth (base_or base depth)) ∷ rows))
    ] in
    if is_empty (trim_space line) then skipped else read

is_one_of : List String → Bytes → Bool
is_one_of [] s = false
is_one_of (name ∷ names) s = bytes_eq s (codes name) || is_one_of names s

unfoldable pub is_reader_operator : Bytes → Bool
unfolding is_one_of bytes_eq
is_reader_operator = is_one_of (
    "TableReader" ∷ "TableFullScan" ∷ "TableScan" ∷ "PointGet" ∷ "BatchPointGet" ∷ "Point_Get"
    ∷ "Batch_Point_Get" ∷ [])

unfoldable pub is_index_reader_operator : Bytes → Bool
unfolding is_one_of bytes_eq has_suffix
is_index_reader_operator name =
    is_one_of ("IndexReader" ∷ "IndexLookUpReader" ∷ "IndexMergeReader" ∷ []) name
    || has_suffix name (codes "IndexFullScan")
    || has_suffix name (codes "IndexScan")
    || is_one_of ("IndexLookUp" ∷ "IndexLookup" ∷ []) name

-- The variables of the second loop; `open_nodes` is `len(stack)`.
pub record Building : Type 0 where
  pub top : Option PlanNode
  pub open_nodes : ℕ
  pub reader : List Operator
  pub index_reader : List Operator

abbrev pub nothing_built : Building
nothing_built = record { top = none; open_nodes = 0; reader = []; index_reader = [] }

abbrev pub list_if {ℓ} : {A : Type ℓ} → Bool → A → List A → List A
list_if true x xs = xs ++ x ∷ []
list_if false x xs = xs

-- `row.depth == 0`.
abbrev start_tree : Building → Option PlanNode → Operator → Outcome PlanError Building
start_tree b none n = ok (record b { top = some (node n nil); open_nodes = 1 })
start_tree b (some root) n = err multiple_roots

-- A row below the root; with no root the stack is empty, so the row is too deep.
abbrev grow_tree : Building → Option PlanNode → ℕ → Operator → Outcome PlanError Building
grow_tree b none d n = panic
grow_tree b (some root) d n =
    ok (record b { top = some (append_at d n root); open_nodes = suc (suc d) })

-- A negative depth passes the test, and `stack[:row.depth]` panics.
abbrev place : Building → Operator → ℤ → Outcome PlanError Building
place b n (pos zero) = start_tree b b.top n
place b n (pos (suc d)) =
    if ltb b.open_nodes (suc d) then err (invalid_depth (suc d)) else grow_tree b b.top d n
place b n (negsuc k) = panic

unfoldable pub build_row : Building → Operator × ℤ → Outcome PlanError Building
build_row b (n, depth) =
    place
      (record b {
        reader = list_if (is_reader_operator n.operator) n b.reader;
        index_reader = list_if (is_index_reader_operator n.operator) n b.index_reader;
      })
      n depth

unfoldable pub build_rows : Building → List (Operator × ℤ) → Outcome PlanError Building
unfolding build_row
build_rows b [] = ok b
build_rows b (row ∷ rows) = do next ← build_row b row; build_rows next rows

-- `postOrder(nil, …)` would panic.
unfoldable pub finish : Building → Option PlanNode → Outcome PlanError Plan
unfolding post_order
finish b none = panic
finish b (some root) = ok (record {
  root = root;
  post_ordered = post_order root;
  reader = b.reader;
  index_reader = b.index_reader;
})

unfoldable pub build_plan : List (Operator × ℤ) → Outcome PlanError Plan
unfolding build_rows finish
build_plan [] = err no_operators
build_plan (row ∷ rows) = do b ← build_rows nothing_built (row ∷ rows); finish b b.top

unfoldable pub parse_plan : Bytes → Outcome PlanError Plan
unfolding scan_lines build_plan split is_reader_operator is_index_reader_operator append_at
parse_plan text = do rows ← scan_lines none none (split text b'\n'); build_plan rows
