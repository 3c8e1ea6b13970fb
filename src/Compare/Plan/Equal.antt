-- ===== src/Compare/Plan/Equal.antt =====
-- `plansEqual`, `comparePlans`, `equalReaderNodes`, `readerChangeReason`, `planNodesEqual`.
use optimizer_canary_service.Base.{
  ℕ, suc, Ordering, Bool, true, false, not, ◌&&◌, List, [], ◌∷◌, ◌++◌, map, ◌==◌, if◌then◌else◌,
  length,
}
use optimizer_canary_service.Base.Sort.{sort}
use optimizer_canary_service.Text.{Bytes, codes, bytes_eq, to_lower, compare_bytes}
use optimizer_canary_service.Compare.Plan.Json.{Operator, node_string}
use optimizer_canary_service.Compare.Plan.Tree.{PlanNode, node, Children, nil, cons}
use optimizer_canary_service.Compare.Plan.Parse.{Plan}

-- `slices.Equal` on strings.
unfoldable pub texts_eq : List Bytes → List Bytes → Bool
texts_eq [] [] = true
texts_eq (s ∷ ss) (t ∷ ts) = bytes_eq s t && texts_eq ss ts
texts_eq _ _ = false

unfoldable pub equal_reader_nodes : List Operator → List Operator → Bool
unfolding texts_eq
equal_reader_nodes left right =
    texts_eq (sort compare_bytes (map node_string left))
      (sort compare_bytes (map node_string right))

-- The order of `sortPlanNodes`.
abbrev pub node_order : Operator → Operator → Ordering
node_order l r = compare_bytes (node_string l) (node_string r)

unfoldable pub sort_plan_nodes : List Operator → List Operator
unfolding sort
sort_plan_nodes = sort node_order

abbrev pub others : Bytes
others = codes "others"

abbrev pub change : Bytes → Bytes → Bytes
change old new = to_lower old ++ (codes "->" ++ to_lower new)

-- The loop of `readerChangeReason` over two lists of one length.
unfoldable pub first_change : List Operator → List Operator → Bytes
first_change (o ∷ os) (n ∷ ns) =
    let rest = first_change os ns in
    if not (bytes_eq o.operator n.operator)
    then change o.operator n.operator
    else if not (bytes_eq o.task n.task)
    then change o.task n.task
    else rest
first_change _ _ = others

unfoldable pub reader_change_reason :
    List Operator → List Operator → List Operator → List Operator → Bytes
unfolding first_change sort_plan_nodes
reader_change_reason left right left_other right_other =
    if not (length (left ++ left_other) == length (right ++ right_other))
    then others
    else first_change (sort_plan_nodes (left ++ left_other))
        (sort_plan_nodes (right ++ right_other))

-- The comparison of two nodes' own fields; the ID is left out.
unfoldable pub operators_eq : Operator → Operator → Bool
operators_eq l r =
    bytes_eq l.operator r.operator
    && bytes_eq l.task r.task
    && bytes_eq l.index r.index
    && bytes_eq l.access_table r.access_table

abbrev pub count_children : Children → ℕ
count_children nil = 0
count_children (cons c cs) = suc (count_children cs)

unfoldable mutual
  unfolding operators_eq

  pub plan_nodes_equal : PlanNode → PlanNode → Bool
  plan_nodes_equal (node x cs) (node y ds) =
      operators_eq x y && count_children cs == count_children ds && children_equal cs ds

  -- The loop over the children of the left node.
  pub children_equal : Children → Children → Bool
  children_equal nil ds = true
  children_equal (cons c cs) nil = false
  children_equal (cons c cs) (cons d ds) = plan_nodes_equal c d && children_equal cs ds

unfoldable pub compare_plans : Plan → Plan → Bool × Bytes
unfolding equal_reader_nodes reader_change_reason
compare_plans left right =
    if not (equal_reader_nodes left.reader right.reader)
    then (false, reader_change_reason left.reader right.reader left.index_reader right.index_reader)
    else if not (equal_reader_nodes left.index_reader right.index_reader)
    then (false, reader_change_reason left.index_reader right.index_reader [] [])
    else if not (plan_nodes_equal left.root right.root)
    then (false, others)
    else (true, [])

unfoldable pub plans_equal : Plan → Plan → Bool
unfolding compare_plans
plans_equal left right = (compare_plans left right).0
