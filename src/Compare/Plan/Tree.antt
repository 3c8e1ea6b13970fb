-- ===== src/Compare/Plan/Tree.antt =====
-- The tree that `parsePlan` builds through pointers. The Go stack holds the path of last children
-- from the root, so its length alone says which node a row goes under.
use optimizer_canary_service.Base.{ℕ, zero, suc, List, [], ◌∷◌, ◌++◌}
use optimizer_canary_service.Compare.Plan.Json.{Operator}

mutual
  pub data PlanNode : Type 0 where
    node : Operator → Children → PlanNode

  pub data Children : Type 0 where
    nil : Children
    cons : PlanNode → Children → Children

-- `append(parent.Children, child)`.
unfoldable pub append_child : Children → PlanNode → Children
append_child nil c = cons c nil
append_child (cons d cs) c = cons d (append_child cs c)

-- Appends a leaf under the node that stands `d` last-child steps below the root.
unfoldable mutual
  unfolding append_child

  pub append_at : ℕ → Operator → PlanNode → PlanNode
  append_at zero n (node x cs) = node x (append_child cs (node n nil))
  append_at (suc d) n (node x cs) = node x (append_last d n cs)

  pub append_last : ℕ → Operator → Children → Children
  append_last d n nil = nil
  append_last d n (cons c nil) = cons (append_at d n c) nil
  append_last d n (cons c (cons b cs)) = cons c (append_last d n (cons b cs))

-- `postOrder`, with the nodes' own fields.
unfoldable mutual
  pub post_order : PlanNode → List Operator
  post_order (node x cs) = post_orders cs ++ x ∷ []

  pub post_orders : Children → List Operator
  post_orders nil = []
  post_orders (cons c cs) = post_order c ++ post_orders cs

-- The rows of a plan text, from the root down, each with its depth.
unfoldable mutual
  pub preorder : ℕ → PlanNode → List (Operator × ℕ)
  preorder d (node x cs) = (x, d) ∷ preorders (suc d) cs

  pub preorders : ℕ → Children → List (Operator × ℕ)
  preorders d nil = []
  preorders d (cons c cs) = preorder d c ++ preorders d cs
