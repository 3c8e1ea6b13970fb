-- ===== src/Compare/Plan/Equality.antt =====
-- What `comparePlans` decides.
use mathlib.Core.List.Perm
use mathlib.Core.List.{Perm}
use mathlib.Core.Path.{subst₂}
use optimizer_canary_service.Text.Split.{split}
use optimizer_canary_service.Base.{
  ℕ, suc, ◌≡◌, refl, sym, ap, ◌∙◌, ◌↔◌, Bool, true, none, List, [], ◌∷◌, ◌++◌, map, map-append,
  arith, keep, ok, bind_ok, ℤ,
}
use optimizer_canary_service.Base.Sort.{sort, sort-eq_iff}
use optimizer_canary_service.Text.{Bytes, compare_bytes, bytes_eq_iff, Bytes-discrete}
use optimizer_canary_service.Text.Order.{compare_bytes-Linear}
use optimizer_canary_service.Compare.Plan.Json.{Operator, node_string}
use optimizer_canary_service.Compare.Plan.Tree.{
  PlanNode, node, Children, nil, cons, preorder, preorders,
}
use optimizer_canary_service.Compare.Plan.Parse.{
  Plan, is_reader_operator, is_index_reader_operator, scan_lines, build_plan, parse_plan,
}
use optimizer_canary_service.Compare.Plan.Equal.{
  texts_eq, equal_reader_nodes, operators_eq, count_children, plan_nodes_equal, children_equal,
  compare_plans,
}
use optimizer_canary_service.Compare.Plan.Build.{operators, plan_of, signed, build_plan_sound}

texts_eq_iff : (ss ts : List Bytes) → (texts_eq ss ts ≡ true) ↔ (ss ≡ ts)
unfolding texts_eq
texts_eq_iff (s ∷ ss) (t ∷ ts) = ground (arith, bytes_eq_iff s t, texts_eq_iff ss ts)
texts_eq_iff _ _ = ground arith

texts-set : IsSet (List Bytes)
texts-set = hlevel Bytes-discrete

-- Two collections of readers count as equal exactly when their nodes print the same texts, each as
-- often, in any order.
equal_reader_nodes_iff :
    (left right : List Operator)
    → (equal_reader_nodes left right ≡ true) ↔ Perm (map node_string left) (map node_string right)
unfolding equal_reader_nodes
equal_reader_nodes_iff left right =
    let same =
      texts_eq_iff (sort compare_bytes (map node_string left))
        (sort compare_bytes (map node_string right)) in
    let sorted =
      sort-eq_iff compare_bytes {xs = map node_string left} {ys = map node_string right}
        compare_bytes-Linear texts-set in
    (λ e. sorted.0 (same.0 e), λ p. same.1 (sorted.1 p))

-- A node without its ID.
abbrev forget_id : Operator → Operator
forget_id n = record n { id = 0 }

unfoldable mutual
  pub forget_ids : PlanNode → PlanNode
  forget_ids (node x cs) = node (forget_id x) (forget_children cs)

  pub forget_children : Children → Children
  forget_children nil = nil
  forget_children (cons c cs) = cons (forget_ids c) (forget_children cs)

operators_eq_iff : (x y : Operator) → (operators_eq x y ≡ true) ↔ (forget_id x ≡ forget_id y)
unfolding operators_eq
operators_eq_iff x y = ground (
  arith,
  bytes_eq_iff x.operator y.operator,
  bytes_eq_iff x.task y.task,
  bytes_eq_iff x.index y.index,
  bytes_eq_iff x.access_table y.access_table,
)

mutual
  unfolding plan_nodes_equal children_equal forget_ids forget_children

  nodes_sound : (l r : PlanNode) → plan_nodes_equal l r ≡ true → forget_ids l ≡ forget_ids r
  nodes_sound (node x cs) (node y ds) e = ground (arith, operators_eq_iff x y, children_sound cs ds)

  children_sound :
      (cs ds : Children)
      → count_children cs ≡ count_children ds
      → children_equal cs ds ≡ true
      → forget_children cs ≡ forget_children ds
  children_sound nil nil h e = refl
  children_sound nil (cons d ds) h e = absurd (omega arith)
  children_sound (cons c cs) nil h e = absurd (omega arith)
  children_sound (cons c cs) (cons d ds) h e = ground (arith, nodes_sound c d, children_sound cs ds)

mutual
  unfolding plan_nodes_equal children_equal forget_ids forget_children

  nodes_complete : (l r : PlanNode) → forget_ids l ≡ forget_ids r → plan_nodes_equal l r ≡ true
  nodes_complete (node x cs) (node y ds) e =
      ground (arith, operators_eq_iff x y, children_complete cs ds)

  children_complete :
      (cs ds : Children)
      → forget_children cs ≡ forget_children ds
      → (count_children cs ≡ count_children ds) × (children_equal cs ds ≡ true)
  children_complete nil nil e = (refl, refl)
  children_complete nil (cons d ds) e = cc
  children_complete (cons c cs) nil e = cc
  children_complete (cons c cs) (cons d ds) e =
      ground (arith, nodes_complete c d, children_complete cs ds)

-- Two trees count as equal exactly when they differ in operator IDs at most.
plan_nodes_equal_iff :
    (l r : PlanNode) → (plan_nodes_equal l r ≡ true) ↔ (forget_ids l ≡ forget_ids r)
plan_nodes_equal_iff l r = (nodes_sound l r, nodes_complete l r)

operators-append :
    (xs ys : List (Operator × ℕ)) → operators (xs ++ ys) ≡ operators xs ++ operators ys
operators-append [] ys = refl
operators-append (x ∷ xs) ys = ap (λ s. x.0 ∷ s) (operators-append xs ys)

mutual
  unfolding preorder preorders forget_ids forget_children

  operators-forget :
      (d : ℕ) (t : PlanNode)
      → operators (preorder d (forget_ids t)) ≡ map forget_id (operators (preorder d t))
  operators-forget d (node x cs) = ap (λ s. forget_id x ∷ s) (operators-forgets (suc d) cs)

  operators-forgets :
      (d : ℕ) (cs : Children)
      → operators (preorders d (forget_children cs)) ≡ map forget_id (operators (preorders d cs))
  operators-forgets d nil = refl
  operators-forgets d (cons c cs) =
      operators-append (preorder d (forget_ids c)) (preorders d (forget_children cs))
      ∙ ap (λ s. s ++ operators (preorders d (forget_children cs))) (operators-forget d c)
      ∙ ap (λ s. map forget_id (operators (preorder d c)) ++ s) (operators-forgets d cs)
      ∙ sym (map-append forget_id (operators (preorder d c)) (operators (preorders d cs)))
      ∙ ap (map forget_id) (sym (operators-append (preorder d c) (preorders d cs)))

-- What a node prints, and whether it is kept, do not hang on its ID.
texts-forget :
    (p : Operator → Bool) (xs : List Operator)
    → ((n : Operator) → p (forget_id n) ≡ p n)
    → map node_string (keep p (map forget_id xs)) ≡ map node_string (keep p xs)
unfolding node_string
texts-forget p [] h = refl
texts-forget p (x ∷ xs) h = ground (arith, h x, texts-forget p xs h)

-- The readers of trees that differ in IDs alone print alike.
same_readers :
    (p : Operator → Bool) (l r : PlanNode)
    → ((n : Operator) → p (forget_id n) ≡ p n)
    → forget_ids l ≡ forget_ids r
    → map node_string (keep p (operators (preorder 0 l)))
      ≡ map node_string (keep p (operators (preorder 0 r)))
same_readers p l r h e =
    sym (texts-forget p (operators (preorder 0 l)) h)
    ∙ ap (λ s. map node_string (keep p s))
        (sym (operators-forget 0 l) ∙ ap (λ t. operators (preorder 0 t)) e ∙ operators-forget 0 r)
    ∙ texts-forget p (operators (preorder 0 r)) h

equal_readers :
    (p : Operator → Bool) (l r : PlanNode)
    → ((n : Operator) → p (forget_id n) ≡ p n)
    → forget_ids l ≡ forget_ids r
    → equal_reader_nodes (keep p (operators (preorder 0 l))) (keep p (operators (preorder 0 r)))
      ≡ true
equal_readers p l r h e =
    let left = keep p (operators (preorder 0 l)) in
    let right = keep p (operators (preorder 0 r)) in
    (equal_reader_nodes_iff left right).1 (rw (same_readers p l r h e) (Perm.refl _))

compare_plans_sound :
    (l r : Plan) → (compare_plans l r).0 ≡ true → forget_ids l.root ≡ forget_ids r.root
unfolding compare_plans
compare_plans_sound l r e = ground (arith, plan_nodes_equal_iff l.root r.root)

compare_plans_complete :
    (l r : PlanNode)
    → forget_ids l ≡ forget_ids r
    → (compare_plans (plan_of l) (plan_of r)).0 ≡ true
unfolding compare_plans
compare_plans_complete l r e = ground (
  arith,
  plan_nodes_equal_iff l r,
  equal_readers (λ n. is_reader_operator n.operator) l r (λ n. refl) e,
  equal_readers (λ n. is_index_reader_operator n.operator) l r (λ n. refl) e,
)

-- What `parsePlan` returns for a text is the plan of one tree, which lists exactly the rows of the
-- text, and the readers are its reader nodes in the order of those rows.
pub parse_plan_sound :
    (text : Bytes) {plan : Plan}
    → parse_plan text ≡ ok plan
    → (rows : List (Operator × ℤ)) × (scan_lines none none (split text b'\n') ≡ ok rows)
      × (rows ≡ map signed (preorder 0 plan.root))
      × (plan ≡ plan_of plan.root)
unfolding parse_plan
parse_plan_sound text e =
    let (rows, scanned, built) = bind_ok (scan_lines none none (split text b'\n')) build_plan e in
    let (listed, whole) = build_plan_sound rows built in (rows, scanned, listed, whole)

-- Of two plans that `parsePlan` returns, `comparePlans` says that they are equal exactly when their
-- trees differ in operator IDs at most: the comparison of the readers never decides otherwise.
pub compare_plans_iff :
    (s t : Bytes) {l r : Plan}
    → parse_plan s ≡ ok l
    → parse_plan t ≡ ok r
    → ((compare_plans l r).0 ≡ true) ↔ (forget_ids l.root ≡ forget_ids r.root)
compare_plans_iff s t {l} {r} p q =
    let (_, _, _, left) = parse_plan_sound s p in
    let (_, _, _, right) = parse_plan_sound t q in
    (
      compare_plans_sound l r,
      λ e.
          subst₂ (λ a b. (compare_plans a b).0 ≡ true) (sym left) (sym right)
            (compare_plans_complete l.root r.root e),
    )
