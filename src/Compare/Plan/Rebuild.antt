-- ===== src/Compare/Plan/Rebuild.antt =====
-- Every tree is built from its rows: the second loop of `parsePlan` accepts all that a tree lists.
use optimizer_canary_service.Base.{
  ℕ, suc, ◌<◌, ◌≡◌, refl, sym, ap, ◌∙◌, some, List, [], ◌∷◌, ◌++◌, map, append-nil, append_assoc,
  map-append, arith, ok, panic, ◌>>=◌, ℤ, pos, negsuc,
}
use optimizer_canary_service.Compare.Plan.Json.{Operator}
use optimizer_canary_service.Compare.Plan.Tree.{
  post_order, PlanNode, node, Children, nil, cons, append_child, preorder, preorders,
}
use optimizer_canary_service.Compare.Plan.Parse.{
  Plan, finish, nothing_built, build_plan, Building, build_row, build_rows,
}
use optimizer_canary_service.Compare.Plan.Shape.{
  spine, graft, append_at-graft, spine-graft, graft-graft,
}
use optimizer_canary_service.Compare.Plan.Step.{
  build_row-root, build_row-outdented, started, grown, build_row-below,
}
use optimizer_canary_service.Compare.Plan.Build.{build_plan_sound, plan_of, signed}

-- The loop has taken `rows` and stands, with the tree `t`, before `rest`.
record Grown (b : Building) (rows rest : List (Operator × ℤ)) (t : PlanNode) : Type 0 where
  after : Building
  same : build_rows b rows ≡ build_rows after rest
  top_is : after.top ≡ some t
  open_is : after.open_nodes ≡ spine t

append_children : Children → Children → Children
append_children ys nil = ys
append_children ys (cons c cs) = append_children (append_child ys c) cs

join_children : Children → Children → Children
join_children nil cs = cs
join_children (cons y ys) cs = cons y (join_children ys cs)

join_children-append_child :
    (ys : Children) (c : PlanNode) (cs : Children)
    → join_children (append_child ys c) cs ≡ join_children ys (cons c cs)
unfolding join_children append_child
join_children-append_child nil c cs = refl
join_children-append_child (cons y ys) c cs = ap (cons y) (join_children-append_child ys c cs)

join_children-nil : (ys : Children) → join_children ys nil ≡ ys
unfolding join_children
join_children-nil nil = refl
join_children-nil (cons y ys) = ap (cons y) (join_children-nil ys)

append_children-join : (ys cs : Children) → append_children ys cs ≡ join_children ys cs
unfolding append_children
append_children-join ys nil = sym (join_children-nil ys)
append_children-join ys (cons c cs) =
    append_children-join (append_child ys c) cs ∙ join_children-append_child ys c cs

append_children-nil : (cs : Children) → append_children nil cs ≡ cs
unfolding join_children
append_children-nil cs = append_children-join nil cs

-- A row that fits under the tree is accepted.
grow_row :
    (b : Building) (n : Operator) (d : ℕ) (t : PlanNode) (rest : List (Operator × ℤ))
    → b.top ≡ some t
    → b.open_nodes ≡ spine t
    → d < spine t
    → Grown b ((n, pos (suc d)) ∷ rest) rest (graft d (node n nil) t)
unfolding build_rows spine
grow_row b n d t rest top open_is h =
    let placed : build_row b (n, pos (suc d)) ≡ ok (grown b t n d) =
      ground (arith, build_row-below b t n d top open_is) in
    record {
      after = grown b t n d;
      same = rw (placed, build_rows) refl;
      top_is = ap some (append_at-graft d n t);
      open_is = omega (arith, spine-graft d (node n nil) t h);
    }

mutual
  unfolding preorder preorders append_children spine

  grow_node :
      (c : PlanNode) (b : Building) (d : ℕ) (t : PlanNode) (rest : List (Operator × ℤ))
      → b.top ≡ some t
      → b.open_nodes ≡ spine t
      → d < spine t
      → Grown b (map signed (preorder (suc d) c) ++ rest) rest (graft d c t)
  grow_node (node x cs) b d t rest top open_is h =
      let rows = map signed (preorders (suc (suc d)) cs) in
      let first = grow_row b x d t (rows ++ rest) top open_is h in
      let later = grow_children cs first.after d x nil t rest first.top_is first.open_is h in
      record {
        after = later.after;
        same = first.same ∙ later.same;
        top_is = later.top_is ∙ ap (λ ys. some (graft d (node x ys) t)) (append_children-nil cs);
        open_is = later.open_is ∙ ap (λ ys. spine (graft d (node x ys) t)) (append_children-nil cs);
      }

  grow_children :
      (cs : Children) (b : Building) (d : ℕ) (x : Operator) (ys : Children) (t : PlanNode)
      (rest : List (Operator × ℤ))
      → b.top ≡ some (graft d (node x ys) t)
      → b.open_nodes ≡ spine (graft d (node x ys) t)
      → d < spine t
      → Grown b
          (map signed (preorders (suc (suc d)) cs) ++ rest)
          rest
          (graft d (node x (append_children ys cs)) t)
  grow_children nil b d x ys t rest top open_is h = record {
    after = b;
    same = refl;
    top_is = top;
    open_is = open_is;
  }
  grow_children (cons c cs) b d x ys t rest top open_is h =
      let rows = map signed (preorders (suc (suc d)) cs) in
      let under : suc d < spine (graft d (node x ys) t) =
        omega (arith, spine-graft d (node x ys) t h) in
      let first = grow_node c b (suc d) (graft d (node x ys) t) (rows ++ rest) top open_is under in
      let moved = graft-graft d c x ys t h in
      let later =
        grow_children cs first.after d x (append_child ys c) t rest (first.top_is ∙ ap some moved)
          (first.open_is ∙ ap spine moved) h in
      record {
        after = later.after;
        same =
            ap (build_rows b) (
              ap (λ l. l ++ rest)
                (map-append signed (preorder (suc (suc d)) c) (preorders (suc (suc d)) cs))
              ∙ append_assoc (map signed (preorder (suc (suc d)) c)) rows rest)
            ∙ first.same
            ∙ later.same;
        top_is = later.top_is;
        open_is = later.open_is;
      }

-- The children of the root.
grow_top :
    (cs : Children) (b : Building) (x : Operator) (ys : Children) (rest : List (Operator × ℤ))
    → b.top ≡ some (node x ys)
    → b.open_nodes ≡ spine (node x ys)
    → Grown b (map signed (preorders 1 cs) ++ rest) rest (node x (append_children ys cs))
unfolding preorders append_children graft spine
grow_top nil b x ys rest top open_is = record {
  after = b;
  same = refl;
  top_is = top;
  open_is = open_is;
}
grow_top (cons c cs) b x ys rest top open_is =
    let rows = map signed (preorders 1 cs) in
    let first = grow_node c b 0 (node x ys) (rows ++ rest) top open_is (omega arith) in
    let later = grow_top cs first.after x (append_child ys c) rest first.top_is first.open_is in
    record {
      after = later.after;
      same =
          ap (build_rows b) (
            ap (λ l. l ++ rest) (map-append signed (preorder 1 c) (preorders 1 cs))
            ∙ append_assoc (map signed (preorder 1 c)) rows rest)
          ∙ first.same
          ∙ later.same;
      top_is = later.top_is;
      open_is = later.open_is;
    }

-- The loop over the rows of a whole tree, with any rows behind them.
grow_tree :
    (t : PlanNode) (rest : List (Operator × ℤ))
    → Grown nothing_built (map signed (preorder 0 t) ++ rest) rest t
unfolding preorder build_rows spine
grow_tree (node x cs) rest =
    let later = grow_top cs (started x) x nil rest refl refl in
    record {
      after = later.after;
      same =
          ap (λ m. m >>= λ c. build_rows c (map signed (preorders 1 cs) ++ rest)) (build_row-root x)
          ∙ later.same;
      top_is = later.top_is ∙ ap (λ ys. some (node x ys)) (append_children-nil cs);
      open_is = later.open_is ∙ ap (λ ys. spine (node x ys)) (append_children-nil cs);
    }

finish_top :
    (b : Building) (t : PlanNode)
    → b.top ≡ some t
    → (plan : Plan) × (finish b b.top ≡ ok plan) × (plan.root ≡ t)
unfolding finish
finish_top b t e = (
  record {
    root = t;
    post_ordered = post_order t;
    reader = b.reader;
    index_reader = b.index_reader;
  },
  rw (e, finish) refl,
  refl,
)

build_tree :
    (t : PlanNode)
    → (plan : Plan) × (build_plan (map signed (preorder 0 t)) ≡ ok plan) × (plan.root ≡ t)
unfolding build_plan build_rows preorder
build_tree (node x cs) =
    let grown_tree = grow_tree (node x cs) [] in
    let (plan, finished, same) = finish_top grown_tree.after (node x cs) grown_tree.top_is in
    let rows = map signed (preorder 0 (node x cs)) in
    let ran : build_rows nothing_built rows ≡ ok grown_tree.after =
      ap (build_rows nothing_built) (sym (append-nil rows)) ∙ grown_tree.same in
    (plan, ap (λ m. m >>= λ c. finish c c.top) ran ∙ finished, same)

-- The rows of a tree are read back as the plan of that tree.
pub build_plan-preorder : (t : PlanNode) → build_plan (map signed (preorder 0 t)) ≡ ok (plan_of t)
build_plan-preorder t =
    let (plan, built, root) = build_tree t in
    let (_, whole) = build_plan_sound (map signed (preorder 0 t)) built in
    built ∙ ap ok (whole ∙ ap plan_of root)

-- A row further to the left than the first one makes the loop panic.
pub build_plan_outdented :
    (t : PlanNode) (n : Operator) (k : ℕ) (rest : List (Operator × ℤ))
    → build_plan (map signed (preorder 0 t) ++ (n, negsuc k) ∷ rest) ≡ panic
unfolding build_plan build_rows preorder
build_plan_outdented (node x cs) n k rest =
    let grown_tree = grow_tree (node x cs) ((n, negsuc k) ∷ rest) in
    ap (λ m. m >>= λ c. finish c c.top)
      (grown_tree.same
        ∙ ap (λ m. m >>= λ c. build_rows c rest) (build_row-outdented grown_tree.after n k))
