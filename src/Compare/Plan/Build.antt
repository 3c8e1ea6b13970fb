-- ===== src/Compare/Plan/Build.antt =====
-- The second loop of `parsePlan` builds the tree whose rows it is given.
use optimizer_canary_service.Base.{
  ℕ, zero, suc, ◌+◌, ◌<◌, ◌≡◌, refl, ap, inl, inr, Bool, Option, some, List, [], ◌∷◌, ◌++◌, map,
  append-nil, append_assoc, map-append, arith, ltb, Bool-cases, keep, keep-append, ok, bind_ok, ℤ,
  pos, negsuc,
}
use optimizer_canary_service.Compare.Plan.Json.{Operator}
use optimizer_canary_service.Compare.Plan.Tree.{
  PlanNode, node, nil, append_at, preorder, post_order,
}
use optimizer_canary_service.Compare.Plan.Parse.{
  Plan, is_reader_operator, is_index_reader_operator, Building, nothing_built, list_if, build_row,
  build_rows, finish, build_plan,
}
use optimizer_canary_service.Compare.Plan.Step.{
  grown, started, build_row-below, build_row-again, build_row-outdented, build_row-root,
  build_row-rootless,
}
use optimizer_canary_service.Compare.Plan.Shape.{
  spine, append_at-graft, spine-graft, preorder-graft,
}

abbrev pub signed : Operator × ℕ → Operator × ℤ
signed (n, d) = (n, pos d)

abbrev pub operators {ℓ} : {D : Type ℓ} → List (Operator × D) → List Operator
operators [] = []
operators (row ∷ rows) = row.0 ∷ operators rows

abbrev pub readers : List Operator → List Operator
readers = keep (λ n. is_reader_operator n.operator)

abbrev pub index_readers : List Operator → List Operator
index_readers = keep (λ n. is_index_reader_operator n.operator)

operators-append :
    (xs ys : List (Operator × ℤ)) → operators (xs ++ ys) ≡ operators xs ++ operators ys
operators-append [] ys = refl
operators-append (x ∷ xs) ys = ap (λ s. x.0 ∷ s) (operators-append xs ys)

operators-signed : (xs : List (Operator × ℕ)) → operators (map signed xs) ≡ operators xs
operators-signed [] = refl
operators-signed (x ∷ xs) = ap (λ s. x.0 ∷ s) (operators-signed xs)

-- The variables of the loop after the rows `done`.
record Built (b : Building) (done : List (Operator × ℤ)) (root : PlanNode) : Type 0 where
  top_is : b.top ≡ some root
  open_is : b.open_nodes ≡ spine root
  rows_are : done ≡ map signed (preorder 0 root)
  reader_is : b.reader ≡ readers (operators done)
  index_reader_is : b.index_reader ≡ index_readers (operators done)

list_if-keep :
    (p : Operator → Bool) (n : Operator) (xs : List Operator)
    → list_if (p n) n (keep p xs) ≡ keep p (xs ++ n ∷ [])
list_if-keep p n xs = ground (arith, keep-append p xs (n ∷ []), append-nil (keep p xs))

readers_after :
    (p : Operator → Bool) (b : List Operator) (done : List (Operator × ℤ)) (row : Operator × ℤ)
    → b ≡ keep p (operators done)
    → list_if (p row.0) row.0 b ≡ keep p (operators (done ++ row ∷ []))
readers_after p b done row e =
    rw (e, operators-append done (row ∷ [])) (list_if-keep p row.0 (operators done))

module _ {b : Building} {done : List (Operator × ℤ)} {root : PlanNode}
    (built : Built b done root) where
  append_row :
      (n : Operator) (d : ℕ)
      → d < spine root
      → done ++ (n, pos (suc d)) ∷ [] ≡ map signed (preorder 0 (append_at d n root))
  unfolding preorder
  append_row n d h =
      let there : suc (0 + d) ≡ suc d = omega arith in
      rw (
        append_at-graft d n root,
        preorder-graft 0 d (node n nil) root h,
        map-append,
        built.rows_are,
        there,
      )

  grown-Built :
      (n : Operator) (d : ℕ)
      → d < spine root
      → Built (grown b root n d) (done ++ (n, pos (suc d)) ∷ []) (append_at d n root)
  unfolding spine
  grown-Built n d h = record {
    top_is = refl;
    open_is = omega (arith, ap spine (append_at-graft d n root), spine-graft d (node n nil) root h);
    rows_are = append_row n d h;
    reader_is =
        readers_after (λ m. is_reader_operator m.operator) b.reader done (n, pos (suc d))
          built.reader_is;
    index_reader_is =
        readers_after (λ m. is_index_reader_operator m.operator) b.index_reader done
          (n, pos (suc d)) built.index_reader_is;
  }

  build_row-Built :
      (row : Operator × ℤ) {b' : Building}
      → build_row b row ≡ ok b'
      → (root' : PlanNode) × Built b' (done ++ row ∷ []) root'
  build_row-Built (n, pos zero) e = cc (build_row-again b root n built.top_is)
  build_row-Built (n, pos (suc d)) {b'} e = elim (Bool-cases (ltb (spine root) (suc d))) [
    | inl deep ↦ cc (rw deep at (build_row-below b root n d built.top_is built.open_is))
    | inr fits ↦
        let next : grown b root n d ≡ b' =
          ground (arith, build_row-below b root n d built.top_is built.open_is) in
        (append_at d n root, rw (← next) (grown-Built n d (ground arith)))
  ]
  build_row-Built (n, negsuc k) e = cc (build_row-outdented b n k)

build_rows-Built :
    (rows : List (Operator × ℤ)) {b b' : Building} {done : List (Operator × ℤ)} {root : PlanNode}
    → Built b done root
    → build_rows b rows ≡ ok b'
    → (root' : PlanNode) × Built b' (done ++ rows) root'
unfolding build_rows
build_rows-Built [] {b} {b'} {done} {root} built e =
    let same : b ≡ b' = cc in (root, rw (← same, append-nil done) built)
build_rows-Built (row ∷ rows) {b} {b'} {done} {root} built e =
    let (next, first, later) = bind_ok (build_row b row) (λ c. build_rows c rows) e in
    let (root', built') = build_row-Built built row first in
    let (root'', built'') = build_rows-Built rows built' later in
    (root'', rw (append_assoc done (row ∷ []) rows) at built'')

started-Built : (n : Operator) → Built (started n) ((n, pos 0) ∷ []) (node n nil)
unfolding spine preorder
started-Built n = record {
  top_is = refl;
  open_is = refl;
  rows_are = refl;
  reader_is = list_if-keep (λ m. is_reader_operator m.operator) n [];
  index_reader_is = list_if-keep (λ m. is_index_reader_operator m.operator) n [];
}

first-Built :
    (row : Operator × ℤ) {b : Building}
    → build_row nothing_built row ≡ ok b
    → (root : PlanNode) × Built b (row ∷ []) root
first-Built (n, pos zero) {b} e =
    let same : started n ≡ b = cc (build_row-root n) in (node n nil, rw (← same) (started-Built n))
first-Built (n, pos (suc d)) {b} e = cc (build_row-rootless n d)
first-Built (n, negsuc k) {b} e = cc (build_row-outdented nothing_built n k)

-- The plan that stands for a tree.
abbrev pub plan_of : PlanNode → Plan
plan_of t = record {
  root = t;
  post_ordered = post_order t;
  reader = readers (operators (preorder 0 t));
  index_reader = index_readers (operators (preorder 0 t));
}

finished : (b : Building) (root : PlanNode) → Plan
finished b root = record {
  root = root;
  post_ordered = post_order root;
  reader = b.reader;
  index_reader = b.index_reader;
}

finish-some :
    (b : Building) (root : PlanNode) {o : Option PlanNode}
    → o ≡ some root
    → finish b o ≡ ok (finished b root)
unfolding finish finished
finish-some b root e = rw (e, finish)

finished-plan_of :
    {b : Building} {rows : List (Operator × ℤ)} {root : PlanNode}
    → Built b rows root
    → finished b root ≡ plan_of root
unfolding finished
finished-plan_of {b} {rows} {root} built =
    let listed : operators rows ≡ operators (preorder 0 root) =
      rw built.rows_are (operators-signed (preorder 0 root)) in
    cc (ap readers listed, ap index_readers listed, built.reader_is, built.index_reader_is)

finish-Built :
    {b : Building} {rows : List (Operator × ℤ)} {root : PlanNode} {plan : Plan}
    → Built b rows root
    → finish b b.top ≡ ok plan
    → (rows ≡ map signed (preorder 0 plan.root)) × (plan ≡ plan_of plan.root)
unfolding finished
finish-Built {b} {rows} {root} {plan} built e =
    let same : finished b root ≡ plan = cc (finish-some b root built.top_is) in
    rw (← same) (built.rows_are, finished-plan_of built)

-- A plan that the second loop returns is the plan of a tree whose rows are the rows given.
pub build_plan_sound :
    (rows : List (Operator × ℤ)) {plan : Plan}
    → build_plan rows ≡ ok plan
    → (rows ≡ map signed (preorder 0 plan.root)) × (plan ≡ plan_of plan.root)
unfolding build_plan build_rows
build_plan_sound [] e = cc
build_plan_sound (row ∷ rows) e =
    let (b, built, end) = bind_ok (build_rows nothing_built (row ∷ rows)) (λ c. finish c c.top) e in
    let (c, first, later) = bind_ok (build_row nothing_built row) (λ c. build_rows c rows) built in
    let (root, at_first) = first-Built row first in
    let (root', at_last) = build_rows-Built rows at_first later in finish-Built at_last end
