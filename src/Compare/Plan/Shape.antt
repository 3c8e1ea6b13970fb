-- ===== src/Compare/Plan/Shape.antt =====
-- What the pointer steps of `parsePlan` do to the tree: the path of last children, whole subtrees
-- grafted onto it, and the rows of the tree afterwards.
use optimizer_canary_service.Base.{
  ℕ, zero, suc, ◌+◌, ◌<◌, ◌≡◌, refl, sym, ap, ◌∙◌, ◌++◌, append-nil, append_assoc, arith,
}
use optimizer_canary_service.Compare.Plan.Json.{Operator}
use optimizer_canary_service.Compare.Plan.Tree.{
  PlanNode, node, Children, nil, cons, append_child, append_at, append_last, preorder, preorders,
}

-- The number of nodes on the path of last children: the length of the Go stack.
unfoldable mutual
  pub spine : PlanNode → ℕ
  spine (node x cs) = suc (spine_last cs)

  pub spine_last : Children → ℕ
  spine_last nil = 0
  spine_last (cons c nil) = spine c
  spine_last (cons c (cons b cs)) = spine_last (cons b cs)

-- Appends a whole subtree `d` last-child steps below the root.
unfoldable mutual
  unfolding append_child

  pub graft : ℕ → PlanNode → PlanNode → PlanNode
  graft zero c (node x cs) = node x (append_child cs c)
  graft (suc d) c (node x cs) = node x (graft_last d c cs)

  pub graft_last : ℕ → PlanNode → Children → Children
  graft_last d n nil = nil
  graft_last d n (cons c nil) = cons (graft d n c) nil
  graft_last d n (cons c (cons b cs)) = cons c (graft_last d n (cons b cs))

-- One row appends a leaf.
mutual
  unfolding append_at append_last graft graft_last

  append_at-leaf : (d : ℕ) (n : Operator) (t : PlanNode) → append_at d n t ≡ graft d (node n nil) t
  append_at-leaf zero n (node x cs) = refl
  append_at-leaf (suc d) n (node x cs) = ap (node x) (append_last-leaf d n cs)

  append_last-leaf :
      (d : ℕ) (n : Operator) (cs : Children) → append_last d n cs ≡ graft_last d (node n nil) cs
  append_last-leaf d n nil = refl
  append_last-leaf d n (cons c nil) = ap (λ t. cons t nil) (append_at-leaf d n c)
  append_last-leaf d n (cons c (cons b cs)) = ap (cons c) (append_last-leaf d n (cons b cs))

pub append_at-graft :
    (d : ℕ) (n : Operator) (t : PlanNode) → append_at d n t ≡ graft d (node n nil) t
append_at-graft d n t = append_at-leaf d n t

spine_last-append_child : (cs : Children) (c : PlanNode) → spine_last (append_child cs c) ≡ spine c
unfolding spine_last append_child
spine_last-append_child nil c = refl
spine_last-append_child (cons b nil) c = refl
spine_last-append_child (cons b (cons d cs)) c = spine_last-append_child (cons d cs) c

mutual
  unfolding spine spine_last graft graft_last

  spine-grafted : (d : ℕ) (c t : PlanNode) → d < spine t → spine (graft d c t) ≡ suc (d + spine c)
  spine-grafted zero c (node x cs) h = omega (arith, spine_last-append_child cs c)
  spine-grafted (suc d) c (node x cs) h = omega (arith, spine_last-grafted d c cs (omega arith))

  spine_last-grafted :
      (d : ℕ) (c : PlanNode) (cs : Children)
      → d < spine_last cs
      → spine_last (graft_last d c cs) ≡ suc (d + spine c)
  spine_last-grafted d c nil h = absurd (omega arith)
  spine_last-grafted d c (cons b nil) h = spine-grafted d c b h
  spine_last-grafted d c (cons b (cons e nil)) h = spine_last-grafted d c (cons e nil) h
  spine_last-grafted d c (cons b (cons e (cons f cs))) h =
      spine_last-grafted d c (cons e (cons f cs)) h

pub spine-graft : (d : ℕ) (c t : PlanNode) → d < spine t → spine (graft d c t) ≡ suc (d + spine c)
spine-graft d c t h = spine-grafted d c t h

preorders-append_child :
    (e : ℕ) (cs : Children) (c : PlanNode)
    → preorders e (append_child cs c) ≡ preorders e cs ++ preorder e c
unfolding preorders append_child
preorders-append_child e nil c = append-nil _
preorders-append_child e (cons b cs) c = rw (preorders-append_child e cs c, append_assoc)

mutual
  unfolding spine spine_last graft graft_last preorder preorders

  preorder-grafted :
      (e d : ℕ) (c t : PlanNode)
      → d < spine t
      → preorder e (graft d c t) ≡ preorder e t ++ preorder (suc (e + d)) c
  preorder-grafted e zero c (node x cs) h =
      let here : suc (e + 0) ≡ suc e = omega arith in rw (here, preorders-append_child (suc e) cs c)
  preorder-grafted e (suc d) c (node x cs) h =
      let there : suc (e + suc d) ≡ suc (suc e + d) = omega arith in
      rw (there, preorders-grafted (suc e) d c cs (omega arith))

  preorders-grafted :
      (e d : ℕ) (c : PlanNode) (cs : Children)
      → d < spine_last cs
      → preorders e (graft_last d c cs) ≡ preorders e cs ++ preorder (suc (e + d)) c
  preorders-grafted e d c nil h = absurd (omega arith)
  preorders-grafted e d c (cons b nil) h =
      append-nil (preorder e (graft d c b))
      ∙ preorder-grafted e d c b h
      ∙ ap (λ s. s ++ preorder (suc (e + d)) c) (sym (append-nil (preorder e b)))
  preorders-grafted e d c (cons b (cons f cs)) h =
      ap (λ s. preorder e b ++ s) (preorders-grafted e d c (cons f cs) h)
      ∙ sym (append_assoc (preorder e b) (preorders e (cons f cs)) (preorder (suc (e + d)) c))

-- A graft puts the rows of the subtree behind those of the tree.
pub preorder-graft :
    (e d : ℕ) (c t : PlanNode)
    → d < spine t
    → preorder e (graft d c t) ≡ preorder e t ++ preorder (suc (e + d)) c
preorder-graft e d c t h = preorder-grafted e d c t h

mutual
  unfolding spine spine_last graft graft_last

  graft-grafted :
      (d : ℕ) (c : PlanNode) (x : Operator) (ys : Children) (t : PlanNode)
      → d < spine t
      → graft (suc d) c (graft d (node x ys) t) ≡ graft d (node x (append_child ys c)) t
  graft-grafted zero c x ys (node y cs) h = ap (node y) (graft_last-append_child c x ys cs)
  graft-grafted (suc d) c x ys (node y cs) h =
      ap (node y) (graft_last-grafted d c x ys cs (omega arith))

  graft_last-append_child :
      (c : PlanNode) (x : Operator) (ys cs : Children)
      → graft_last 0 c (append_child cs (node x ys)) ≡ append_child cs (node x (append_child ys c))
  graft_last-append_child c x ys nil = refl
  graft_last-append_child c x ys (cons b nil) = refl
  graft_last-append_child c x ys (cons b (cons e cs)) =
      ap (cons b) (graft_last-append_child c x ys (cons e cs))

  graft_last-grafted :
      (d : ℕ) (c : PlanNode) (x : Operator) (ys cs : Children)
      → d < spine_last cs
      → graft_last (suc d) c (graft_last d (node x ys) cs)
        ≡ graft_last d (node x (append_child ys c)) cs
  graft_last-grafted d c x ys nil h = refl
  graft_last-grafted d c x ys (cons b nil) h = ap (λ t. cons t nil) (graft-grafted d c x ys b h)
  graft_last-grafted d c x ys (cons b (cons e nil)) h =
      ap (cons b) (graft_last-grafted d c x ys (cons e nil) h)
  graft_last-grafted d c x ys (cons b (cons e (cons f cs))) h =
      ap (cons b) (graft_last-grafted d c x ys (cons e (cons f cs)) h)

-- A second graft one step deeper goes under the subtree grafted before.
pub graft-graft :
    (d : ℕ) (c : PlanNode) (x : Operator) (ys : Children) (t : PlanNode)
    → d < spine t
    → graft (suc d) c (graft d (node x ys) t) ≡ graft d (node x (append_child ys c)) t
graft-graft d c x ys t h = graft-grafted d c x ys t h
