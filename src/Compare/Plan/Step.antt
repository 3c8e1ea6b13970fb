-- ===== src/Compare/Plan/Step.antt =====
-- One round of the second loop of `parsePlan`, at each depth of the row.
use optimizer_canary_service.Base.{
  ℕ, suc, ◌≡◌, refl, some, [], arith, ltb, if◌then◌else◌, ok, err, panic, pos, negsuc,
}
use optimizer_canary_service.Compare.Plan.Json.{Operator}
use optimizer_canary_service.Compare.Plan.Tree.{PlanNode, node, nil, append_at}
use optimizer_canary_service.Compare.Plan.Parse.{
  invalid_depth, multiple_roots, is_reader_operator, is_index_reader_operator, Building,
  nothing_built, list_if, build_row,
}
use optimizer_canary_service.Compare.Plan.Shape.{spine}

-- The variables after a row below the root.
abbrev pub grown : Building → PlanNode → Operator → ℕ → Building
grown b root n d = record {
  top = some (append_at d n root);
  open_nodes = suc (suc d);
  reader = list_if (is_reader_operator n.operator) n b.reader;
  index_reader = list_if (is_index_reader_operator n.operator) n b.index_reader;
}

-- The variables after the first row.
abbrev pub started : Operator → Building
started n = record {
  top = some (node n nil);
  open_nodes = 1;
  reader = list_if (is_reader_operator n.operator) n [];
  index_reader = list_if (is_index_reader_operator n.operator) n [];
}

pub build_row-below :
    (b : Building) (root : PlanNode) (n : Operator) (d : ℕ)
    → b.top ≡ some root
    → b.open_nodes ≡ spine root
    → build_row b (n, pos (suc d))
      ≡ (if ltb (spine root) (suc d) then err (invalid_depth (suc d)) else ok (grown b root n d))
unfolding build_row
build_row-below b root n d top open_is = rw (top, open_is, build_row)

pub build_row-again :
    (b : Building) (root : PlanNode) (n : Operator)
    → b.top ≡ some root
    → build_row b (n, pos 0) ≡ err multiple_roots
unfolding build_row
build_row-again b root n top = rw (top, build_row)

pub build_row-outdented : (b : Building) (n : Operator) (k : ℕ) → build_row b (n, negsuc k) ≡ panic
unfolding build_row
build_row-outdented b n k = refl

pub build_row-root : (n : Operator) → build_row nothing_built (n, pos 0) ≡ ok (started n)
unfolding build_row
build_row-root n = refl

pub build_row-rootless :
    (n : Operator) (d : ℕ) → build_row nothing_built (n, pos (suc d)) ≡ err (invalid_depth (suc d))
unfolding build_row
build_row-rootless n d = ground arith
