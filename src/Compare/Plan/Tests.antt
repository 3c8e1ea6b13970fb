-- ===== src/Compare/Plan/Tests.antt =====
-- Two texts of one plan and their comparison, by evaluation.
use optimizer_canary_service.Base.{
  ◌≡◌, refl, ◌↔◌, true, false, none, List, [], ◌∷◌, ◌++◌, map, ok, err, panic, ℤ, negsuc,
}
use optimizer_canary_service.Base.Sort.{sort}
use optimizer_canary_service.Text.{Bytes, codes, bytes_eq, to_lower, compare_bytes}
use optimizer_canary_service.Compare.Plan.Json.{Operator, node_string}
use optimizer_canary_service.Compare.Plan.Line.{corner}
use optimizer_canary_service.Compare.Plan.Tree.{node, nil, cons}
use optimizer_canary_service.Compare.Plan.Parse.{Plan, parse_plan, invalid_depth, missing_columns}
use optimizer_canary_service.Compare.Plan.Equal.{compare_plans}
use optimizer_canary_service.Text.Split.{split}
use optimizer_canary_service.Compare.Plan.Tree.{preorder}
use optimizer_canary_service.Compare.Plan.Parse.{scan_lines, build_plan}
use optimizer_canary_service.Compare.Plan.Build.{signed, plan_of}
use optimizer_canary_service.Compare.Plan.Equality.{parse_plan_sound, compare_plans_iff, forget_ids}
use optimizer_canary_service.Compare.Plan.Rebuild.{build_plan-preorder, build_plan_outdented}

abbrev pub old_text : Bytes
old_text =
    codes "id\ttask\taccess object\nTableReader_7\troot\t\n"
    ++ (corner ++ codes "TableFullScan_6(Build)\tcop[tikv]\ttable:t, index:a b")

abbrev pub new_text : Bytes
new_text =
    codes "\tid\ttask\taccess object\n\tTableReader_9\troot\t\n\t"
    ++ (corner ++ codes "TableFullScan_12\tmpp[tiflash]\ttable:t, index:a b")

abbrev reader_node : Operator
reader_node = record {
  operator = codes "TableReader";
  id = 7;
  task = codes "root";
  index = [];
  access_table = [];
}

abbrev scan_node : Operator
scan_node = record {
  operator = codes "TableFullScan";
  id = 6;
  task = codes "tikv";
  index = codes "a b";
  access_table = codes "t";
}

abbrev new_reader_node : Operator
new_reader_node = record reader_node { id = 9 }

abbrev new_scan_node : Operator
new_scan_node = record scan_node { id = 12; task = codes "tiflash" }

abbrev old_plan : Plan
old_plan = record {
  root = node reader_node (cons (node scan_node nil) nil);
  post_ordered = scan_node ∷ reader_node ∷ [];
  reader = reader_node ∷ scan_node ∷ [];
  index_reader = [];
}

abbrev new_plan : Plan
new_plan = record {
  root = node new_reader_node (cons (node new_scan_node nil) nil);
  post_ordered = new_scan_node ∷ new_reader_node ∷ [];
  reader = new_reader_node ∷ new_scan_node ∷ [];
  index_reader = [];
}

parse-old_text : parse_plan old_text ≡ ok old_plan
unfolding parse_plan
parse-old_text = refl

parse-new_text : parse_plan new_text ≡ ok new_plan
unfolding parse_plan
parse-new_text = refl

compare-old-new : compare_plans old_plan new_plan ≡ (false, codes "tikv->tiflash")
unfolding compare_plans sort node_string to_lower compare_bytes bytes_eq
compare-old-new = refl

outdented : parse_plan (codes "id task\n  A_1 root\nB_2 root") ≡ panic
unfolding parse_plan
outdented = refl

too_deep : parse_plan (codes "id task\nA_1 root\n    B_2 root") ≡ err (invalid_depth 2)
unfolding parse_plan
too_deep = refl

no_header : parse_plan (codes "A_1 root") ≡ err missing_columns
unfolding parse_plan
no_header = refl

parse_plan_sound_example :
    (rows : List (Operator × ℤ)) × (scan_lines none none (split old_text b'\n') ≡ ok rows)
    × (rows ≡ map signed (preorder 0 old_plan.root))
    × (old_plan ≡ plan_of old_plan.root)
parse_plan_sound_example = parse_plan_sound old_text parse-old_text

compare_plans_iff_example :
    ((compare_plans old_plan new_plan).0 ≡ true)
    ↔ (forget_ids old_plan.root ≡ forget_ids new_plan.root)
compare_plans_iff_example = compare_plans_iff old_text new_text parse-old_text parse-new_text

build_plan-preorder_example :
    build_plan (map signed (preorder 0 old_plan.root)) ≡ ok (plan_of old_plan.root)
build_plan-preorder_example = build_plan-preorder old_plan.root

build_plan_outdented_example :
    build_plan (map signed (preorder 0 old_plan.root) ++ (scan_node, negsuc 0) ∷ []) ≡ panic
build_plan_outdented_example = build_plan_outdented old_plan.root scan_node 0 []
