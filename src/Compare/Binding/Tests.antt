-- ===== src/Compare/Binding/Tests.antt =====
-- The statements of the source's own test, bound by evaluation.
use optimizer_canary_service.Base.{◌≡◌, refl, some, List, ok, pos}
use optimizer_canary_service.Text.{Bytes, codes, equal_fold}
use optimizer_canary_service.Compare.Binding.Words.{sql_word_byte, word_rest, line_rest, quoted}
use optimizer_canary_service.Compare.Binding.Place.{get_current_plan_binding, binding_statement}
use optimizer_canary_service.Compare.Binding.Select.{main_select}
use optimizer_canary_service.Compare.Binding.Main.{SelectWord, First, selects, main_select-First}

abbrev nested : Bytes
nested = codes "select a from (SELECT b)"

found_nested : main_select nested ≡ ok (some 6)
unfolding main_select equal_fold sql_word_byte word_rest line_rest quoted
found_nested = refl

main_select-First_example :
    (words : List SelectWord) × (w : SelectWord) × (selects 0 0 (pos 0) nested ≡ ok words)
    × First words w
    × (w.end ≡ 6)
main_select-First_example = main_select-First nested found_nested

bind_simple :
    get_current_plan_binding (codes "select * from t") (codes "H()")
    ≡ ok (codes "select /*+ H() */ * from t")
unfolding get_current_plan_binding equal_fold sql_word_byte word_rest line_rest quoted
bind_simple = refl

bind_cte :
    get_current_plan_binding (codes "WITH c AS (SELECT * FROM t) SELECT * FROM c") (codes " H() ")
    ≡ ok (codes "WITH c AS (SELECT * FROM t) SELECT /*+ H() */ * FROM c")
unfolding get_current_plan_binding equal_fold sql_word_byte word_rest line_rest quoted
bind_cte = refl

bind_comments :
    get_current_plan_binding
      (codes "/* select */ -- SELECT\n# select\nSELECT 'select', 'A  B'")
      (codes "H()")
    ≡ ok (codes "/* select */ -- SELECT\n# select\nSELECT /*+ H() */ 'select', 'A  B'")
unfolding get_current_plan_binding equal_fold sql_word_byte word_rest line_rest quoted
bind_comments = refl

statement :
    binding_statement (codes "select 1;") (codes "select /*+ H() */ 1;")
    ≡ codes "CREATE GLOBAL BINDING FOR select 1 USING select /*+ H() */ 1;"
unfolding binding_statement
statement = refl
