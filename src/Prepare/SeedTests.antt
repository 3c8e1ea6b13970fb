-- ===== src/Prepare/SeedTests.antt =====
-- The fixture and the schema, by evaluation.
use optimizer_canary_service.Base.{ℕ, suc, ◌≡◌, refl, ◌≢◌, Option, none, some, List, [], ◌∷◌}
use optimizer_canary_service.Text.{Bytes, codes}
use optimizer_canary_service.Prepare.Insert.{wrong_width}
use optimizer_canary_service.Prepare.Fixture.{Value, line_item, padded, ids}
use optimizer_canary_service.Prepare.Schema.{insert_table, create_schema, prepare_tpcc_schema}
use optimizer_canary_service.Prepare.Seeded.{prepare_tpcc_schema-ne-wrong_width}
use optimizer_canary_service.Prepare.Tiflash.{TiFlashError}

last_item : line_item 1000 5 ≡ 1000
unfolding line_item
last_item = refl

padded_seven : padded 4 7 ≡ codes "0007"
unfolding padded
padded_seven = refl

three_ids : ids 5 3 ≡ 5 ∷ 6 ∷ 7 ∷ []
unfolding ids
three_ids = refl

-- Every statement fails; the state counts them.
abbrev refusing : Bytes → List Value → ℕ → Option (Unit {0}) × ℕ
refusing text arguments s = (some tt, suc s)

abbrev replicated : ℕ → Option (TiFlashError (Unit {0})) × ℕ
replicated s = (none, s)

first_refused :
    prepare_tpcc_schema refusing (codes "tpcc") none replicated 0
    ≡ (some (create_schema (codes "tpcc") tt), 1)
unfolding prepare_tpcc_schema
first_refused = refl

prepare_tpcc_schema-ne-wrong_width_example :
    (prepare_tpcc_schema refusing (codes "tpcc") none replicated 0).0
    ≢ some (insert_table (codes "item") (wrong_width 4))
prepare_tpcc_schema-ne-wrong_width_example =
    prepare_tpcc_schema-ne-wrong_width refusing (codes "tpcc") none replicated 0 (codes "item") 4
