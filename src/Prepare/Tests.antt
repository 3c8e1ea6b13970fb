-- ===== src/Prepare/Tests.antt =====
-- Draws, batches and workers, by evaluation.
use optimizer_canary_service.Base.{
  ℕ, suc, ◌*◌, ◌≤◌, ◌<◌, ◌≡◌, refl, none, List, [], ◌∷◌, ◌++◌, arith, length, take, All, ok, pos,
}
use optimizer_canary_service.Text.{Bytes, codes}
use optimizer_canary_service.Prepare.Picker.{
  WeightedWorkload, WeightedTpccPicker, new_weighted_tpcc_picker, picker_pick,
}
use optimizer_canary_service.Prepare.Picked.{sum_weights, picker_pick_lem}
use optimizer_canary_service.Prepare.Insert.{
  quote_identifier, insert_rows, insert_batch_size, append_rows, tpcc_fixture_row_count,
}
use optimizer_canary_service.Prepare.Inserted.{
  read_quoted, quote_identifier_lem, noting, arguments_of, insert_rows-Inserts,
}
use optimizer_canary_service.Prepare.Workers.{}
use optimizer_canary_service.Prepare.Workload.{TpccWorkload, use_index, new_tpcc_workload_with_hint}
use optimizer_canary_service.Prepare.Bindings.{Connection, explain_with_session_binding}
use optimizer_canary_service.Prepare.Dropped.{
  noting_exec, CreatedOrDropped, explain_with_session_binding-CreatedOrDropped,
}

fixture : tpcc_fixture_row_count ≡ 832100
unfolding tpcc_fixture_row_count
fixture = refl

abbrev weighted : List WeightedWorkload
weighted =
    record { name = codes "a"; weight = pos 3 }
    ∷ record { name = codes "b"; weight = pos 2 }
    ∷ record { name = codes "c"; weight = pos 5 }
    ∷ []

abbrev picker : WeightedTpccPicker
picker = record { cumulative_weights = 3 ∷ 5 ∷ 10 ∷ []; total_weight = 10 }

picker_made : new_weighted_tpcc_picker weighted ≡ ok picker
unfolding new_weighted_tpcc_picker
picker_made = refl

pick_four : picker_pick picker 4 ≡ 1
unfolding picker_pick
pick_four = refl

picker_pick_lem_example :
    (picker_pick picker 4 < 3)
    × (sum_weights (take (picker_pick picker 4) weighted) ≤ 4)
    × (4 < sum_weights (take (suc (picker_pick picker 4)) weighted))
    × (10 ≡ sum_weights weighted)
picker_pick_lem_example = picker_pick_lem weighted 4 picker_made (omega arith)

quote_identifier_lem_example :
    (text : Bytes) × (quote_identifier (codes "a`b") ++ b' ' ∷ codes "x" ≡ b'`' ∷ text)
    × (read_quoted text ≡ (codes "a`b", b' ' ∷ codes "x"))
quote_identifier_lem_example = quote_identifier_lem (codes "a`b") b' ' (codes "x") (omega arith)

abbrev columns : List Bytes
columns = codes "id" ∷ codes "name" ∷ []

abbrev rows : List (List ℕ)
rows = (1 ∷ 10 ∷ []) ∷ (2 ∷ 20 ∷ []) ∷ []

insert_rows-Inserts_example :
    ((insert_rows noting (codes "t") columns rows []).0 ≡ none)
    × (arguments_of (insert_rows noting (codes "t") columns rows []).1 ≡ append_rows rows)
    × (All
        (λ statement. length statement.1 ≤ insert_batch_size * length columns)
        (insert_rows noting (codes "t") columns rows []).1)
insert_rows-Inserts_example = insert_rows-Inserts (codes "t") columns rows (refl, (refl, tt))

abbrev pub made_workload : TpccWorkload
made_workload = record {
  name = codes "q";
  sql = codes "SELECT /* optimizer_canary_tpcc:q */ * FROM item";
  bound_sql = codes "SELECT /*+ USE_INDEX(item) */ /* optimizer_canary_tpcc:q */ * FROM item";
  marker = codes "optimizer_canary_tpcc:q";
  binding_hint = use_index;
  tables = codes "item" ∷ [];
}

workload_made :
    new_tpcc_workload_with_hint
      (codes "q")
      (codes " select * FROM item ")
      use_index
      (codes "item" ∷ [])
    ≡ ok made_workload
unfolding new_tpcc_workload_with_hint
workload_made = refl

-- The plan of a statement is a table reader, whatever the bindings.
abbrev pub connection : Connection ℕ (Unit {0})
connection = record {
  exec = λ text s. (none, suc s);
  query = λ text s.
      (ok (codes "ID" ∷ codes "task" ∷ [], (codes "TableReader_7" ∷ codes "root" ∷ []) ∷ []), s);
}

explain_with_session_binding-CreatedOrDropped_example :
    CreatedOrDropped connection made_workload
      (explain_with_session_binding (noting_exec connection) made_workload (0, []))
explain_with_session_binding-CreatedOrDropped_example =
    explain_with_session_binding-CreatedOrDropped connection made_workload 0
