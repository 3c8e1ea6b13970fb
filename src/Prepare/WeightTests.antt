-- ===== src/Prepare/WeightTests.antt =====
-- The weights from 1 to 100 in their order, for one workload.
use optimizer_canary_service.Base.{
  ℕ, zero, suc, ◌+◌, ◌*◌, ◌≤◌, ◌<◌, ◌≡◌, List, [], ◌∷◌, arith, length, All, ok,
}
use optimizer_canary_service.Text.{codes}
use optimizer_canary_service.Prepare.Picker.{
  WeightedWorkload, WeightedTpccPicker, new_weighted_tpcc_picker,
}
use optimizer_canary_service.Prepare.Workload.{TpccWorkload, use_index}
use optimizer_canary_service.Prepare.Fixture.{ids}
use optimizer_canary_service.Prepare.Referenced.{length-ids}
use optimizer_canary_service.Prepare.Weights.{assign_random_weights}
use optimizer_canary_service.Prepare.Weighted.{assign_random_weights-picker}

ids-below : (bound first n : ℕ) → first + n ≤ bound → All (λ w. w < bound) (ids first n)
unfolding ids
ids-below bound first zero h = tt
ids-below bound first (suc n) h =
    (omega (arith, h), ids-below bound (suc first) n (omega (arith, h)))

abbrev one_workload : List TpccWorkload
one_workload =
    record {
      name = codes "stock";
      sql = codes "SELECT 1";
      bound_sql = codes "SELECT 1";
      marker = [];
      binding_hint = use_index;
      tables = codes "stock" ∷ [];
    }
    ∷ []

assign_random_weights-picker_example :
    (assigned : List WeightedWorkload) × (picker : WeightedTpccPicker) × (assign_random_weights
        (ids 0 100)
        one_workload
      ≡ ok assigned)
    × (new_weighted_tpcc_picker assigned ≡ ok picker)
    × (length one_workload ≤ picker.total_weight)
    × (picker.total_weight ≤ length one_workload * 100)
assign_random_weights-picker_example =
    assign_random_weights-picker (ids 0 100) one_workload (length-ids 0 100)
      (ids-below 100 0 100 (omega arith)) (omega arith) (omega arith)
