-- ===== src/Prepare/Weights.antt =====
-- `assignRandomWeights` and `newTPCCWorkload` of prepare/tpcc_queries.go. What math/rand draws is a
-- parameter: a bit for each workload, and a permutation.
use optimizer_canary_service.Base.{
  ℕ, suc, ◌+◌, List, [], ◌∷◌, ltb, ◌==◌, if◌then◌else◌, length, Outcome, ok, panic, ◌>>=◌, pos,
}
use optimizer_canary_service.Prepare.Picker.{WeightedWorkload}
use optimizer_canary_service.Prepare.Workload.{
  TpccWorkload, TpccBindingHint, use_index, read_from_storage_tiflash, new_tpcc_workload_with_hint,
}
use optimizer_canary_service.Prepare.Queries.{WorkloadQuery}

abbrev pub max_weight : ℕ
max_weight = 100

-- The hint that `rand.IntN(2)` draws.
abbrev pub drawn_hint : ℕ → TpccBindingHint
drawn_hint bit = if bit == 1 then read_from_storage_tiflash else use_index

unfoldable pub new_tpcc_workload : ℕ → WorkloadQuery → Outcome Unit TpccWorkload
unfolding new_tpcc_workload_with_hint
new_tpcc_workload bit query =
    new_tpcc_workload_with_hint query.name query.statement (drawn_hint bit) query.tables

-- The workloads, with the bits that are drawn in their order.
unfoldable pub make_workloads : (ℕ → ℕ) → ℕ → List WorkloadQuery → Outcome Unit (List TpccWorkload)
unfolding new_tpcc_workload
make_workloads bits i [] = ok []
make_workloads bits i (query ∷ queries) = new_tpcc_workload (bits i) query >>= λ workload.
    make_workloads bits (suc i) queries >>= λ rest. ok (workload ∷ rest)

-- The loop: the weight of workload `i` is `weights[i] + 1`; a missing weight is a panic.
unfoldable pub assign_from : List ℕ → List TpccWorkload → Outcome Unit (List WeightedWorkload)
assign_from weights [] = ok []
assign_from [] (workload ∷ workloads) = panic
assign_from (weight ∷ weights) (workload ∷ workloads) = assign_from weights workloads >>= λ rest.
    ok (record { name = workload.name; weight = pos (weight + 1) } ∷ rest)

unfoldable pub assign_random_weights :
    List ℕ → List TpccWorkload → Outcome Unit (List WeightedWorkload)
unfolding assign_from
assign_random_weights weights workloads =
    let assigned = assign_from weights workloads in
    if ltb max_weight (length workloads) then panic else assigned
