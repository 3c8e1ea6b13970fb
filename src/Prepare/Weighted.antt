-- ===== src/Prepare/Weighted.antt =====
-- The weights that are drawn always make a picker.
use optimizer_canary_service.Base.{
  ℕ, zero, suc, ◌+◌, ◌*◌, ◌≤◌, ◌<◌, ◌≡◌, refl, ap, ◌∙◌, false, List, [], ◌∷◌, arith, ltb, ◌==◌,
  length, All, Outcome, ok, ◌>>=◌, ℤ, pos, negsuc,
}
use optimizer_canary_service.Text.{Bytes}
use optimizer_canary_service.Prepare.Picker.{
  WeightedWorkload, WeightedTpccPicker, PickerError, new_weighted_tpcc_picker, add_weights, checked,
  unless_empty, weight_of, counted,
}
use optimizer_canary_service.Prepare.Workload.{TpccWorkload}
use optimizer_canary_service.Prepare.Weights.{assign_from, assign_random_weights, max_weight}

abbrev IsWeighted : WeightedWorkload → Type 0
IsWeighted workload = (n : ℕ) × (workload.weight ≡ pos (suc n)) × (suc n ≤ max_weight)

assign_from-IsWeighted :
    (weights : List ℕ) (workloads : List TpccWorkload)
    → length workloads ≤ length weights
    → All (λ w. w < max_weight) weights
    → (assigned : List WeightedWorkload) × (assign_from weights workloads ≡ ok assigned)
      × All IsWeighted assigned
      × (length assigned ≡ length workloads)
unfolding assign_from
assign_from-IsWeighted weights [] enough small = ([], refl, tt, refl)
assign_from-IsWeighted [] (workload ∷ workloads) enough small = absurd (omega (arith, enough))
assign_from-IsWeighted (weight ∷ weights) (workload ∷ workloads) enough small =
    let (rest, assigned, weighted, same) =
      assign_from-IsWeighted weights workloads (omega (arith, enough)) small.1 in
    let first : WeightedWorkload = record { name = workload.name; weight = pos (weight + 1) } in
    (
      first ∷ rest,
      ap (λ o. o >>= λ rest. ok (first ∷ rest)) assigned,
      ((weight, ap (λ (n : ℕ). pos n) (omega arith), omega (arith, small.0)), weighted),
      omega (arith, same),
    )

-- What the loop makes of positive weights.
abbrev Adds : ℕ → List WeightedWorkload → Type 0
Adds total workloads =
    (picker : WeightedTpccPicker) × (add_weights total workloads ≡ ok picker)
    × (total + length workloads ≤ picker.total_weight)
    × (picker.total_weight ≤ total + length workloads * max_weight)

checked-ok :
    (z : ℤ) (n total : ℕ) (name : Bytes) (later : Outcome PickerError WeightedTpccPicker)
    (picker : WeightedTpccPicker)
    → z ≡ pos (suc n)
    → later ≡ ok picker
    → checked z name total later ≡ ok (counted total picker)
checked-ok (pos zero) n total name later picker e h = absurd (ground (arith, e))
checked-ok (pos (suc m)) n total name later picker e h = ap (λ o. o >>= λ p. ok (counted total p)) h
checked-ok (negsuc m) n total name later picker e h = absurd (ground (arith, e))

add_weights-Adds :
    (total : ℕ) (workloads : List WeightedWorkload)
    → All IsWeighted workloads
    → Adds total workloads
unfolding add_weights
add_weights-Adds total [] h =
    (record { cumulative_weights = []; total_weight = total }, refl, omega arith, omega arith)
add_weights-Adds total (workload ∷ workloads) h =
    let (n, is, small) = h.0 in
    let total' = total + weight_of workload.weight in
    let (picker, added, least, most) = add_weights-Adds total' workloads h.1 in
    let w : weight_of workload.weight ≡ suc n = ap weight_of is in
    (
      counted total' picker,
      checked-ok workload.weight n total' workload.name (add_weights total' workloads) picker is
          added,
      omega (arith, w, least),
      omega (arith, w, most, small),
    )

-- With a permutation of a hundred weights, at most a hundred workloads, and one at least, each gets
-- a weight and a picker is made of them, whose total is positive, so that a number can be drawn
-- below it, and at most a hundred times their number.
pub assign_random_weights-picker :
    (weights : List ℕ) (workloads : List TpccWorkload)
    → length weights ≡ max_weight
    → All (λ w. w < max_weight) weights
    → length workloads ≤ max_weight
    → 0 < length workloads
    → (assigned : List WeightedWorkload) × (picker : WeightedTpccPicker) × (assign_random_weights
          weights workloads
        ≡ ok assigned)
      × (new_weighted_tpcc_picker assigned ≡ ok picker)
      × (length workloads ≤ picker.total_weight)
      × (picker.total_weight ≤ length workloads * max_weight)
unfolding assign_random_weights new_weighted_tpcc_picker
assign_random_weights-picker weights workloads whole small few some_workload =
    let (assigned, is, weighted, same) =
      assign_from-IsWeighted weights workloads (omega (arith, whole, few)) small in
    let (picker, added, least, most) = add_weights-Adds 0 assigned weighted in
    let fits : ltb max_weight (length workloads) ≡ false = ground (arith, few) in
    let positive : picker.total_weight == 0 ≡ false = ground (arith, least, same, some_workload) in
    (
      assigned,
      picker,
      rw fits is,
      ap (λ o. o >>= unless_empty) added ∙ rw positive refl,
      omega (arith, least, same),
      omega (arith, most, same),
    )
