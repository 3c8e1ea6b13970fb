-- ===== src/Prepare/Picker.antt =====
-- `weightedTPCCPicker` of prepare/tpcc_runner.go, with `sort.Search`. The weights add up without
-- overflow: the workloads are few and their weights at most 100.
use optimizer_canary_service.Base.{
  ℕ, zero, suc, ◌+◌, ◌/◌, Bool, List, [], ◌∷◌, ltb, ◌==◌, if◌then◌else◌, length, get_or, Outcome,
  ok, err, ◌>>=◌, ℤ, pos, negsuc,
}
use optimizer_canary_service.Text.{Bytes}

pub data PickerError : Type 0 where
  invalid_weight : Bytes → ℤ → PickerError
  empty_list : PickerError

-- The fields of `tpccWorkload` that the picker reads.
pub record WeightedWorkload : Type 0 where
  pub name : Bytes
  pub weight : ℤ

pub record WeightedTpccPicker : Type 0 where
  pub cumulative_weights : List ℕ
  pub total_weight : ℕ

abbrev pub counted : ℕ → WeightedTpccPicker → WeightedTpccPicker
counted total later = record later { cumulative_weights = total ∷ later.cumulative_weights }

abbrev pub weight_of : ℤ → ℕ
weight_of (pos n) = n
weight_of (negsuc n) = 0

-- The check of one weight, before the rest of the loop.
abbrev pub checked :
    ℤ → Bytes → ℕ → Outcome PickerError WeightedTpccPicker → Outcome PickerError WeightedTpccPicker
checked (pos zero) name total later = err (invalid_weight name (pos zero))
checked (negsuc n) name total later = err (invalid_weight name (negsuc n))
checked (pos (suc n)) name total later = later >>= λ picker. ok (counted total picker)

-- The loop, from the total so far.
unfoldable pub add_weights : ℕ → List WeightedWorkload → Outcome PickerError WeightedTpccPicker
add_weights total [] = ok record { cumulative_weights = []; total_weight = total }
add_weights total (workload ∷ workloads) =
    let total' = total + weight_of workload.weight in
    checked workload.weight workload.name total' (add_weights total' workloads)

abbrev pub unless_empty : WeightedTpccPicker → Outcome PickerError WeightedTpccPicker
unless_empty picker = if picker.total_weight == 0 then err empty_list else ok picker

unfoldable pub new_weighted_tpcc_picker :
    List WeightedWorkload → Outcome PickerError WeightedTpccPicker
unfolding add_weights
new_weighted_tpcc_picker workloads = add_weights 0 workloads >>= unless_empty

-- The loop of `sort.Search`: each round halves the range, so that its length is fuel enough.
unfoldable pub search_from : ℕ → (ℕ → Bool) → ℕ → ℕ → ℕ
search_from zero f i j = i
search_from (suc fuel) f i j =
    let h = (i + j) / 2 in
    let lower = search_from fuel f i h in
    let upper = search_from fuel f (suc h) j in
    if ltb i j then (if f h then lower else upper) else i

-- `sort.Search`.
unfoldable pub search_index : ℕ → (ℕ → Bool) → ℕ
unfolding search_from
search_index n f = search_from n f 0 n

abbrev pub is_above : WeightedTpccPicker → ℕ → ℕ → Bool
is_above picker draw i = ltb draw (get_or picker.cumulative_weights i 0)

unfoldable pub picker_pick : WeightedTpccPicker → ℕ → ℕ
unfolding search_index
picker_pick picker draw =
    search_index (length picker.cumulative_weights) (λ i. is_above picker draw i)
