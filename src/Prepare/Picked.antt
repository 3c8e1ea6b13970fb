-- ===== src/Prepare/Picked.antt =====
-- A draw picks the workload in whose part of the weights it lies.
use optimizer_canary_service.Base.{
  ℕ, zero, suc, ◌+◌, ◌/◌, ◌≤◌, ◌<◌, ◌≡◌, refl, ap, inl, inr, Bool, true, false, List, [], ◌∷◌,
  arith, ltb, Bool-cases, length, get_or, take, take_all, Outcome, ok, bind_ok, ℤ, pos, negsuc,
}
use optimizer_canary_service.Text.{Bytes}
use optimizer_canary_service.Prepare.Picker.{
  checked, weight_of, WeightedWorkload, WeightedTpccPicker, PickerError, add_weights,
  new_weighted_tpcc_picker, search_from, search_index, picker_pick, is_above, unless_empty, counted,
}

module _ (n : ℕ) (f : ℕ → Bool) (rises : (k m : ℕ) → f k ≡ true → k ≤ m → m < n → f m ≡ true) where
  -- The first index below `n` from which on `f` holds.
  abbrev First : ℕ → Type 0
  First r = (r ≤ n) × ((k : ℕ) → k < r → f k ≡ false) × ((k : ℕ) → r ≤ k → k < n → f k ≡ true)

  falls : (k h : ℕ) → f h ≡ false → k ≤ h → h < n → f k ≡ false
  falls k h off below inside = elim (Bool-cases (f k)) [
    | inl on ↦ cc (rises k h on below inside)
    | inr here ↦ here
  ]

  search_from-First :
      (fuel i j : ℕ)
      → i ≤ j
      → j ≤ n
      → j ≤ i + fuel
      → ((k : ℕ) → k < i → f k ≡ false)
      → ((k : ℕ) → j ≤ k → k < n → f k ≡ true)
      → First (search_from fuel f i j)
  unfolding search_from
  search_from-First zero i j a b c low high = (omega arith, low, λ k p q. high k (omega arith) q)
  search_from-First (suc fuel) i j a b c low high = elim (Bool-cases (ltb i j)) [
    | inr stop ↦ rw stop (omega arith, low, λ k p q. high k (ground arith) q)
    | inl go ↦
        let h = (i + j) / 2 in
        let less : i < j = ground (arith, go) in
        let left : i ≤ h = omega arith in
        let right : h < j = omega arith in
        elim (Bool-cases (f h)) [
          | inl on ↦
              rw (go, on)
                (search_from-First fuel i h left (omega arith) (omega arith) low
                  (λ k p q. rises h k on p q))
          | inr off ↦
              rw (go, off)
                (search_from-First fuel (suc h) j (omega arith) b (omega arith)
                  (λ k p. falls k h off (omega arith) (omega arith)) high)
        ]
  ]

abbrev pub sum_weights : List WeightedWorkload → ℕ
sum_weights [] = 0
sum_weights (workload ∷ workloads) = weight_of workload.weight + sum_weights workloads

-- The cumulative weights are the sums of the first weights, on top of a total.
record Prefixes (total : ℕ) (workloads : List WeightedWorkload) (picker : WeightedTpccPicker)
    : Type 0 where
  same_length : length picker.cumulative_weights ≡ length workloads
  whole : picker.total_weight ≡ total + sum_weights workloads
  part :
      (i : ℕ)
      → i < length workloads
      → get_or picker.cumulative_weights i 0 ≡ total + sum_weights (take (suc i) workloads)

counted-Prefixes :
    (total w : ℕ) (workload : WeightedWorkload) (workloads : List WeightedWorkload)
    (picker : WeightedTpccPicker)
    → weight_of workload.weight ≡ w
    → Prefixes (total + w) workloads picker
    → Prefixes total (workload ∷ workloads) (counted (total + w) picker)
counted-Prefixes total w workload workloads picker e rest = record {
  same_length = ap (λ n. suc n) rest.same_length;
  whole = omega (arith, e, rest.whole);
  part = part;
}
  where
    part :
        (i : ℕ)
        → i < suc (length workloads)
        → get_or ((total + w) ∷ picker.cumulative_weights) i 0
          ≡ total + sum_weights (take (suc i) (workload ∷ workloads))
    part zero h = omega (arith, e)
    part (suc i) h = omega (arith, e, rest.part i (omega (arith, h)))

add_weight-Prefixes :
    (weight : ℤ) (name : Bytes) (total : ℕ) (workload : WeightedWorkload)
    (workloads : List WeightedWorkload) (later : Outcome PickerError WeightedTpccPicker)
    {picker : WeightedTpccPicker}
    → workload.weight ≡ weight
    → ((p : WeightedTpccPicker) → later ≡ ok p → Prefixes (total + weight_of weight) workloads p)
    → checked weight name (total + weight_of weight) later ≡ ok picker
    → Prefixes total (workload ∷ workloads) picker
add_weight-Prefixes (pos zero) name total workload workloads later e h built = cc
add_weight-Prefixes (negsuc n) name total workload workloads later e h built = cc
add_weight-Prefixes (pos (suc n)) name total workload workloads later {picker = picker} e h built =
    let (p, returned, same) = bind_ok later (λ q. ok (counted (total + suc n) q)) built in
    let is : counted (total + suc n) p ≡ picker = cc in
    rw (← is) (counted-Prefixes total (suc n) workload workloads p (ap weight_of e) (h p returned))

add_weights-Prefixes :
    (total : ℕ) (workloads : List WeightedWorkload) {picker : WeightedTpccPicker}
    → add_weights total workloads ≡ ok picker
    → Prefixes total workloads picker
unfolding add_weights
add_weights-Prefixes total [] {picker} built =
    let is : record { cumulative_weights = []; total_weight = total } ≡ picker = cc in
    rw (← is) (record { same_length = refl; whole = omega arith; part = λ i h. omega (arith, h) })
add_weights-Prefixes total (workload ∷ workloads) built =
    add_weight-Prefixes workload.weight workload.name total workload workloads
      (add_weights (total + weight_of workload.weight) workloads) refl
      (λ p e. add_weights-Prefixes (total + weight_of workload.weight) workloads e) built

-- The sums of the first weights rise.
sum_weights-take :
    (k m : ℕ) (workloads : List WeightedWorkload)
    → k ≤ m
    → sum_weights (take k workloads) ≤ sum_weights (take m workloads)
sum_weights-take zero m workloads h = omega arith
sum_weights-take (suc k) zero workloads h = omega (arith, h)
sum_weights-take (suc k) (suc m) [] h = omega arith
sum_weights-take (suc k) (suc m) (workload ∷ workloads) h =
    omega (arith, sum_weights-take k m workloads (omega (arith, h)))

sum_weights-take_all :
    (workloads : List WeightedWorkload)
    → sum_weights (take (length workloads) workloads) ≡ sum_weights workloads
sum_weights-take_all workloads = ap sum_weights (take_all workloads)

picker-rises :
    (workloads : List WeightedWorkload) (picker : WeightedTpccPicker)
    → Prefixes 0 workloads picker
    → (draw k m : ℕ) → is_above picker draw k ≡ true
    → k ≤ m
    → m < length picker.cumulative_weights
    → is_above picker draw m ≡ true
picker-rises workloads picker p draw k m on below inside = ground (
  arith,
  p.part k (omega (arith, p.same_length, below, inside)),
  p.part m (omega (arith, p.same_length, inside)),
  sum_weights-take (suc k) (suc m) workloads (omega (arith, below)),
)

-- The weights before an index whose tests failed are no more than the draw.
before_draw :
    (workloads : List WeightedWorkload) (picker : WeightedTpccPicker) (draw r : ℕ)
    → Prefixes 0 workloads picker
    → r ≤ length picker.cumulative_weights
    → ((k : ℕ) → k < r → is_above picker draw k ≡ false)
    → sum_weights (take r workloads) ≤ draw
before_draw workloads picker draw zero p inside low = omega arith
before_draw workloads picker draw (suc r) p inside low =
    ground (arith, low r (omega arith), p.part r (omega (arith, inside, p.same_length)))

-- An index with these tests is that of the part that the draw lies in.
too_far : {m n : ℕ} → m ≤ n → n < m → ⊥
too_far a b = omega (arith, a, b)

unless_empty-ok :
    (p : WeightedTpccPicker) {picker : WeightedTpccPicker} → unless_empty p ≡ ok picker → p ≡ picker
unless_empty-ok p h = ground (arith, h)

abbrev InPart : List WeightedWorkload → ℕ → ℕ → Type 0
InPart workloads draw r =
    (r < length workloads)
    × (sum_weights (take r workloads) ≤ draw)
    × (draw < sum_weights (take (suc r) workloads))

First-InPart :
    (workloads : List WeightedWorkload) (picker : WeightedTpccPicker) (draw r : ℕ)
    → Prefixes 0 workloads picker
    → draw < picker.total_weight
    → r ≤ length picker.cumulative_weights
    → ((k : ℕ) → k < r → is_above picker draw k ≡ false)
    → ((k : ℕ) → r ≤ k → k < length picker.cumulative_weights → is_above picker draw k ≡ true)
    → InPart workloads draw r
First-InPart workloads picker draw r p inside bound low high =
    let less = before_draw workloads picker draw r p bound low in
    elim (Bool-cases (ltb r (length workloads))) [
      | inl is_less ↦
          let r_less : r < length workloads = ground (arith, is_less) in
          (
            r_less,
            less,
            ground (
              arith,
              high r (omega arith) (omega (arith, r_less, p.same_length)),
              p.part r r_less,
            ),
          )
      | inr is_last ↦
          let last : r ≡ length workloads = ground (arith, is_last, bound, p.same_length) in
          let all : sum_weights workloads ≤ draw =
            rw (← sum_weights-take_all workloads) (rw (← last) less) in
          elim (too_far all (omega (arith, inside, p.whole))) [ ]
    ]

-- For a draw below the total weight, `pick` returns the index of a workload, namely the one whose
-- part of the weights the draw lies in: from the sum of the weights before it up to, and without,
-- the sum that includes its own. So each workload is picked for as many draws as its weight says.
pub picker_pick_lem :
    (workloads : List WeightedWorkload) {picker : WeightedTpccPicker} (draw : ℕ)
    → new_weighted_tpcc_picker workloads ≡ ok picker
    → draw < picker.total_weight
    → (picker_pick picker draw < length workloads)
      × (sum_weights (take (picker_pick picker draw) workloads) ≤ draw)
      × (draw < sum_weights (take (suc (picker_pick picker draw)) workloads))
      × (picker.total_weight ≡ sum_weights workloads)
unfolding new_weighted_tpcc_picker picker_pick search_index
picker_pick_lem workloads {picker} draw built inside =
    let (p, added, same) = bind_ok (add_weights 0 workloads) unless_empty built in
    let is : p ≡ picker = unless_empty-ok p same in
    let prefixes : Prefixes 0 workloads picker =
      rw (← is) (add_weights-Prefixes 0 workloads added) in
    let n = length picker.cumulative_weights in
    let f = λ (i : ℕ). is_above picker draw i in
    let (bound, low, high) =
      search_from-First n f (picker-rises workloads picker prefixes draw) n 0 n (omega arith)
        (omega arith) (omega arith) (λ k h. elim (too_far (omega arith) h) [ ])
        (λ k h g. elim (too_far h g) [ ]) in
    let (less, above, below) =
      First-InPart workloads picker draw (search_from n f 0 n) prefixes inside bound low high in
    (less, above, below, omega (arith, prefixes.whole))
