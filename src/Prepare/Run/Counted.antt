-- ===== src/Prepare/Run/Counted.antt =====
-- What the counters of the run add up to, in every order of the workers' steps.
use optimizer_canary_service.Base.{
  ℕ, zero, suc, ◌+◌, ◌^◌, ◌<◌, ◌≡◌, refl, List, [], ◌∷◌, ◌++◌, arith, length, ok,
}
use optimizer_canary_service.Prepare.Picked.{picker_pick_lem}
use optimizer_canary_service.Prepare.Picker.{
  WeightedTpccPicker, WeightedWorkload, new_weighted_tpcc_picker, picker_pick,
}
use optimizer_canary_service.Base.Family.{update_each, sum_below, sum_below-update}
use optimizer_canary_service.Prepare.Run.System.{
  u64, Pc, looping, picked, executed, returned, sent, finished, Shared, System, Move, Step, Reach,
  total_executions, WorkerResult,
}

abbrev pub count_of : ℕ → ℕ
count_of n = n

zero_counts : (n : ℕ) → sum_below count_of n (λ w. 0) ≡ 0
unfolding sum_below
zero_counts zero = refl
zero_counts (suc n) = omega (arith, zero_counts n)

module _ {E : Type 0} where
  -- The workload that a worker has picked or executed is below `k`.
  abbrev pub InRange : ℕ → Pc E → Type 0
  InRange k (looping n) = Unit
  InRange k (picked n w) = w < k
  InRange k (executed n w) = w < k
  InRange k (returned n e) = Unit
  InRange k (sent n e) = Unit
  InRange k (finished n) = Unit

  abbrev pub executions_of : Pc E → ℕ
  executions_of (looping n) = n
  executions_of (picked n w) = n
  executions_of (executed n w) = n
  executions_of (returned n e) = n
  executions_of (sent n e) = n
  executions_of (finished n) = n

  -- One where `executions` was raised and `executionCounts` was not.
  abbrev pub behind_of : Pc E → ℕ
  behind_of (executed n w) = 1
  behind_of _ = 0

  -- The executions that were sent.
  abbrev pub sent_of : Pc E → ℕ
  sent_of (sent n e) = n
  sent_of (finished n) = n
  sent_of _ = 0

  total_executions-append :
      (total : ℕ) (results : List (WorkerResult E)) (result : WorkerResult E)
      → total_executions total (results ++ result ∷ [])
        ≡ u64 (total_executions total results + result.executions)
  unfolding total_executions
  total_executions-append total [] result = refl
  total_executions-append total (x ∷ results) result =
      total_executions-append (u64 (total + x.executions)) results result

  -- What holds of `n` workers and `k` workloads in every reachable state.
  record Inv (n k : ℕ) (s : System E) : Type 0 where
    counted :
        u64 (sum_below executions_of n s.pc)
        ≡ u64 (sum_below count_of k s.shared.execution_counts + sum_below behind_of n s.pc)
    reported : u64 (sum_below sent_of n s.pc) ≡ u64 (total_executions 0 s.shared.results)
    in_range : (i : ℕ) → InRange k (s.pc i)

  module _ (picker : WeightedTpccPicker) (k : ℕ)
      (picks : (x : ℕ) → x < picker.total_weight → picker_pick picker x < k) where
    -- One step of a worker, by what it adds to the counts of the workloads, its own and the sent.
    record Adds (m m' : Shared E) (p p' : Pc E) : Type 0 where
      counted :
          u64 (executions_of p' + behind_of p + sum_below count_of k m.execution_counts)
          ≡ u64 (executions_of p + behind_of p' + sum_below count_of k m'.execution_counts)
      reported :
          u64 (total_executions 0 m'.results + sent_of p)
          ≡ u64 (total_executions 0 m.results + sent_of p')
      in_range : InRange k p'

    Move-Adds :
        {i : ℕ} {m m' : Shared E} {p p' : Pc E}
        → Move picker i m p m' p'
        → InRange k p
        → Adds m m' p p'
    Move-Adds (Move.stop c) h = record { counted = refl; reported = refl; in_range = tt }
    Move-Adds (Move.draw x c lt) h = record {
      counted = refl;
      reported = refl;
      in_range = picks x lt;
    }
    Move-Adds Move.drain h = record { counted = omega arith; reported = refl; in_range = h }
    Move-Adds (Move.interrupted c) h = record { counted = refl; reported = refl; in_range = tt }
    Move-Adds (Move.fail e c) h = record { counted = refl; reported = refl; in_range = tt }
    Move-Adds {m} (Move.count {w}) h = record {
      counted = omega (
        arith,
        sum_below-update count_of k m.execution_counts w (u64 (m.execution_counts w + 1)) h,
      );
      reported = refl;
      in_range = tt;
    }
    Move-Adds {i} {m} (Move.send {n} {failure}) h = record {
      counted = refl;
      reported = omega (
        arith,
        total_executions-append 0 m.results
            (record { id = suc i; executions = n; failure = failure }),
      );
      in_range = tt;
    }
    Move-Adds (Move.cancel failure) h = record { counted = refl; reported = refl; in_range = tt }
    Move-Adds Move.leave h = record { counted = refl; reported = refl; in_range = tt }

    Step-Inv : {n : ℕ} {s t : System E} → Step picker n s t → Inv n k s → Inv n k t
    Step-Inv {n} {s} (Step.work i {m} {p} lt mv) inv =
        let adds = Move-Adds mv (inv.in_range i) in
        record {
          counted = omega (
            arith,
            adds.counted,
            inv.counted,
            sum_below-update executions_of n s.pc i p lt,
            sum_below-update behind_of n s.pc i p lt,
          );
          reported =
              omega (arith, adds.reported, inv.reported, sum_below-update sent_of n s.pc i p lt);
          in_range = update_each (InRange k) s.pc i p adds.in_range inv.in_range;
        }
    Step-Inv Step.expire inv = record {
      counted = inv.counted;
      reported = inv.reported;
      in_range = inv.in_range;
    }

    none_yet : (f : Pc E → ℕ) (n : ℕ) → f (looping 0) ≡ 0 → sum_below f n (λ i. looping 0) ≡ 0
    unfolding sum_below
    none_yet f zero h = refl
    none_yet f (suc n) h = omega (arith, none_yet f n h, h)

    Reach-Inv : {n : ℕ} {s : System E} → Reach picker n s → Inv n k s
    unfolding total_executions
    Reach-Inv {n} Reach.start = record {
      counted =
          omega (arith, zero_counts k, none_yet executions_of n refl, none_yet behind_of n refl);
      reported = omega (arith, none_yet sent_of n refl);
      in_range = λ i. tt;
    }
    Reach-Inv (Reach.later r st) = Step-Inv st (Reach-Inv r)

    sums_finished :
        (n : ℕ) (f : ℕ → Pc E)
        → ((i : ℕ) → i < n → (e : ℕ) × (f i ≡ finished e))
        → (sum_below executions_of n f ≡ sum_below sent_of n f) × (sum_below behind_of n f ≡ 0)
    unfolding sum_below
    sums_finished zero f h = (refl, refl)
    sums_finished (suc n) f h =
        let (e, last) = h n (omega arith) in
        let (same, none_behind) = sums_finished n f (λ i lt. h i (omega arith)) in
        (rw last (omega (arith, same)), rw last (omega (arith, none_behind)))

total_executions-lt :
    {E : Type 0} (total : ℕ) (results : List (WorkerResult E))
    → total < 2 ^ 64
    → total_executions total results < 2 ^ 64
unfolding total_executions
total_executions-lt total [] h = h
total_executions-lt total (x ∷ results) h =
    total_executions-lt (u64 (total + x.executions)) results (omega arith)

-- Whatever order the workers ran in and however their queries ended: when all have returned, the
-- total of the results that they sent is the sum of the counts of the workloads, in uint64.
pub total_executions-Reach :
    {E : Type 0} (workloads : List WeightedWorkload) {picker : WeightedTpccPicker} {n : ℕ}
    {s : System E}
    → new_weighted_tpcc_picker workloads ≡ ok picker
    → Reach picker n s
    → ((i : ℕ) → i < n → (e : ℕ) × (s.pc i ≡ finished e))
    → total_executions 0 s.shared.results
      ≡ u64 (sum_below count_of (length workloads) s.shared.execution_counts)
total_executions-Reach workloads {picker} {n} {s} built r all =
    let picks =
      λ (x : ℕ) (lt : x < picker.total_weight). (picker_pick_lem workloads x built lt).0 in
    let inv = Reach-Inv picker (length workloads) picks r in
    let (same, none_behind) = sums_finished picker (length workloads) picks n s.pc all in
    omega (
      arith,
      inv.counted,
      inv.reported,
      same,
      none_behind,
      total_executions-lt 0 s.shared.results (omega arith),
    )
