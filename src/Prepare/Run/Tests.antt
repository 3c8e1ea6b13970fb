-- ===== src/Prepare/Run/Tests.antt =====
-- One worker that executes a workload, is stopped, and sends its result.
use optimizer_canary_service.Base.{
  ℕ, zero, suc, ◌*◌, ◌≤◌, ◌<◌, ◌≡◌, refl, ◌≢◌, true, none, some, List, [], ◌∷◌, arith, ℕ_discrete,
  ok, pos,
}
use optimizer_canary_service.Text.{codes}
use optimizer_canary_service.Prepare.Picker.{
  WeightedTpccPicker, WeightedWorkload, new_weighted_tpcc_picker,
}
use optimizer_canary_service.Base.Family.{update, sum_below}
use optimizer_canary_service.Prepare.Run.System.{
  Shared, u64, Pc, finished, System, Move, Step, Reach, started, total_executions, worker_failures,
  WorkerResult,
}
use optimizer_canary_service.Prepare.Run.Counted.{count_of, total_executions-Reach}
use optimizer_canary_service.Prepare.Run.Stopped.{Steps, steps_left, Steps-Ends}

abbrev drawn : List WeightedWorkload
drawn =
    record { name = codes "a"; weight = pos 3 } ∷ record { name = codes "b"; weight = pos 2 } ∷ []

abbrev pub drawing : WeightedTpccPicker
drawing = record { cumulative_weights = 3 ∷ 5 ∷ []; total_weight = 5 }

drawing_made : new_weighted_tpcc_picker drawn ≡ ok drawing
unfolding new_weighted_tpcc_picker
drawing_made = refl

abbrev step_of :
    {s : System (Unit {0})} {m : Shared (Unit {0})} {p : Pc (Unit {0})}
    → Reach drawing 1 s
    → Move drawing 0 s.shared (s.pc 0) m p
    → Reach drawing 1 (record { shared = m; pc = update s.pc 0 p })
step_of r mv = Reach.later r (Step.work 0 (omega arith) mv)

pub one_result : (s : System (Unit {0})) × Reach drawing 1 s × (s.pc 0 ≡ finished 1)
unfolding ℕ_discrete
one_result = (
  _,
  step_of
      (step_of
        (step_of
          (Reach.later
            (step_of (step_of (step_of Reach.start (Move.draw 4 refl (omega arith))) Move.drain)
              Move.count)
            Step.expire)
          (Move.stop refl))
        Move.send)
      Move.leave,
  refl,
)

pub only_one : (i : ℕ) → i < 1 → (e : ℕ) × (one_result.0.pc i ≡ finished e)
unfolding one_result ℕ_discrete
only_one zero lt = (1, refl)
only_one (suc i) lt = absurd (omega arith)

total_executions-Reach_example :
    total_executions 0 one_result.0.shared.results
    ≡ u64 (sum_below count_of 2 one_result.0.shared.execution_counts)
total_executions-Reach_example = total_executions-Reach drawn drawing_made one_result.1 only_one

abbrev failure : WorkerResult (Unit {0})
failure = record { id = 2; executions = 7; failure = some (1, tt) }

abbrev success : WorkerResult (Unit {0})
success = record { id = 1; executions = 5; failure = none }

two_totals :
    (total_executions 0 (success ∷ failure ∷ []) ≡ 12)
    × (worker_failures (success ∷ failure ∷ []) ≡ (2, 1, tt) ∷ [])
unfolding total_executions worker_failures
two_totals = (refl, refl)

abbrev cancelled : System (Unit {0})
cancelled = record started { shared = record started.shared { cancelled = true } }

one_stopped : (t : System (Unit {0})) × Steps drawing 2 cancelled 1 t
one_stopped = (_, Steps.worked 1 Steps.none_more (omega arith) (Move.stop refl))

Steps-Ends_example :
    (1 ≤ 2 * 5)
    × ((i : ℕ)
        → steps_left (one_stopped.0.pc i) ≢ 0
        → (m : Shared (Unit {0})) × (p : Pc (Unit {0})) × Move drawing i one_stopped.0.shared
            (one_stopped.0.pc i)
            m
            p)
Steps-Ends_example = Steps-Ends drawing refl one_stopped.1
