-- ===== src/Prepare/StatementTests.antt =====
-- Two workloads are prepared with one worker, which executes one of them before the time is over.
use optimizer_canary_service.Base.{
  ◌≡◌, refl, sym, ◌∙◌, none, some, List, [], ◌∷◌, arith, ◌==◌, if◌then◌else◌, Outcome, ok, ℤ, pos,
}
use optimizer_canary_service.Text.{codes}
use mathlib.Core.Path.{subst}
use optimizer_canary_service.Prepare.Picker.{WeightedTpccPicker, new_weighted_tpcc_picker}
use optimizer_canary_service.Prepare.Workload.{
  read_result, read_operators, last_column, slices_equal, TpccWorkload,
}
use optimizer_canary_service.Prepare.Workers.{WorkerDriver, Pool, create_tpcc_workers}
use optimizer_canary_service.Prepare.Bindings.{
  explain_plan_operators, explain_with_session_binding, alternate_workload, validate_tpcc_bindings,
}
use optimizer_canary_service.Prepare.Run.System.{System, Reach}
use optimizer_canary_service.Prepare.Run.Tests.{drawing, one_result, only_one}
use optimizer_canary_service.Prepare.Statements.{weigh, prepare_tpcc_statements}
use optimizer_canary_service.Prepare.Completed.{Completed, prepare_tpcc_statements-Completed}
use optimizer_canary_service.Prepare.Tests.{made_workload, connection}

-- The third connection cannot be made; one is open before.
abbrev driver : WorkerDriver (Unit {0})
driver = record { conn_error = λ c. if c == 2 then some tt else none; exec_error = λ c text. none }

abbrev pool : Pool
pool = record { made = 1; live = 0 ∷ [] }

abbrev prepared : List TpccWorkload
prepared = made_workload ∷ made_workload ∷ []

abbrev weights : List ℤ
weights = pos 3 ∷ pos 2 ∷ []

third_fails : (create_tpcc_workers driver (codes "s") [] 3 pool).1.live ≡ pool.live
unfolding create_tpcc_workers
third_fails = refl

drawing_weighed :
    new_weighted_tpcc_picker (weigh weights (validate_tpcc_bindings connection prepared 0).0.1)
    ≡ ok drawing
unfolding new_weighted_tpcc_picker validate_tpcc_bindings explain_plan_operators read_result
    read_operators last_column explain_with_session_binding slices_equal alternate_workload
drawing_weighed = refl

abbrev ended : System (Unit {0})
ended = one_result.0

ended_reached :
    (picker : WeightedTpccPicker)
    → new_weighted_tpcc_picker (weigh weights (validate_tpcc_bindings connection prepared 0).0.1)
      ≡ ok picker
    → Reach picker 1 ended
ended_reached picker h =
    let same : ◌≡◌ {A = Outcome _ WeightedTpccPicker} (ok drawing) (ok picker) =
      sym drawing_weighed ∙ h in
    let is : drawing ≡ picker = cc in subst (λ p. Reach p 1 ended) is one_result.1

prepare_tpcc_statements-Completed_example :
    Completed connection driver
      (codes "s")
      ended
      none
      pool
      (prepare_tpcc_statements connection driver (codes "s") ended none 1 weights prepared 0 pool)
prepare_tpcc_statements-Completed_example =
    prepare_tpcc_statements-Completed connection driver (codes "s") ended none 1 weights prepared 0
      pool (omega arith, tt) ended_reached only_one
