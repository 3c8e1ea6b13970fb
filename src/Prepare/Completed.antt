-- ===== src/Prepare/Completed.antt =====
-- What `prepareTPCCStatements` leaves behind and what its total counts.
use optimizer_canary_service.Base.{
  ℕ, suc, ◌<◌, ◌≡◌, refl, ap, ◌∙◌, Option, none, some, List, [], ◌∷◌, map, length, Outcome, ok, err,
  panic, ℤ,
}
use optimizer_canary_service.Text.{Bytes}
use optimizer_canary_service.Prepare.Picker.{
  WeightedTpccPicker, PickerError, new_weighted_tpcc_picker,
}
use optimizer_canary_service.Prepare.Workload.{TpccWorkload}
use optimizer_canary_service.Prepare.Workers.{WorkerDriver, Pool, Created, create_tpcc_workers}
use optimizer_canary_service.Prepare.Bindings.{validate_tpcc_bindings, ValidationError, Connection}
use optimizer_canary_service.Prepare.Released.{Made, NoLeak, create_tpcc_workers-NoLeak}
use optimizer_canary_service.Base.Family.{sum_below}
use optimizer_canary_service.Prepare.Run.System.{
  System, Reach, finished, u64, total_executions, worker_failures,
}
use optimizer_canary_service.Prepare.Run.Counted.{count_of, total_executions-Reach}
use optimizer_canary_service.Prepare.Statements.{
  after_validation, prepare_tpcc_statements, Prepared, bound, weigh, run_error, after_workers,
  after_picker,
}

length-weigh : (weights : List ℤ) (ws : List TpccWorkload) → length (weigh weights ws) ≡ length ws
length-weigh weights [] = refl
length-weigh [] (w ∷ ws) = ap suc (length-weigh [] ws)
length-weigh (weight ∷ weights) (w ∷ ws) = ap suc (length-weigh weights ws)

run_error-ok :
    {E : Type 0} (failures : List (ℕ × ℕ × E)) (context_error : Option E)
    → run_error failures context_error ≡ ok tt
    → (failures ≡ []) × (context_error ≡ none)
run_error-ok [] none h = (refl, refl)
run_error-ok [] (some e) h = cc
run_error-ok (failure ∷ failures) context_error h = cc

module _ {S E : Type 0} (connection : Connection S E) (driver : WorkerDriver E) (schema : Bytes)
    (ended : System E) (context_error : Option E) where
  -- No connection of a worker stays open; a total that is logged is the sum of the counters of the
  -- workloads, in uint64; and there is no error only where no worker failed and the context lives.
  pub record Completed (pool : Pool) (r : Prepared S E) : Type 0 where
    pub released : r.pool.live ≡ pool.live
    pub counted :
        (total : ℕ)
        → r.logged ≡ some total
        → total ≡ u64 (sum_below count_of (length r.workloads) ended.shared.execution_counts)
    pub clean :
        r.returned ≡ ok tt → (worker_failures ended.shared.results ≡ []) × (context_error ≡ none)

  abbrev AllFinished : ℕ → Type 0
  AllFinished n = (i : ℕ) → i < n → (e : ℕ) × (ended.pc i ≡ finished e)

  after_workers-Completed :
      (concurrency : ℕ) (ws : List TpccWorkload) (s : S) (pool : Pool) (made : Created E)
      → total_executions 0 ended.shared.results
        ≡ u64 (sum_below count_of (length ws) ended.shared.execution_counts)
      → NoLeak driver schema (map bound ws) concurrency pool made
      → Completed pool (after_workers connection driver schema ended context_error ws s made)
  unfolding NoLeak
  after_workers-Completed concurrency ws s pool (ok workers, after) total h = record {
    released = h.1;
    counted = λ n is. cc;
    clean = λ is. run_error-ok (worker_failures ended.shared.results) context_error is;
  }
  after_workers-Completed concurrency ws s pool (err e, after) total h = record {
    released = h;
    counted = λ n is. cc;
    clean = λ is. cc;
  }
  after_workers-Completed concurrency ws s pool (panic, after) total h = elim h [ ]

  after_picker-Completed :
      (concurrency : ℕ) (weights : List ℤ) (ws : List TpccWorkload) (s : S) (pool : Pool)
      (answer : Outcome PickerError WeightedTpccPicker)
      → new_weighted_tpcc_picker (weigh weights ws) ≡ answer
      → Made pool.made pool.live
      → ((picker : WeightedTpccPicker)
          → new_weighted_tpcc_picker (weigh weights ws) ≡ ok picker
          → Reach picker concurrency ended)
      → AllFinished concurrency
      → Completed pool
          (after_picker connection driver schema ended context_error concurrency ws s pool answer)
  after_picker-Completed concurrency weights ws s pool (ok picker) is made runs all =
      after_workers-Completed concurrency ws s pool
        (create_tpcc_workers driver schema (map bound ws) concurrency pool)
        (total_executions-Reach (weigh weights ws) is (runs picker is) all
          ∙ ap (λ n. u64 (sum_below count_of n ended.shared.execution_counts))
              (length-weigh weights ws))
        (create_tpcc_workers-NoLeak driver schema (map bound ws) concurrency pool made)
  after_picker-Completed concurrency weights ws s pool (err e) is made runs all = record {
    released = refl;
    counted = λ n h. cc;
    clean = λ h. cc;
  }
  after_picker-Completed concurrency weights ws s pool panic is made runs all = record {
    released = refl;
    counted = λ n h. cc;
    clean = λ h. cc;
  }

  after_validation-Completed :
      (concurrency : ℕ) (weights : List ℤ) (pool : Pool)
      (answer : (Outcome (ValidationError E) (Unit {0}) × List TpccWorkload) × S)
      → Made pool.made pool.live
      → ((picker : WeightedTpccPicker)
          → new_weighted_tpcc_picker (weigh weights answer.0.1) ≡ ok picker
          → Reach picker concurrency ended)
      → AllFinished concurrency
      → Completed pool (
          after_validation connection driver schema ended context_error concurrency weights pool
            answer)
  after_validation-Completed concurrency weights pool ((ok u, ws), s) made runs all =
      after_picker-Completed concurrency weights ws s pool
        (new_weighted_tpcc_picker (weigh weights ws)) refl made runs all
  after_validation-Completed concurrency weights pool ((err e, ws), s) made runs all = record {
    released = refl;
    counted = λ n h. cc;
    clean = λ h. cc;
  }
  after_validation-Completed concurrency weights pool ((panic, ws), s) made runs all = record {
    released = refl;
    counted = λ n h. cc;
    clean = λ h. cc;
  }

  -- Whatever the driver answers, and for any run of the workers in which all have returned:
  -- `prepareTPCCStatements` leaves those connections of workers open that were open before; a total
  -- that it logs is the sum of the counts of the workloads, in uint64; and it returns no error only
  -- if no query of a worker failed and the context has no error. (A new connection has a new number.)
  pub prepare_tpcc_statements-Completed :
      (concurrency : ℕ) (weights : List ℤ) (ws : List TpccWorkload) (s : S) (pool : Pool)
      → Made pool.made pool.live
      → ((picker : WeightedTpccPicker)
          → new_weighted_tpcc_picker (weigh weights (validate_tpcc_bindings connection ws s).0.1)
            ≡ ok picker
          → Reach picker concurrency ended)
      → ((i : ℕ) → i < concurrency → (e : ℕ) × (ended.pc i ≡ finished e))
      → Completed pool (
          prepare_tpcc_statements connection driver schema ended context_error concurrency weights
            ws s pool)
  unfolding prepare_tpcc_statements
  prepare_tpcc_statements-Completed concurrency weights ws s pool made runs all =
      after_validation-Completed concurrency weights pool (validate_tpcc_bindings connection ws s)
        made runs all
