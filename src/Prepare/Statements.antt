-- ===== src/Prepare/Statements.antt =====
-- `prepareTPCCStatements` of prepare/tpcc_runner.go: the validation of the bindings, the picker, the
-- workers, their run, and what is left of it. The schedule chooses the state in which the run ends.
use optimizer_canary_service.Base.{
  ℕ, Option, none, some, List, [], ◌∷◌, map, Outcome, ok, err, panic, ℤ, pos,
}
use optimizer_canary_service.Text.{Bytes}
use optimizer_canary_service.Prepare.Picker.{
  WeightedWorkload, WeightedTpccPicker, PickerError, new_weighted_tpcc_picker,
}
use optimizer_canary_service.Prepare.Workload.{TpccWorkload}
use optimizer_canary_service.Prepare.Workers.{
  BoundWorkload, WorkerDriver, WorkerError, Worker, Pool, Created, create_tpcc_workers,
  close_tpcc_workers,
}
use optimizer_canary_service.Prepare.Bindings.{Connection, ValidationError, validate_tpcc_bindings}
use optimizer_canary_service.Prepare.Run.System.{System, total_executions, worker_failures}

pub data StatementsError (E : Type 0) : Type 0 where
  invalid_bindings : ValidationError E → StatementsError E
  no_picker : PickerError → StatementsError E
  no_workers : WorkerError E → StatementsError E
  run_failed : List (ℕ × ℕ × E) → Option E → StatementsError E

-- What `prepareTPCCStatements` leaves: what it returns, the total that it logs if it comes so far,
-- the workloads, the state of the preparer's connection, and the connections of the workers.
pub record Prepared (S E : Type 0) : Type 0 where
  pub returned : Outcome (StatementsError E) (Unit {0})
  pub logged : Option ℕ
  pub workloads : List TpccWorkload
  pub conn : S
  pub pool : Pool

abbrev pub bound : TpccWorkload → BoundWorkload
bound w = record { name = w.name; sql = w.sql; bound_sql = w.bound_sql }

-- The workloads with their `weight`, which is zero where none was assigned.
abbrev pub weigh : List ℤ → List TpccWorkload → List WeightedWorkload
weigh weights [] = []
weigh [] (w ∷ ws) = record { name = w.name; weight = pos 0 } ∷ weigh [] ws
weigh (weight ∷ weights) (w ∷ ws) = record { name = w.name; weight = weight } ∷ weigh weights ws

-- `errors.Join` over the failures of the workers and the error of the context.
abbrev pub run_error :
    {E : Type 0} → List (ℕ × ℕ × E) → Option E → Outcome (StatementsError E) (Unit {0})
run_error [] none = ok tt
run_error [] (some e) = err (run_failed [] (some e))
run_error (failure ∷ failures) context_error = err (run_failed (failure ∷ failures) context_error)

module _ {S E : Type 0} (connection : Connection S E) (driver : WorkerDriver E) (schema : Bytes)
    (ended : System E) (context_error : Option E) where
  abbrev pub returning :
      Outcome (StatementsError E) (Unit {0}) → List TpccWorkload → S → Pool → Prepared S E
  returning returned ws s pool = record {
    returned = returned;
    logged = none;
    workloads = ws;
    conn = s;
    pool = pool;
  }

  -- Behind `waitGroup.Wait()`.
  abbrev pub after_run : List TpccWorkload → S → List Worker → Pool → Prepared S E
  after_run ws s workers pool = record {
    returned = run_error (worker_failures ended.shared.results) context_error;
    logged = some (total_executions 0 ended.shared.results);
    workloads = ws;
    conn = s;
    pool = (close_tpcc_workers driver schema (map bound ws) workers pool).1;
  }

  abbrev pub after_workers : List TpccWorkload → S → Created E → Prepared S E
  after_workers ws s (ok workers, pool) = after_run ws s workers pool
  after_workers ws s (err e, pool) = returning (err (no_workers e)) ws s pool
  after_workers ws s (panic, pool) = returning panic ws s pool

  abbrev pub after_picker :
      ℕ → List TpccWorkload → S → Pool → Outcome PickerError WeightedTpccPicker → Prepared S E
  after_picker concurrency ws s pool (ok picker) =
      after_workers ws s (create_tpcc_workers driver schema (map bound ws) concurrency pool)
  after_picker concurrency ws s pool (err e) = returning (err (no_picker e)) ws s pool
  after_picker concurrency ws s pool panic = returning panic ws s pool

  abbrev pub after_validation :
      ℕ
      → List ℤ
      → Pool
      → (Outcome (ValidationError E) (Unit {0}) × List TpccWorkload) × S
      → Prepared S E
  after_validation concurrency weights pool ((ok u, ws), s) =
      after_picker concurrency ws s pool (new_weighted_tpcc_picker (weigh weights ws))
  after_validation concurrency weights pool ((err e, ws), s) =
      returning (err (invalid_bindings e)) ws s pool
  after_validation concurrency weights pool ((panic, ws), s) = returning panic ws s pool

  unfoldable pub prepare_tpcc_statements : ℕ → List ℤ → List TpccWorkload → S → Pool → Prepared S E
  unfolding validate_tpcc_bindings new_weighted_tpcc_picker create_tpcc_workers close_tpcc_workers
      total_executions worker_failures
  prepare_tpcc_statements concurrency weights ws s pool =
      after_validation concurrency weights pool (validate_tpcc_bindings connection ws s)
