-- ===== src/Prepare/Workers.antt =====
-- `createTPCCWorkers`, `closeConnections` and `closeTPCCWorkers` of prepare/tpcc_runner.go. A
-- connection is a number; the state notes how many were made and which of them are open.
use optimizer_canary_service.Base.{
  ℕ, zero, suc, not, Option, none, some, List, [], ◌∷◌, ◌++◌, ◌==◌, keep, Outcome, ok, err,
}
use optimizer_canary_service.Text.{Bytes, codes}
use optimizer_canary_service.Prepare.Insert.{quote_identifier}

-- The texts of `tpccWorkload` that the workers send.
pub record BoundWorkload : Type 0 where
  pub name : Bytes
  pub sql : Bytes
  pub bound_sql : Bytes

-- What the driver answers: whether the next connection can be made, and a statement on one.
pub record WorkerDriver (E : Type 0) : Type 0 where
  pub conn_error : ℕ → Option E
  pub exec_error : ℕ → Bytes → Option E

pub record Pool : Type 0 where
  pub made : ℕ
  pub live : List ℕ

pub record Worker : Type 0 where
  pub id : ℕ
  pub conn : ℕ

pub data WorkerError (E : Type 0) : Type 0 where
  acquire_failed : ℕ → E → WorkerError E
  schema_failed : ℕ → E → WorkerError E
  binding_failed : ℕ → Bytes → E → WorkerError E

abbrev pub open_conn : Pool → Pool
open_conn pool = record { made = suc pool.made; live = pool.made ∷ pool.live }

-- `conn.Close()`.
unfoldable pub close_conn : ℕ → Pool → Pool
close_conn c pool = record pool { live = keep (λ x. not (x == c)) pool.live }

unfoldable pub close_connections : List Worker → Pool → Pool
unfolding close_conn
close_connections [] pool = pool
close_connections (worker ∷ workers) pool = close_connections workers (close_conn worker.conn pool)

unfoldable pub create_binding : BoundWorkload → Bytes
create_binding workload =
    codes "CREATE SESSION BINDING FOR " ++ workload.sql ++ codes " USING " ++ workload.bound_sql

abbrev pub Created : Type 0 → Type 0
Created E = Outcome (WorkerError E) (List Worker) × Pool

module _ {E : Type 0} (driver : WorkerDriver E) (schema : Bytes)
    (workloads : List BoundWorkload) where
  open driver use {conn_error, exec_error}

  -- The bindings of one connection: the first workload whose binding fails.
  unfoldable pub bind_all : ℕ → List BoundWorkload → Option (Bytes × E)
  unfolding create_binding
  bind_all c [] = none
  bind_all c (workload ∷ rest) =
      let later = bind_all c rest in
      elim (exec_error c (create_binding workload)) [
        | some e ↦ some (workload.name, e)
        | none ↦ later
      ]

  -- What is wrong with a new connection, if anything is.
  abbrev pub bindings_error : ℕ → Option (Bytes × E) → Option (WorkerError E)
  bindings_error worker_id none = none
  bindings_error worker_id (some (name, e)) = some (binding_failed worker_id name e)

  unfoldable pub set_up : ℕ → ℕ → Option (WorkerError E)
  unfolding quote_identifier bind_all
  set_up worker_id c =
      let bound = bindings_error worker_id (bind_all c workloads) in
      elim (exec_error c (codes "USE " ++ quote_identifier schema)) [
        | some e ↦ some (schema_failed worker_id e)
        | none ↦ bound
      ]

  abbrev pub after_set_up : Option (WorkerError E) → ℕ → List Worker → Pool → Created E → Created E
  after_set_up (some e) c workers pool rest = (err e, close_connections workers (close_conn c pool))
  after_set_up none c workers pool rest = rest

  abbrev pub after_conn : Option E → ℕ → List Worker → Pool → Created E → Created E
  after_conn (some e) worker_id workers pool rest =
      (err (acquire_failed worker_id e), close_connections workers pool)
  after_conn none worker_id workers pool rest = rest

  -- The loop, with `left` workers still to be made.
  unfoldable pub create_from : ℕ → ℕ → List Worker → Pool → Created E
  unfolding set_up close_connections
  create_from zero worker_id workers pool = (ok workers, pool)
  create_from (suc left) worker_id workers pool =
      let c = pool.made in
      let rest =
        create_from left (suc worker_id) (workers ++ record { id = worker_id; conn = c } ∷ [])
          (open_conn pool) in
      after_conn (conn_error c) worker_id workers pool
        (after_set_up (set_up worker_id c) c workers (open_conn pool) rest)

  unfoldable pub create_tpcc_workers : ℕ → Pool → Created E
  unfolding create_from
  create_tpcc_workers concurrency pool = create_from concurrency 1 [] pool

  -- The statements of `closeTPCCWorkers` on one connection, up to the first that fails.
  unfoldable pub drop_bindings : ℕ → List BoundWorkload → List Bytes
  drop_bindings c [] = []
  drop_bindings c (workload ∷ rest) =
      let drop_sql = codes "DROP SESSION BINDING FOR " ++ workload.sql in
      let later = drop_bindings c rest in
      elim (exec_error c drop_sql) [ some e ↦ drop_sql ∷ [] | none ↦ drop_sql ∷ later ]

  -- `closeTPCCWorkers`: the connection is closed whatever its statements answer.
  unfoldable pub close_tpcc_workers : List Worker → Pool → List (ℕ × List Bytes) × Pool
  unfolding drop_bindings close_conn
  close_tpcc_workers [] pool = ([], pool)
  close_tpcc_workers (worker ∷ workers) pool =
      let later = close_tpcc_workers workers (close_conn worker.conn pool) in
      ((worker.conn, drop_bindings worker.conn workloads) ∷ later.0, later.1)
