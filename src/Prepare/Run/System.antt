-- ===== src/Prepare/Run/System.antt =====
-- The workers of `prepareTPCCStatements`, interleaved: each shared access is a step of its own. The
-- draws of `rand.IntN`, the answers of the queries and the end of the run's context are chosen by
-- the environment. A worker is named by its place in the list, its id is one more.
use optimizer_canary_service.Base.{
  ℕ, suc, ◌+◌, ◌%◌, ◌^◌, ◌<◌, ◌≡◌, Bool, true, false, Option, none, some, List, [], ◌∷◌, ◌++◌,
}
use optimizer_canary_service.Prepare.Picker.{WeightedTpccPicker, picker_pick}
use optimizer_canary_service.Base.Family.{update}

abbrev pub u64 : ℕ → ℕ
u64 n = n % 2 ^ 64

-- Where a worker stands, with its `executions`: in `runTPCCWorker` before the test of the context,
-- with a workload picked, and between the two counts; then in the function that runs it, with what
-- `runTPCCWorker` returned, with the result sent, and after its last call.
pub data Pc (E : Type 0) : Type 0 where
  looping : ℕ → Pc E
  picked : ℕ → ℕ → Pc E
  executed : ℕ → ℕ → Pc E
  returned : ℕ → Option (ℕ × E) → Pc E
  sent : ℕ → Option (ℕ × E) → Pc E
  finished : ℕ → Pc E

-- `tpccWorkerResult`; an error notes the workload whose query failed.
pub record WorkerResult (E : Type 0) : Type 0 where
  pub id : ℕ
  pub executions : ℕ
  pub failure : Option (ℕ × E)

-- What the workers share: `executionCounts`, the run's context and the channel of the results.
pub record Shared (E : Type 0) : Type 0 where
  pub execution_counts : ℕ → ℕ
  pub cancelled : Bool
  pub results : List (WorkerResult E)

pub record System (E : Type 0) : Type 0 where
  pub shared : Shared E
  pub pc : ℕ → Pc E

abbrev pub started : {E : Type 0} → System E
started = record {
  shared = record { execution_counts = λ w. 0; cancelled = false; results = [] };
  pc = λ i. looping 0;
}

module _ {E : Type 0} (picker : WeightedTpccPicker) where
  -- One step of worker `i`.
  pub data Move (i : ℕ) (m : Shared E) : Pc E → Shared E → Pc E → Type 0 where
    stop : {n : ℕ} → m.cancelled ≡ true → Move i m (looping n) m (returned n none)
    draw :
        {n : ℕ} (x : ℕ)
        → m.cancelled ≡ false
        → x < picker.total_weight
        → Move i m (looping n) m (picked n (picker_pick picker x))
    drain : {n w : ℕ} → Move i m (picked n w) m (executed (u64 (n + 1)) w)
    interrupted : {n w : ℕ} → m.cancelled ≡ true → Move i m (picked n w) m (returned n none)
    fail :
        {n w : ℕ} (e : E) → m.cancelled ≡ false → Move i m (picked n w) m (returned n (some (w, e)))
    count :
        {n w : ℕ}
        → Move i m
            (executed n w)
            (record m {
              execution_counts = update m.execution_counts w (u64 (m.execution_counts w + 1));
            })
            (looping n)
    send :
        {n : ℕ} {failure : Option (ℕ × E)}
        → Move i m
            (returned n failure)
            (record m {
              results = m.results ++ record { id = suc i; executions = n; failure = failure } ∷ [];
            })
            (sent n failure)
    cancel :
        {n : ℕ} (failure : ℕ × E)
        → Move i m (sent n (some failure)) (record m { cancelled = true }) (finished n)
    leave : {n : ℕ} → Move i m (sent n none) m (finished n)

  -- A step of one of `n` workers, or the end of the run's time or of the caller's context.
  pub data Step (n : ℕ) (s : System E) : System E → Type 0 where
    work :
        (i : ℕ) {m : Shared E} {p : Pc E}
        → i < n
        → Move i s.shared (s.pc i) m p
        → Step n s (record { shared = m; pc = update s.pc i p })
    expire : Step n s (record s { shared = record s.shared { cancelled = true } })

  pub data Reach (n : ℕ) : System E → Type 0 where
    start : Reach n started
    later : {s t : System E} → Reach n s → Step n s t → Reach n t

-- `totalExecutions` and the errors that `errors.Join` joins, over the results as they were sent.
unfoldable pub total_executions : {E : Type 0} → ℕ → List (WorkerResult E) → ℕ
total_executions total [] = total
total_executions total (result ∷ results) =
    total_executions (u64 (total + result.executions)) results

unfoldable pub worker_failures : {E : Type 0} → List (WorkerResult E) → List (ℕ × ℕ × E)
worker_failures [] = []
worker_failures (result ∷ results) = elim result.failure [
  | none ↦ worker_failures results
  | some (w, e) ↦ (result.id, w, e) ∷ worker_failures results
]
