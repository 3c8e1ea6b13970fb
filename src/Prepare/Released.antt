-- ===== src/Prepare/Released.antt =====
-- No connection of a worker leaks.
use optimizer_canary_service.Base.{
  ℕ, zero, suc, ◌+◌, ◌<◌, ◌≡◌, refl, ap, ◌∙◌, not, Option, none, some, List, [], ◌∷◌, ◌++◌, arith,
  ◌==◌, length, keep, length-append, All, All-append, keep-All, ok, err, panic,
}
use optimizer_canary_service.Text.{Bytes}
use optimizer_canary_service.Prepare.Workers.{
  set_up, after_set_up, after_conn, WorkerError, create_from, close_tpcc_workers,
  create_tpcc_workers, BoundWorkload, WorkerDriver, Created, open_conn, Pool, Worker, close_conn,
  close_connections,
}

-- The handles that a pool had, all made before.
abbrev pub Made : ℕ → List ℕ → Type 0
Made n live = All (λ x. x < n) live

-- The open connections are those of the workers, on top of the ones before.
abbrev pub conns : List Worker → List ℕ
conns [] = []
conns (worker ∷ workers) = worker.conn ∷ conns workers

-- Without the connections of some workers.
abbrev pub without : List Worker → List ℕ → List ℕ
without [] live = live
without (worker ∷ workers) live = without workers (keep (λ x. not (x == worker.conn)) live)

close_connections-live :
    (workers : List Worker) (pool : Pool)
    → (close_connections workers pool).live ≡ without workers pool.live
unfolding close_connections close_conn
close_connections-live [] pool = refl
close_connections-live (worker ∷ workers) pool =
    close_connections-live workers (close_conn worker.conn pool)

-- Without one connection.
abbrev drop_conn : ℕ → List ℕ → List ℕ
drop_conn c live = keep (λ x. not (x == c)) live

keep-fresh : (c : ℕ) (live : List ℕ) → Made c live → drop_conn c live ≡ live
keep-fresh c [] h = refl
keep-fresh c (x ∷ live) h = ground (arith, h.0, keep-fresh c live h.1)

drop_conn-Made : (n c : ℕ) (live : List ℕ) → Made n live → Made n (drop_conn c live)
drop_conn-Made n c live h = keep-All (λ x. x < n) (λ x. not (x == c)) live h

Made-suc : (n : ℕ) (live : List ℕ) → Made n live → Made (suc n) live
Made-suc n [] h = tt
Made-suc n (x ∷ live) h = (omega (arith, h.0), Made-suc n live h.1)

conns-append :
    (workers : List Worker) (worker : Worker)
    → conns (workers ++ worker ∷ []) ≡ conns workers ++ worker.conn ∷ []
conns-append [] worker = refl
conns-append (w ∷ workers) worker = ap (λ t. w.conn ∷ t) (conns-append workers worker)

without-fresh :
    (c : ℕ) (workers : List Worker) (live : List ℕ)
    → Made c (conns workers)
    → without workers (c ∷ live) ≡ c ∷ without workers live
without-fresh c [] live h = refl
without-fresh c (worker ∷ workers) live h =
    let other : drop_conn worker.conn (c ∷ live) ≡ c ∷ drop_conn worker.conn live =
      ground (arith, h.0) in
    ap (without workers) other ∙ without-fresh c workers (drop_conn worker.conn live) h.1

without-append :
    (workers : List Worker) (worker : Worker) (live : List ℕ)
    → without (workers ++ worker ∷ []) live ≡ drop_conn worker.conn (without workers live)
without-append [] worker live = refl
without-append (w ∷ workers) worker live = without-append workers worker (drop_conn w.conn live)

without-Made :
    (n : ℕ) (workers : List Worker) (live : List ℕ) → Made n live → Made n (without workers live)
without-Made n [] live h = h
without-Made n (w ∷ workers) live h =
    without-Made n workers (drop_conn w.conn live) (drop_conn-Made n w.conn live h)

drop_fresh : (c : ℕ) (live : List ℕ) → drop_conn c (c ∷ live) ≡ drop_conn c live
drop_fresh c live = ground arith

-- The workers hold every open connection but those of `before`.
record Held (before : List ℕ) (workers : List Worker) (pool : Pool) : Type 0 where
  live_made : Made pool.made pool.live
  conns_made : Made pool.made (conns workers)
  others : without workers pool.live ≡ before

Held-open :
    (before : List ℕ) (worker_id : ℕ) (workers : List Worker) (pool : Pool)
    → Held before workers pool
    → Held before (workers ++ record { id = worker_id; conn = pool.made } ∷ []) (open_conn pool)
Held-open before worker_id workers pool held =
    let c = pool.made in
    let worker : Worker = record { id = worker_id; conn = c } in
    record {
      live_made = (omega arith, Made-suc c pool.live held.live_made);
      conns_made = rw (conns-append workers worker) (
          All-append (λ x. x < suc c) (conns workers) (c ∷ [])
            (Made-suc c (conns workers) held.conns_made) (omega arith, tt));
      others =
          without-append workers worker (c ∷ pool.live)
          ∙ ap (drop_conn c) (without-fresh c workers pool.live held.conns_made)
          ∙ drop_fresh c (without workers pool.live)
          ∙ keep-fresh c (without workers pool.live)
              (without-Made c workers pool.live held.live_made)
          ∙ held.others;
    }

-- A creation that fails leaves the connections open that were, and one that succeeds has as many
-- workers as were asked for, which hold the rest.
abbrev Released : {E : Type 0} → List ℕ → ℕ → Created E → Type 0
Released before total (panic, pool) = ⊥
Released before total (err e, pool) = pool.live ≡ before
Released before total (ok workers, pool) =
    (length workers ≡ total) × (without workers pool.live ≡ before)

module _ {E : Type 0} (driver : WorkerDriver E) (schema : Bytes)
    (workloads : List BoundWorkload) where
  after_set_up-Released :
      (error : Option (WorkerError E)) (before : List ℕ) (total : ℕ) (workers : List Worker)
      (pool : Pool) (rest : Created E)
      → Held before workers pool
      → Released before total rest
      → Released before total
          (after_set_up driver schema workloads error pool.made workers (open_conn pool) rest)
  unfolding close_conn
  after_set_up-Released (some e) before total workers pool rest held r =
      let c = pool.made in
      let closed : drop_conn c (c ∷ pool.live) ≡ pool.live =
        drop_fresh c pool.live ∙ keep-fresh c pool.live held.live_made in
      close_connections-live workers (close_conn c (open_conn pool))
      ∙ ap (without workers) closed
      ∙ held.others
  after_set_up-Released none before total workers pool rest held r = r

  after_conn-Released :
      (error : Option E) (before : List ℕ) (total worker_id : ℕ) (workers : List Worker)
      (pool : Pool) (rest : Created E)
      → Held before workers pool
      → Released before total rest
      → Released before total (after_conn driver schema workloads error worker_id workers pool rest)
  after_conn-Released (some e) before total worker_id workers pool rest held r =
      close_connections-live workers pool ∙ held.others
  after_conn-Released none before total worker_id workers pool rest held r = r

  create_from-Released :
      (left : ℕ) (before : List ℕ) (total worker_id : ℕ) (workers : List Worker) (pool : Pool)
      → length workers + left ≡ total
      → Held before workers pool
      → Released before total (create_from driver schema workloads left worker_id workers pool)
  unfolding create_from
  create_from-Released zero before total worker_id workers pool count held =
      (omega (arith, count), held.others)
  create_from-Released (suc left) before total worker_id workers pool count held =
      let c = pool.made in
      let worker : Worker = record { id = worker_id; conn = c } in
      let rest =
        create_from driver schema workloads left (suc worker_id) (workers ++ worker ∷ [])
          (open_conn pool) in
      after_conn-Released (driver.conn_error c) before total worker_id workers pool
        (after_set_up driver schema workloads (set_up driver schema workloads worker_id c) c workers
          (open_conn pool) rest)
        held
        (after_set_up-Released (set_up driver schema workloads worker_id c) before total workers
          pool rest held
          (create_from-Released left before total (suc worker_id) (workers ++ worker ∷ [])
            (open_conn pool) (omega (arith, count, length-append workers (worker ∷ [])))
            (Held-open before worker_id workers pool held)))

  close_tpcc_workers-live :
      (workers : List Worker) (pool : Pool)
      → (close_tpcc_workers driver schema workloads workers pool).1.live ≡ without workers pool.live
  unfolding close_tpcc_workers close_conn
  close_tpcc_workers-live [] pool = refl
  close_tpcc_workers-live (worker ∷ workers) pool =
      close_tpcc_workers-live workers (close_conn worker.conn pool)

  -- What stays open after the workers are made, and after they are closed.
  unfoldable pub NoLeak : ℕ → Pool → Created E → Type 0
  NoLeak total pool (panic, after) = ⊥
  NoLeak total pool (err e, after) = after.live ≡ pool.live
  NoLeak total pool (ok workers, after) =
      (length workers ≡ total)
      × ((close_tpcc_workers driver schema workloads workers after).1.live ≡ pool.live)

  -- Whatever the driver answers, `createTPCCWorkers` either fails with the connections open that were
  -- open before, or makes as many workers as it is asked for, whose connections are the only new ones:
  -- `closeTPCCWorkers` leaves those open that were open before. (A new connection has a new number.)
  pub create_tpcc_workers-NoLeak :
      (concurrency : ℕ) (pool : Pool)
      → Made pool.made pool.live
      → NoLeak concurrency pool (create_tpcc_workers driver schema workloads concurrency pool)
  unfolding create_tpcc_workers NoLeak
  create_tpcc_workers-NoLeak concurrency pool made =
      released_all concurrency pool (create_from driver schema workloads concurrency 1 [] pool) (
        create_from-Released concurrency pool.live concurrency 1 [] pool (omega arith)
          record { live_made = made; conns_made = tt; others = refl })
    where
      released_all :
          (total : ℕ) (pool : Pool) (made : Created E)
          → Released pool.live total made
          → NoLeak total pool made
      released_all total pool (panic, after) h = h
      released_all total pool (err e, after) h = h
      released_all total pool (ok workers, after) h =
          (h.0, close_tpcc_workers-live workers after ∙ h.1)
