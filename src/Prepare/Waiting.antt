-- ===== src/Prepare/Waiting.antt =====
-- The wait for the replicas ends, and what its results mean.
use optimizer_canary_service.Base.{
  ℕ, ◌≤◌, ◌<◌, ◌≡◌, ◌≢◌, ◌⊎◌, false, Option, some, List, [], All, Outcome, ok, err, panic,
}
use optimizer_canary_service.Text.{Bytes}
use optimizer_canary_service.Prepare.Settings.{
  pending_tiflash_tables, tpcc_tables, find_status, is_pending,
}
use optimizer_canary_service.Prepare.Tiflash.{
  ticked, canceled, TiFlashConn, StatusError, TiFlashError, timed_out, load_failed,
  context_canceled, Statuses, load_tiflash_replica_statuses, Waited,
}

module _ {S E : Type 0} (c : TiFlashConn S E) (schema : Bytes) where
  -- What a deadline gives: `left` bounds the ticks that are left, each tick takes one, and a query
  -- adds none.
  pub record Deadline (left : S → ℕ) : Type 0 where
    pub query_left : (s : S) → left (load_tiflash_replica_statuses c schema s).1 ≤ left s
    pub sleep_left : (s : S) → (c.sleep s).0 ≡ ticked → left (c.sleep s).1 < left s

  -- What a result says: that every table has an available replica in the statuses that were loaded
  -- last; which tables, one at least, were pending in those loaded last before the time was over;
  -- or the error of a load.
  pub data Explained : Outcome (TiFlashError E) (Unit {0}) → Type 0 where
    all_available :
        (s : S) (statuses : Statuses)
        → (load_tiflash_replica_statuses c schema s).0 ≡ ok statuses
        → All (λ table. is_pending (find_status statuses table) ≡ false) tpcc_tables
        → Explained (ok tt)
    still_pending :
        (s : S) (statuses : Statuses)
        → (load_tiflash_replica_statuses c schema s).0 ≡ ok statuses
        → pending_tiflash_tables statuses ≢ []
        → Explained (err (timed_out (pending_tiflash_tables statuses)))
    not_loaded :
        (s : S) (e : StatusError E)
        → (load_tiflash_replica_statuses c schema s).0 ≡ err e
        → Explained (err (load_failed e))
    stopped : (s : S) → (c.sleep s).0 ≡ canceled → Explained (err context_canceled)
    crashed : (s : S) → (load_tiflash_replica_statuses c schema s).0 ≡ panic → Explained panic

  -- The tables that a round takes over from the one before.
  abbrev Pending : List Bytes → Type 0
  Pending pending =
      (pending ≡ [])
      ⊎ ((s : S) × (statuses : Statuses) × ((load_tiflash_replica_statuses c schema s).0
            ≡ ok statuses)
          × (pending_tiflash_tables statuses ≡ pending))

  abbrev Ended : Option (Waited c schema) → Type 0
  Ended result = (r : Waited c schema) × (result ≡ some r) × Explained r.0
