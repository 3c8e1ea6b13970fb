-- ===== src/Prepare/Tiflash.antt =====
-- prepare/tpcc_tiflash.go: the replicas of the tables, and the wait for them. `S` is the state of
-- the connection and the clock, `E` an error of the driver. The progress of a replica is not read.
use optimizer_canary_service.Base.{
  ℕ, zero, suc, ◌⊎◌, inl, inr, Bool, false, Option, none, some, List, [], ◌∷◌, ◌++◌, ◌==◌,
  if◌then◌else◌, Outcome, ok, err, panic, ℤ, pos, negsuc,
}
use optimizer_canary_service.Text.{Bytes, codes}
use optimizer_canary_service.Prepare.Insert.{quote_identifier}
use optimizer_canary_service.Prepare.Settings.{
  TiFlashReplicaStatus, pending_tiflash_tables, tpcc_tables,
}

-- How the `select` on the timer and the context ends.
pub data Woken : Type 0 where
  ticked deadline_exceeded canceled : Woken

-- A row of `information_schema.tiflash_replica`.
pub record ReplicaRow : Type 0 where
  pub table_name : Bytes
  pub available : ℤ

-- The rows of a query, each scanned or with the error of its scan, and the error after the last.
pub record ReplicaRows (E : Type 0) : Type 0 where
  pub rows : List (E ⊎ ReplicaRow)
  pub rows_err : Option E

pub record TiFlashConn (S E : Type 0) : Type 0 where
  pub exec : Bytes → S → Option E × S
  pub query : Bytes → S → Outcome E (ReplicaRows E) × S
  pub sleep : S → Woken × S
  pub is_deadline : E → Bool

pub data StatusError (E : Type 0) : Type 0 where
  query_status scan_status iterate_status : E → StatusError E

pub data TiFlashError (E : Type 0) : Type 0 where
  set_replica : Bytes → E → TiFlashError E
  timed_out : List Bytes → TiFlashError E
  load_failed : StatusError E → TiFlashError E
  context_canceled : TiFlashError E

abbrev pub Statuses : Type 0
Statuses = List (Bytes × TiFlashReplicaStatus)

abbrev pub is_one : ℤ → Bool
is_one (pos n) = n == 1
is_one (negsuc n) = false

abbrev pub cause : {E : Type 0} → StatusError E → E
cause (query_status e) = e
cause (scan_status e) = e
cause (iterate_status e) = e

module _ {E : Type 0} where
  -- The loop over the rows: a later row of a table replaces an earlier one, since the newest entry
  -- is found first.
  unfoldable pub read_statuses :
      List (E ⊎ ReplicaRow) → Option E → Statuses → Outcome (StatusError E) Statuses
  read_statuses [] none statuses = ok statuses
  read_statuses [] (some e) statuses = err (iterate_status e)
  read_statuses (inl e ∷ rows) rows_err statuses = err (scan_status e)
  read_statuses (inr row ∷ rows) rows_err statuses =
      read_statuses rows rows_err
        ((row.table_name, record { available = is_one row.available }) ∷ statuses)

  abbrev pub read_rows : Outcome E (ReplicaRows E) → Outcome (StatusError E) Statuses
  unfolding read_statuses
  read_rows (ok answer) = read_statuses answer.rows answer.rows_err []
  read_rows (err e) = err (query_status e)
  read_rows panic = panic

unfoldable pub alter_text : Bytes → Bytes
unfolding quote_identifier
alter_text table = codes "ALTER TABLE " ++ quote_identifier table ++ codes " SET TIFLASH REPLICA 1"

module _ {S E : Type 0} (c : TiFlashConn S E) (schema : Bytes) where
  open c use {exec, query, sleep, is_deadline}

  unfoldable pub load_tiflash_replica_statuses : S → Outcome (StatusError E) Statuses × S
  unfolding read_rows
  load_tiflash_replica_statuses s = let (answer, s') = query schema s in (read_rows answer, s')

  -- What a failed load returns, by the tables that were pending before.
  abbrev pub load_error : List Bytes → StatusError E → TiFlashError E
  load_error [] e = load_failed e
  load_error (table ∷ pending) e =
      if is_deadline (cause e) then timed_out (table ∷ pending) else load_failed e

  abbrev pub Waited : Type 0
  Waited = Outcome (TiFlashError E) (Unit {0}) × S

  abbrev pub after_sleep : List Bytes → Woken → S → Option Waited → Option Waited
  after_sleep pending ticked s rest = rest
  after_sleep pending deadline_exceeded s rest = some (err (timed_out pending), s)
  after_sleep pending canceled s rest = some (err context_canceled, s)

  -- The timer, where tables are pending; `again` is the next round of the loop.
  unfoldable pub while_pending : (List Bytes → S → Option Waited) → List Bytes → S → Option Waited
  while_pending again [] s = some (ok tt, s)
  while_pending again (table ∷ pending) s =
      let (woken, s') = sleep s in
      let rest = again (table ∷ pending) s' in after_sleep (table ∷ pending) woken s' rest

  unfoldable pub after_load :
      (List Bytes → S → Option Waited)
      → List Bytes
      → Outcome (StatusError E) Statuses
      → S
      → Option Waited
  unfolding while_pending
  after_load again pending panic s = some (panic, s)
  after_load again pending (err e) s = some (err (load_error pending e), s)
  after_load again pending (ok statuses) s = while_pending again (pending_tiflash_tables statuses) s

  -- The loop, on fuel; `none` is that the fuel ran out.
  unfoldable pub wait_from : ℕ → List Bytes → S → Option Waited
  unfolding load_tiflash_replica_statuses after_load
  wait_from zero pending s = none
  wait_from (suc fuel) pending s =
      let (loaded, s') = load_tiflash_replica_statuses s in
      after_load (wait_from fuel) pending loaded s'

  abbrev pub after_alter :
      Bytes → Option E → S → Option (TiFlashError E) × S → Option (TiFlashError E) × S
  after_alter table (some e) s rest = (some (set_replica table e), s)
  after_alter table none s rest = rest

  -- The statements for the tables, up to the first that fails.
  unfoldable pub set_replicas : List Bytes → S → Option (TiFlashError E) × S
  unfolding alter_text
  set_replicas [] s = (none, s)
  set_replicas (table ∷ tables) s =
      let (failed, s') = exec (alter_text table) s in
      let rest = set_replicas tables s' in after_alter table failed s' rest

  abbrev pub after_set : ℕ → Option (TiFlashError E) → S → Option Waited
  unfolding wait_from
  after_set fuel (some e) s = some (err e, s)
  after_set fuel none s = wait_from fuel [] s

  unfoldable pub prepare_tpcc_tiflash_replicas : ℕ → S → Option Waited
  unfolding set_replicas wait_from
  prepare_tpcc_tiflash_replicas fuel s =
      let (failed, s') = set_replicas tpcc_tables s in after_set fuel failed s'
