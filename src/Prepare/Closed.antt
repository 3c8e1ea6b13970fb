-- ===== src/Prepare/Closed.antt =====
-- `Run` closes what it opens.
use optimizer_canary_service.Base.{ℕ, ◌+◌, ◌-◌, ◌≡◌, none, some, ok, err, ℤ}
use optimizer_canary_service.Text.{Bytes}
use optimizer_canary_service.Prepare.Settings.{Config, ConfigError, validate_config}
use optimizer_canary_service.Prepare.Startup.{Server, Stages, invalid_config, Ran}

-- How many databases and connections are open: opening or acquiring adds one unless it fails, closing
-- takes one away, and the stages leave as many as they find.
pub record Ledger {S E P Q : Type 0} (server : Server S E) (stages : Stages S P Q) : Type 0 where
  pub dbs : S → ℕ
  pub conns : S → ℕ
  pub opened :
      (dsn : Bytes) (s : S)
      → (conns (server.open_db dsn s).1 ≡ conns s)
        × (dbs (server.open_db dsn s).1
            ≡ dbs s + elim (server.open_db dsn s).0 [ none ↦ 1 | some e ↦ 0 ])
  pub pinged : (s : S) → (conns (server.ping s).1 ≡ conns s) × (dbs (server.ping s).1 ≡ dbs s)
  pub acquired :
      (s : S)
      → (dbs (server.acquire_conn s).1 ≡ dbs s)
        × (conns (server.acquire_conn s).1
            ≡ conns s + elim (server.acquire_conn s).0 [ none ↦ 1 | some e ↦ 0 ])
  pub conn_closed :
      (s : S) → (dbs (server.close_conn s) ≡ dbs s) × (conns (server.close_conn s) ≡ conns s - 1)
  pub db_closed :
      (s : S) → (conns (server.close_db s) ≡ conns s) × (dbs (server.close_db s) ≡ dbs s - 1)
  pub schema_kept :
      (schema : Bytes) (s : S)
      → (dbs (stages.schema_stage schema s).1 ≡ dbs s)
        × (conns (stages.schema_stage schema s).1 ≡ conns s)
  pub statements_kept :
      (schema : Bytes) (n : ℤ) (s : S)
      → (dbs (stages.statements_stage schema n s).1 ≡ dbs s)
        × (conns (stages.statements_stage schema n s).1 ≡ conns s)

module _ {S E P Q : Type 0} (server : Server S E) (stages : Stages S P Q)
    (ledger : Ledger server stages) where
  open ledger use {
    dbs, conns, opened, pinged, acquired, conn_closed, db_closed, schema_kept, statements_kept,
  }

  abbrev Holds : ℕ → ℕ → S → Type 0
  Holds d c s = (dbs s ≡ d) × (conns s ≡ c)

  -- `Run` leaves as many databases and connections open as it finds, on every path; it succeeds with a
  -- valid configuration alone, and with one that is not it does nothing.
  pub record IsClosed (config : Config) (s : S) (r : Ran server stages) : Type 0 where
    pub released : Holds (dbs s) (conns s) r.1
    pub checked : r.0 ≡ ok tt → validate_config config ≡ none
    pub untouched :
        (e : ConfigError) → validate_config config ≡ some e → r ≡ (err (invalid_config e), s)
