-- ===== src/Prepare/Startup.antt =====
-- `Run` and `preparer.prepare` of prepare/prepare.go: the connection is opened and used by the two
-- stages in their order. `S` is the state of the process and the database, `E` an error of the driver,
-- `P` and `Q` are the errors of the stages.
use optimizer_canary_service.Base.{Option, none, some, Outcome, ok, err, panic, ℤ}
use optimizer_canary_service.Text.{Bytes}
use optimizer_canary_service.Text.Trim.{trim_space}
use optimizer_canary_service.Prepare.Settings.{Config, ConfigError, validate_config}

-- `sql.Open`, `PingContext`, `Conn` and the two `Close`.
pub record Server (S E : Type 0) : Type 0 where
  pub open_db : Bytes → S → Option E × S
  pub ping : S → Option E × S
  pub acquire_conn : S → Option E × S
  pub close_conn : S → S
  pub close_db : S → S

-- `prepareTPCCSchema` and `prepareTPCCStatements`, given the schema and the concurrency.
pub record Stages (S P Q : Type 0) : Type 0 where
  pub schema_stage : Bytes → S → Outcome P (Unit {0}) × S
  pub statements_stage : Bytes → ℤ → S → Outcome Q (Unit {0}) × S

pub data RunError (E P Q : Type 0) : Type 0 where
  invalid_config : ConfigError → RunError E P Q
  not_opened : E → RunError E P Q
  not_reached : E → RunError E P Q
  not_acquired : E → RunError E P Q
  schema_failed : P → RunError E P Q
  statements_failed : Q → RunError E P Q

module _ {S E P Q : Type 0} (server : Server S E) (stages : Stages S P Q) where
  open server use {open_db, ping, acquire_conn, close_conn, close_db}
  open stages use {schema_stage, statements_stage}

  abbrev pub Ran : Type 0
  Ran = Outcome (RunError E P Q) (Unit {0}) × S

  abbrev pub after_statements : Outcome Q (Unit {0}) × S → Ran
  after_statements (ok u, s) = (ok tt, s)
  after_statements (err e, s) = (err (statements_failed e), s)
  after_statements (panic, s) = (panic, s)

  abbrev pub after_schema : Bytes → ℤ → Outcome P (Unit {0}) × S → Ran
  after_schema schema concurrency (ok u, s) =
      after_statements (statements_stage schema concurrency s)
  after_schema schema concurrency (err e, s) = (err (schema_failed e), s)
  after_schema schema concurrency (panic, s) = (panic, s)

  -- The deferred calls run after a panic too.
  abbrev pub closing : (S → S) → Ran → Ran
  closing close (r, s) = (r, close s)

  abbrev pub after_acquire : Config → Option E × S → Ran
  after_acquire config (some e, s) = (err (not_acquired e), s)
  after_acquire config (none, s) =
      let schema = trim_space config.schema in
      closing close_conn (after_schema schema config.concurrency (schema_stage schema s))

  abbrev pub after_reached : Config → Option E × S → Ran
  after_reached config (some e, s) = (err (not_reached e), s)
  after_reached config (none, s) = after_acquire config (acquire_conn s)

  abbrev pub after_opened : Config → Option E × S → Ran
  after_opened config (some e, s) = (err (not_opened e), s)
  after_opened config (none, s) = closing close_db (after_reached config (ping s))

  abbrev pub after_checked : Config → Option ConfigError → S → Ran
  after_checked config (some e) s = (err (invalid_config e), s)
  after_checked config none s = after_opened config (open_db (trim_space config.dsn) s)

  unfoldable pub run : Config → S → Ran
  unfolding validate_config trim_space
  run config s = after_checked config (validate_config config) s
