-- ===== src/Diagnosis/Concurrent/Linear.antt =====
-- Concurrent calls show what the calls of `run_calls` show, one after another.
use optimizer_canary_service.Base.{ℕ, ◌≡◌, ◌≢◌, Bool, true, false, Option, none, some, List, []}
use optimizer_canary_service.Text.{Bytes}
use optimizer_canary_service.Text.Trim.{trim_space}
use optimizer_canary_service.Diagnosis.Connection.{
  ConnectionManager, new_connection_manager, Driver, Call, run_calls,
}
use optimizer_canary_service.Diagnosis.Concurrent.System.{Pc, System}

-- What a manager shows: its DSN, and whether it has a connection.
abbrev pub is_connected : Option ℕ → Bool
is_connected none = false
is_connected (some h) = true

abbrev pub view : ConnectionManager → Bytes × Bool
view m = (m.dsn, is_connected m.db)

abbrev answering : Driver (Unit {0})
answering = record { open_error = λ dsn. none; ping_error = λ dsn. none }

-- The argument of a `Replace` that has opened a database is not blank.
abbrev Named : Pc → Type 0
Named Pc.idle = Unit
Named (Pc.opened dsn h) = trim_space dsn ≢ []
Named (Pc.verified dsn h) = trim_space dsn ≢ []
Named (Pc.refused h) = Unit
Named (Pc.exchanged old) = Unit

-- Some sequence of calls, one after another, shows the same.
abbrev pub Sequential : ConnectionManager → Type 0
Sequential m =
    (calls : List (Call (Unit {0}))) × (view m ≡ view (run_calls calls new_connection_manager))
