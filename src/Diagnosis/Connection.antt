-- ===== src/Diagnosis/Connection.antt =====
-- `ConnectionManager` of diagnosis/connection.go and `ConnectionHandler.ServeHTTP` of
-- diagnosis/connection_handler.go. A `*sql.DB` is a handle, a number; the world notes how many were
-- made and which of them are open. Here a call is one step.
use optimizer_canary_service.Base.{
  ℕ, suc, Bool, true, false, not, Option, none, some, List, [], ◌∷◌, ◌==◌, if◌then◌else◌, keep,
  Outcome, ok, err, ◌>>=◌,
}
use optimizer_canary_service.Text.{Bytes}
use optimizer_canary_service.Text.Trim.{trim_space}

-- What `OpenDB` and `PingContext` answer in a call: the error, if there is one.
pub record Driver (E : Type 0) : Type 0 where
  pub open_error : Bytes → Option E
  pub ping_error : Bytes → Option E

pub data ConnectionError (E : Type 0) : Type 0 where
  empty_dsn : ConnectionError E
  no_tidb_connection : ConnectionError E
  from_driver : E → ConnectionError E

pub record ConnectionStatus (E : Type 0) : Type 0 where
  pub dsn : Bytes
  pub connected : Bool
  pub error : Option (ConnectionError E)

-- The fields `db` and `dsn`, and the handles of the process.
pub record ConnectionManager : Type 0 where
  pub db : Option ℕ
  pub dsn : Bytes
  pub made : ℕ
  pub live : List ℕ

abbrev pub new_connection_manager : ConnectionManager
new_connection_manager = record { db = none; dsn = []; made = 0; live = [] }

-- `sql.Open` makes a handle.
unfoldable pub open_handle : ConnectionManager → ConnectionManager
open_handle m = record m { made = suc m.made; live = m.made ∷ m.live }

-- `db.Close()`.
unfoldable pub close_handle : ℕ → ConnectionManager → ConnectionManager
close_handle h m = record m { live = keep (λ x. not (x == h)) m.live }

unfoldable pub close_old : Option ℕ → ConnectionManager → ConnectionManager
unfolding close_handle
close_old none m = m
close_old (some h) m = close_handle h m

module _ {E : Type 0} (driver : Driver E) where
  unfoldable pub after_ping :
      Option E → Bytes → ℕ → ConnectionManager → ConnectionStatus E × ConnectionManager
  unfolding close_handle close_old
  after_ping (some e) dsn h m =
      (record { dsn = dsn; connected = false; error = some (from_driver e) }, close_handle h m)
  after_ping none dsn h m = (
    record { dsn = dsn; connected = true; error = none },
    close_old m.db (record m { db = some h; dsn = dsn }),
  )

  unfoldable pub after_open :
      Option E → Bytes → ConnectionManager → ConnectionStatus E × ConnectionManager
  unfolding after_ping open_handle
  after_open (some e) dsn m =
      (record { dsn = dsn; connected = false; error = some (from_driver e) }, m)
  after_open none dsn m = after_ping (driver.ping_error dsn) dsn m.made (open_handle m)

  unfoldable pub replace_trimmed :
      Bytes → ConnectionManager → ConnectionStatus E × ConnectionManager
  unfolding after_open
  replace_trimmed [] m = (record { dsn = []; connected = false; error = some empty_dsn }, m)
  replace_trimmed (c ∷ dsn) m = after_open (driver.open_error (c ∷ dsn)) (c ∷ dsn) m

  unfoldable pub replace : Bytes → ConnectionManager → ConnectionStatus E × ConnectionManager
  unfolding replace_trimmed trim_space
  replace dsn m = replace_trimmed (trim_space dsn) m

unfoldable pub close : ConnectionManager → ConnectionManager
unfolding close_old
close m = close_old m.db (record m { db = none; dsn = [] })

unfoldable pub current : {E : Type 0} → ConnectionManager → Outcome (ConnectionError E) ℕ
current m = elim m.db [ none ↦ err no_tidb_connection | some h ↦ ok h ]

-- `Sample`, `Explain`, `Compare` and `RecommendIndex` of the manager: the call on the current
-- database, which `use` makes.
unfoldable pub forward :
    {E A : Type 0}
    → (ℕ → Outcome (ConnectionError E) A)
    → ConnectionManager
    → Outcome (ConnectionError E) A
unfolding current
forward run m = current m >>= run

-- The body of a request, decoded: none where it is no JSON object with a `dsn`.
abbrev pub Request : Type 0
Request = Option Bytes

abbrev pub is_blank : Bytes → Bool
is_blank [] = true
is_blank (c ∷ s) = false

unfoldable pub connection_code : Bool → ℕ
connection_code connected = if connected then 200 else 422

module _ {E : Type 0} (driver : Driver E) where
  -- The status code of `ConnectionHandler.ServeHTTP`, and the manager.
  unfoldable pub serve_connection : Request → ConnectionManager → ℕ × ConnectionManager
  unfolding replace connection_code
  serve_connection none m = (400, m)
  serve_connection (some dsn) m =
      let (status, m') = replace driver dsn m in
      if is_blank (trim_space dsn) then (400, m) else (connection_code status.connected, m')

-- What a process does with its manager, one call after another.
pub data Call (E : Type 0) : Type 0 where
  replacing : Driver E → Bytes → Call E
  closing : Call E

unfoldable pub run_call : {E : Type 0} → Call E → ConnectionManager → ConnectionManager
unfolding replace close
run_call (replacing driver dsn) m = (replace driver dsn m).1
run_call closing m = close m

unfoldable pub run_calls : {E : Type 0} → List (Call E) → ConnectionManager → ConnectionManager
unfolding run_call
run_calls [] m = m
run_calls (call ∷ calls) m = run_calls calls (run_call call m)
