-- ===== src/Diagnosis/Concurrent/System.antt =====
-- `Replace` and `Close` of diagnosis/connection.go without the assumption that a call is one step: the
-- lock protects the exchange of the fields alone, and a database is opened, pinged and closed outside
-- of it. What the driver answers and which client moves is chosen by the environment.
use optimizer_canary_service.Base.{ℕ, ◌<◌, ◌≢◌, Option, none, some, []}
use optimizer_canary_service.Base.Family.{update}
use optimizer_canary_service.Text.{Bytes}
use optimizer_canary_service.Text.Trim.{trim_space}
use optimizer_canary_service.Diagnosis.Connection.{
  ConnectionManager, new_connection_manager, open_handle, close_handle, close_old,
}

-- Where a client stands: outside of any call; in `Replace`, with its argument and the database that it
-- opened, before the ping, behind a ping that succeeded, and behind one that failed; and behind the
-- lock of `Replace` or `Close`, with the database that was active before.
pub data Pc : Type 0 where
  idle : Pc
  opened : Bytes → ℕ → Pc
  verified : Bytes → ℕ → Pc
  refused : ℕ → Pc
  exchanged : Option ℕ → Pc

-- One step of a client.
pub data Move (m : ConnectionManager) : Pc → ConnectionManager → Pc → Type 0 where
  give_up : Move m Pc.idle m Pc.idle
  open_db :
      (dsn : Bytes) → trim_space dsn ≢ [] → Move m Pc.idle (open_handle m) (Pc.opened dsn m.made)
  ping : {dsn : Bytes} {h : ℕ} → Move m (Pc.opened dsn h) m (Pc.verified dsn h)
  ping_failed : {dsn : Bytes} {h : ℕ} → Move m (Pc.opened dsn h) m (Pc.refused h)
  close_refused : {h : ℕ} → Move m (Pc.refused h) (close_handle h m) Pc.idle
  install :
      {dsn : Bytes} {h : ℕ}
      → Move m
          (Pc.verified dsn h)
          (record m { db = some h; dsn = trim_space dsn })
          (Pc.exchanged m.db)
  clear : Move m Pc.idle (record m { db = none; dsn = [] }) (Pc.exchanged m.db)
  close_replaced : {old : Option ℕ} → Move m (Pc.exchanged old) (close_old old m) Pc.idle

pub record System : Type 0 where
  pub manager : ConnectionManager
  pub pc : ℕ → Pc

abbrev pub started : System
started = record { manager = new_connection_manager; pc = λ i. Pc.idle }

-- A step of one of `n` clients.
pub data Step (n : ℕ) (s : System) : System → Type 0 where
  work :
      (i : ℕ) {m : ConnectionManager} {p : Pc}
      → i < n
      → Move s.manager (s.pc i) m p
      → Step n s (record { manager = m; pc = update s.pc i p })

pub data Reach (n : ℕ) : System → Type 0 where
  start : Reach n started
  later : {s t : System} → Reach n s → Step n s t → Reach n t
