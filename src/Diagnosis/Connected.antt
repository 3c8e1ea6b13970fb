-- ===== src/Diagnosis/Connected.antt =====
-- The manager keeps exactly its active connection open.
use optimizer_canary_service.Base.{
  ℕ, ◌<◌, ◌≡◌, refl, ◌↔◌, true, false, Option, none, some, List, [], ◌∷◌, arith,
}
use optimizer_canary_service.Text.{Bytes}
use optimizer_canary_service.Text.Trim.{trim_space}
use optimizer_canary_service.Diagnosis.Connection.{
  Driver, ConnectionManager, ConnectionStatus, Call, replacing, closing, new_connection_manager,
  open_handle, close_handle, close_old, after_ping, after_open, replace_trimmed, replace, close,
  run_call, run_calls,
}

abbrev pub active : Option ℕ → List ℕ
active none = []
active (some h) = h ∷ []

abbrev Below : ℕ → Option ℕ → Type 0
Below n none = Unit
Below n (some h) = h < n

-- The open handles are that of the active connection alone, and it is one that was made.
abbrev pub Owned : ConnectionManager → Type 0
Owned m = (m.live ≡ active m.db) × Below m.made m.db

abbrev manager : Option ℕ → Bytes → ℕ → List ℕ → ConnectionManager
manager db dsn made live = record { db = db; dsn = dsn; made = made; live = live }

module _ {E : Type 0} (driver : Driver E) where
  after_ping-Owned :
      (ping : Option E) (dsn : Bytes) (db : Option ℕ) (d : Bytes) (n : ℕ) (live : List ℕ)
      → Owned (manager db d n live)
      → Owned (after_ping driver ping dsn n (open_handle (manager db d n live))).1
  unfolding after_ping open_handle close_handle close_old
  after_ping-Owned (some e) dsn none d n live h = (rw h.0 ground arith, tt)
  after_ping-Owned (some e) dsn (some x) d n live h =
      (rw h.0 ground (arith, h.1), omega (arith, h.1))
  after_ping-Owned none dsn none d n live h = (rw h.0 ground arith, omega arith)
  after_ping-Owned none dsn (some x) d n live h = (rw h.0 ground (arith, h.1), omega arith)

  after_open-Owned :
      (opened : Option E) (dsn : Bytes) (m : ConnectionManager)
      → Owned m
      → Owned (after_open driver opened dsn m).1
  unfolding after_open
  after_open-Owned (some e) dsn m h = h
  after_open-Owned none dsn m h =
      after_ping-Owned (driver.ping_error dsn) dsn m.db m.dsn m.made m.live h

  replace_trimmed-Owned :
      (dsn : Bytes) (m : ConnectionManager) → Owned m → Owned (replace_trimmed driver dsn m).1
  unfolding replace_trimmed
  replace_trimmed-Owned [] m h = h
  replace_trimmed-Owned (c ∷ dsn) m h = after_open-Owned (driver.open_error (c ∷ dsn)) (c ∷ dsn) m h

  replace-Owned : (dsn : Bytes) (m : ConnectionManager) → Owned m → Owned (replace driver dsn m).1
  unfolding replace
  replace-Owned dsn m h = replace_trimmed-Owned (trim_space dsn) m h

close-Owned :
    (db : Option ℕ) (d : Bytes) (n : ℕ) (live : List ℕ)
    → Owned (manager db d n live)
    → Owned (close (manager db d n live))
unfolding close close_old close_handle
close-Owned none d n live h = (h.0, tt)
close-Owned (some x) d n live h = (rw h.0 ground arith, tt)

run_calls-from :
    {E : Type 0} (calls : List (Call E)) (m : ConnectionManager)
    → Owned m
    → Owned (run_calls calls m)
unfolding run_calls run_call
run_calls-from [] m h = h
run_calls-from (replacing driver dsn ∷ calls) m h =
    run_calls-from calls (replace driver dsn m).1 (replace-Owned driver dsn m h)
run_calls-from (closing ∷ calls) m h =
    run_calls-from calls (close m) (close-Owned m.db m.dsn m.made m.live h)

-- After any calls of Replace and Close, whatever the driver answers in each, the open handles are
-- exactly that of the active connection: no connection leaks, and the active one is never closed.
pub run_calls-Owned :
    {E : Type 0} (calls : List (Call E)) → Owned (run_calls calls new_connection_manager)
run_calls-Owned calls = run_calls-from calls new_connection_manager (refl, tt)

module _ {E : Type 0} (driver : Driver E) where
  -- What a status says of the managers before and after.
  abbrev pub Reported : Bytes → ConnectionManager → ConnectionStatus E × ConnectionManager → Type 0
  Reported dsn m r =
      (r.0.dsn ≡ dsn)
      × ((r.0.connected ≡ true) → (r.1.db ≡ some m.made) × (r.1.dsn ≡ dsn))
      × ((r.0.connected ≡ false) → (r.1.db ≡ m.db) × (r.1.dsn ≡ m.dsn))
      × ((r.0.connected ≡ true) ↔ (r.0.error ≡ none))

  after_ping-Reported :
      (ping : Option E) (dsn : Bytes) (db : Option ℕ) (d : Bytes) (n : ℕ) (live : List ℕ)
      → Reported dsn
          (manager db d n live)
          (after_ping driver ping dsn n (open_handle (manager db d n live)))
  unfolding after_ping open_handle close_handle close_old
  after_ping-Reported (some e) dsn db d n live = (refl, λ c. cc, λ c. (refl, refl), ground arith)
  after_ping-Reported none dsn none d n live = (refl, λ c. (refl, refl), λ c. cc, ground arith)
  after_ping-Reported none dsn (some x) d n live = (refl, λ c. (refl, refl), λ c. cc, ground arith)

  after_open-Reported :
      (opened : Option E) (dsn : Bytes) (m : ConnectionManager)
      → Reported dsn m (after_open driver opened dsn m)
  unfolding after_open
  after_open-Reported (some e) dsn m = (refl, λ c. cc, λ c. (refl, refl), ground arith)
  after_open-Reported none dsn m =
      after_ping-Reported (driver.ping_error dsn) dsn m.db m.dsn m.made m.live

  replace_trimmed-Reported :
      (dsn : Bytes) (m : ConnectionManager) → Reported dsn m (replace_trimmed driver dsn m)
  unfolding replace_trimmed
  replace_trimmed-Reported [] m = (refl, λ c. cc, λ c. (refl, refl), ground arith)
  replace_trimmed-Reported (c ∷ dsn) m =
      after_open-Reported (driver.open_error (c ∷ dsn)) (c ∷ dsn) m

  -- `Replace` reports the trimmed DSN. If it reports a connection, the handle that it made is the
  -- active one, with that DSN; otherwise the active connection and its DSN are as before. It reports
  -- a connection exactly when it reports no error.
  pub replace-Reported :
      (dsn : Bytes) (m : ConnectionManager) → Reported (trim_space dsn) m (replace driver dsn m)
  unfolding replace
  replace-Reported dsn m = replace_trimmed-Reported (trim_space dsn) m
