-- ===== src/Diagnosis/Concurrent/Tests.antt =====
-- A client replaces its connection while another closes the manager.
use optimizer_canary_service.Base.{ℕ, ◌≤◌, ◌<◌, ◌≡◌, refl, some, [], ◌∷◌, arith, ℕ_discrete}
use optimizer_canary_service.Base.Family.{update}
use optimizer_canary_service.Text.{codes}
use optimizer_canary_service.Diagnosis.Connection.{ConnectionManager, open_handle}
use optimizer_canary_service.Text.Trim.{trim_space}
use optimizer_canary_service.Diagnosis.Concurrent.System.{Pc, Move, System, Step, Reach}
use optimizer_canary_service.Diagnosis.Concurrent.Owned.{Owns, of_option, count, Reach-Owned}

abbrev step_of :
    {s : System} {m : ConnectionManager} {p : Pc} (i : ℕ)
    → Reach 2 s
    → i < 2
    → Move s.manager (s.pc i) m p
    → Reach 2 (record { manager = m; pc = update s.pc i p })
step_of i r less mv = Reach.later r (Step.work i less mv)

-- Both clients open a database; the first installs its own, the second exchanges it for another and
-- has not closed it yet.
two_clients : (s : System) × Reach 2 s × (s.manager.db ≡ some 1) × (s.manager.live ≡ 1 ∷ 0 ∷ [])
unfolding ℕ_discrete open_handle trim_space
two_clients = (
  _,
  step_of 1
      (step_of 0
        (step_of 1
          (step_of 0
            (step_of 1 (step_of 0 Reach.start (omega arith) (Move.open_db (codes "a") (λ e. cc)))
              (omega arith) (Move.open_db (codes " b") (λ e. cc)))
            (omega arith) Move.ping)
          (omega arith) Move.ping)
        (omega arith) Move.install)
      (omega arith) Move.install,
  refl,
  refl,
)

Reach-Owned_example :
    Owns 2 two_clients.0 0
    × (of_option 0 two_clients.0.manager.db ≤ count 0 two_clients.0.manager.live)
    × (((i : ℕ) → i < 2 → two_clients.0.pc i ≡ Pc.idle)
        → count 0 two_clients.0.manager.live ≡ of_option 0 two_clients.0.manager.db)
Reach-Owned_example = Reach-Owned two_clients.1 0
