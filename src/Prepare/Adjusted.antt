-- ===== src/Prepare/Adjusted.antt =====
-- What the validation of the bindings does to the workloads, and that no session binding is left.
use optimizer_canary_service.Base.{◌≡◌, ◌⊎◌, List, [], ◌∷◌, ok, err, panic}
use optimizer_canary_service.Prepare.Workload.{TpccWorkload}
use optimizer_canary_service.Prepare.Bindings.{Connection, alternate_workload, Round}

-- A workload as it was, or with the other hint.
abbrev pub Adjusted : TpccWorkload → TpccWorkload → Type 0
Adjusted w w' = (w' ≡ w) ⊎ (alternate_workload w ≡ ok w')

abbrev pub AllAdjusted : List TpccWorkload → List TpccWorkload → Type 0
AllAdjusted [] [] = Unit
AllAdjusted (w ∷ ws) (w' ∷ ws') = Adjusted w w' × AllAdjusted ws ws'
AllAdjusted _ _ = ⊥

module _ {S E : Type 0} (connection : Connection S E) where
  abbrev Kept : TpccWorkload → Round connection → Type 0
  Kept w (ok w', s) = Adjusted w w'
  Kept w (err e, s) = Unit
  Kept w (panic, s) = Unit
