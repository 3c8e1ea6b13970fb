-- ===== src/Prepare/TiflashTests.antt =====
-- Replicas that become available at the third poll, and a database that never has them.
use optimizer_canary_service.Base.{
  ℕ, suc, ◌≡◌, refl, ◌⊎◌, inr, false, none, some, List, [], ◌∷◌, map, ltb, if◌then◌else◌, ok, err,
  pos,
}
use optimizer_canary_service.Base.Sort.{sort}
use optimizer_canary_service.Text.{codes, bytes_eq, compare_bytes}
use optimizer_canary_service.Prepare.Settings.{tpcc_tables, pending_tiflash_tables}
use optimizer_canary_service.Prepare.Tiflash.{
  ticked, deadline_exceeded, TiFlashConn, ReplicaRow, wait_from, timed_out, alter_text,
}

abbrev replicas : ℕ → List (Unit {0} ⊎ ReplicaRow)
replicas n = map (λ table. inr (record { table_name = table; available = pos n })) tpcc_tables

-- The state counts the ticks; the context allows five.
abbrev third_poll : TiFlashConn ℕ (Unit {0})
third_poll = record {
  exec = λ text s. (none, s);
  query =
      λ schema s. (ok (record { rows = replicas (if ltb s 2 then 0 else 1); rows_err = none }), s);
  sleep = λ s. if ltb s 5 then (ticked, suc s) else (deadline_exceeded, s);
  is_deadline = λ e. false;
}

abbrev never : TiFlashConn ℕ (Unit {0})
never = record third_poll {
  query = λ schema s. (ok (record { rows = replicas 0; rows_err = none }), s);
}

available_at_last : wait_from third_poll (codes "tpcc") 6 [] 0 ≡ some (ok tt, 2)
unfolding wait_from pending_tiflash_tables sort bytes_eq compare_bytes
available_at_last = refl

given_up :
    wait_from never (codes "tpcc") 6 [] 0
    ≡ some (
      err (
          timed_out (
            codes "customer"
            ∷ codes "district"
            ∷ codes "history"
            ∷ codes "item"
            ∷ codes "new_order"
            ∷ codes "order_line"
            ∷ codes "orders"
            ∷ codes "stock"
            ∷ codes "warehouse"
            ∷ [])),
      5,
    )
unfolding wait_from pending_tiflash_tables sort bytes_eq compare_bytes
given_up = refl

alter_item : alter_text (codes "item") ≡ codes "ALTER TABLE `item` SET TIFLASH REPLICA 1"
unfolding alter_text
alter_item = refl
