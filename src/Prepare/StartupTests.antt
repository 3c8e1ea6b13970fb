-- ===== src/Prepare/StartupTests.antt =====
-- A server that counts its databases and connections, and stages that succeed.
use optimizer_canary_service.Base.{ℕ, ◌+◌, ◌-◌, ◌≡◌, refl, none, ok, err, pos}
use optimizer_canary_service.Text.{codes, bytes_eq}
use optimizer_canary_service.Prepare.Settings.{Config, no_concurrency}
use optimizer_canary_service.Prepare.Startup.{Server, Stages, invalid_config, run}
use optimizer_canary_service.Prepare.Closed.{Ledger}

abbrev counting : Server (ℕ × ℕ) (Unit {0})
counting = record {
  open_db = λ dsn (d, c). (none, (d + 1, c));
  ping = λ s. (none, s);
  acquire_conn = λ (d, c). (none, (d, c + 1));
  close_conn = λ (d, c). (d, c - 1);
  close_db = λ (d, c). (d - 1, c);
}

abbrev succeeding : Stages (ℕ × ℕ) (Unit {0}) (Unit {0})
succeeding = record {
  schema_stage = λ schema s. (ok tt, s);
  statements_stage = λ schema n s. (ok tt, s);
}

abbrev counted : Ledger counting succeeding
counted = record {
  dbs = λ s. s.0;
  conns = λ s. s.1;
  opened = λ dsn s. (refl, refl);
  pinged = λ s. (refl, refl);
  acquired = λ s. (refl, refl);
  conn_closed = λ s. (refl, refl);
  db_closed = λ s. (refl, refl);
  schema_kept = λ schema s. (refl, refl);
  statements_kept = λ schema n s. (refl, refl);
}

abbrev config : Config
config = record {
  dsn = codes "root@tcp";
  schema = codes " s ";
  concurrency = pos 4;
  duration = pos 60;
}

run_once : run counting succeeding config (1, 2) ≡ (ok tt, (1, 2))
unfolding run bytes_eq
run_once = refl

run_alone :
    (run counting succeeding (record config { concurrency = pos 0 }) (1, 2)).0
    ≡ err (invalid_config no_concurrency)
unfolding run bytes_eq
run_alone = refl
