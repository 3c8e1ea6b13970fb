-- ===== src/Compare/Summary/Tests.antt =====
-- A repository with two plans of one statement, compared by evaluation.
use optimizer_canary_service.Base.{◌≡◌, none, List, [], ◌∷◌, ok}
use optimizer_canary_service.Text.{codes}
use optimizer_canary_service.Compare.Plan.Tests.{old_text, new_text}
use optimizer_canary_service.Compare.Summary.Infos.{SqlInfo, u64, aggregate_sql_infos}
use optimizer_canary_service.Compare.Summary.Totals.{
  HasDistinctKeys, total_of, aggregate_sql_infos_lem,
}
use optimizer_canary_service.Compare.Summary.Run.{CompareRepository, compare_rows}
use optimizer_canary_service.Compare.Summary.Once.{NoRepeats, logged, compare_rows-NoRepeats}

abbrev pub first_info : SqlInfo
first_info = record {
  sample = record { schema = codes "test"; sql = codes "select * from t" };
  sql_digest = codes "d1";
  plan_digest = codes "p1";
  exec_count = 2;
  exec_time = 30;
  plan_hint = codes "H()";
  plan = old_text;
}

abbrev again_info : SqlInfo
again_info = record first_info { exec_count = 5 }

abbrev other_info : SqlInfo
other_info = record first_info { plan_digest = codes "p2"; plan = new_text }

abbrev infos : List SqlInfo
infos = first_info ∷ other_info ∷ again_info ∷ []

abbrev repository : CompareRepository (Unit {0}) (Unit {0})
repository = record {
  get_sql_info = λ s. (ok infos, s);
  explain_plan = λ x s. (ok new_text, s);
  get_new_plan_digest = none;
  ctx_err = λ s. none;
}

aggregate_sql_infos_lem_example :
    HasDistinctKeys (aggregate_sql_infos infos)
    × ((k : SqlInfo)
        → (u64 (total_of (λ x. x.exec_count) k (aggregate_sql_infos infos))
            ≡ u64 (total_of (λ x. x.exec_count) k infos))
          × (u64 (total_of (λ x. x.exec_time) k (aggregate_sql_infos infos))
              ≡ u64 (total_of (λ x. x.exec_time) k infos)))
aggregate_sql_infos_lem_example = aggregate_sql_infos_lem infos

compare_rows-NoRepeats_example : NoRepeats (compare_rows (logged repository) (tt, [])).1.1
compare_rows-NoRepeats_example = compare_rows-NoRepeats repository tt
