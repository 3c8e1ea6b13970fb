-- ===== src/Compare/Sql/Tests.antt =====
-- A database with one changed statement, whose digest cannot be looked up.
use optimizer_canary_service.Base.{
  ℕ, suc, ◌-◌, ◌≡◌, refl, ◌≢◌, inr, Option, none, some, [], ◌∷◌, arith, Outcome, ok, err,
}
use optimizer_canary_service.Text.{Bytes, codes, bytes_eq}
use optimizer_canary_service.Compare.Summary.Infos.{Sample}
use optimizer_canary_service.Compare.Summary.Run.{new_digest, compare_rows}
use optimizer_canary_service.Compare.Sql.Rows.{RowSet}
use optimizer_canary_service.Compare.Sql.Explain.{
  PlanDatabase, execute_explain_plan, get_new_plan_digest,
}
use optimizer_canary_service.Compare.Sql.Repository.{
  RepositoryError, InfoRows, sql_repository, bindings,
}
use optimizer_canary_service.Compare.Sql.Held.{Held, compare_rows-Held}

abbrev point_get : RowSet (Unit {0})
point_get = record {
  columns = ok (codes "id" ∷ codes "task" ∷ []);
  rows = inr (some (codes "Point_Get_1") ∷ none ∷ []) ∷ [];
  rows_err = none;
}

-- The state counts the connections in use.
abbrev database : PlanDatabase ℕ (Unit {0}) (Unit {0})
database = record {
  conn = λ s. (none, suc s);
  exec = λ text s. (none, s);
  query = λ text arguments s. (ok point_get, s);
  query_digests = λ schema s. (err tt, s);
  close = λ s. s - 1;
  unquote = λ text. none;
  parse_float = λ text. none;
}

abbrev one : Sample
one = record { schema = codes "test"; sql = codes "select 1" }

explained_plan : execute_explain_plan database one 2 ≡ (ok (codes "id\ttask\nPoint_Get_1\t"), 2)
unfolding execute_explain_plan bytes_eq
explained_plan = refl

no_digest : get_new_plan_digest database one (codes "id\ttask") 2 ≡ (ok (codes "N/A"), 2)
unfolding get_new_plan_digest bytes_eq
no_digest = refl

binding_lines : bindings (ok point_get) ≡ ok (codes "id: Point_Get_1\ntask: \n")
unfolding bindings
binding_lines = refl

abbrev infos : ℕ → Outcome (Unit {0}) (InfoRows (Unit {0})) × ℕ
infos s = (ok (record { rows = []; rows_err = none }), s)

abbrev never_done : ℕ → Option (RepositoryError (Unit {0}))
never_done s = none

database-Held : Held database (λ s. s)
database-Held = record {
  conn_some = λ s e h. cc;
  conn_none = λ s h. refl;
  exec_held = λ text s. refl;
  query_held = λ text arguments s. refl;
  digests_held = λ schema s. refl;
  close_held = λ s n h. omega arith;
}

compare_rows-Held_example :
    ((compare_rows (sql_repository database infos never_done) 3).1 ≡ 3)
    × ((digest : Bytes) (cause : RepositoryError (Unit {0}))
        → (compare_rows (sql_repository database infos never_done) 3).0
          ≢ err (new_digest digest cause))
compare_rows-Held_example =
    compare_rows-Held database (λ s. s) database-Held infos never_done (λ s. refl) 3
