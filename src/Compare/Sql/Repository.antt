-- ===== src/Compare/Sql/Repository.antt =====
-- `Bindings` and `GetSQLInfo` of diagnosis/compare/repository.go, and the repository that `Compare` is
-- given.
use optimizer_canary_service.Base.{
  ◌⊎◌, inl, inr, Bool, ◌||◌, Option, none, some, List, [], ◌∷◌, if◌then◌else◌, Outcome, ok, err,
  panic, ◌>>=◌,
}
use optimizer_canary_service.Text.{Bytes, bytes_eq}
use optimizer_canary_service.Text.Trim.{trim_space}
use optimizer_canary_service.Compare.Summary.Infos.{SqlInfo}
use optimizer_canary_service.Compare.Summary.Run.{CompareRepository}
use optimizer_canary_service.Compare.Sql.Rows.{
  RowSet, ReadError, Table, read_string_rows, binding_text,
}
use optimizer_canary_service.Compare.Sql.Explain.{
  PlanDatabase, PlanDatabaseError, execute_explain_plan, get_new_plan_digest,
}

pub data RepositoryError (E : Type 0) : Type 0 where
  query_bindings : E → RepositoryError E
  read_bindings : ReadError E → RepositoryError E
  query_infos : E → RepositoryError E
  scan_info : E → RepositoryError E
  missing_digest : Bytes → RepositoryError E
  read_infos : E → RepositoryError E
  plan_database : PlanDatabaseError E → RepositoryError E

-- The answer of the query for the statements.
pub record InfoRows (E : Type 0) : Type 0 where
  pub rows : List (E ⊎ SqlInfo)
  pub rows_err : Option E

-- A row without a statement or a digest.
unfoldable pub is_missing : SqlInfo → Bool
unfolding bytes_eq trim_space
is_missing info =
    bytes_eq info.sql_digest [] || bytes_eq info.plan_digest [] || bytes_eq (trim_space info.sql) []

module _ {E : Type 0} where
  abbrev pub bindings_of : Outcome (ReadError E) Table → Outcome (RepositoryError E) Bytes
  unfolding binding_text
  bindings_of (ok table) = ok (binding_text table)
  bindings_of (err e) = err (read_bindings e)
  bindings_of panic = panic

  -- `Bindings`, from the answer of its query.
  unfoldable pub bindings : Outcome E (RowSet E) → Outcome (RepositoryError E) Bytes
  unfolding bindings_of read_string_rows
  bindings (ok set) = bindings_of (read_string_rows set)
  bindings (err e) = err (query_bindings e)
  bindings panic = panic

  abbrev pub after_infos : Option E → Outcome (RepositoryError E) (List SqlInfo)
  after_infos none = ok []
  after_infos (some e) = err (read_infos e)

  unfoldable pub collect_infos :
      List (E ⊎ SqlInfo) → Option E → Outcome (RepositoryError E) (List SqlInfo)
  unfolding is_missing
  collect_infos [] rows_err = after_infos rows_err
  collect_infos (inl e ∷ rows) rows_err = err (scan_info e)
  collect_infos (inr info ∷ rows) rows_err =
      let rest = collect_infos rows rows_err >>= λ infos. ok (info ∷ infos) in
      if is_missing info then err (missing_digest info.sql_digest) else rest

  -- `GetSQLInfo`, from the answer of its query.
  unfoldable pub get_sql_info : Outcome E (InfoRows E) → Outcome (RepositoryError E) (List SqlInfo)
  unfolding collect_infos
  get_sql_info (ok answer) = collect_infos answer.rows answer.rows_err
  get_sql_info (err e) = err (query_infos e)
  get_sql_info panic = panic

abbrev pub as_repository :
    {S E A : Type 0} → Outcome (PlanDatabaseError E) A × S → Outcome (RepositoryError E) A × S
as_repository (ok a, s) = (ok a, s)
as_repository (err e, s) = (err (plan_database e), s)
as_repository (panic, s) = (panic, s)

module _ {S E F : Type 0} (database : PlanDatabase S E F)
    (query_infos : S → Outcome E (InfoRows E) × S) (ctx_err : S → Option (RepositoryError E)) where
  -- `var _ CompareRepository = (*SQLRepository)(nil)`, with `GetNewPlanDigest`.
  abbrev pub sql_repository : CompareRepository S (RepositoryError E)
  sql_repository = record {
    get_sql_info = λ s. let (answer, s') = query_infos s in (get_sql_info answer, s');
    explain_plan = λ sample s. as_repository (execute_explain_plan database sample s);
    get_new_plan_digest =
        some (λ sample plan s. as_repository (get_new_plan_digest database sample plan s));
    ctx_err = ctx_err;
  }
