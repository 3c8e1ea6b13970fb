-- ===== src/Compare/Sql/Explain.antt =====
-- `executeExplainPlan` and `GetNewPlanDigest` of diagnosis/compare/repository.go. `S` is the state of
-- the database, `E` an error of its driver, `F` is float64.
use optimizer_canary_service.Base.{
  Option, none, some, List, [], ◌∷◌, ◌++◌, Outcome, ok, err, panic, ◌>>=◌,
}
use optimizer_canary_service.Text.{Bytes, codes}
use optimizer_canary_service.Text.Split.{replace_all}
use optimizer_canary_service.Compare.Summary.Infos.{Sample}
use optimizer_canary_service.Compare.Samples.Arguments.{Argument, convert_to_legal_sql}
use optimizer_canary_service.Compare.Samples.Scanner.{ArgumentError}
use optimizer_canary_service.Compare.Samples.Digest.{
  DigestRows, DigestError, lookup_new_plan_digest,
}
use optimizer_canary_service.Compare.Sql.Rows.{
  RowSet, ReadError, Table, read_string_rows, plan_text,
}

-- A connection of the pool: making it, a statement, a query with arguments, the query for the plan
-- digests of a schema, and closing it.
pub record PlanDatabase (S E F : Type 0) : Type 0 where
  pub conn : S → Option E × S
  pub exec : Bytes → S → Option E × S
  pub query : Bytes → List (Argument F) → S → Outcome E (RowSet E) × S
  pub query_digests : Bytes → S → Outcome E (DigestRows E) × S
  pub close : S → S
  pub unquote : Bytes → Option Bytes
  pub parse_float : Bytes → Option F

pub data PlanDatabaseError (E : Type 0) : Type 0 where
  acquire : E → PlanDatabaseError E
  select_schema : Bytes → E → PlanDatabaseError E
  parse_sample : ArgumentError → PlanDatabaseError E
  empty_statement : PlanDatabaseError E
  explain_statement : E → PlanDatabaseError E
  read_explain : ReadError E → PlanDatabaseError E
  digest_lookup : DigestError E → PlanDatabaseError E

unfoldable pub use_text : Bytes → Bytes
unfolding replace_all
use_text schema = codes "USE `" ++ replace_all schema b'`' (codes "``") ++ codes "`"

module _ {S E F : Type 0} (database : PlanDatabase S E F) where
  open database use {conn, exec, query, query_digests, close, unquote, parse_float}

  abbrev pub Answered : Type 0 → Type 0
  Answered A = Outcome (PlanDatabaseError E) A × S

  abbrev pub use_schema : Bytes → S → Option E × S
  use_schema [] s = (none, s)
  use_schema (c ∷ schema) s = exec (use_text (c ∷ schema)) s

  -- What a connection is used for, with the schema selected; it is closed on every path.
  abbrev pub after_use : Bytes → (S → Answered Bytes) → Option E → S → Answered Bytes
  after_use schema work (some e) s = (err (select_schema schema e), close s)
  after_use schema work none s = let (result, s') = work s in (result, close s')

  abbrev pub after_conn : Bytes → (S → Answered Bytes) → Option E → S → Answered Bytes
  after_conn schema work (some e) s = (err (acquire e), s)
  after_conn schema work none s =
      let (failed, s') = use_schema schema s in after_use schema work failed s'

  unfoldable pub with_connection : Bytes → (S → Answered Bytes) → S → Answered Bytes
  unfolding use_text
  with_connection schema work s = let (failed, s') = conn s in after_conn schema work failed s'

  abbrev pub plan_of_table : Outcome (ReadError E) Table → Outcome (PlanDatabaseError E) Bytes
  plan_of_table (ok table) = ok (plan_text table)
  plan_of_table (err e) = err (read_explain e)
  plan_of_table panic = panic

  abbrev pub plan_of_rows : Outcome E (RowSet E) → Outcome (PlanDatabaseError E) Bytes
  plan_of_rows (ok set) = plan_of_table (read_string_rows set)
  plan_of_rows (err e) = err (explain_statement e)
  plan_of_rows panic = panic

  abbrev pub explain_legal : Bytes → List (Argument F) → S → Answered Bytes
  explain_legal [] arguments s = (err empty_statement, s)
  explain_legal (c ∷ statement) arguments s =
      let (answer, s') = query (codes "EXPLAIN " ++ c ∷ statement) arguments s in
      (plan_of_rows answer, s')

  abbrev pub explain_converted :
      Outcome ArgumentError (Bytes × List (Argument F)) → S → Answered Bytes
  explain_converted (ok (statement, arguments)) s = explain_legal statement arguments s
  explain_converted (err e) s = (err (parse_sample e), s)
  explain_converted panic s = (panic, s)

  unfoldable pub execute_explain_plan : Sample → S → Answered Bytes
  unfolding with_connection convert_to_legal_sql read_string_rows plan_text
  execute_explain_plan sample s =
      with_connection sample.schema
        (λ s. explain_converted (convert_to_legal_sql unquote parse_float sample.sql) s) s

  abbrev pub digest_of : Outcome (DigestError E) Bytes → Outcome (PlanDatabaseError E) Bytes
  digest_of (ok digest) = ok digest
  digest_of (err e) = err (digest_lookup e)
  digest_of panic = panic

  abbrev pub digest_converted :
      Sample → Bytes → Outcome ArgumentError (Bytes × List (Argument F)) → S → Answered Bytes
  digest_converted sample new_plan (ok (statement, arguments)) s =
      let (answer, s') = query_digests sample.schema s in
      (digest_of (lookup_new_plan_digest answer (codes "EXPLAIN " ++ statement) new_plan), s')
  digest_converted sample new_plan (err e) s = (err (parse_sample e), s)
  digest_converted sample new_plan panic s = (panic, s)

  -- `planDigestUnavailable`: any error is logged, and the digest is "N/A".
  abbrev pub plan_digest_unavailable : Answered Bytes → Answered Bytes
  plan_digest_unavailable (ok digest, s) = (ok digest, s)
  plan_digest_unavailable (err e, s) = (ok (codes "N/A"), s)
  plan_digest_unavailable (panic, s) = (panic, s)

  unfoldable pub get_new_plan_digest : Sample → Bytes → S → Answered Bytes
  unfolding with_connection convert_to_legal_sql lookup_new_plan_digest
  get_new_plan_digest sample new_plan s = plan_digest_unavailable (
      with_connection sample.schema
        (λ s.
          digest_converted sample new_plan (convert_to_legal_sql unquote parse_float sample.sql) s)
        s)

  -- `ExplainPlanWithDigest`.
  abbrev pub digest_after :
      Sample → Outcome (PlanDatabaseError E) Bytes → S → Answered (Bytes × Bytes)
  digest_after sample (ok plan) s =
      let (digest, s') = get_new_plan_digest sample plan s in (digest >>= λ d. ok (plan, d), s')
  digest_after sample (err e) s = (err e, s)
  digest_after sample panic s = (panic, s)

  unfoldable pub explain_plan_with_digest : Sample → S → Answered (Bytes × Bytes)
  unfolding execute_explain_plan get_new_plan_digest
  explain_plan_with_digest sample s =
      let (plan, s') = execute_explain_plan sample s in digest_after sample plan s'
