-- ===== src/Compare/Sql/Held.antt =====
-- `Compare` over `SQLRepository`: the connections that it uses, and the digests that it never misses.
use optimizer_canary_service.Base.{
  ℕ, suc, ◌≡◌, refl, ap, ◌∙◌, ◌≢◌, Option, none, some, List, [], ◌∷◌, ◌++◌, Outcome, ok, err, panic,
}
use optimizer_canary_service.Text.{Bytes, codes}
use mathlib.Core.Path.{subst}
use optimizer_canary_service.Compare.Summary.Infos.{Sample}
use optimizer_canary_service.Compare.Summary.Run.{CompareError, new_digest, compare_rows}
use optimizer_canary_service.Compare.Summary.Kept.{Keeping, compare_rows-Post, IsAllowed}
use optimizer_canary_service.Compare.Samples.Arguments.{Argument, convert_to_legal_sql}
use optimizer_canary_service.Compare.Samples.Scanner.{ArgumentError}
use optimizer_canary_service.Compare.Sql.Explain.{
  PlanDatabase, PlanDatabaseError, Answered, use_schema, use_text, after_use, after_conn,
  with_connection, explain_legal, explain_converted, execute_explain_plan, digest_converted,
  plan_digest_unavailable, get_new_plan_digest,
}
use optimizer_canary_service.Compare.Sql.Repository.{
  RepositoryError, InfoRows, sql_repository, as_repository,
}

-- What a count `held` of the connections in use relies on: making one adds it where there is no
-- error, closing takes it back, and statements and queries leave it.
pub record Held {S E F : Type 0} (database : PlanDatabase S E F) (held : S → ℕ) : Type 0 where
  pub conn_some : (s : S) (e : E) → (database.conn s).0 ≡ some e → held (database.conn s).1 ≡ held s
  pub conn_none : (s : S) → (database.conn s).0 ≡ none → held (database.conn s).1 ≡ suc (held s)
  pub exec_held : (text : Bytes) (s : S) → held (database.exec text s).1 ≡ held s
  pub query_held :
      (text : Bytes) (arguments : List (Argument F)) (s : S)
      → held (database.query text arguments s).1 ≡ held s
  pub digests_held : (schema : Bytes) (s : S) → held (database.query_digests schema s).1 ≡ held s
  pub close_held : (s : S) (n : ℕ) → held s ≡ suc n → held (database.close s) ≡ n

some_inj : {A : Type 0} (a b : A) → some a ≡ some b → a ≡ b
some_inj a b h = ap (λ o. elim o [ some c ↦ c | none ↦ a ]) h

IsAllowed-ne :
    {S E A : Type 0} (Kept : S → Type 0) (result : Outcome (CompareError E) A)
    → IsAllowed Kept result
    → (digest : Bytes) (cause : E) → result ≢ err (new_digest digest cause)
IsAllowed-ne Kept (ok a) h digest cause = λ p. cc
IsAllowed-ne Kept (err e) h digest cause = λ p. h digest cause (cc)
IsAllowed-ne Kept panic h digest cause = λ p. cc

module _ {S E F : Type 0} (database : PlanDatabase S E F) (held : S → ℕ)
    (laws : Held database held) where
  use_schema-held : (schema : Bytes) (s : S) → held (use_schema database schema s).1 ≡ held s
  use_schema-held [] s = refl
  use_schema-held (c ∷ schema) s = laws.exec_held (use_text (c ∷ schema)) s

  abbrev Level : (S → Answered database Bytes) → Type 0
  Level work = (s : S) → held (work s).1 ≡ held s

  after_use-held :
      (schema : Bytes) (work : S → Answered database Bytes) (failed : Option E) (s : S) (n : ℕ)
      → Level work
      → held s ≡ suc n
      → held (after_use database schema work failed s).1 ≡ n
  after_use-held schema work (some e) s n level h = laws.close_held s n h
  after_use-held schema work none s n level h = laws.close_held (work s).1 n (level s ∙ h)

  after_conn-held :
      (schema : Bytes) (work : S → Answered database Bytes) (s : S) (failed : Option E)
      → Level work
      → (database.conn s).0 ≡ failed
      → held (after_conn database schema work failed (database.conn s).1).1 ≡ held s
  after_conn-held schema work s (some e) level h = laws.conn_some s e h
  after_conn-held schema work s none level h =
      let used = use_schema database schema (database.conn s).1 in
      after_use-held schema work used.0 used.1 (held s) level
        (use_schema-held schema (database.conn s).1 ∙ laws.conn_none s h)

  with_connection-held :
      (schema : Bytes) (work : S → Answered database Bytes)
      → Level work
      → Level (λ s. with_connection database schema work s)
  unfolding with_connection
  with_connection-held schema work level s =
      after_conn-held schema work s (database.conn s).0 level refl

  explain_legal-held :
      (statement : Bytes) (arguments : List (Argument F))
      → Level (λ s. explain_legal database statement arguments s)
  explain_legal-held [] arguments s = refl
  explain_legal-held (c ∷ statement) arguments s =
      laws.query_held (codes "EXPLAIN " ++ c ∷ statement) arguments s

  explain_converted-held :
      (converted : Outcome ArgumentError (Bytes × List (Argument F)))
      → Level (λ s. explain_converted database converted s)
  explain_converted-held (ok (statement, arguments)) s = explain_legal-held statement arguments s
  explain_converted-held (err e) s = refl
  explain_converted-held panic s = refl

  execute_explain_plan-held : (x : Sample) → Level (λ s. execute_explain_plan database x s)
  unfolding execute_explain_plan
  execute_explain_plan-held x s =
      with_connection-held x.schema
        (λ s.
          explain_converted database
            (convert_to_legal_sql database.unquote database.parse_float x.sql) s)
        (explain_converted-held (convert_to_legal_sql database.unquote database.parse_float x.sql))
        s

  digest_converted-held :
      (x : Sample) (plan : Bytes) (converted : Outcome ArgumentError (Bytes × List (Argument F)))
      → Level (λ s. digest_converted database x plan converted s)
  digest_converted-held x plan (ok (statement, arguments)) s = laws.digests_held x.schema s
  digest_converted-held x plan (err e) s = refl
  digest_converted-held x plan panic s = refl

  plan_digest_unavailable_lem :
      (answer : Answered database Bytes)
      → ((plan_digest_unavailable database answer).1 ≡ answer.1)
        × ((e : PlanDatabaseError E) → (plan_digest_unavailable database answer).0 ≢ err e)
  plan_digest_unavailable_lem (ok digest, s) = (refl, λ e p. cc)
  plan_digest_unavailable_lem (err e, s) = (refl, λ e p. cc)
  plan_digest_unavailable_lem (panic, s) = (refl, λ e p. cc)

  get_new_plan_digest_lem :
      (x : Sample) (plan : Bytes) (s : S)
      → (held (get_new_plan_digest database x plan s).1 ≡ held s)
        × ((e : PlanDatabaseError E) → (get_new_plan_digest database x plan s).0 ≢ err e)
  unfolding get_new_plan_digest
  get_new_plan_digest_lem x plan s =
      let converted = convert_to_legal_sql database.unquote database.parse_float x.sql in
      let work = λ (s : S). digest_converted database x plan converted s in
      let (same, never) = plan_digest_unavailable_lem (with_connection database x.schema work s) in
      (
        ap held same
            ∙ with_connection-held x.schema work (digest_converted-held x plan converted) s,
        never,
      )

  as_repository-held :
      {A : Type 0} (answer : Outcome (PlanDatabaseError E) A × S)
      → held (as_repository answer).1 ≡ held answer.1
  as_repository-held (ok a, s) = refl
  as_repository-held (err e, s) = refl
  as_repository-held (panic, s) = refl

  as_repository-ne-err :
      {A : Type 0} (answer : Outcome (PlanDatabaseError E) A × S)
      → ((e : PlanDatabaseError E) → answer.0 ≢ err e)
      → (e : RepositoryError E) → (as_repository answer).0 ≢ err e
  as_repository-ne-err (ok a, s) h e = λ p. cc
  as_repository-ne-err (err x, s) h e = λ p. h x refl
  as_repository-ne-err (panic, s) h e = λ p. cc

  module _ (query_infos : S → Outcome E (InfoRows E) × S) (ctx_err : S → Option (RepositoryError E))
      (infos_held : (s : S) → held (query_infos s).1 ≡ held s) where
    sql_repository-Keeping :
        (n : ℕ) → Keeping (λ s. held s ≡ n) (sql_repository database query_infos ctx_err)
    sql_repository-Keeping n = record {
      infos = λ s h. infos_held s ∙ h;
      plan = λ x s h.
          as_repository-held (execute_explain_plan database x s)
          ∙ execute_explain_plan-held x s
          ∙ h;
      digest = λ get is x text s h.
          let own = λ (x : Sample) (text : Bytes) (s : S).
            as_repository (get_new_plan_digest database x text s) in
          let (kept, never) = get_new_plan_digest_lem x text s in
          subst
            (λ g. (held (g x text s).1 ≡ n) × ((e : RepositoryError E) → (g x text s).0 ≢ err e))
            (some_inj own get is)
            (
              as_repository-held (get_new_plan_digest database x text s) ∙ kept ∙ h,
              as_repository-ne-err (get_new_plan_digest database x text s) never,
            );
    }

    -- `Compare` over `SQLRepository`, on every path and with every answer of the database: as many
    -- connections are in use after it as before it, and it never fails because a plan has no digest.
    pub compare_rows-Held :
        (s : S)
        → (held (compare_rows (sql_repository database query_infos ctx_err) s).1 ≡ held s)
          × ((digest : Bytes) (cause : RepositoryError E)
              → (compare_rows (sql_repository database query_infos ctx_err) s).0
                ≢ err (new_digest digest cause))
    compare_rows-Held s =
        let post =
          compare_rows-Post (λ t. held t ≡ held s) (sql_repository database query_infos ctx_err)
            (sql_repository-Keeping (held s)) s refl in
        (
          post.0,
          IsAllowed-ne (λ t. held t ≡ held s)
              (compare_rows (sql_repository database query_infos ctx_err) s).0 post.1,
        )
