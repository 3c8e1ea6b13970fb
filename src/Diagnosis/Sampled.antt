-- ===== src/Diagnosis/Sampled.antt =====
-- Which samples are returned, and what an EXPLAIN does to its connection.
use optimizer_canary_service.Base.{
  ℕ, suc, ◌≡◌, refl, sym, ap, ◌∙◌, ◌↔◌, ◌⊎◌, inl, inr, Bool, true, false, not, Option, none, some,
  List, [], ◌∷◌, map, if◌then◌else◌, keep, ok, bind_ok,
}
use optimizer_canary_service.Text.{Bytes}
use optimizer_canary_service.Diagnosis.Validator.{Sample}
use optimizer_canary_service.Diagnosis.Sql.{
  with_sample, use_text, use_schema, explain_text, after_conn, explain_sample, after_use,
  ExplainDatabase, collect_samples, is_blank,
}

keep_step :
    (x : Sample) (rest scanned : List Sample) (blank : Bool)
    → rest ≡ keep (λ x. not (is_blank x.sql)) scanned
    → (if blank then rest else x ∷ rest) ≡ elim (not blank) [
      | true ↦ x ∷ keep (λ x. not (is_blank x.sql)) scanned
      | false ↦ keep (λ x. not (is_blank x.sql)) scanned
    ]
keep_step x rest scanned true kept = kept
keep_step x rest scanned false kept = ap (λ t. x ∷ t) kept

module _ {E : Type 0} where
  collect_samples_lem :
      (rows : List (E ⊎ Sample)) (rows_err : Option E) {samples : List Sample}
      → collect_samples rows rows_err ≡ ok samples
      → (scanned : List Sample) × (rows ≡ map inr scanned)
        × (rows_err ≡ none)
        × (samples ≡ keep (λ x. not (is_blank x.sql)) scanned)
  unfolding collect_samples
  collect_samples_lem [] none h = ([], refl, refl, cc)
  collect_samples_lem [] (some e) h = cc
  collect_samples_lem (inl e ∷ rows) rows_err h = cc
  collect_samples_lem (inr x ∷ rows) rows_err {samples} h =
      let (rest, returned, same) =
        bind_ok (collect_samples rows rows_err) (λ xs. ok (if is_blank x.sql then xs else x ∷ xs))
          h in
      let (scanned, all, no_err, kept) = collect_samples_lem rows rows_err returned in
      let returned_list : samples ≡ (if is_blank x.sql then rest else x ∷ rest) = cc in
      (
        x ∷ scanned,
        ap (λ t. inr x ∷ t) all,
        no_err,
        returned_list ∙ keep_step x rest scanned (is_blank x.sql) kept,
      )

  collect_samples-scanned :
      (scanned : List Sample)
      → collect_samples {E = E} (map inr scanned) none
        ≡ ok (keep (λ x. not (is_blank x.sql)) scanned)
  unfolding collect_samples
  collect_samples-scanned [] = refl
  collect_samples-scanned (x ∷ scanned) =
      ap (λ t. with_sample x t) (collect_samples-scanned scanned)
      ∙ ap (λ t. ok t)
          (keep_step x (keep (λ x. not (is_blank x.sql)) scanned) scanned (is_blank x.sql) refl)

  -- The loop returns `samples` exactly when every row was scanned, no error came after the last,
  -- and they are the samples whose statement is not blank, in the order of the rows.
  collect_samples_iff :
      (rows : List (E ⊎ Sample)) (rows_err : Option E) (samples : List Sample)
      → (collect_samples rows rows_err ≡ ok samples) ↔ (
          (scanned : List Sample) × (rows ≡ map inr scanned)
          × (rows_err ≡ none)
          × (samples ≡ keep (λ x. not (is_blank x.sql)) scanned))
  collect_samples_iff rows rows_err samples = (
    (λ h. collect_samples_lem rows rows_err h),
    λ (scanned, all, no_err, kept).
        ap (λ t. collect_samples t rows_err) all
        ∙ ap (λ t. collect_samples (map inr scanned) t) no_err
        ∙ collect_samples-scanned scanned
        ∙ ap (λ t. ok t) (sym kept),
  )

-- What a count `held` of the connections in use relies on: acquiring one adds it where there is no
-- error, closing takes it back, and statements leave it.
pub record Held {S E : Type 0} (database : ExplainDatabase S E) (held : S → ℕ) : Type 0 where
  pub conn_some : (s : S) (e : E) → (database.conn s).0 ≡ some e → held (database.conn s).1 ≡ held s
  pub conn_none : (s : S) → (database.conn s).0 ≡ none → held (database.conn s).1 ≡ suc (held s)
  pub exec_held : (text : Bytes) (s : S) → held (database.exec text s).1 ≡ held s
  pub query_held : (text : Bytes) (s : S) → held (database.query text s).1 ≡ held s
  pub close_held : (s : S) (n : ℕ) → held s ≡ suc n → held (database.close s) ≡ n

module _ {S E : Type 0} (database : ExplainDatabase S E) (held : S → ℕ)
    (laws : Held database held) where
  use_schema-held : (schema : Bytes) (s : S) → held (use_schema database schema s).1 ≡ held s
  use_schema-held [] s = refl
  use_schema-held (c ∷ schema) s = laws.exec_held (use_text (c ∷ schema)) s

  after_use-held :
      (x : Sample) (failed : Option E) (s : S) (n : ℕ)
      → held s ≡ suc n
      → held (after_use database x failed s).1 ≡ n
  after_use-held x (some e) s n h = laws.close_held s n h
  after_use-held x none s n h =
      laws.close_held (database.query (explain_text x.sql) s).1 n
        (laws.query_held (explain_text x.sql) s ∙ h)

  after_conn-held :
      (x : Sample) (s : S) (failed : Option E)
      → (database.conn s).0 ≡ failed
      → held (after_conn database x failed (database.conn s).1).1 ≡ held s
  after_conn-held x s (some e) h = laws.conn_some s e h
  after_conn-held x s none h =
      after_use-held x (use_schema database x.schema (database.conn s).1).0
        (use_schema database x.schema (database.conn s).1).1 (held s)
        (use_schema-held x.schema (database.conn s).1 ∙ laws.conn_none s h)

  -- On every outcome of Explain, each error included, as many connections are in use after it as
  -- before it.
  pub explain_sample-held : (x : Sample) (s : S) → held (explain_sample database x s).1 ≡ held s
  unfolding explain_sample
  explain_sample-held x s = after_conn-held x s (database.conn s).0 refl
