-- ===== src/Diagnosis/Validated.antt =====
-- A validation succeeds exactly when enough samples were found and all were explained.
use optimizer_canary_service.Base.{
  ℕ, suc, ◌+◌, ◌≤◌, ◌<◌, ◌≡◌, refl, ◌↔◌, inl, inr, Bool, true, false, Option, none, some, List, [],
  ◌∷◌, arith, ltb, if◌then◌else◌, Bool-cases, length,
}
use native.Mathlib.Nat.{zero-add}
use optimizer_canary_service.Diagnosis.Validator.{
  after_error, sources, Repository, statement_summary, Sample, SourceResult, ValidateResponse,
  success, no_reason, result_of, set_result, no_result, sample_count, explain_all, after_explain,
  after_sample, validate_source, validate_sources, validate, empty_results,
}

-- Enough samples, and every one explained.
abbrev pub Complete : SourceResult → Type 0
Complete r = (sample_count ≤ r.sampled) × (r.explained ≡ r.sampled)

-- The loop over the samples ends after all of them, or with an error before.
abbrev Ended : {E : Type 0} → ℕ → ℕ × Option E → Type 0
Ended total (explained, none) = explained ≡ total
Ended total (explained, some e) = explained < total

later : (n m : ℕ) → n + suc m ≡ suc n + m
later n m = omega arith

module _ {S E : Type 0} (repository : Repository S E) where
  Ended-after_error :
      (error : Option E) (total n : ℕ) (s : S) (rest : (ℕ × Option E) × S)
      → n < total
      → Ended total rest.0
      → Ended total (after_error repository error n s rest).0
  Ended-after_error (some e) total n s rest h k = h
  Ended-after_error none total n s rest h k = k

  explain_all-Ended :
      (xs : List Sample) (n : ℕ) (s : S) → Ended (n + length xs) (explain_all repository xs n s).0
  unfolding explain_all
  explain_all-Ended [] n s = omega arith
  explain_all-Ended (x ∷ xs) n s =
      Ended-after_error (repository.explain x s).0 (n + suc (length xs)) n
        (repository.explain x s).1 (explain_all repository xs (suc n) (repository.explain x s).1)
        (omega arith)
        (rw (later n (length xs)) (explain_all-Ended xs (suc n) (repository.explain x s).1))

-- The response has a result for the source, with no more statements explained than sampled; it says
-- success exactly when the result is complete, and gives a reason exactly when it does not.
abbrev pub Judged : {E : Type 0} → ValidateResponse E → Type 0
Judged response =
    (r : SourceResult) × (result_of response.results statement_summary ≡ some r)
    × (r.explained ≤ r.sampled)
    × ((response.status ≡ success) ↔ Complete r)
    × ((response.status ≡ success) ↔ (response.reason ≡ no_reason))

unfoldable initial : {E : Type 0} → ValidateResponse E
unfolding empty_results
initial = record { status = success; reason = no_reason; results = empty_results sources }

either : {A : Type 0} (P : A → Type 0) (b : Bool) (x : A) → P x → P (if b then x else x)
either P true x h = h
either P false x h = h

module _ {S E : Type 0} (repository : Repository S E) where
  after_explain-Judged :
      (total : ℕ) (ended : ℕ × Option E)
      → Ended total ended
      → Judged (after_explain repository statement_summary total ended initial).1
  unfolding after_explain result_of set_result initial
  after_explain-Judged total (explained, some e) h = (
    record { sampled = total; explained = explained },
    refl,
    omega arith,
    ground arith,
    ground arith,
  )
  after_explain-Judged total (explained, none) h = elim (Bool-cases (ltb total sample_count)) [
    | inl few ↦ rw few (
      record { sampled = total; explained = explained },
      refl,
      omega arith,
      ground arith,
      ground arith,
    )
    | inr enough ↦ rw enough (
      record { sampled = total; explained = explained },
      refl,
      omega arith,
      ground arith,
      ground arith,
    )
  ]

  after_sample-Judged :
      (sampled : List Sample × Option E) (s : S)
      → Judged (after_sample repository statement_summary sampled initial s).0.1
  unfolding after_sample result_of initial
  after_sample-Judged (samples, some e) s =
      (no_result, refl, omega arith, ground arith, ground arith)
  after_sample-Judged (samples, none) s =
      after_explain-Judged (length samples) (explain_all repository samples 0 s).0
        (rw (← zero-add (length samples)) (explain_all-Ended repository samples 0 s))

  validate_source-Judged :
      (s : S) → Judged (validate_source repository statement_summary initial s).0.1
  unfolding validate_source
  validate_source-Judged s =
      after_sample-Judged (repository.sample statement_summary sample_count s).0
        (repository.sample statement_summary sample_count s).1

  -- A validation response has a result for its source, with no more statements explained than
  -- sampled. It says success exactly when at least three were sampled and all of them explained, and
  -- exactly then it gives no reason.
  pub validate-Judged : (s : S) → Judged (validate repository s).0
  unfolding validate validate_sources initial
  validate-Judged s =
      either (λ (r : ValidateResponse E × S). Judged r.0)
        (validate_source repository statement_summary initial s).0.0
        (
          (validate_source repository statement_summary initial s).0.1,
          (validate_source repository statement_summary initial s).1,
        )
        (validate_source-Judged s)
