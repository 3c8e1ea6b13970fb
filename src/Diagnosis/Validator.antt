-- ===== src/Diagnosis/Validator.antt =====
-- `Validator.Validate` of diagnosis/validator.go and `Handler.ServeHTTP` of diagnosis/handler.go.
-- The repository is a parameter; `S` is the state of the database, `E` its errors.
use optimizer_canary_service.Base.{
  ℕ, suc, Bool, true, false, Option, none, some, List, [], ◌∷◌, ltb, if◌then◌else◌, length,
}
use optimizer_canary_service.Text.{Bytes}

pub data Source : Type 0 where
  slow_query top_sql statement_summary : Source

pub record Sample : Type 0 where
  pub schema : Bytes
  pub sql : Bytes

-- `Repository`: as in Go, a call returns its value and an error that may be absent.
pub record Repository (S : Type 0) (E : Type 0) : Type 0 where
  pub sample : Source → ℕ → S → (List Sample × Option E) × S
  pub explain : Sample → S → Option E × S

pub record SourceResult : Type 0 where
  pub sampled : ℕ
  pub explained : ℕ

pub data Status : Type 0 where
  success failed : Status

-- The texts of `Reason`, by what they are made of.
pub data Reason (E : Type 0) : Type 0 where
  no_reason : Reason E
  sampling_failed : Source → E → Reason E
  explain_failed : Source → ℕ → ℕ → E → Reason E
  too_few : Source → ℕ → Reason E

pub record ValidateResponse (E : Type 0) : Type 0 where
  pub status : Status
  pub reason : Reason E
  pub results : List (Source × SourceResult)

abbrev pub sources : List Source
sources = statement_summary ∷ []

abbrev pub sample_count : ℕ
sample_count = 3

abbrev pub source_eq : Source → Source → Bool
source_eq slow_query slow_query = true
source_eq top_sql top_sql = true
source_eq statement_summary statement_summary = true
source_eq _ _ = false

-- `response.Sources[source] = result`.
unfoldable pub set_result :
    List (Source × SourceResult) → Source → SourceResult → List (Source × SourceResult)
set_result [] source result = (source, result) ∷ []
set_result ((other, old) ∷ results) source result =
    let rest = set_result results source result in
    if source_eq other source then (other, result) ∷ results else (other, old) ∷ rest

unfoldable pub result_of : List (Source × SourceResult) → Source → Option SourceResult
result_of [] source = none
result_of ((other, result) ∷ results) source =
    let rest = result_of results source in if source_eq other source then some result else rest

abbrev pub no_result : SourceResult
no_result = record { sampled = 0; explained = 0 }

unfoldable pub empty_results : List Source → List (Source × SourceResult)
unfolding set_result
empty_results [] = []
empty_results (source ∷ rest) = set_result (empty_results rest) source no_result

module _ {S E : Type 0} (repository : Repository S E) where
  open repository use {sample, explain}

  abbrev pub after_error : Option E → ℕ → S → (ℕ × Option E) × S → (ℕ × Option E) × S
  after_error (some e) explained s rest = ((explained, some e), s)
  after_error none explained s rest = rest

  -- The loop over the samples: how many were explained, and the error that ended it.
  unfoldable pub explain_all : List Sample → ℕ → S → (ℕ × Option E) × S
  explain_all [] explained s = ((explained, none), s)
  explain_all (x ∷ xs) explained s =
      let (error, s') = explain x s in
      let rest = explain_all xs (suc explained) s' in after_error error explained s' rest

  -- What follows the sampling of one source; the flag says that the loop goes on.
  unfoldable pub after_explain :
      Source → ℕ → ℕ × Option E → ValidateResponse E → Bool × ValidateResponse E
  unfolding set_result
  after_explain source sampled (explained, some e) response = (
    false,
    record {
      status = failed;
      reason = explain_failed source explained sampled e;
      results =
          set_result response.results source record { sampled = sampled; explained = explained };
    },
  )
  after_explain source sampled (explained, none) response =
      let results =
        set_result response.results source record { sampled = sampled; explained = explained } in
      if ltb sampled sample_count
      then (
        false,
        record { status = failed; reason = too_few source sample_count; results = results },
      )
      else (true, record response { results = results })

  unfoldable pub after_sample :
      Source → List Sample × Option E → ValidateResponse E → S → (Bool × ValidateResponse E) × S
  unfolding after_explain explain_all
  after_sample source (samples, some e) response s =
      ((false, record response { status = failed; reason = sampling_failed source e }), s)
  after_sample source (samples, none) response s =
      let (ended, s') = explain_all samples 0 s in
      (after_explain source (length samples) ended response, s')

  -- One round of the loop over the sources.
  unfoldable pub validate_source : Source → ValidateResponse E → S → (Bool × ValidateResponse E) × S
  unfolding after_sample
  validate_source source response s =
      let (sampled, s') = sample source sample_count s in after_sample source sampled response s'

  unfoldable pub validate_sources : List Source → ValidateResponse E → S → ValidateResponse E × S
  unfolding validate_source
  validate_sources [] response s = (response, s)
  validate_sources (source ∷ rest) response s =
      let ((goes_on, response'), s') = validate_source source response s in
      let later = validate_sources rest response' s' in if goes_on then later else (response', s')

  unfoldable pub validate : S → ValidateResponse E × S
  unfolding validate_sources empty_results
  validate s =
      validate_sources sources
        record { status = success; reason = no_reason; results = empty_results sources } s

  -- The status code of `Handler.ServeHTTP`.
  unfoldable pub serve_validate : S → ℕ × S
  unfolding validate
  serve_validate s =
      let (response, s') = validate s in (elim response.status [ failed ↦ 422 | success ↦ 200 ], s')
