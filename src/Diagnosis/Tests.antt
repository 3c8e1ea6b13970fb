-- ===== src/Diagnosis/Tests.antt =====
-- A validation and a connection, by evaluation.
use optimizer_canary_service.Base.{
  ℕ, suc, ◌-◌, ◌≡◌, refl, ◌⊎◌, inr, Option, none, some, List, [], ◌∷◌, arith, ◌==◌, if◌then◌else◌,
  ok, err,
}
use optimizer_canary_service.Text.{codes, bytes_eq}
use optimizer_canary_service.Text.Trim.{trim_space}
use optimizer_canary_service.Diagnosis.Validator.{Repository, Sample, validate, serve_validate}
use optimizer_canary_service.Diagnosis.Validated.{Judged, validate-Judged}
use optimizer_canary_service.Diagnosis.Connection.{
  Driver, Call, replacing, new_connection_manager, run_calls,
}
use optimizer_canary_service.Diagnosis.Sql.{
  collect_samples, ExplainDatabase, use_text, explain_text, replace_first, explain_sample,
}
use optimizer_canary_service.Diagnosis.Sampled.{Held, explain_sample-held}
use optimizer_canary_service.Diagnosis.Connected.{Owned, run_calls-Owned}

abbrev one_sample : Sample
one_sample = record { schema = codes "test"; sql = codes "select 1" }

-- Three samples; the state counts the EXPLAINs, and the third one fails.
abbrev third_fails : ℕ → Option (Unit {0})
third_fails n = if n == 2 then some tt else none

abbrev pub flaky : Repository ℕ (Unit {0})
flaky = record {
  sample = λ source n s. ((one_sample ∷ one_sample ∷ one_sample ∷ [], none), s);
  explain = λ x s. (third_fails s, suc s);
}

flaky_code : serve_validate flaky 0 ≡ (422, 3)
unfolding serve_validate
flaky_code = refl

steady_code : serve_validate flaky 3 ≡ (200, 6)
unfolding serve_validate
steady_code = refl

validate-Judged_example : Judged (validate flaky 0).0
validate-Judged_example = validate-Judged flaky 0

-- Every connection opens, and only the DSN `good` answers a ping.
abbrev driver : Driver (Unit {0})
driver = record {
  open_error = λ dsn. none;
  ping_error = λ dsn. if bytes_eq dsn (codes "good") then none else some tt;
}

abbrev calls : List (Call (Unit {0}))
calls =
    replacing driver (codes "good")
    ∷ replacing driver (codes "bad")
    ∷ replacing driver (codes " good ")
    ∷ []

run_calls-Owned_example : Owned (run_calls calls new_connection_manager)
run_calls-Owned_example = run_calls-Owned calls

abbrev blank_sample : Sample
blank_sample = record { schema = codes "test"; sql = codes " \n" }

abbrev no_error : Option (Unit {0})
no_error = none

abbrev scanned_rows : List (Unit {0} ⊎ Sample)
scanned_rows = inr one_sample ∷ inr blank_sample ∷ []

scanned_run : collect_samples scanned_rows no_error ≡ ok (one_sample ∷ [])
unfolding collect_samples bytes_eq trim_space
scanned_run = refl

-- The state counts the connections in use, and every EXPLAIN fails.
abbrev failing_explain : ExplainDatabase ℕ (Unit {0})
failing_explain = record {
  conn = λ s. (none, suc s);
  exec = λ text s. (none, s);
  query = λ text s. (err tt, s);
  close = λ s. s - 1;
}

failing_explain-Held : Held failing_explain (λ s. s)
failing_explain-Held = record {
  conn_some = λ s e h. cc;
  conn_none = λ s h. refl;
  exec_held = λ text s. refl;
  query_held = λ text s. refl;
  close_held = λ s n h. omega arith;
}

explain_sample-held_example : (explain_sample failing_explain one_sample 4).1 ≡ 4
explain_sample-held_example =
    explain_sample-held failing_explain (λ s. s) failing_explain-Held one_sample 4

use_text_run : use_text (codes "a`b") ≡ codes "USE `a``b`"
unfolding use_text
use_text_run = refl

explain_text_run : explain_text (codes " select 1; ") ≡ codes "EXPLAIN select 1"
unfolding explain_text
explain_text_run = refl

limited_query :
    replace_first (codes "LIMIT __LIMIT__") (codes "__LIMIT__") (codes "10") ≡ codes "LIMIT 10"
unfolding replace_first
limited_query = refl
