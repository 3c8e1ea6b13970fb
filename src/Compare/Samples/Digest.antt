-- ===== src/Compare/Samples/Digest.antt =====
-- `getNewPlanDigest` of diagnosis/compare/repository.go. The answer of the query is a parameter: its
-- error, or its rows, each scanned or with the error of its scan, and the error after the last row.
use optimizer_canary_service.Base.{
  ◌⊎◌, inl, inr, Bool, true, false, Option, none, some, List, [], ◌∷◌, if◌then◌else◌, Outcome, ok,
  err, panic, ◌>>=◌,
}
use optimizer_canary_service.Text.{Bytes, bytes_eq}
use optimizer_canary_service.Compare.Plan.Parse.{Plan, PlanError, parse_plan}
use optimizer_canary_service.Compare.Plan.Equal.{plans_equal}
use optimizer_canary_service.Compare.Samples.Normalize.{normalize_explain_sql}

pub record DigestRow : Type 0 where
  pub query_sample : Bytes
  pub digest : Bytes
  pub plan : Bytes

pub record DigestRows (E : Type 0) : Type 0 where
  pub rows : List (E ⊎ DigestRow)
  pub rows_err : Option E

pub data DigestError (E : Type 0) : Type 0 where
  query_digest : E → DigestError E
  read_plan : PlanError → DigestError E
  scan_digest : E → DigestError E
  read_digests : E → DigestError E
  no_digest : DigestError E

-- Whether the plan of a row can be read and equals the new one.
abbrev pub same_plan : Plan → Outcome PlanError Plan → Outcome Unit Bool
same_plan new_plan (ok plan) = ok (plans_equal new_plan plan)
same_plan new_plan (err e) = ok false
same_plan new_plan panic = panic

-- Whether a row is that of the EXPLAIN, whose normal form is given; its plan is read only where the
-- statements agree.
unfoldable pub row_matches : Plan → Bytes → DigestRow → Outcome Unit Bool
unfolding parse_plan normalize_explain_sql plans_equal bytes_eq
row_matches new_plan normalized row = normalize_explain_sql row.query_sample >>= λ sample.
    if bytes_eq sample normalized then same_plan new_plan (parse_plan row.plan) else ok false

module _ {E : Type 0} where
  abbrev pub after_rows : Option E → Outcome (DigestError E) Bytes
  after_rows none = err no_digest
  after_rows (some e) = err (read_digests e)

  abbrev pub found_or :
      Outcome Unit Bool → Bytes → Outcome (DigestError E) Bytes → Outcome (DigestError E) Bytes
  found_or (ok true) digest later = ok digest
  found_or (ok false) digest later = later
  found_or (err e) digest later = panic
  found_or panic digest later = panic

  -- The loop over the rows.
  unfoldable pub find_digest :
      Plan → Bytes → List (E ⊎ DigestRow) → Option E → Outcome (DigestError E) Bytes
  unfolding row_matches
  find_digest new_plan normalized [] rows_err = after_rows rows_err
  find_digest new_plan normalized (inl e ∷ rows) rows_err = err (scan_digest e)
  find_digest new_plan normalized (inr row ∷ rows) rows_err =
      let later = find_digest new_plan normalized rows rows_err in
      found_or (row_matches new_plan normalized row) row.digest later

  abbrev pub normalized_then :
      {A : Type 0}
      → Outcome Unit Bytes
      → (Bytes → Outcome (DigestError E) A)
      → Outcome (DigestError E) A
  normalized_then (ok text) next = next text
  normalized_then (err e) next = panic
  normalized_then panic next = panic

  abbrev pub plan_then :
      {A : Type 0}
      → Outcome PlanError Plan
      → (Plan → Outcome (DigestError E) A)
      → Outcome (DigestError E) A
  plan_then (ok plan) next = next plan
  plan_then (err e) next = err (read_plan e)
  plan_then panic next = panic

  unfoldable pub lookup_new_plan_digest :
      Outcome E (DigestRows E) → Bytes → Bytes → Outcome (DigestError E) Bytes
  unfolding parse_plan normalize_explain_sql find_digest
  lookup_new_plan_digest (err e) explain_sql new_plan = err (query_digest e)
  lookup_new_plan_digest panic explain_sql new_plan = panic
  lookup_new_plan_digest (ok answer) explain_sql new_plan = plan_then (parse_plan new_plan) λ plan.
      normalized_then (normalize_explain_sql explain_sql)
        λ normalized. find_digest plan normalized answer.rows answer.rows_err
