-- ===== src/Compare/Summary/Run.antt =====
-- The loop of `Compare` over a repository and a context that it is given.
use optimizer_canary_service.Base.{
  ℕ, ◌+◌, compare, Ordering, Bool, true, false, ◌&&◌, Option, none, some, List, [], ◌∷◌, ◌++◌,
  if◌then◌else◌, length, Outcome, ok, err,
}
use optimizer_canary_service.Base.Exec.{Exec, continue, pure, wrapped}
use optimizer_canary_service.Base.Sort.{sort}
use optimizer_canary_service.Text.{Bytes, bytes_eq, compare_bytes}
use optimizer_canary_service.Compare.Plan.Parse.{PlanError, parse_plan}
use optimizer_canary_service.Compare.Plan.Equal.{compare_plans}
use optimizer_canary_service.Compare.Binding.Words.{BindingError}
use optimizer_canary_service.Compare.Binding.Place.{get_current_plan_binding}
use optimizer_canary_service.Compare.Summary.Infos.{
  Sample, SqlInfo, u64, or_else, aggregate_sql_infos,
}

-- `CompareRepository`, with `planDigestRepository` where it is implemented, and the context. `S` is
-- the state of the database, `E` its errors.
pub record CompareRepository (S : Type 0) (E : Type 0) : Type 0 where
  pub get_sql_info : S → Outcome E (List SqlInfo) × S
  pub explain_plan : Sample → S → Outcome E Bytes × S
  pub get_new_plan_digest : Option (Sample → Bytes → S → Outcome E Bytes × S)
  pub ctx_err : S → Option E

-- The errors of `Compare`, with what each wraps.
pub data CompareError (E : Type 0) : Type 0 where
  sql_info : E → CompareError E
  cancelled : E → CompareError E
  current_plan : Bytes → Bytes → PlanError → CompareError E
  explain : Bytes → E → CompareError E
  new_plan : Bytes → PlanError → CompareError E
  new_digest : Bytes → E → CompareError E
  binding : Bytes → BindingError → CompareError E

pub record ComparedPlan : Type 0 where
  pub statement : SqlInfo
  pub new_plan_text : Bytes
  pub new_plan_digest : Bytes
  pub bindings : Bytes
  pub plan_change : Bytes

pub record ReportSummary : Type 0 where
  pub checked_sqls : ℕ
  pub total_exec_count : ℕ
  pub changed_sqls : ℕ

-- The variables of the loop; a set is a list without repetitions, in the order of insertion.
pub record Tally : Type 0 where
  pub explained : List (Sample × Bytes)
  pub checked : List (Bytes × Bytes)
  pub changed_keys : List (Bytes × Bytes)
  pub total : ℕ
  pub changed : List ComparedPlan

abbrev pub no_tally : Tally
no_tally = record { explained = []; checked = []; changed_keys = []; total = 0; changed = [] }

abbrev pub pair_eq : Bytes × Bytes → Bytes × Bytes → Bool
pair_eq (a, b) (c, d) = bytes_eq a c && bytes_eq b d

unfoldable pub add_key : List (Bytes × Bytes) → Bytes × Bytes → List (Bytes × Bytes)
add_key [] k = k ∷ []
add_key (j ∷ js) k = let rest = add_key js k in if pair_eq j k then j ∷ js else j ∷ rest

abbrev pub sample_eq : Sample → Sample → Bool
sample_eq a b = bytes_eq a.schema b.schema && bytes_eq a.sql b.sql

unfoldable pub find_plan : List (Sample × Bytes) → Sample → Option Bytes
find_plan [] k = none
find_plan ((j, v) ∷ m) k = let rest = find_plan m k in if sample_eq j k then some v else rest

abbrev pub key_of : SqlInfo → Bytes × Bytes
key_of info = (info.schema, info.sql_digest)

module _ {S E : Type 0} (repository : CompareRepository S E) where
  open repository use {get_sql_info, explain_plan, get_new_plan_digest, ctx_err}

  -- An outside call, with its error wrapped.
  abbrev pub call : {A : Type 0} → (E → CompareError E) → Exec S E A → Exec S (CompareError E) A
  call wrap m s = let (r, s') = m s in (wrapped wrap r, s')

  abbrev pub stop_if : Option E → Outcome (CompareError E) (Unit {0})
  stop_if none = ok tt
  stop_if (some e) = err (cancelled e)

  abbrev pub check_context : Exec S (CompareError E) (Unit {0})
  check_context s = (stop_if (ctx_err s), s)

  abbrev pub found_or_explained :
      Tally → SqlInfo → Option Bytes → Exec S (CompareError E) (Bytes × Tally)
  found_or_explained t info (some text) s = (ok (text, t), s)
  found_or_explained t info none s =
      continue (call (explain info.sql_digest) (explain_plan info.sample) s)
        λ text. pure (text, record t { explained = (info.sample, text) ∷ t.explained })

  -- The new plan of a statement, from the map or by EXPLAIN.
  unfoldable pub get_new_plan : Tally → SqlInfo → Exec S (CompareError E) (Bytes × Tally)
  unfolding find_plan
  get_new_plan t info = found_or_explained t info (find_plan t.explained info.sample)

  abbrev pub digest_by :
      Option (Sample → Bytes → S → Outcome E Bytes × S)
      → SqlInfo
      → Bytes
      → Exec S (CompareError E) Bytes
  digest_by none info text s = (ok info.plan_digest, s)
  digest_by (some get) info text s = call (new_digest info.sql_digest) (get info.sample text) s

  -- A changed plan is noted with its digest and the binding of the current plan.
  unfoldable pub note_change :
      Tally → SqlInfo → Bytes → Bool × Bytes → Exec S (CompareError E) Tally
  unfolding add_key
  note_change t info text (true, reason) s = (ok t, s)
  note_change t info text (false, reason) s =
      continue (digest_by get_new_plan_digest info text s) λ digest. λ s'.
        continue
          (wrapped (binding info.sql_digest) (get_current_plan_binding info.sql info.plan_hint), s')
          λ bound. pure (record t {
            changed =
                t.changed
                ++ record {
                  statement = info;
                  new_plan_text = text;
                  new_plan_digest = digest;
                  bindings = bound;
                  plan_change = reason;
                }
                  ∷ [];
            changed_keys = add_key t.changed_keys (key_of info);
          })

  -- One round of the loop.
  unfoldable pub compare_one : Tally → SqlInfo → Exec S (CompareError E) Tally
  unfolding add_key get_new_plan note_change
  compare_one t info s =
      let counted = record t {
        total = u64 (t.total + info.exec_count);
        checked = add_key t.checked (key_of info);
      } in
      continue (check_context s) λ _. λ s.
        continue (wrapped (current_plan info.sql_digest info.plan_digest) (parse_plan info.plan), s)
          λ current. λ s. continue (get_new_plan counted info s) λ found. λ s.
            continue (wrapped (new_plan info.sql_digest) (parse_plan found.0), s)
              λ parsed. note_change found.1 info found.0 (compare_plans current parsed)

  unfoldable pub compare_all : Tally → List SqlInfo → Exec S (CompareError E) Tally
  unfolding compare_one
  compare_all t [] s = (ok t, s)
  compare_all t (info ∷ infos) s = continue (compare_one t info s) λ t'. compare_all t' infos

  abbrev pub change_order : ComparedPlan → ComparedPlan → Ordering
  change_order a b = or_else (compare b.statement.exec_time a.statement.exec_time) (
      or_else (compare_bytes a.statement.sql_digest b.statement.sql_digest)
        (compare_bytes a.statement.plan_digest b.statement.plan_digest))

  abbrev pub summarize : Tally → List ComparedPlan × ReportSummary
  summarize t = (
    sort change_order t.changed,
    record {
      checked_sqls = length t.checked;
      total_exec_count = t.total;
      changed_sqls = length t.changed_keys;
    },
  )

  -- `Compare`, up to the rendering of the report.
  unfoldable pub compare_rows : Exec S (CompareError E) (List ComparedPlan × ReportSummary)
  unfolding compare_all aggregate_sql_infos
  compare_rows s = continue (call sql_info get_sql_info s) λ infos.
      λ s. continue (compare_all no_tally (aggregate_sql_infos infos) s) λ t. pure (summarize t)
