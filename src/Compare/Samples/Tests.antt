-- ===== src/Compare/Samples/Tests.antt =====
-- Statements in their normal form, by evaluation.
use optimizer_canary_service.Base.{◌≡◌, refl, inr, none, [], ◌∷◌, arith, ok, panic}
use optimizer_canary_service.Text.{Bytes, codes, to_lower, compare_bytes}
use optimizer_canary_service.Text.Trim.{fields}
use optimizer_canary_service.Text.Split.{join}
use optimizer_canary_service.Compare.Samples.Normalize.{normalize_explain_sql}
use optimizer_canary_service.Base.Sort.{sort}
use optimizer_canary_service.Compare.Plan.Json.{node_string}
use optimizer_canary_service.Compare.Plan.Equal.{plan_nodes_equal}
use optimizer_canary_service.Compare.Plan.Parse.{Plan, parse_plan}
use optimizer_canary_service.Compare.Plan.Tests.{old_text}
use optimizer_canary_service.Compare.Samples.Digest.{DigestRows, lookup_new_plan_digest}
use optimizer_canary_service.Compare.Samples.Found.{Found, lookup_new_plan_digest-Found}
use optimizer_canary_service.Compare.Samples.Plain.{normalize_explain_sql-Plain}

strings_kept :
    normalize_explain_sql (codes "SELECT  'A b',\"C\" FROM T")
    ≡ ok (codes "select 'A b','C' from t")
unfolding normalize_explain_sql
strings_kept = refl

-- A double quote behind an operator at the very end makes the slice of the token end too early.
quote_at_end : normalize_explain_sql (codes "a=\"") ≡ panic
unfolding normalize_explain_sql
quote_at_end = refl

-- A blank in front of a quoted token comes back behind it.
blank_moves : normalize_explain_sql (codes " 'a'b") ≡ ok (codes "'a' b")
unfolding normalize_explain_sql
blank_moves = refl

normalize_explain_sql-Plain_example :
    normalize_explain_sql (codes " A  b ")
    ≡ ok (to_lower (join (fields (codes " A  b ")) (b' ' ∷ [])))
normalize_explain_sql-Plain_example = normalize_explain_sql-Plain (codes " A  b ") (ground arith)

abbrev explained : Bytes
explained = codes "EXPLAIN SELECT * FROM t"

-- The row of another statement is passed over, and that of the EXPLAIN found.
abbrev answer : DigestRows (Unit {0})
answer = record {
  rows =
      inr record { query_sample = codes "explain select 1"; digest = codes "d0"; plan = old_text }
      ∷ inr record {
        query_sample = codes "explain  select * from T";
        digest = codes "d1";
        plan = old_text;
      }
      ∷ [];
  rows_err = none;
}

digest_found : lookup_new_plan_digest (ok answer) explained old_text ≡ ok (codes "d1")
unfolding lookup_new_plan_digest sort node_string compare_bytes plan_nodes_equal
digest_found = refl

lookup_new_plan_digest-Found_example :
    (new_plan : Plan) × (normalized : Bytes) × (parse_plan old_text ≡ ok new_plan)
    × (normalize_explain_sql explained ≡ ok normalized)
    × Found new_plan normalized answer.rows (codes "d1")
lookup_new_plan_digest-Found_example =
    lookup_new_plan_digest-Found answer explained old_text digest_found
