-- ===== src/Compare/Samples/Found.antt =====
-- The digest that is found belongs to the same statement and the same plan.
use optimizer_canary_service.Base.{
  ◌≡◌, refl, ap, ◌∙◌, ◌⊎◌, inl, inr, Bool, true, false, Option, none, some, List, [], ◌∷◌, ◌++◌,
  arith, if◌then◌else◌, Outcome, ok, err, panic, bind_ok,
}
use optimizer_canary_service.Text.{Bytes, bytes_eq, bytes_eq_iff}
use optimizer_canary_service.Compare.Plan.Parse.{Plan, PlanError, parse_plan}
use optimizer_canary_service.Compare.Plan.Equal.{plans_equal}
use optimizer_canary_service.Compare.Plan.Equality.{forget_ids, compare_plans_iff}
use optimizer_canary_service.Compare.Samples.Normalize.{normalize_explain_sql}
use optimizer_canary_service.Compare.Samples.Digest.{
  DigestRow, DigestRows, DigestError, row_matches, same_plan, find_digest, found_or,
  lookup_new_plan_digest, normalized_then, plan_then,
}

-- A row of the same statement, whose plan can be read and differs in operator IDs at most.
pub record Matches (new_plan : Plan) (normalized : Bytes) (row : DigestRow) : Type 0 where
  plan : Plan
  same_statement : normalize_explain_sql row.query_sample ≡ ok normalized
  is_read : parse_plan row.plan ≡ ok plan
  same_tree : forget_ids new_plan.root ≡ forget_ids plan.root

same_plan-ok :
    (new_plan : Plan) (o : Outcome PlanError Plan)
    → same_plan new_plan o ≡ ok true
    → (plan : Plan) × (o ≡ ok plan) × (plans_equal new_plan plan ≡ true)
same_plan-ok new_plan (ok plan) h = (plan, refl, ground (arith, h))
same_plan-ok new_plan (err e) h = cc
same_plan-ok new_plan panic h = cc

both :
    (b : Bool) (o : Outcome Unit Bool)
    → (if b then o else ok false) ≡ ok true
    → (b ≡ true) × (o ≡ ok true)
both true o h = (refl, h)
both false o h = cc

row_matches-Matches :
    (text : Bytes) (new_plan : Plan) (normalized : Bytes) (row : DigestRow)
    → parse_plan text ≡ ok new_plan
    → row_matches new_plan normalized row ≡ ok true
    → Matches new_plan normalized row
unfolding row_matches plans_equal
row_matches-Matches text new_plan normalized row new_read h =
    let (sample, said, rest) =
      bind_ok (normalize_explain_sql row.query_sample)
        (λ sample.
          if bytes_eq sample normalized then same_plan new_plan (parse_plan row.plan) else ok false)
        h in
    let (same, matched) =
      both (bytes_eq sample normalized) (same_plan new_plan (parse_plan row.plan)) rest in
    let (plan, is_read, equal) = same_plan-ok new_plan (parse_plan row.plan) matched in
    record {
      plan = plan;
      same_statement = said ∙ ap (λ t. ok t) ((bytes_eq_iff sample normalized).0 same);
      is_read = is_read;
      same_tree = (compare_plans_iff text row.plan new_read is_read).0 equal;
    }

-- The digest is that of a row that matches.
pub record Found {E : Type 0} (new_plan : Plan) (normalized : Bytes) (rows : List (E ⊎ DigestRow))
    (digest : Bytes) : Type 0 where
  before : List (E ⊎ DigestRow)
  row : DigestRow
  after : List (E ⊎ DigestRow)
  splits : rows ≡ before ++ inr row ∷ after
  is_digest : row.digest ≡ digest
  matches : Matches new_plan normalized row

module _ {E : Type 0} (text : Bytes) (new_plan : Plan)
    (new_read : parse_plan text ≡ ok new_plan) where
  Found-later :
      (normalized digest : Bytes) (first : E ⊎ DigestRow) (rows : List (E ⊎ DigestRow))
      → Found new_plan normalized rows digest
      → Found new_plan normalized (first ∷ rows) digest
  Found-later normalized digest first rows f = record {
    before = first ∷ f.before;
    row = f.row;
    after = f.after;
    splits = ap (λ t. first ∷ t) f.splits;
    is_digest = f.is_digest;
    matches = f.matches;
  }

  found_or-Found :
      (normalized digest : Bytes) (row : DigestRow) (rows : List (E ⊎ DigestRow))
      (o : Outcome Unit Bool) (later : Outcome (DigestError E) Bytes)
      → row_matches new_plan normalized row ≡ o
      → (later ≡ ok digest → Found new_plan normalized rows digest)
      → found_or o row.digest later ≡ ok digest
      → Found new_plan normalized (inr row ∷ rows) digest
  found_or-Found normalized digest row rows (ok true) later e f h = record {
    before = [];
    row = row;
    after = rows;
    splits = refl;
    is_digest = cc;
    matches = row_matches-Matches text new_plan normalized row new_read e;
  }
  found_or-Found normalized digest row rows (ok false) later e f h =
      Found-later normalized digest (inr row) rows (f h)
  found_or-Found normalized digest row rows (err u) later e f h = cc
  found_or-Found normalized digest row rows panic later e f h = cc

  find_digest-Found :
      (normalized digest : Bytes) (rows : List (E ⊎ DigestRow)) (rows_err : Option E)
      → find_digest new_plan normalized rows rows_err ≡ ok digest
      → Found new_plan normalized rows digest
  unfolding find_digest
  find_digest-Found normalized digest [] none h = cc
  find_digest-Found normalized digest [] (some e) h = cc
  find_digest-Found normalized digest (inl e ∷ rows) rows_err h = cc
  find_digest-Found normalized digest (inr row ∷ rows) rows_err h =
      found_or-Found normalized digest row rows (row_matches new_plan normalized row)
        (find_digest new_plan normalized rows rows_err) refl
        (find_digest-Found normalized digest rows rows_err) h

-- A digest that is looked up is that of a row of the answer. The new plan and the row's plan can both
-- be read, their trees differ in operator IDs at most, and the statement of the row has the normal
-- form of the EXPLAIN.
pub lookup_new_plan_digest-Found :
    {E : Type 0} (answer : DigestRows E) (explain_sql text : Bytes) {digest : Bytes}
    → lookup_new_plan_digest (ok answer) explain_sql text ≡ ok digest
    → (new_plan : Plan) × (normalized : Bytes) × (parse_plan text ≡ ok new_plan)
      × (normalize_explain_sql explain_sql ≡ ok normalized)
      × Found new_plan normalized answer.rows digest
unfolding lookup_new_plan_digest
lookup_new_plan_digest-Found answer explain_sql text {digest} h = from_plan (parse_plan text) refl h
  where
    from_normalized :
        (new_plan : Plan) (o : Outcome Unit Bytes)
        → parse_plan text ≡ ok new_plan
        → normalize_explain_sql explain_sql ≡ o
        → normalized_then o (λ n. find_digest new_plan n answer.rows answer.rows_err) ≡ ok digest
        → (new_plan : Plan) × (normalized : Bytes) × (parse_plan text ≡ ok new_plan)
          × (normalize_explain_sql explain_sql ≡ ok normalized)
          × Found new_plan normalized answer.rows digest
    from_normalized new_plan (ok n) read e h = (
      new_plan,
      n,
      read,
      e,
      find_digest-Found text new_plan read n digest answer.rows answer.rows_err h,
    )
    from_normalized new_plan (err u) read e h = cc
    from_normalized new_plan panic read e h = cc

    from_plan :
        (o : Outcome PlanError Plan)
        → parse_plan text ≡ o
        → plan_then o (λ p.
          normalized_then
            (normalize_explain_sql explain_sql)
            λ n. find_digest p n answer.rows answer.rows_err)
          ≡ ok digest
        → (new_plan : Plan) × (normalized : Bytes) × (parse_plan text ≡ ok new_plan)
          × (normalize_explain_sql explain_sql ≡ ok normalized)
          × Found new_plan normalized answer.rows digest
    from_plan (ok p) e h = from_normalized p (normalize_explain_sql explain_sql) e refl h
    from_plan (err x) e h = cc
    from_plan panic e h = cc
