-- ===== src/Prepare/Bindings.antt =====
-- `explainWithSessionBinding` and `validateTPCCBindings` of prepare/tpcc_runner.go. The connection
-- is a parameter: `S` is its state, `E` its errors.
use optimizer_canary_service.Base.{
  Option, none, some, List, [], ◌∷◌, ◌++◌, if◌then◌else◌, Outcome, ok, err, panic, ◌>>=◌,
}
use optimizer_canary_service.Text.{Bytes, codes}
use optimizer_canary_service.Prepare.Workload.{
  TpccWorkload, PlanOperator, PlanReadError, read_result, slices_equal, build_tpcc_bound_sql,
  alternate_tpcc_binding_hint,
}

-- `ExecContext`, and `QueryContext` with the rows that it yields.
pub record Connection (S : Type 0) (E : Type 0) : Type 0 where
  pub exec : Bytes → S → Option E × S
  pub query : Bytes → S → Outcome E (List Bytes × List (List Bytes)) × S

-- An error of the session binding; the last field is the error of the deferred drop.
pub data SessionError (E : Type 0) : Type 0 where
  create_failed : E → SessionError E
  bound_plan_failed : PlanReadError E → Option E → SessionError E
  drop_failed : E → Option E → SessionError E

pub data ValidationError (E : Type 0) : Type 0 where
  natural_plan : Bytes → PlanReadError E → ValidationError E
  session_binding : Bytes → SessionError E → ValidationError E
  alternate_binding : Bytes → SessionError E → ValidationError E

-- The workload with the other hint.
unfoldable pub alternate_workload : TpccWorkload → Outcome Unit TpccWorkload
unfolding alternate_tpcc_binding_hint build_tpcc_bound_sql
alternate_workload w = do
  hint ← alternate_tpcc_binding_hint w.binding_hint
  bound ← build_tpcc_bound_sql w.sql hint w.tables
  ok (record w { bound_sql = bound; binding_hint = hint })

abbrev pub create_text : TpccWorkload → Bytes
create_text w = codes "CREATE SESSION BINDING FOR " ++ w.sql ++ codes " USING " ++ w.bound_sql

abbrev pub drop_text : TpccWorkload → Bytes
drop_text w = codes "DROP SESSION BINDING FOR " ++ w.sql

module _ {S E : Type 0} (connection : Connection S E) where
  open connection use {exec, query}

  abbrev pub Plans : Type 0 → Type 0
  Plans F = Outcome F (List PlanOperator) × S

  unfoldable pub explain_plan_operators : Bytes → S → Plans (PlanReadError E)
  explain_plan_operators statement s =
      let (r, s') = query (codes "EXPLAIN " ++ statement) s in (read_result r, s')

  -- The drop that is deferred, with what it makes of the error.
  abbrev pub deferred_drop :
      TpccWorkload → Outcome (Option E → SessionError E) (Unit {0}) → S → Plans (SessionError E)
  deferred_drop w (err e) s = let (failed, s') = exec (drop_text w) s in (err (e failed), s')
  deferred_drop w (ok u) s = let (failed, s') = exec (drop_text w) s in (panic, s')
  deferred_drop w panic s = let (failed, s') = exec (drop_text w) s in (panic, s')

  abbrev pub after_drop : TpccWorkload → List PlanOperator → Option E → S → Plans (SessionError E)
  after_drop w plan (some e) s = deferred_drop w (err (drop_failed e)) s
  after_drop w plan none s = (ok plan, s)

  abbrev pub after_plan :
      TpccWorkload → Outcome (PlanReadError E) (List PlanOperator) → S → Plans (SessionError E)
  after_plan w (ok plan) s = let (failed, s') = exec (drop_text w) s in after_drop w plan failed s'
  after_plan w (err e) s = deferred_drop w (err (bound_plan_failed e)) s
  after_plan w panic s = deferred_drop w panic s

  abbrev pub after_create : TpccWorkload → Option E → S → Plans (SessionError E)
  after_create w (some e) s = (err (create_failed e), s)
  after_create w none s = let (plan, s') = explain_plan_operators w.sql s in after_plan w plan s'

  unfoldable pub explain_with_session_binding : TpccWorkload → S → Plans (SessionError E)
  explain_with_session_binding w s =
      let (failed, s') = exec (create_text w) s in after_create w failed s'

  -- What one round of the loop leaves: its error, the workload, and the connection.
  abbrev pub Round : Type 0
  Round = Outcome (ValidationError E) TpccWorkload × S

  abbrev pub after_alternate :
      TpccWorkload → TpccWorkload → List PlanOperator → Plans (SessionError E) → Round
  after_alternate w other natural (ok bound, s) =
      (ok (if slices_equal bound natural then w else other), s)
  after_alternate w other natural (err e, s) = (err (alternate_binding w.name e), s)
  after_alternate w other natural (panic, s) = (panic, s)

  abbrev pub try_alternate :
      TpccWorkload → List PlanOperator → Outcome Unit TpccWorkload → S → Round
  try_alternate w natural (ok other) s =
      after_alternate w other natural (explain_with_session_binding other s)
  try_alternate w natural (err e) s = (panic, s)
  try_alternate w natural panic s = (panic, s)

  abbrev pub after_bound : TpccWorkload → List PlanOperator → Plans (SessionError E) → Round
  after_bound w natural (ok bound, s) =
      let other = try_alternate w natural (alternate_workload w) s in
      if slices_equal bound natural then other else (ok w, s)
  after_bound w natural (err e, s) = (err (session_binding w.name e), s)
  after_bound w natural (panic, s) = (panic, s)

  abbrev pub after_natural : TpccWorkload → Plans (PlanReadError E) → Round
  after_natural w (ok natural, s) = after_bound w natural (explain_with_session_binding w s)
  after_natural w (err e, s) = (err (natural_plan w.name e), s)
  after_natural w (panic, s) = (panic, s)

  unfoldable pub validate_tpcc_binding : TpccWorkload → S → Round
  validate_tpcc_binding w s = after_natural w (explain_plan_operators w.sql s)

  abbrev pub after_round :
      TpccWorkload
      → List TpccWorkload
      → Round
      → (S → (Outcome (ValidationError E) (Unit {0}) × List TpccWorkload) × S)
      → (Outcome (ValidationError E) (Unit {0}) × List TpccWorkload) × S
  after_round w ws (ok w', s) next = let ((r, ws'), s') = next s in ((r, w' ∷ ws'), s')
  after_round w ws (err e, s) next = ((err e, w ∷ ws), s)
  after_round w ws (panic, s) next = ((panic, w ∷ ws), s)

  -- The loop: the error, and the workloads as they are then.
  unfoldable pub validate_tpcc_bindings :
      List TpccWorkload → S → (Outcome (ValidationError E) (Unit {0}) × List TpccWorkload) × S
  unfolding validate_tpcc_binding
  validate_tpcc_bindings [] s = ((ok tt, []), s)
  validate_tpcc_bindings (w ∷ ws) s =
      after_round w ws (validate_tpcc_binding w s) λ s'. validate_tpcc_bindings ws s'
