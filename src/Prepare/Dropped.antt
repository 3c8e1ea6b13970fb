-- ===== src/Prepare/Dropped.antt =====
-- A session binding that was created for a validation is dropped on every path.
use optimizer_canary_service.Base.{
  ◌≡◌, refl, ◌⊎◌, inl, inr, Option, none, some, List, [], ◌∷◌, ◌++◌, Outcome, ok, err, panic,
}
use optimizer_canary_service.Text.{Bytes}
use optimizer_canary_service.Prepare.Workload.{TpccWorkload, PlanOperator, PlanReadError}
use optimizer_canary_service.Prepare.Bindings.{
  Connection, SessionError, create_text, drop_text, Plans, explain_plan_operators, deferred_drop,
  after_drop, after_plan, after_create, explain_with_session_binding, create_failed,
}

module _ {S E : Type 0} (connection : Connection S E) where
  -- The connection, with the statements that it executes noted, the last one first.
  abbrev pub noting_exec : Connection (S × List Bytes) E
  noting_exec = record {
    exec = λ text sl. let (r, s') = connection.exec text sl.0 in (r, (s', text ∷ sl.1));
    query = λ text sl. let (r, s') = connection.query text sl.0 in (r, (s', sl.1));
  }

  -- The statement that drops the binding is the last one, on top of others.
  abbrev DroppedAfter : TpccWorkload → List Bytes → Plans noting_exec (SessionError E) → Type 0
  DroppedAfter w log r = (more : List Bytes) × (r.1.1 ≡ drop_text w ∷ (more ++ log))

  deferred_drop-DroppedAfter :
      (w : TpccWorkload) (e : Outcome (Option E → SessionError E) (Unit {0})) (s : S)
      (log : List Bytes)
      → DroppedAfter w log (deferred_drop noting_exec w e (s, log))
  deferred_drop-DroppedAfter w (ok u) s log = ([], refl)
  deferred_drop-DroppedAfter w (err e) s log = ([], refl)
  deferred_drop-DroppedAfter w panic s log = ([], refl)

  after_drop-DroppedAfter :
      (w : TpccWorkload) (plan : List PlanOperator) (failed : Option E) (s : S) (log : List Bytes)
      → DroppedAfter w log (after_drop noting_exec w plan failed (s, drop_text w ∷ log))
  after_drop-DroppedAfter w plan (some e) s log = (drop_text w ∷ [], refl)
  after_drop-DroppedAfter w plan none s log = ([], refl)

  after_plan-DroppedAfter :
      (w : TpccWorkload) (plan : Outcome (PlanReadError E) (List PlanOperator)) (s : S)
      (log : List Bytes)
      → DroppedAfter w log (after_plan noting_exec w plan (s, log))
  after_plan-DroppedAfter w (ok plan) s log =
      after_drop-DroppedAfter w plan (connection.exec (drop_text w) s).0
        (connection.exec (drop_text w) s).1 log
  after_plan-DroppedAfter w (err e) s log = ([], refl)
  after_plan-DroppedAfter w panic s log = ([], refl)

  -- Either the binding could not be created, and nothing else was executed, or its drop was.
  abbrev pub CreatedOrDropped : TpccWorkload → Plans noting_exec (SessionError E) → Type 0
  CreatedOrDropped w r =
      ((e : E) × (r.0 ≡ err (create_failed e)) × (r.1.1 ≡ create_text w ∷ []))
      ⊎ ((more : List Bytes) × (r.1.1 ≡ drop_text w ∷ (more ++ create_text w ∷ [])))

  after_create-CreatedOrDropped :
      (w : TpccWorkload) (failed : Option E) (s : S)
      → CreatedOrDropped w (after_create noting_exec w failed (s, create_text w ∷ []))
  unfolding explain_plan_operators
  after_create-CreatedOrDropped w (some e) s = inl (e, refl, refl)
  after_create-CreatedOrDropped w none s = inr (
      after_plan-DroppedAfter w (explain_plan_operators noting_exec w.sql (s, create_text w ∷ [])).0
        (explain_plan_operators noting_exec w.sql (s, create_text w ∷ [])).1.0 (create_text w ∷ []))

  -- On a connection that notes what it executes, from any state, the validation of a session binding
  -- either fails to create it and executes nothing more, or the last statement that it executes is the
  -- one that drops the binding, whether it then returns a plan, an error or panics.
  pub explain_with_session_binding-CreatedOrDropped :
      (w : TpccWorkload) (s : S)
      → CreatedOrDropped w (explain_with_session_binding noting_exec w (s, []))
  unfolding explain_with_session_binding
  explain_with_session_binding-CreatedOrDropped w s =
      after_create-CreatedOrDropped w (connection.exec (create_text w) s).0
        (connection.exec (create_text w) s).1
