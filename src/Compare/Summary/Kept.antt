-- ===== src/Compare/Summary/Kept.antt =====
-- What `Compare` keeps of a state, and which errors it returns, by what its repository does.
use optimizer_canary_service.Base.{
  ◌≡◌, refl, ◌≢◌, Bool, true, false, Option, none, some, List, [], ◌∷◌, Outcome, ok, err, panic,
}
use optimizer_canary_service.Compare.Plan.Parse.{parse_plan}
use optimizer_canary_service.Compare.Plan.Equal.{compare_plans}
use optimizer_canary_service.Compare.Binding.Place.{get_current_plan_binding}
use optimizer_canary_service.Base.Exec.{Exec, continue, pure, wrapped}
use optimizer_canary_service.Text.{Bytes}
use optimizer_canary_service.Compare.Summary.Infos.{Sample, SqlInfo, aggregate_sql_infos}
use optimizer_canary_service.Compare.Summary.Run.{
  CompareRepository, CompareError, sql_info, current_plan, explain, new_plan, new_digest, binding,
  Tally, no_tally, call, stop_if, check_context, found_or_explained, get_new_plan, digest_by,
  note_change, compare_one, compare_all, compare_rows,
}

-- Not the error that a digest is missing.
abbrev pub Allowed : {E : Type 0} → CompareError E → Type 0
Allowed {E} e = (digest : Bytes) (cause : E) → e ≢ new_digest digest cause

module _ {S E : Type 0} (Kept : S → Type 0) where
  abbrev pub IsAllowed : {A : Type 0} → Outcome (CompareError E) A → Type 0
  IsAllowed (err e) = Allowed e
  IsAllowed (ok a) = Unit
  IsAllowed panic = Unit

  abbrev pub Post : {A : Type 0} → Outcome (CompareError E) A × S → Type 0
  Post (result, s) = Kept s × IsAllowed result

  continue-Post :
      {A B : Type 0} (first : Outcome (CompareError E) A × S) (next : A → Exec S (CompareError E) B)
      → Post first
      → ((a : A) (s : S) → Kept s → Post (next a s))
      → Post (continue first next)
  unfolding continue
  continue-Post (ok a, s) next h k = k a s h.0
  continue-Post (err e, s) next h k = h
  continue-Post (panic, s) next h k = h

  -- A repository whose operations keep the state, and never fail to give a digest.
  pub record Keeping (repository : CompareRepository S E) : Type 0 where
    pub infos : (s : S) → Kept s → Kept (repository.get_sql_info s).1
    pub plan : (x : Sample) (s : S) → Kept s → Kept (repository.explain_plan x s).1
    pub digest :
        (get : Sample → Bytes → S → Outcome E Bytes × S)
        → repository.get_new_plan_digest ≡ some get
        → (x : Sample) (text : Bytes) (s : S) → Kept s
        → Kept (get x text s).1 × ((e : E) → (get x text s).0 ≢ err e)

  wrapped-IsAllowed :
      {F A : Type 0} (wrap : F → CompareError E) (result : Outcome F A)
      → ((e : F) → Allowed (wrap e))
      → IsAllowed (wrapped wrap result)
  unfolding wrapped
  wrapped-IsAllowed wrap (ok a) h = tt
  wrapped-IsAllowed wrap (err e) h = h e
  wrapped-IsAllowed wrap panic h = tt

  never-IsAllowed :
      {A : Type 0} (wrap : E → CompareError E) (result : Outcome E A)
      → ((e : E) → result ≢ err e)
      → IsAllowed (wrapped wrap result)
  unfolding wrapped
  never-IsAllowed wrap (ok a) h = tt
  never-IsAllowed wrap (err e) h = elim (h e refl) [ ]
  never-IsAllowed wrap panic h = tt

  module _ (repository : CompareRepository S E) (keeping : Keeping repository) where
    stop_if-IsAllowed : (stop : Option E) → IsAllowed (stop_if repository stop)
    stop_if-IsAllowed none = tt
    stop_if-IsAllowed (some e) = λ d x p. cc

    found_or_explained-Post :
        (t : Tally) (info : SqlInfo) (found : Option Bytes) (s : S)
        → Kept s
        → Post (found_or_explained repository t info found s)
    found_or_explained-Post t info (some text) s h = (h, tt)
    found_or_explained-Post t info none s h =
        continue-Post
          (call repository (explain info.sql_digest) (repository.explain_plan info.sample) s)
          (λ text. pure (text, record t { explained = (info.sample, text) ∷ t.explained }))
          (
            keeping.plan info.sample s h,
            wrapped-IsAllowed (explain info.sql_digest) (repository.explain_plan info.sample s).0
                (λ e d x p. cc),
          )
          (λ text s k. (k, tt))

    digest_by-Post :
        (get : Option (Sample → Bytes → S → Outcome E Bytes × S)) (info : SqlInfo) (text : Bytes)
        (s : S)
        → repository.get_new_plan_digest ≡ get
        → Kept s
        → Post (digest_by repository get info text s)
    digest_by-Post none info text s is h = (h, tt)
    digest_by-Post (some get) info text s is h =
        let (kept, never) = keeping.digest get is info.sample text s h in
        (kept, never-IsAllowed (new_digest info.sql_digest) (get info.sample text s).0 never)

    note_change-Post :
        (t : Tally) (info : SqlInfo) (text : Bytes) (change : Bool × Bytes) (s : S)
        → Kept s
        → Post (note_change repository t info text change s)
    unfolding note_change
    note_change-Post t info text (true, reason) s h = (h, tt)
    note_change-Post t info text (false, reason) s h =
        continue-Post (digest_by repository repository.get_new_plan_digest info text s) _
          (digest_by-Post repository.get_new_plan_digest info text s refl h)
          (λ digest s' k.
            continue-Post
              (
                wrapped (binding info.sql_digest)
                    (get_current_plan_binding info.sql info.plan_hint),
                s',
              )
              _
              (
                k,
                wrapped-IsAllowed (binding info.sql_digest)
                    (get_current_plan_binding info.sql info.plan_hint) (λ e d x p. cc),
              )
              (λ bound s j. (j, tt)))

    compare_one-Post :
        (t : Tally) (info : SqlInfo) (s : S) → Kept s → Post (compare_one repository t info s)
    unfolding compare_one get_new_plan
    compare_one-Post t info s h =
        continue-Post (check_context repository s) _ (h, stop_if-IsAllowed (repository.ctx_err s))
          (λ checked s h.
            continue-Post
              (wrapped (current_plan info.sql_digest info.plan_digest) (parse_plan info.plan), s) _
              (
                h,
                wrapped-IsAllowed (current_plan info.sql_digest info.plan_digest)
                    (parse_plan info.plan) (λ e d x p. cc),
              )
              (λ current s h.
                continue-Post (get_new_plan repository _ info s) _
                  (found_or_explained-Post _ info _ s h)
                  (λ found s h.
                    continue-Post (wrapped (new_plan info.sql_digest) (parse_plan found.0), s) _
                      (
                        h,
                        wrapped-IsAllowed (new_plan info.sql_digest) (parse_plan found.0)
                            (λ e d x p. cc),
                      )
                      (λ parsed s h.
                        note_change-Post found.1 info found.0 (compare_plans current parsed) s h))))

    compare_all-Post :
        (t : Tally) (infos : List SqlInfo) (s : S)
        → Kept s
        → Post (compare_all repository t infos s)
    unfolding compare_all
    compare_all-Post t [] s h = (h, tt)
    compare_all-Post t (info ∷ infos) s h =
        continue-Post (compare_one repository t info s) (λ t'. compare_all repository t' infos)
          (compare_one-Post t info s h) (λ t' s k. compare_all-Post t' infos s k)

    pub compare_rows-Post : (s : S) → Kept s → Post (compare_rows repository s)
    unfolding compare_rows
    compare_rows-Post s h =
        continue-Post (call repository sql_info repository.get_sql_info s) _
          (
            keeping.infos s h,
            wrapped-IsAllowed sql_info (repository.get_sql_info s).0 (λ e d x p. cc),
          )
          (λ infos s h.
            continue-Post (compare_all repository no_tally (aggregate_sql_infos infos) s) _
              (compare_all-Post no_tally (aggregate_sql_infos infos) s h) (λ t s k. (k, tt)))
