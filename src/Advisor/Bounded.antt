-- ===== src/Advisor/Bounded.antt =====
-- What every result of `RecommendIndex` holds, and how many they are.
use optimizer_canary_service.Base.{
  ◌≤◌, ◌<◌, ◌≡◌, refl, ◌≢◌, Bool, true, false, ◌||◌, Option, none, some, List, [], ◌∷◌, ◌++◌, arith,
  leb, length, length-append, All, All-append, Outcome, ok, err, panic,
}
use optimizer_canary_service.Base.Exec.{Exec, continue, wrapped}
use optimizer_canary_service.Text.{Bytes}
use optimizer_canary_service.Advisor.Samples.{
  Sample, RecommendIndexSample, Floats, aggregate_and_sort_samples,
}
use optimizer_canary_service.Advisor.Statement.{
  build_hypo_index_sql, convert_to_recommendable_statement,
}
use optimizer_canary_service.Advisor.Recommend.{
  AdvisorDatabase, Advice, get_sql_plan, recommend_for,
}
use optimizer_canary_service.Advisor.Loop.{
  max_results, RecommendIndexResult, SampleRows, LoopError, hint, samples_of, is_sql_syntax_error,
  is_empty_query_set_error, try_call, completed, complete_advice, result_of, with_old_plan,
  with_recommendations, recommend_one, append_result, break_or, is_full, recommend_all,
  recommend_index,
}

module _ {S E : Type 0} where
  -- What holds of the value that a call returns, where it returns one.
  abbrev pub Yields : {A : Type 0} → (A → Type 0) → Outcome E A × S → Type 0
  Yields P (ok a, s) = P a
  Yields P (err e, s) = Unit
  Yields P (panic, s) = Unit

  continue-Yields :
      {A B : Type 0} (P : A → Type 0) (Q : B → Type 0) (first : Outcome E A × S)
      (next : A → Exec S E B)
      → Yields P first
      → ((a : A) (s : S) → P a → Yields Q (next a s))
      → Yields Q (continue first next)
  unfolding continue
  continue-Yields P Q (ok a, s) next h k = k a s h
  continue-Yields P Q (err e, s) next h k = tt
  continue-Yields P Q (panic, s) next h k = tt

  any-Yields : {A : Type 0} (call : Outcome E A × S) → Yields (λ a. Unit {0}) call
  any-Yields (ok a, s) = tt
  any-Yields (err e, s) = tt
  any-Yields (panic, s) = tt

  wrapped-Yields :
      {X A : Type 0} (wrap : X → E) (result : Outcome X A) (s : S)
      → Yields (λ a. result ≡ ok a) (wrapped wrap result, s)
  unfolding wrapped
  wrapped-Yields wrap (ok a) s = refl
  wrapped-Yields wrap (err e) s = tt
  wrapped-Yields wrap panic s = tt

module _ {F : Type 0} where
  -- The SQL that an advice was explained with is the statement with the hint for its index.
  abbrev pub IsExplained : Bytes → Advice F → Type 0
  IsExplained sql advice = build_hypo_index_sql sql (advice.index ∷ []) ≡ ok advice.new_sql

  -- A result has an advice at least, and each of them was explained.
  abbrev pub IsAdvised : RecommendIndexResult F → Type 0
  IsAdvised result =
      (result.recommendations ≢ []) × All (IsExplained result.sql) result.recommendations

  abbrev OptionIsAdvised : Option (RecommendIndexResult F) → Type 0
  OptionIsAdvised none = Unit
  OptionIsAdvised (some result) = IsAdvised result

  completed-All :
      {S E : Type 0} (database : AdvisorDatabase S E F) (old : Bytes) (advice : Advice F)
      (sql : Bytes) (plan : Option Bytes) (rest : List (Advice F))
      → build_hypo_index_sql old (advice.index ∷ []) ≡ ok sql
      → All (IsExplained old) rest
      → All (IsExplained old) (completed database advice sql plan rest)
  completed-All database old advice sql none rest h k = k
  completed-All database old advice sql (some plan) rest h k = (h, k)

module _ {S E F : Type 0} (database : AdvisorDatabase S E F) where
  complete_advice-Yields :
      (x : Sample) (advice : List (Advice F)) (s : S)
      → Yields (All (IsExplained x.sql)) (complete_advice database x advice s)
  unfolding complete_advice
  complete_advice-Yields x [] s = tt
  complete_advice-Yields x (advice ∷ rest) s =
      continue-Yields (λ sql. build_hypo_index_sql x.sql (advice.index ∷ []) ≡ ok sql)
        (All (IsExplained x.sql)) (wrapped hint (build_hypo_index_sql x.sql (advice.index ∷ [])), s)
        _ (wrapped-Yields hint (build_hypo_index_sql x.sql (advice.index ∷ [])) s)
        (λ sql s built.
          continue-Yields (λ plan. Unit) (All (IsExplained x.sql))
            (try_call database (is_sql_syntax_error database) (get_sql_plan database x sql s)) _
            (any-Yields
              (try_call database (is_sql_syntax_error database) (get_sql_plan database x sql s)))
            (λ plan s h.
              continue-Yields (All (IsExplained x.sql)) (All (IsExplained x.sql))
                (complete_advice database x rest s) _ (complete_advice-Yields x rest s)
                (λ done s k. completed-All database x.sql advice sql plan done built k)))

  result_of-IsAdvised :
      (x : RecommendIndexSample F) (old_plan : Bytes) (done : List (Advice F))
      → All (IsExplained x.sql) done
      → OptionIsAdvised (result_of database x old_plan done)
  result_of-IsAdvised x old_plan [] h = tt
  result_of-IsAdvised x old_plan (advice ∷ done) h = ((λ e. cc), h)

  with_old_plan-Yields :
      (x : RecommendIndexSample F) (advice : List (Advice F)) (old_plan : Option Bytes) (s : S)
      → Yields OptionIsAdvised (with_old_plan database x advice old_plan s)
  with_old_plan-Yields x advice none s = tt
  with_old_plan-Yields x advice (some old_plan) s =
      continue-Yields (All (IsExplained x.sql)) OptionIsAdvised
        (complete_advice database x.sample advice s) _ (complete_advice-Yields x.sample advice s)
        (λ done s h. result_of-IsAdvised x old_plan done h)

  with_recommendations-Yields :
      (x : RecommendIndexSample F) (found : Option (List (Advice F))) (s : S)
      → Yields OptionIsAdvised (with_recommendations database x found s)
  with_recommendations-Yields x none s = tt
  with_recommendations-Yields x (some []) s = tt
  with_recommendations-Yields x (some (advice ∷ rest)) s =
      let explained =
        try_call database (is_sql_syntax_error database)
          (get_sql_plan database x.sample (convert_to_recommendable_statement x.sql) s) in
      continue-Yields (λ plan. Unit) OptionIsAdvised explained _ (any-Yields explained)
        (λ plan s h. with_old_plan-Yields x (advice ∷ rest) plan s)

  recommend_one-Yields :
      (x : RecommendIndexSample F) (s : S) → Yields OptionIsAdvised (recommend_one database x s)
  unfolding recommend_one
  recommend_one-Yields x s =
      let found =
        try_call database
          (λ e. is_sql_syntax_error database e || is_empty_query_set_error database e)
          (recommend_for database x.sample s) in
      continue-Yields (λ found. Unit) OptionIsAdvised found _ (any-Yields found)
        (λ found s h. with_recommendations-Yields x found s)

  -- At most 30 results, all of them advised.
  abbrev pub InBounds : List (RecommendIndexResult F) → Type 0
  InBounds results = (length results ≤ max_results) × All IsAdvised results

  abbrev More : Type 0
  More = List (RecommendIndexResult F) → Outcome (LoopError E) (List (RecommendIndexResult F)) × S

  break_or-Yields :
      (full : Bool) (results : List (RecommendIndexResult F)) (s : S) (more : More)
      → InBounds results
      → (full ≡ false → Yields InBounds (more results))
      → Yields InBounds (break_or database full results s more)
  break_or-Yields true results s more h k = h
  break_or-Yields false results s more h k = k refl

  next_round :
      (results : List (RecommendIndexResult F)) (found : Option (RecommendIndexResult F)) (s : S)
      (more : More)
      → length results < max_results
      → All IsAdvised results
      → OptionIsAdvised found
      → ((rs : List (RecommendIndexResult F))
          → length rs < max_results
          → All IsAdvised rs
          → Yields InBounds (more rs))
      → Yields InBounds (
          break_or database
            (is_full database (append_result database results found) found)
            (append_result database results found)
            s
            more)
  next_round results none s more room all h k = k results room all
  next_round results (some result) s more room all h k =
      let results' = results ++ result ∷ [] in
      let all' = All-append IsAdvised results (result ∷ []) all (h, tt) in
      let one_more = length-append results (result ∷ []) in
      break_or-Yields (leb max_results (length results')) results' s more
        (omega (arith, one_more, room), all')
        (λ not_full. k results' (ground (arith, not_full)) all')

  recommend_all-Yields :
      (results : List (RecommendIndexResult F)) (samples : List (RecommendIndexSample F)) (s : S)
      → length results < max_results
      → All IsAdvised results
      → Yields InBounds (recommend_all database results samples s)
  unfolding recommend_all
  recommend_all-Yields results [] s room all = (omega (arith, room), all)
  recommend_all-Yields results (x ∷ samples) s room all =
      continue-Yields OptionIsAdvised InBounds (recommend_one database x s) _
        (recommend_one-Yields x s)
        (λ found s h.
          next_round results found s (λ rs. recommend_all database rs samples s) room all h
            (λ rs less every. recommend_all-Yields rs samples s less every))

  -- Where `RecommendIndex` returns results, they are 30 at most, each has an advice at least, and
  -- the SQL of each advice is the statement of its result with the hint for its index alone.
  pub recommend_index-InBounds :
      (floats : Floats F) (iterate : List (RecommendIndexSample F) → List (RecommendIndexSample F))
      (query_rows : S → Outcome E (SampleRows E F) × S) (s : S)
      → Yields InBounds (recommend_index database floats iterate query_rows s)
  unfolding recommend_index
  recommend_index-InBounds floats iterate query_rows s =
      continue-Yields (λ raw. Unit) InBounds (samples_of (query_rows s).0, (query_rows s).1) _
        (any-Yields (samples_of (query_rows s).0, (query_rows s).1))
        (λ raw s h.
          recommend_all-Yields [] (aggregate_and_sort_samples floats iterate raw) s (omega arith)
            tt)
