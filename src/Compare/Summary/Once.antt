-- ===== src/Compare/Summary/Once.antt =====
-- `Compare` asks for each statement's plan once: over a repository that notes its EXPLAINs, no
-- sample is noted twice.
use optimizer_canary_service.Base.{
  ◌+◌, ◌≡◌, refl, ap, Bool, true, false, Option, none, some, List, [], ◌∷◌, ◌++◌, arith, All,
  Outcome, ok, err, panic,
}
use optimizer_canary_service.Base.Exec.{pure, Exec, continue, wrapped}
use optimizer_canary_service.Text.{Bytes, bytes_eq_iff}
use optimizer_canary_service.Compare.Summary.Infos.{aggregate_sql_infos, u64, SqlInfo, Sample}
use optimizer_canary_service.Compare.Plan.Equal.{compare_plans}
use optimizer_canary_service.Compare.Summary.Run.{
  check_context, add_key, key_of, new_digest, explain, get_new_plan, found_or_explained, digest_by,
  compare_all, compare_one, compare_rows, note_change, stop_if, no_tally, sql_info, call, summarize,
  CompareRepository, CompareError, Tally, sample_eq, find_plan,
}

module _ {S E : Type 0} where
  noted :
      Option (Sample → Bytes → S → Outcome E Bytes × S)
      → Option (Sample → Bytes → S × List Sample → Outcome E Bytes × (S × List Sample))
  noted none = none
  noted (some get) = some (λ x text sl. let (r, s') = get x text sl.0 in (r, (s', sl.1)))

  -- The repository, with the samples of its EXPLAIN calls noted, the last one first.
  unfoldable pub logged : CompareRepository S E → CompareRepository (S × List Sample) E
  unfolding noted
  logged repository = record {
    get_sql_info = λ sl. let (r, s') = repository.get_sql_info sl.0 in (r, (s', sl.1));
    explain_plan = λ x sl. let (r, s') = repository.explain_plan x sl.0 in (r, (s', x ∷ sl.1));
    get_new_plan_digest = noted repository.get_new_plan_digest;
    ctx_err = λ sl. repository.ctx_err sl.0;
  }

abbrev pub NoRepeats : List Sample → Type 0
NoRepeats [] = Unit
NoRepeats (x ∷ xs) = All (λ y. sample_eq x y ≡ false) xs × NoRepeats xs

abbrev samples : List (Sample × Bytes) → List Sample
samples [] = []
samples (x ∷ xs) = x.0 ∷ samples xs

-- The log is that of the map `explained`.
abbrev Inv : Tally → List Sample → Type 0
Inv t l = NoRepeats l × (l ≡ samples t.explained)

sample_eq_comm : (a b : Sample) → sample_eq a b ≡ sample_eq b a
sample_eq_comm a b = ground (
  arith,
  bytes_eq_iff a.schema b.schema,
  bytes_eq_iff a.sql b.sql,
  bytes_eq_iff b.schema a.schema,
  bytes_eq_iff b.sql a.sql,
)

find_plan-none :
    (m : List (Sample × Bytes)) (k : Sample)
    → find_plan m k ≡ none
    → All (λ y. sample_eq k y ≡ false) (samples m)
unfolding find_plan
find_plan-none [] k e = tt
find_plan-none ((j, v) ∷ m) k e = ground (arith, sample_eq_comm k j, find_plan-none m k)

module _ {S E : Type 0} where
  -- A call that ends well leaves its value and the log so, and one that ends badly leaves a log
  -- without repetitions.
  unfoldable Ends :
      {A : Type 0}
      → (A → List Sample → Type 0)
      → Outcome (CompareError E) A × (S × List Sample)
      → Type 0
  Ends P (ok a, (s, l)) = P a l
  Ends P (err e, (s, l)) = NoRepeats l
  Ends P (panic, (s, l)) = NoRepeats l

  Ends-continue :
      {A B : Type 0} (P : A → List Sample → Type 0) (R : B → List Sample → Type 0)
      (o : Outcome (CompareError E) A × (S × List Sample))
      (f : A → Exec (S × List Sample) (CompareError E) B)
      → Ends P o
      → ((a : A) (s : S) (l : List Sample) → P a l → Ends R (f a (s, l)))
      → Ends R (continue o f)
  unfolding Ends continue
  Ends-continue P R (ok a, (s, l)) f h k = k a s l h
  Ends-continue P R (err e, (s, l)) f h k = h
  Ends-continue P R (panic, (s, l)) f h k = h

  Ends-NoRepeats :
      {A : Type 0} (o : Outcome (CompareError E) A × (S × List Sample))
      → Ends (λ _ l. NoRepeats l) o
      → NoRepeats o.1.1
  unfolding Ends
  Ends-NoRepeats (ok a, (s, l)) h = h
  Ends-NoRepeats (err e, (s, l)) h = h
  Ends-NoRepeats (panic, (s, l)) h = h

  Ends-lift :
      {A F : Type 0} (P : A → List Sample → Type 0) (wrap : F → CompareError E) (o : Outcome F A)
      (s : S) (l : List Sample)
      → NoRepeats l
      → ((a : A) → P a l)
      → Ends P (wrapped wrap o, (s, l))
  unfolding Ends wrapped
  Ends-lift P wrap (ok a) s l n h = h a
  Ends-lift P wrap (err e) s l n h = n
  Ends-lift P wrap panic s l n h = n

Inv-explained :
    (t : Tally) (l : List Sample) (x : Sample) (text : Bytes)
    → find_plan t.explained x ≡ none
    → Inv t l
    → Inv (record t { explained = (x, text) ∷ t.explained }) (x ∷ l)
Inv-explained t l x text fresh h =
    ((rw h.1 (find_plan-none t.explained x fresh), h.0), ap (λ m. x ∷ m) h.1)

module _ {S : Type 0} (E : Type 0) where
  Ends-ok :
      {A : Type 0} (P : A → List Sample → Type 0) (a : A) (s : S) (l : List Sample)
      → P a l
      → Ends {E = E} P (ok a, (s, l))
  unfolding Ends
  Ends-ok P a s l h = h

module _ {S E : Type 0} (repository : CompareRepository S E) where
  Ends-stop_if :
      (o : Option E) (t : Tally) (s : S) (l : List Sample)
      → Inv t l
      → Ends (λ _ l'. Inv t l') (stop_if (logged repository) o, (s, l))
  unfolding Ends
  Ends-stop_if none t s l h = h
  Ends-stop_if (some e) t s l h = h.0

  Ends-check :
      (t : Tally) (s : S) (l : List Sample)
      → Inv t l
      → Ends (λ _ l'. Inv t l') (check_context (logged repository) (s, l))
  unfolding logged
  Ends-check t s l h = Ends-stop_if (repository.ctx_err s) t s l h

  Ends-explained :
      (o : Outcome E Bytes × S) (t : Tally) (info : SqlInfo) (l : List Sample)
      → find_plan t.explained info.sample ≡ none
      → Inv t l
      → Ends
          (λ r l'. Inv r.1 l')
          (continue {A = Bytes} {B = Bytes × Tally}
            (wrapped (explain info.sql_digest) o.0, (o.1, info.sample ∷ l))
            λ text. pure (text, record t { explained = (info.sample, text) ∷ t.explained }))
  unfolding Ends wrapped continue
  Ends-explained (ok text, s) t info l fresh h = Inv-explained t l info.sample text fresh h
  Ends-explained (err e, s) t info l fresh h = (Inv-explained t l info.sample [] fresh h).0
  Ends-explained (panic, s) t info l fresh h = (Inv-explained t l info.sample [] fresh h).0

  Ends-found :
      (o : Option Bytes) (t : Tally) (info : SqlInfo) (s : S) (l : List Sample)
      → find_plan t.explained info.sample ≡ o
      → Inv t l
      → Ends (λ r l'. Inv r.1 l') (found_or_explained (logged repository) t info o (s, l))
  unfolding logged Ends
  Ends-found (some text) t info s l e h = h
  Ends-found none t info s l e h =
      Ends-explained (repository.explain_plan info.sample s) t info l e h

  Ends-digested :
      (o : Outcome E Bytes × S) (wrap : E → CompareError E) (t : Tally) (l : List Sample)
      → Inv t l
      → Ends (λ _ l'. Inv t l') (wrapped wrap o.0, (o.1, l))
  unfolding Ends wrapped
  Ends-digested (ok text, s) wrap t l h = h
  Ends-digested (err e, s) wrap t l h = h.0
  Ends-digested (panic, s) wrap t l h = h.0

  Ends-digest_by :
      (o : Option (Sample → Bytes → S → Outcome E Bytes × S)) (t : Tally) (info : SqlInfo)
      (text : Bytes) (s : S) (l : List Sample)
      → Inv t l
      → Ends (λ _ l'. Inv t l') (digest_by (logged repository) (noted o) info text (s, l))
  unfolding noted Ends
  Ends-digest_by none t info text s l h = h
  Ends-digest_by (some get) t info text s l h =
      Ends-digested (get info.sample text s) (new_digest info.sql_digest) t l h

  Ends-note_change :
      (verdict : Bool × Bytes) (t : Tally) (info : SqlInfo) (text : Bytes) (s : S) (l : List Sample)
      → Inv t l
      → Ends Inv (note_change (logged repository) t info text verdict (s, l))
  unfolding note_change logged
  Ends-note_change (true, reason) t info text s l h = Ends-ok E Inv t s l h
  Ends-note_change (false, reason) t info text s l h =
      Ends-continue (λ _ l'. Inv t l') Inv _ _
        (Ends-digest_by repository.get_new_plan_digest t info text s l h)
        λ digest s' l' h'.
          Ends-continue (λ _ l''. Inv t l'') Inv _ _
            (Ends-lift (λ _ l''. Inv t l'') _ _ s' l' h'.0 (λ _. h'))
            λ bound s'' l'' h''.
              Ends-ok E Inv
                (record t {
                  changed =
                      t.changed
                      ++ record {
                        statement = info;
                        new_plan_text = text;
                        new_plan_digest = digest;
                        bindings = bound;
                        plan_change = reason;
                      }
                        ∷ [];
                  changed_keys = add_key t.changed_keys (key_of info);
                })
                s'' l'' h''

  Ends-compare_one :
      (t : Tally) (info : SqlInfo) (s : S) (l : List Sample)
      → Inv t l
      → Ends Inv (compare_one (logged repository) t info (s, l))
  unfolding compare_one get_new_plan
  Ends-compare_one t info s l h =
      let counted = record t {
        total = u64 (t.total + info.exec_count);
        checked = add_key t.checked (key_of info);
      } in
      Ends-continue (λ _ l'. Inv counted l') Inv _ _ (Ends-check counted s l h)
        λ _ s' l' h'.
          Ends-continue (λ _ l'. Inv counted l') Inv _ _
            (Ends-lift (λ _ l''. Inv counted l'') _ _ s' l' h'.0 (λ _. h'))
            λ current s1 l1 h1.
              Ends-continue (λ r l'. Inv r.1 l') Inv _ _
                (Ends-found (find_plan t.explained info.sample) counted info s1 l1 refl h1)
                λ found s2 l2 h2.
                  Ends-continue (λ _ l'. Inv found.1 l') Inv _ _
                    (Ends-lift (λ _ l''. Inv found.1 l'') _ _ s2 l2 h2.0 (λ _. h2))
                    λ parsed s3 l3 h3.
                      Ends-note_change (compare_plans current parsed) found.1 info found.0 s3 l3 h3

  Ends-compare_all :
      (infos : List SqlInfo) (t : Tally) (s : S) (l : List Sample)
      → Inv t l
      → Ends Inv (compare_all (logged repository) t infos (s, l))
  unfolding compare_all
  Ends-compare_all [] t s l h = Ends-ok E Inv t s l h
  Ends-compare_all (info ∷ infos) t s l h =
      Ends-continue Inv Inv _ _ (Ends-compare_one t info s l h)
        λ t' s' l' h'. Ends-compare_all infos t' s' l' h'

  abbrev NoneKept : {A : Type 0} → A → List Sample → Type 0
  NoneKept a l = NoRepeats l

  Ends-infos :
      (o : Outcome E (List SqlInfo) × (S × List Sample))
      → o.1.1 ≡ []
      → Ends (λ _ l. l ≡ []) (wrapped sql_info o.0, o.1)
  unfolding Ends wrapped
  Ends-infos (ok infos, (s, l)) h = h
  Ends-infos (err e, (s, l)) h = rw h tt
  Ends-infos (panic, (s, l)) h = rw h tt

  Ends-call_infos :
      (s : S)
      → Ends
          (λ _ l. l ≡ [])
          (call (logged repository) sql_info (logged repository).get_sql_info (s, []))
  unfolding logged
  Ends-call_infos s = Ends-infos (let (r, s') = repository.get_sql_info s in (r, (s', []))) refl

  Inv-no_tally : (l : List Sample) → l ≡ [] → Inv no_tally l
  Inv-no_tally l h = (rw h tt, h)

  -- From any state of the database, whether `Compare` ends with a report or an error, its EXPLAIN
  -- calls are for different samples: no schema and statement is explained twice.
  pub compare_rows-NoRepeats : (s : S) → NoRepeats (compare_rows (logged repository) (s, [])).1.1
  unfolding compare_rows
  compare_rows-NoRepeats s = Ends-NoRepeats (compare_rows (logged repository) (s, [])) (
      Ends-continue (λ _ l. l ≡ []) NoneKept _ _ (Ends-call_infos s)
        λ infos s1 l1 h1.
          Ends-continue Inv NoneKept _ _
            (Ends-compare_all (aggregate_sql_infos infos) no_tally s1 l1 (Inv-no_tally l1 h1))
            λ t s2 l2 h2. Ends-ok E NoneKept (summarize (logged repository) t) s2 l2 h2.0)
