-- ===== src/Service/Served.antt =====
-- What a response says of the service.
use optimizer_canary_service.Base.{
  ℕ, ◌≡◌, refl, sym, ap, ◌∙◌, ◌≢◌, ◌⊎◌, inl, inr, Bool, true, false, Option, none, some, List,
  arith, Bool-cases, Outcome, ok, err, panic,
}
use optimizer_canary_service.Text.{Bytes, codes}
use optimizer_canary_service.Text.Trim.{trim_space}
use optimizer_canary_service.Compare.Summary.Run.{CompareError}
use optimizer_canary_service.Compare.Report.Render.{compare_report}
use optimizer_canary_service.Advisor.Loop.{RecommendIndexResult, LoopError}
use optimizer_canary_service.Advisor.Report.{render_recommend_index}
use optimizer_canary_service.Diagnosis.Validator.{
  Status, success, failed, validate, validate_sources, validate_source, after_sample,
}
use optimizer_canary_service.Diagnosis.Connection.{
  ConnectionManager, ConnectionError, ConnectionStatus, Driver, current, replace, connection_code,
  is_blank,
}
use optimizer_canary_service.Diagnosis.Connected.{Reported, replace-Reported}
use optimizer_canary_service.Service.Server.{
  Method, Route, Request, Content, Response, Backend, path_of, Answered, answer, manager_repository,
  validation_code, serve_validation, send_report, after_compare, compare_on, after_recommend,
  recommend_on, only_get, connect, get_route, post_route, dispatch, serve, get, head, post, other,
  validate_path, compare_path, recommend_path, connect_path, health_path, no_path, report,
  connection, not_connected, compare_failed, recommend_failed, bad_request, not_found, not_allowed,
  health,
}

-- What holds of the response, if there is one.
abbrev pub Responds :
    {E : Type 0} → Outcome (Unit {0}) (Response E) → (Response E → Type 0) → Type 0
Responds (ok response) P = P response
Responds (err e) P = Unit
Responds panic P = Unit

-- A report is sent with 200, to a GET alone.
abbrev pub IsSent : {E : Type 0} → Method → ℕ → Content E → Type 0
IsSent method code (report name text) = (code ≡ 200) × (method ≡ get)
IsSent method code _ = Unit

-- The manager is the one before, and a success says that it is connected.
record Kept {S E : Type 0} (method : Method) (m : ConnectionManager) (a : Answered S E)
    : Type 0 where
  kept : a.1.0 ≡ m
  told : Responds a.0 (λ r. (r.code ≡ 200 → m.db ≢ none) × IsSent method r.code r.content)

current_some :
    {E : Type 0} (m : ConnectionManager) (h : ℕ)
    → ◌≡◌ {A = Outcome (ConnectionError E) ℕ} (current m) (ok h)
    → m.db ≢ none
unfolding current
current_some m h is empty = ground (arith, is, empty)

module _ {S E F : Type 0} (backend : Backend S E F) (driver : Driver E) where
  refused-Kept :
      (method : Method) (m : ConnectionManager) (s : S) (code : ℕ) (content : Content E)
      → code ≢ 200
      → IsSent method code content
      → Kept method m (answer backend driver code content (m, s))
  refused-Kept method m s code content ne sent = record {
    kept = refl;
    told = (λ is. elim (ne is) [ ], sent);
  }

  send_report-Kept :
      (m : ConnectionManager) (s : S) (name : Bytes) (text : Option Bytes)
      → m.db ≢ none
      → Kept get m (send_report backend driver name text (m, s))
  send_report-Kept m s name none up = record { kept = refl; told = tt }
  send_report-Kept m s name (some text) up = record { kept = refl; told = (λ is. up, (refl, refl)) }

  after_compare-Kept :
      (m : ConnectionManager) (r : Outcome (CompareError E) (Option Bytes) × S)
      → m.db ≢ none
      → Kept get m (after_compare backend driver m r)
  after_compare-Kept m (ok text, s) up = send_report-Kept m s (codes "compare.md") text up
  after_compare-Kept m (err e, s) up =
      refused-Kept get m s 422 (compare_failed e) (λ is. omega (arith, is)) tt
  after_compare-Kept m (panic, s) up = record { kept = refl; told = tt }

  compare_on-Kept :
      (c : Outcome (ConnectionError E) ℕ) (m : ConnectionManager) (s : S)
      → ((h : ℕ) → c ≡ ok h → m.db ≢ none)
      → Kept get m (compare_on backend driver c m s)
  compare_on-Kept (ok h) m s up =
      after_compare-Kept m (compare_report (backend.compare_repository h) s) (up h refl)
  compare_on-Kept (err e) m s up =
      refused-Kept get m s 422 (not_connected e) (λ is. omega (arith, is)) tt
  compare_on-Kept panic m s up = record { kept = refl; told = tt }

  after_recommend-Kept :
      (m : ConnectionManager) (r : Outcome (LoopError E) (List (RecommendIndexResult F)) × S)
      → m.db ≢ none
      → Kept get m (after_recommend backend driver m r)
  after_recommend-Kept m (ok results, s) up =
      send_report-Kept m s (codes "recommend-index.md")
        (render_recommend_index backend.greater backend.percent results) up
  after_recommend-Kept m (err e, s) up =
      refused-Kept get m s 422 (recommend_failed e) (λ is. omega (arith, is)) tt
  after_recommend-Kept m (panic, s) up = record { kept = refl; told = tt }

  recommend_on-Kept :
      (c : Outcome (ConnectionError E) ℕ) (m : ConnectionManager) (s : S)
      → ((h : ℕ) → c ≡ ok h → m.db ≢ none)
      → Kept get m (recommend_on backend driver c m s)
  recommend_on-Kept (ok h) m s up = after_recommend-Kept m (backend.recommend_index h s) (up h refl)
  recommend_on-Kept (err e) m s up =
      refused-Kept get m s 422 (not_connected e) (λ is. omega (arith, is)) tt
  recommend_on-Kept panic m s up = record { kept = refl; told = tt }

  -- The route of a report.
  report_route-Kept :
      (method : Method) (m : ConnectionManager) (s : S) (served : Answered S E)
      → Kept get m served
      → Kept method m
          (get_route backend driver method (m, s) (only_get backend driver method (m, s) served))
  report_route-Kept get m s served h = h
  report_route-Kept head m s served h =
      refused-Kept head m s 405 (not_allowed (codes "GET")) (λ is. omega (arith, is)) tt
  report_route-Kept post m s served h =
      refused-Kept post m s 405 (not_allowed (codes "GET, HEAD")) (λ is. omega (arith, is)) tt
  report_route-Kept other m s served h =
      refused-Kept other m s 405 (not_allowed (codes "GET, HEAD")) (λ is. omega (arith, is)) tt

  validate-disconnected :
      (m : ConnectionManager) (s : S)
      → m.db ≡ none
      → (validate (manager_repository backend driver m) s).0.status ≡ failed
  unfolding validate manager_repository current validate_sources validate_source after_sample
  validate-disconnected m s h = rw h refl

  validation_code-failed :
      (status : Status) → status ≡ failed → validation_code backend driver status ≢ 200
  validation_code-failed failed is e = omega (arith, e)
  validation_code-failed success is e = cc

  serve_validation-Kept :
      (m : ConnectionManager) (s : S) → Kept post m (serve_validation backend driver m s)
  serve_validation-Kept m s = record {
    kept = refl;
    told = (
      λ is empty.
          validation_code-failed (validate (manager_repository backend driver m) s).0.status
            (validate-disconnected m s empty) is,
      tt,
    );
  }

  -- The manager is kept but for a new connection, a success says that there is a connection, unless it
  -- is that of the health check, and a report is sent with 200 and to a GET alone.
  pub record Served (m : ConnectionManager) (path : Route) (method : Method) (a : Answered S E)
      : Type 0 where
    pub kept : path ≢ connect_path → a.1.0 ≡ m
    pub told : Responds a.0 (λ r.
        (r.code ≡ 200 → (path ≡ health_path) ⊎ (a.1.0.db ≢ none)) × IsSent method r.code r.content)

  told-Served :
      (m : ConnectionManager) (method : Method) (path : Route) (r : Outcome (Unit {0}) (Response E))
      (m' : ConnectionManager)
      → m' ≡ m
      → Responds r (λ r. (r.code ≡ 200 → m.db ≢ none) × IsSent method r.code r.content)
      → Responds r (λ r.
        (r.code ≡ 200 → (path ≡ health_path) ⊎ (m'.db ≢ none)) × IsSent method r.code r.content)
  told-Served m method path (ok r) m' same (up, sent) =
      (λ is. inr (λ empty. up is (ap (λ (n : ConnectionManager). n.db) (sym same) ∙ empty)), sent)
  told-Served m method path (err e) m' same told = tt
  told-Served m method path panic m' same told = tt

  Kept-Served :
      (m : ConnectionManager) (path : Route) (method : Method) (a : Answered S E)
      → Kept method m a
      → Served m path method a
  Kept-Served m path method a h = record {
    kept = λ other_path. h.kept;
    told = told-Served m method path a.0 a.1.0 h.kept h.told;
  }

  post_route-Served :
      (m : ConnectionManager) (path : Route) (method : Method) (s : S) (a : Answered S E)
      → Served m path post a
      → Served m path method (post_route backend driver method (m, s) a)
  post_route-Served m path get s a h =
      Kept-Served m path get _
        (refused-Kept get m s 405 (not_allowed (codes "POST")) (λ is. omega (arith, is)) tt)
  post_route-Served m path head s a h =
      Kept-Served m path head _
        (refused-Kept head m s 405 (not_allowed (codes "POST")) (λ is. omega (arith, is)) tt)
  post_route-Served m path post s a h = h
  post_route-Served m path other s a h =
      Kept-Served m path other _
        (refused-Kept other m s 405 (not_allowed (codes "POST")) (λ is. omega (arith, is)) tt)

  -- A code of 200 for a connection says that it is installed.
  code-installed :
      (connected : Bool) {db : Option ℕ} {h : ℕ} {A : Type 0}
      → (connected ≡ true → (db ≡ some h) × A)
      → connection_code connected ≡ 200
      → db ≢ none
  unfolding connection_code
  code-installed true installed is empty = cc ((installed refl).0)
  code-installed false installed is empty = omega (arith, is)

  tried-Served :
      (dsn : Bytes) (m : ConnectionManager) (s : S) (tried : ConnectionStatus E × ConnectionManager)
      → Reported driver dsn m tried
      → Served m connect_path post (
          answer backend driver
            (connection_code tried.0.connected)
            (connection tried.0)
            (tried.1, s))
  tried-Served dsn m s (status, m') h = record {
    kept = λ other_path. elim (other_path refl) [ ];
    told = (λ is. inr (code-installed status.connected h.1 is), tt);
  }

  connect-Served :
      (dsn : Option Bytes) (m : ConnectionManager) (s : S)
      → Served m connect_path post (connect backend driver dsn m s)
  connect-Served none m s =
      Kept-Served m connect_path post _
        (refused-Kept post m s 400 bad_request (λ is. omega (arith, is)) tt)
  connect-Served (some dsn) m s = elim (Bool-cases (is_blank (trim_space dsn))) [
    | inl blank ↦ rw blank (
        Kept-Served m connect_path post _
          (refused-Kept post m s 400 bad_request (λ is. omega (arith, is)) tt))
    | inr named ↦
        rw named
          (tried-Served (trim_space dsn) m s (replace driver dsn m) (replace-Reported driver dsn m))
  ]

  health-Served :
      (m : ConnectionManager) (method : Method) (s : S)
      → Served m health_path method
          (get_route backend driver method (m, s) (answer backend driver 200 health (m, s)))
  health-Served m get s = record { kept = λ h. refl; told = (λ is. inl refl, tt) }
  health-Served m head s = record { kept = λ h. refl; told = (λ is. inl refl, tt) }
  health-Served m post s = record { kept = λ h. refl; told = (λ is. inl refl, tt) }
  health-Served m other s = record { kept = λ h. refl; told = (λ is. inl refl, tt) }

  dispatch-Served :
      (path : Route) (method : Method) (dsn : Option Bytes) (m : ConnectionManager) (s : S)
      → Served m path method (dispatch backend driver path method dsn m s)
  dispatch-Served validate_path method dsn m s =
      post_route-Served m validate_path method s _
        (Kept-Served m validate_path post _ (serve_validation-Kept m s))
  dispatch-Served compare_path method dsn m s =
      Kept-Served m compare_path method _
        (report_route-Kept method m s _ (compare_on-Kept (current m) m s (current_some m)))
  dispatch-Served recommend_path method dsn m s =
      Kept-Served m recommend_path method _
        (report_route-Kept method m s _ (recommend_on-Kept (current m) m s (current_some m)))
  dispatch-Served connect_path method dsn m s =
      post_route-Served m connect_path method s _ (connect-Served dsn m s)
  dispatch-Served health_path method dsn m s = health-Served m method s
  dispatch-Served no_path method dsn m s =
      Kept-Served m no_path method _
        (refused-Kept method m s 404 not_found (λ is. omega (arith, is)) tt)

  -- For any request and any state of the service: only a request to /test/connect changes the
  -- manager; a response with 200 is that of /healthz, or the manager has a connection then; and a
  -- response with a report has the code 200 and answers a GET.
  pub serve-Served :
      (request : Request) (m : ConnectionManager) (s : S)
      → Served m (path_of request.path) request.method (serve backend driver request m s)
  unfolding serve
  serve-Served request m s = dispatch-Served (path_of request.path) request.method request.dsn m s
