-- ===== src/Service/Server.antt =====
-- The routes of `main` in cmd/main.go and the handlers of diagnosis/handler.go,
-- diagnosis/connection_handler.go, diagnosis/compare/compare_handler.go and
-- diagnosis/index_advisor/recommend_index_handler.go, one request after another. `S` is the state of
-- the databases, `E` an error of a driver, `F` is float64. A response is its status code and what its
-- body is made of; net/http ends a handler that panics without one.
use optimizer_canary_service.Base.{
  ℕ, Bool, Option, none, some, List, [], if◌then◌else◌, Outcome, ok, err, panic,
}
use optimizer_canary_service.Text.{Bytes, codes, bytes_eq}
use optimizer_canary_service.Text.Trim.{trim_space}
use optimizer_canary_service.Compare.Summary.Run.{CompareRepository, CompareError}
use optimizer_canary_service.Compare.Report.Render.{compare_report}
use optimizer_canary_service.Advisor.Loop.{RecommendIndexResult, LoopError}
use optimizer_canary_service.Advisor.Report.{render_recommend_index}
use optimizer_canary_service.Diagnosis.Validator.{
  Repository, Sample, Source, ValidateResponse, Status, success, failed, validate,
}
use optimizer_canary_service.Diagnosis.Connection.{
  ConnectionManager, ConnectionError, ConnectionStatus, from_driver, Driver, current, replace,
  connection_code, is_blank,
}

pub data Method : Type 0 where
  get head post other : Method

pub data Route : Type 0 where
  validate_path compare_path recommend_path connect_path health_path no_path : Route

-- A request, with the `dsn` of its body where that can be decoded.
pub record Request : Type 0 where
  pub method : Method
  pub path : Bytes
  pub dsn : Option Bytes

pub data Content (E : Type 0) : Type 0 where
  report : Bytes → Bytes → Content E
  validation : ValidateResponse (ConnectionError E) → Content E
  connection : ConnectionStatus E → Content E
  not_connected : ConnectionError E → Content E
  compare_failed : CompareError E → Content E
  recommend_failed : LoopError E → Content E
  bad_request : Content E
  not_found : Content E
  not_allowed : Bytes → Content E
  health : Content E

pub record Response (E : Type 0) : Type 0 where
  pub code : ℕ
  pub content : Content E

-- What the repositories do on the database with a handle.
pub record Backend (S E F : Type 0) : Type 0 where
  pub repository : ℕ → Repository S E
  pub compare_repository : ℕ → CompareRepository S E
  pub recommend_index : ℕ → S → Outcome (LoopError E) (List (RecommendIndexResult F)) × S
  pub greater : F → F → Bool
  pub percent : F → Bytes

unfoldable pub path_of : Bytes → Route
unfolding bytes_eq
path_of path =
    if bytes_eq path (codes "/validate")
    then validate_path
    else if bytes_eq path (codes "/compare")
    then compare_path
    else if bytes_eq path (codes "/recommend-index")
    then recommend_path
    else if bytes_eq path (codes "/test/connect")
    then connect_path
    else if bytes_eq path (codes "/healthz")
    then health_path
    else no_path

abbrev pub Answered : Type 0 → Type 0 → Type 0
Answered S E = Outcome (Unit {0}) (Response E) × (ConnectionManager × S)

module _ {S E F : Type 0} (backend : Backend S E F) (driver : Driver E) where
  open backend use {repository, compare_repository, recommend_index, greater, percent}

  abbrev pub answer : ℕ → Content E → ConnectionManager × S → Answered S E
  answer code content state = (ok (record { code = code; content = content }), state)

  -- `Sample` and `Explain` of the manager, from what `current` answers.
  abbrev pub sample_on :
      Outcome (ConnectionError E) ℕ
      → Source
      → ℕ
      → S
      → (List Sample × Option (ConnectionError E)) × S
  sample_on (ok h) source limit s =
      let ((samples, failure), s') = (repository h).sample source limit s in
      ((samples, elim failure [ some e ↦ some (from_driver e) | none ↦ none ]), s')
  sample_on (err e) source limit s = (([], some e), s)
  sample_on panic source limit s = (([], none), s)

  abbrev pub explain_on :
      Outcome (ConnectionError E) ℕ → Sample → S → Option (ConnectionError E) × S
  explain_on (ok h) sample s =
      let (failure, s') = (repository h).explain sample s in
      (elim failure [ some e ↦ some (from_driver e) | none ↦ none ], s')
  explain_on (err e) sample s = (some e, s)
  explain_on panic sample s = (none, s)

  -- The manager as the `Repository` of the validator.
  unfoldable pub manager_repository : ConnectionManager → Repository S (ConnectionError E)
  unfolding current
  manager_repository m = record {
    sample = λ source limit s. sample_on (current m) source limit s;
    explain = λ sample s. explain_on (current m) sample s;
  }

  abbrev pub validation_code : Status → ℕ
  validation_code failed = 422
  validation_code success = 200

  abbrev pub serve_validation : ConnectionManager → S → Answered S E
  serve_validation m s =
      let (response, s') = validate (manager_repository m) s in
      answer (validation_code response.status) (validation response) (m, s')

  -- A report that was computed; a report that is not written is a panic here, which does not happen.
  abbrev pub send_report : Bytes → Option Bytes → ConnectionManager × S → Answered S E
  send_report name (some text) state = answer 200 (report name text) state
  send_report name none state = (panic, state)

  abbrev pub after_compare :
      ConnectionManager → Outcome (CompareError E) (Option Bytes) × S → Answered S E
  after_compare m (ok text, s) = send_report (codes "compare.md") text (m, s)
  after_compare m (err e, s) = answer 422 (compare_failed e) (m, s)
  after_compare m (panic, s) = (panic, (m, s))

  abbrev pub compare_on : Outcome (ConnectionError E) ℕ → ConnectionManager → S → Answered S E
  compare_on (ok h) m s = after_compare m (compare_report (compare_repository h) s)
  compare_on (err e) m s = answer 422 (not_connected e) (m, s)
  compare_on panic m s = (panic, (m, s))

  abbrev pub after_recommend :
      ConnectionManager → Outcome (LoopError E) (List (RecommendIndexResult F)) × S → Answered S E
  after_recommend m (ok results, s) =
      send_report (codes "recommend-index.md") (render_recommend_index greater percent results)
        (m, s)
  after_recommend m (err e, s) = answer 422 (recommend_failed e) (m, s)
  after_recommend m (panic, s) = (panic, (m, s))

  abbrev pub recommend_on : Outcome (ConnectionError E) ℕ → ConnectionManager → S → Answered S E
  recommend_on (ok h) m s = after_recommend m (recommend_index h s)
  recommend_on (err e) m s = answer 422 (not_connected e) (m, s)
  recommend_on panic m s = (panic, (m, s))

  -- The guard of the handlers of reports: the pattern of their route lets HEAD through.
  abbrev pub only_get : Method → ConnectionManager × S → Answered S E → Answered S E
  only_get get state served = served
  only_get _ state served = answer 405 (not_allowed (codes "GET")) state

  abbrev pub connect : Option Bytes → ConnectionManager → S → Answered S E
  connect none m s = answer 400 bad_request (m, s)
  connect (some dsn) m s =
      let (status, m') = replace driver dsn m in
      let tried = answer (connection_code status.connected) (connection status) (m', s) in
      if is_blank (trim_space dsn) then answer 400 bad_request (m, s) else tried

  -- A route for GET serves HEAD too; any other method is refused by the multiplexer.
  abbrev pub get_route : Method → ConnectionManager × S → Answered S E → Answered S E
  get_route get state served = served
  get_route head state served = served
  get_route _ state served = answer 405 (not_allowed (codes "GET, HEAD")) state

  abbrev pub post_route : Method → ConnectionManager × S → Answered S E → Answered S E
  post_route post state served = served
  post_route _ state served = answer 405 (not_allowed (codes "POST")) state

  abbrev pub dispatch : Route → Method → Option Bytes → ConnectionManager → S → Answered S E
  dispatch validate_path method dsn m s = post_route method (m, s) (serve_validation m s)
  dispatch compare_path method dsn m s =
      get_route method (m, s) (only_get method (m, s) (compare_on (current m) m s))
  dispatch recommend_path method dsn m s =
      get_route method (m, s) (only_get method (m, s) (recommend_on (current m) m s))
  dispatch connect_path method dsn m s = post_route method (m, s) (connect dsn m s)
  dispatch health_path method dsn m s = get_route method (m, s) (answer 200 health (m, s))
  dispatch no_path method dsn m s = answer 404 not_found (m, s)

  unfoldable pub serve : Request → ConnectionManager → S → Answered S E
  unfolding path_of current manager_repository validate compare_report render_recommend_index
      replace connection_code
  serve request m s = dispatch (path_of request.path) request.method request.dsn m s
