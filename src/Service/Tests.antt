-- ===== src/Service/Tests.antt =====
-- Requests to a service with a connection and to one without.
use optimizer_canary_service.Base.{ℕ, ◌≡◌, refl, Option, none, some, [], ◌∷◌, ltb, ok, err, panic}
use optimizer_canary_service.Text.{codes, bytes_eq}
use optimizer_canary_service.Diagnosis.Connection.{
  ConnectionManager, new_connection_manager, Driver, current,
}
use optimizer_canary_service.Diagnosis.Tests.{flaky}
use optimizer_canary_service.Service.Server.{Backend, Request, get, head, path_of, serve}
use optimizer_canary_service.Service.Served.{Served, serve-Served}

-- No statement was recorded, and no index is recommended.
abbrev quiet : Backend ℕ (Unit {0}) ℕ
quiet = record {
  repository = λ h. flaky;
  compare_repository = λ h. record {
    get_sql_info = λ s. (ok [], s);
    explain_plan = λ x s. (ok [], s);
    get_new_plan_digest = none;
    ctx_err = λ s. none;
  };
  recommend_index = λ h s. (ok [], s);
  greater = λ x y. ltb y x;
  percent = λ x. codes "0%";
}

abbrev reachable : Driver (Unit {0})
reachable = record { open_error = λ dsn. none; ping_error = λ dsn. none }

abbrev comparing : Request
comparing = record { method = get; path = codes "/compare"; dsn = none }

abbrev connected : ConnectionManager
connected = record { db = some 0; dsn = codes "a"; made = 1; live = 0 ∷ [] }

-- What a request is answered with: its code, or none after a panic.
abbrev code_of : Request → ConnectionManager → Option ℕ
code_of request m = elim (serve quiet reachable request m 0).0 [
  | ok r ↦ some r.code
  | err e ↦ none
  | panic ↦ none
]

compare_disconnected : code_of comparing new_connection_manager ≡ some 422
unfolding serve current path_of bytes_eq
compare_disconnected = refl

compare_head : code_of (record comparing { method = head }) connected ≡ some 405
unfolding serve path_of bytes_eq
compare_head = refl

healthz : code_of (record comparing { path = codes "/healthz" }) new_connection_manager ≡ some 200
unfolding serve path_of bytes_eq
healthz = refl

unknown_path : code_of (record comparing { path = codes "/" }) connected ≡ some 404
unfolding serve path_of bytes_eq
unknown_path = refl

serve-Served_example :
    Served quiet reachable connected
      (path_of comparing.path)
      get
      (serve quiet reachable comparing connected 0)
serve-Served_example = serve-Served quiet reachable comparing connected 0
