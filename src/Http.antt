-- ===== src/Http.antt =====
-- app/interfaces/http: dependencies.py, and what FastAPI makes of a route's result and exceptions.
-- A route runs in one session: the dependency get_db_session commits it after a response, and rolls it
-- back after an HTTPException or any other exception.
pub mod Tasks
pub mod Configs
pub mod Szdm
pub mod Polymarket
use amsz_web.Models.{Task}
use amsz_web.Table.{Row}
use amsz_web.Base.{List, ℕ, String, Bool, Option, if◌then◌else◌, false, some_eq, str_eq, true}
use amsz_web.Domain.{TaskStatus}
use amsz_web.Session.{Session, Error, Env}

-- `answers` is a response with its status code, `refuses` an HTTPException, and `crashes` any other
-- exception, which the server answers with 500
pub data Answer {ℓ} (A : Type ℓ) : Type ℓ where
  answers : (code : ℕ) → A → Answer A
  refuses : (code : ℕ) (detail : String) → Answer A
  crashes : Error → Answer A

-- what the settings, the clock and the exceptions give to a route: `message` is str(exc)
pub record HttpEnv : Type 0 where
  pub env : Env
  pub api_key : String
  pub message : Error → String
  pub ties : List (Row Task) → List (Row Task)

-- the headers that the routes read, and request.state.request_id
pub record Headers : Type 0 where
  pub x_api_key : Option String
  pub x_client_id : Option String
  pub request_id : String

-- the end of get_db_session; `commits` is session.commit()
abbrev pub end_request {ℓ κ} :
    {S : Type ℓ} {A : Type κ} → (S → S) → S → Answer (A × S) → Answer A × S
end_request commits db (answers code (a, s)) = (answers code a, commits s)
end_request commits db (refuses code detail) = (refuses code detail, db)
end_request commits db (crashes e) = (crashes e, db)

-- Depends(require_api_key) in front of a route
unfoldable pub with_api_key {ℓ κ} :
    {S : Type ℓ} {A : Type κ}
    → (S → S)
    → HttpEnv
    → Headers
    → (S → Answer (A × S))
    → S
    → Answer A × S
with_api_key commits h headers route db =
    if some_eq headers.x_api_key h.api_key
    then end_request commits db (route db)
    else (refuses 401 "Invalid API key", db)

-- except ValueError
abbrev pub is_value_error : Error → Bool
is_value_error (Error.integrity t) = false
is_value_error (Error.task_error r m c) = false
is_value_error (Error.raised x m) = str_eq x "ValueError"
is_value_error _ = true

abbrev pub refused_with {ℓ} : {A : Type ℓ} → ℕ → HttpEnv → Error → Answer A
refused_with code h e = if is_value_error e then refuses code (h.message e) else crashes e

-- TaskStatus.value
abbrev pub status_text : TaskStatus → String
status_text TaskStatus.pending = "PENDING"
status_text TaskStatus.running = "RUNNING"
status_text TaskStatus.dispatching = "DISPATCHING"
status_text TaskStatus.partially_running = "PARTIALLY_RUNNING"
status_text TaskStatus.aggregating = "AGGREGATING"
status_text TaskStatus.retry_wait = "RETRY_WAIT"
status_text TaskStatus.succeeded = "SUCCEEDED"
status_text TaskStatus.failed = "FAILED"
status_text TaskStatus.canceled = "CANCELED"
status_text TaskStatus.dead = "DEAD"
