-- ===== src/Tasks/Events.antt =====
-- task_repository.py: _truncate, _add_event and _update_attempt_status.
use amsz_web.Base.{
  ℕ, String, Bool, true, false, ◌&&◌, not, Option, none, some, List, [], ◌∷◌, ◌++◌, ◌==◌,
  if◌then◌else◌, take_text, select,
}
use amsz_web.Domain.{TaskStatus, AttemptStatus, Json}
use amsz_web.Models.{TaskAttempt, TaskEvent}
use amsz_web.Session.{Env, Session}

unfoldable pub truncate : Option String → Option String
truncate none = none
truncate (some value) = some (take_text 512 value)

-- The log line is not modelled; the row is added where the settings say so.
unfoldable pub add_event :
    Env
    → ℕ
    → String
    → Option TaskStatus
    → Option TaskStatus
    → Option String
    → Option Json
    → Session
    → Session
add_event env task_id event_type from_status to_status message payload s =
    if env.settings.task_event_db_enabled then record s { events = s.events ++ event ∷ [] } else s
  where
    event : TaskEvent
    event = record {
      task_id = task_id;
      event_type = event_type;
      from_status = from_status;
      to_status = to_status;
      message = message;
      event_payload = payload;
      created_at = env.now;
    }

-- select(TaskAttempt).where(task_id, attempt_no), of which at most one row exists
abbrev pub is_attempt : ℕ → ℕ → TaskAttempt → Bool
is_attempt task_id attempt_no a = (a.task_id == task_id) && (a.attempt_no == attempt_no)

unfoldable pub find_attempt : ℕ → ℕ → List TaskAttempt → Option TaskAttempt
find_attempt task_id attempt_no [] = none
find_attempt task_id attempt_no (a ∷ rest) =
    if is_attempt task_id attempt_no a then some a else find_attempt task_id attempt_no rest

unfoldable pub set_attempt :
    ℕ → ℕ → (TaskAttempt → TaskAttempt) → List TaskAttempt → List TaskAttempt
set_attempt task_id attempt_no f [] = []
set_attempt task_id attempt_no f (a ∷ rest) =
    if is_attempt task_id attempt_no a
    then f a ∷ rest
    else a ∷ set_attempt task_id attempt_no f rest

-- status in (SUCCEEDED, FAILED, CANCELED)
abbrev is_completed : AttemptStatus → Bool
is_completed AttemptStatus.succeeded = true
is_completed AttemptStatus.failed = true
is_completed AttemptStatus.canceled = true
is_completed _ = false

unfoldable pub update_attempt_status :
    Env → ℕ → ℕ → AttemptStatus → Option String → Option String → Session → Session
unfolding truncate find_attempt set_attempt
update_attempt_status env task_id attempt_no status error_code error_message s =
    elim (find_attempt task_id attempt_no s.attempts) [
      | none ↦ s
      | some _ ↦
          if env.settings.task_attempt_cleanup_on_completion && is_completed status
          then record s { attempts = select (λ a. not (a.task_id == task_id)) s.attempts }
          else record s { attempts = set_attempt task_id attempt_no write s.attempts }
    ]
  where
    write : TaskAttempt → TaskAttempt
    write a = record a {
      status = status;
      finished_at = some env.now;
      error_code = error_code;
      error_message = truncate error_message;
    }
