-- ===== src/Session.antt =====
-- One SQLAlchemy session over the task tables (session.py), the settings and the clock that its code
-- reads, and errors. A transaction is atomic: what other transactions hold locked enters the claims
-- as an argument.
use amsz_web.Base.{ℕ, ◌*◌, ◌≤◌, String, Bool, List, ◌≡◌}
use amsz_web.Models.{Task, TaskAttempt, TaskEvent}
use amsz_web.Table.{Row, modify, flush}

-- The fields of RuntimeSettings (core/config.py) that the task code reads.
pub record Settings : Type 0 where
  pub task_event_db_enabled : Bool
  pub task_attempt_cleanup_on_completion : Bool
  pub task_fanout_shard_size : ℕ
  pub task_fanout_max_children : ℕ

-- `now` is what utc_now() reads while one transaction runs. `percent c t` is
-- `int((c / t) * 100)` in floats, `isoformat` is datetime.isoformat.
pub record Env : Type 0 where
  pub settings : Settings
  pub now : ℕ
  pub percent : ℕ → ℕ → ℕ
  pub isoformat : ℕ → String

-- timedelta(seconds=n), in microseconds
abbrev pub seconds : ℕ → ℕ
seconds n = n * 1000000

-- What the code relies on of the float quotient: at most 100 for a part of a whole, and 100 at the
-- whole. IEEE division and multiplication by 100 are monotone and exact at these points.
pub record IsPercent (percent : ℕ → ℕ → ℕ) : Type 0 where
  pub part : (c t : ℕ) → c ≤ t → percent c t ≤ 100

pub record Session : Type 0 where
  pub tasks : List (Row Task)
  pub attempts : List TaskAttempt
  pub events : List TaskEvent
  pub next_task_id : ℕ

-- The ValueErrors of the code, by what their messages name, and `integrity`, the IntegrityError of a
-- flush that breaks the unique constraint on (task_type, idempotency_key). `task_error` is a TaskError
-- of domain/exceptions.py, and `raised` another exception of Python.
pub data Error : Type 0 where
  not_owned : (task_id : ℕ) (worker_id : String) → Error
  not_parent : (parent_task_id : ℕ) → Error
  invalid : (message : String) → Error
  integrity : (task_type : String) → Error
  not_found : (what : String) (id : ℕ) → Error
  task_error : (retryable : Bool) (message error_code : String) → Error
  raised : (exception message : String) → Error

pub data Result {ℓ} (A : Type ℓ) : Type ℓ where
  ok : A → Result A
  err : Error → Result A

pub ok-injective {ℓ} : {A : Type ℓ} {a b : A} → ok a ≡ ok b → a ≡ b
ok-injective e = cc e

infixl 5 ◌>>=◌
abbrev pub ◌>>=◌ {ℓ κ} : {A : Type ℓ} {B : Type κ} → Result A → (A → Result B) → Result B
ok a >>= f = f a
err e >>= f = err e

-- writes to the attributes of one task
abbrev pub set_task : ℕ → (Task → Task) → Session → Session
set_task id f s = record s { tasks = modify id f s.tasks }

-- session.flush() and session.commit()
abbrev pub commit : Session → Session
commit s = record s { tasks = flush s.tasks }

-- the end of `with session_scope() as session`: the body's changes are committed, or, if it raised,
-- rolled back
abbrev pub end_scope {ℓ} : {A : Type ℓ} → Session → Result (A × Session) → Result A × Session
end_scope db (ok (a, s)) = (ok a, commit s)
end_scope db (err e) = (err e, db)

abbrev pub session_scope {ℓ} :
    {A : Type ℓ} → (Session → Result (A × Session)) → Session → Result A × Session
session_scope body db = end_scope db (body db)
