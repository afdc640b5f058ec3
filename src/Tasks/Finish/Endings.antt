-- ===== src/Tasks/Finish/Endings.antt =====
-- task_repository.py: what the five methods that end an attempt leave of the task, column by column.
use amsz_web.Tasks.Events.{truncate}
use amsz_web.Table.Laws.{get-modify_self, without-modify}
use amsz_web.Base.{
  ap, sym, ◌∙◌, inr, ◌&&◌, ◌≢◌, some_eq, str_eq_iff, str_eq_refl, true, false, Bool, keep_if,
  take_text, ℕ, String, Option, none, some, ◌≡◌, ◌⊎◌, inl, refl, arith,
}
use amsz_web.Domain.{status_eq_iff, TaskStatus, status_eq}
use amsz_web.Models.{Task}
use amsz_web.Table.{get, without}
use amsz_web.Session.{Env, Session, Result, ok, err, Error}
use amsz_web.Tasks.Events.{truncate}
use amsz_web.Tasks.Finish.{is_owned}
use amsz_web.Tasks.Finish.Ownership.{
  Ending, succeeds, waits, fails, dies, stops, ended_row, end_attempt, Ends, end_attempt-Ends,
}

abbrev pub status_after : Ending → TaskStatus
status_after (succeeds result) = TaskStatus.succeeded
status_after (waits code message at) = TaskStatus.retry_wait
status_after (fails code message status) = TaskStatus.failed
status_after (dies code message) = TaskStatus.dead
status_after stops = TaskStatus.canceled

abbrev pub stage_after : Ending → String
stage_after (succeeds result) = "completed"
stage_after (waits code message at) = "retry_wait"
stage_after (fails code message status) = "failed"
stage_after (dies code message) = "dead"
stage_after stops = "canceled"

-- the error's code and message, if there is an error
abbrev pub error_of : Ending → Option (String × String)
error_of (waits code message at) = some (code, message)
error_of (fails code message status) = some (code, message)
error_of (dies code message) = some (code, message)
error_of _ = none

-- the error columns: those of the error, with 512 characters of its message, or what was there
abbrev pub HasError : Option (String × String) → Task → Task → Type 0
HasError none t t' = (t'.error_code ≡ t.error_code) × (t'.error_message ≡ t.error_message)
HasError (some (code, message)) t t' =
    (t'.error_code ≡ some code) × (t'.error_message ≡ some (take_text 512 message))

-- the columns that only one of the endings writes, or only one leaves
abbrev pub HasTimes : Ending → Env → Task → Task → Type 0
HasTimes (succeeds result) env t t' =
    (t'.finished_at ≡ some env.now)
    × (t'.scheduled_at ≡ t.scheduled_at)
    × (t'.result_json ≡ result)
    × (t'.progress ≡ 100)
HasTimes (waits code message at) env t t' =
    (t'.finished_at ≡ t.finished_at)
    × (t'.scheduled_at ≡ at)
    × (t'.result_json ≡ t.result_json)
    × (t'.progress ≡ t.progress)
HasTimes _ env t t' =
    (t'.finished_at ≡ some env.now)
    × (t'.scheduled_at ≡ t.scheduled_at)
    × (t'.result_json ≡ t.result_json)
    × (t'.progress ≡ t.progress)

-- `t'` is the task `t` after an attempt has ended
pub record EndedAs (ending : Ending) (env : Env) (t t' : Task) : Type 0 where
  pub status : t'.status ≡ status_after ending
  pub stage : t'.current_stage ≡ some (stage_after ending)
  pub error : HasError (error_of ending) t t'
  pub times : HasTimes ending env t t'
  pub owner : t'.lease_owner ≡ none
  pub lease : t'.lease_until ≡ none
  pub attempt_no : t'.attempt_no ≡ t.attempt_no
  pub cancel_requested : t'.cancel_requested ≡ t.cancel_requested
  pub parent_task_id : t'.parent_task_id ≡ t.parent_task_id
  pub created_by : t'.created_by ≡ t.created_by

pub ended_row-EndedAs :
    (ending : Ending) (env : Env) (t : Task) → EndedAs ending env t (ended_row ending env t)
unfolding truncate
ended_row-EndedAs (succeeds result) env t = record {
  status = refl;
  stage = refl;
  error = (refl, refl);
  times = (refl, refl, refl, refl);
  owner = refl;
  lease = refl;
  attempt_no = refl;
  cancel_requested = refl;
  parent_task_id = refl;
  created_by = refl;
}
ended_row-EndedAs (waits code message at) env t = record {
  status = refl;
  stage = refl;
  error = (refl, refl);
  times = (refl, refl, refl, refl);
  owner = refl;
  lease = refl;
  attempt_no = refl;
  cancel_requested = refl;
  parent_task_id = refl;
  created_by = refl;
}
ended_row-EndedAs (fails code message status) env t = record {
  status = refl;
  stage = refl;
  error = (refl, refl);
  times = (refl, refl, refl, refl);
  owner = refl;
  lease = refl;
  attempt_no = refl;
  cancel_requested = refl;
  parent_task_id = refl;
  created_by = refl;
}
ended_row-EndedAs (dies code message) env t = record {
  status = refl;
  stage = refl;
  error = (refl, refl);
  times = (refl, refl, refl, refl);
  owner = refl;
  lease = refl;
  attempt_no = refl;
  cancel_requested = refl;
  parent_task_id = refl;
  created_by = refl;
}
ended_row-EndedAs stops env t = record {
  status = refl;
  stage = refl;
  error = (refl, refl);
  times = (refl, refl, refl, refl);
  owner = refl;
  lease = refl;
  attempt_no = refl;
  cancel_requested = refl;
  parent_task_id = refl;
  created_by = refl;
}

-- a task that the worker may not end: it is not RUNNING, or not the worker's, or not there
abbrev pub NotHeld : String → Option Task → Type 0
NotHeld worker none = Unit
NotHeld worker (some t) = (t.status ≢ TaskStatus.running) ⊎ (t.lease_owner ≢ some worker)

abbrev pub EndsAttempt : Ending → Env → ℕ → String → Session → Result (Task × Session) → Type 0
EndsAttempt ending env id worker s (ok (t', s')) =
    (t : Task) × (get id s.tasks ≡ some t)
    × (t.status ≡ TaskStatus.running)
    × (t.lease_owner ≡ some worker)
    × EndedAs ending env t t'
    × (get id s'.tasks ≡ some t')
    × (without id s'.tasks ≡ without id s.tasks)
EndsAttempt ending env id worker s (err e) =
    (e ≡ Error.not_owned id worker) × NotHeld worker (get id s.tasks)

owner_of : (o : Option String) (worker : String) → some_eq o worker ≡ true → o ≡ some worker
owner_of none worker e = absurd (cc e)
owner_of (some v) worker e = ap some ((str_eq_iff v worker).0 e)

owner_is : (o : Option String) (worker : String) → o ≡ some worker → some_eq o worker ≡ true
owner_is o worker e = rw e (str_eq_refl worker)

held :
    (worker : String) (t : Task)
    → is_owned worker t ≡ true
    → (t.status ≡ TaskStatus.running) × (t.lease_owner ≡ some worker)
held worker t o =
    let running : status_eq t.status TaskStatus.running ≡ true = ground (arith, o) in
    let owner : some_eq t.lease_owner worker ≡ true = ground (arith, o) in
    ((status_eq_iff t.status TaskStatus.running).0 running, owner_of t.lease_owner worker owner)

not_both : (a b : Bool) → (a && b) ≡ false → (a ≡ false) ⊎ (b ≡ false)
not_both true b e = inr e
not_both false b e = inl refl

not_held :
    (worker : String) (o : Option Task) → keep_if (is_owned worker) o ≡ false → NotHeld worker o
not_held worker none e = tt
not_held worker (some t) e =
    elim (not_both (status_eq t.status TaskStatus.running) (some_eq t.lease_owner worker) e) [
      | inl n ↦ inl (λ q. cc (sym n ∙ (status_eq_iff t.status TaskStatus.running).1 q))
      | inr n ↦ inr (λ q. cc (sym n ∙ owner_is t.lease_owner worker q))
    ]

Ends-EndsAttempt :
    (ending : Ending) (env : Env) (id : ℕ) (worker : String) (s : Session)
    (r : Result (Task × Session))
    → Ends id worker (ended_row ending env) s r
    → EndsAttempt ending env id worker s r
Ends-EndsAttempt ending env id worker s (ok (t', s')) (t, g, o, e, w) =
    let (running, owner) = held worker t o in
    (
      t,
      g,
      running,
      owner,
      rw e (ended_row-EndedAs ending env t),
      rw (w.tasks, e) (get-modify_self id (ended_row ending env) s.tasks t g),
      rw w.tasks (without-modify id (ended_row ending env) s.tasks),
    )
Ends-EndsAttempt ending env id worker s (err x) (e, n) = (e, not_held worker (get id s.tasks) n)

-- Each of the five methods ends the attempt if the task is RUNNING and its owner is the worker: it
-- returns and leaves the task with the status SUCCEEDED, RETRY_WAIT, FAILED, DEAD or CANCELED of the
-- method, without owner and lease, with the result, the error, the next time or the time of the end
-- that belong to it, and it leaves every other task. Otherwise it raises the error that names the
-- task and the worker, and the task is not there, is not RUNNING, or has another owner.
pub end_attempt-EndsAttempt :
    (ending : Ending) (env : Env) (id attempt : ℕ) (worker : String) (s : Session)
    → EndsAttempt ending env id worker s (end_attempt ending env id attempt worker s)
end_attempt-EndsAttempt ending env id attempt worker s =
    Ends-EndsAttempt ending env id worker s (end_attempt ending env id attempt worker s)
      (end_attempt-Ends ending env id attempt worker s)
