-- ===== src/Tasks/Finish/Ownership.antt =====
-- The five methods that end an attempt: who may call them, and what they write.
use amsz_web.Table.Laws.{get-modify}
use amsz_web.Base.{
  subst, ==_refl, ℕ, String, false, Option, some, ◌≡◌, refl, Bool-cases, inl, inr, Option-cases,
}
use amsz_web.Domain.{AttemptStatus, Json}
use amsz_web.Models.{Task}
use amsz_web.Table.{get}
use amsz_web.Session.{Env, Session, Result, ok, err, Error, ◌>>=◌}
use amsz_web.Tasks.Effects.{Wrote, write_rules, Guarded-raises, Guarded}
use amsz_web.Tasks.Finish.{
  is_owned, owned_task, mark_succeeded, mark_succeeded_row, mark_retry_wait, mark_retry_wait_row,
  mark_failed, mark_failed_row, mark_dead, mark_dead_row, mark_canceled, mark_canceled_row,
}

-- The ways to end an attempt, with their arguments.
pub data Ending : Type 0 where
  succeeds : Option Json → Ending
  waits : (code message : String) (scheduled_at : ℕ) → Ending
  fails : (code message : String) → AttemptStatus → Ending
  dies : (code message : String) → Ending
  stops : Ending

-- the method for each
abbrev pub end_attempt : Ending → Env → ℕ → ℕ → String → Session → Result (Task × Session)
end_attempt (succeeds result) env id attempt worker s =
    mark_succeeded env id attempt worker result s
end_attempt (waits code message scheduled_at) env id attempt worker s =
    mark_retry_wait env id attempt worker code message scheduled_at s
end_attempt (fails code message status) env id attempt worker s =
    mark_failed env id attempt worker code message status s
end_attempt (dies code message) env id attempt worker s =
    mark_dead env id attempt worker code message s
end_attempt stops env id attempt worker s = mark_canceled env id attempt worker s

-- the columns that it writes
abbrev pub ended_row : Ending → Env → Task → Task
ended_row (succeeds result) env = mark_succeeded_row env result
ended_row (waits code message scheduled_at) env = mark_retry_wait_row env code message scheduled_at
ended_row (fails code message status) env = mark_failed_row env code message
ended_row (dies code message) env = mark_dead_row env code message
ended_row stops env = mark_canceled_row env

-- On success the task was RUNNING and the worker's, and `f` is written to it alone; otherwise it was
-- not, and the method raises.
abbrev pub Ends : ℕ → String → (Task → Task) → Session → Result (Task × Session) → Type 0
Ends id worker f = Guarded (is_owned worker) (Error.not_owned id worker) f id

Ends-owned_task :
    (id : ℕ) (worker : String) (f : Task → Task) (s : Session) (finish : Task → Session)
    → ((t : Task) → Wrote id f s (finish t))
    → Ends id worker f s (owned_task id worker s >>= λ t. ok (f t, finish t))
unfolding owned_task
Ends-owned_task id worker f s finish wrote = elim (Option-cases (get id s.tasks)) [
  | inl e ↦ rw (e, owned_task) (refl, rw e)
  | inr (t, e) ↦ elim (Bool-cases (is_owned worker t)) [
    | inl o ↦ rw (e, o, owned_task) (t, e, o, refl, wrote t)
    | inr o ↦ rw (e, o, owned_task) (refl, rw e o)
  ]
]

module _ (env : Env) (id attempt : ℕ) (worker : String) (s : Session) where
  mark_succeeded-Ends :
      (result : Option Json)
      → Ends id worker
          (mark_succeeded_row env result)
          s
          (mark_succeeded env id attempt worker result s)
  unfolding mark_succeeded
  mark_succeeded-Ends result = Ends-owned_task id worker _ s _ (λ t. search write_rules)

  mark_retry_wait-Ends :
      (code message : String) (scheduled_at : ℕ)
      → Ends id worker
          (mark_retry_wait_row env code message scheduled_at)
          s
          (mark_retry_wait env id attempt worker code message scheduled_at s)
  unfolding mark_retry_wait
  mark_retry_wait-Ends code message scheduled_at =
      Ends-owned_task id worker _ s _ (λ t. search write_rules)

  mark_failed-Ends :
      (code message : String) (status : AttemptStatus)
      → Ends id worker
          (mark_failed_row env code message)
          s
          (mark_failed env id attempt worker code message status s)
  unfolding mark_failed
  mark_failed-Ends code message status = Ends-owned_task id worker _ s _ (λ t. search write_rules)

  mark_dead-Ends :
      (code message : String)
      → Ends id worker
          (mark_dead_row env code message)
          s
          (mark_dead env id attempt worker code message s)
  unfolding mark_dead
  mark_dead-Ends code message = Ends-owned_task id worker _ s _ (λ t. search write_rules)

  mark_canceled-Ends :
      Ends id worker (mark_canceled_row env) s (mark_canceled env id attempt worker s)
  unfolding mark_canceled
  mark_canceled-Ends = Ends-owned_task id worker _ s _ (λ t. search write_rules)

-- Each of the five methods ends the attempt exactly when the task is RUNNING and owned by the worker:
-- then it writes its columns to this task, returns the task so written, and leaves every other task;
-- otherwise it raises the error that names the task and the worker.
pub end_attempt-Ends :
    (ending : Ending) (env : Env) (id attempt : ℕ) (worker : String) (s : Session)
    → Ends id worker (ended_row ending env) s (end_attempt ending env id attempt worker s)
end_attempt-Ends (succeeds result) env id attempt worker s =
    mark_succeeded-Ends env id attempt worker s result
end_attempt-Ends (waits code message scheduled_at) env id attempt worker s =
    mark_retry_wait-Ends env id attempt worker s code message scheduled_at
end_attempt-Ends (fails code message status) env id attempt worker s =
    mark_failed-Ends env id attempt worker s code message status
end_attempt-Ends (dies code message) env id attempt worker s =
    mark_dead-Ends env id attempt worker s code message
end_attempt-Ends stops env id attempt worker s = mark_canceled-Ends env id attempt worker s

-- What is ended is owned by nobody.
ended_row-is_owned :
    (ending : Ending) (env : Env) (worker : String) (t : Task)
    → is_owned worker (ended_row ending env t) ≡ false
ended_row-is_owned (succeeds result) env worker t = refl
ended_row-is_owned _ env worker t = refl

-- An attempt ends once: after one of the five methods has returned, each of them raises for that
-- task, for every worker and every attempt number.
pub end_attempt_twice :
    (first second : Ending) (env env' : Env) (id attempt attempt' : ℕ) (worker worker' : String)
    (s s' : Session) (t : Task)
    → end_attempt first env id attempt worker s ≡ ok (t, s')
    → end_attempt second env' id attempt' worker' s' ≡ err (Error.not_owned id worker')
end_attempt_twice first second env env' id attempt attempt' worker worker' s s' t e =
    let (u, found, owned, _, w) =
      subst (Ends id worker (ended_row first env) s) e
        (end_attempt-Ends first env id attempt worker s) in
    let now : get id s'.tasks ≡ some (ended_row first env u) =
      rw (w.tasks, get-modify id id (ended_row first env) s.tasks, found, ==_refl id) in
    Guarded-raises (is_owned worker') _ (ended_row second env') id s' _
      (rw now (ended_row-is_owned first env worker' u))
      (end_attempt-Ends second env' id attempt' worker' s')
