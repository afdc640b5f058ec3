-- ===== src/Tasks/Control/Effects.antt =====
-- What the methods of Control write.
use amsz_web.Base.{
  ℕ, true, false, Option, none, some, ◌≡◌, refl, arith, Bool-cases, inl, inr, Option-cases, ◌⊎◌,
  Bool, String, ◌≤◌,
}
use amsz_web.Domain.{TaskStatus, status_eq}
use amsz_web.Models.{Task}
use amsz_web.Table.{get}
use amsz_web.Session.{Env, Session}
use amsz_web.Tasks.Effects.{Wrote, write_rules}
use amsz_web.Tasks.Control.{
  is_active, cancel_pending_row, cancel_active_row, request_cancel, ℤ, retry_task, update_progress,
  renew_lease, is_retryable, clamp_progress, is_owned, retry_row, renew_row, progress_row,
}

-- the three branches of request_cancel, and the missing task
abbrev pub Cancels : Env → ℕ → Session → Option Task → Option Task × Session → Type 0
Cancels env id s none (r, s') = (r ≡ none) × (s' ≡ s)
Cancels env id s (some t) (r, s') =
    ((t.status ≡ TaskStatus.pending)
      × (r ≡ some (cancel_pending_row env t))
      × Wrote id (cancel_pending_row env) s s')
    ⊎ ((is_active t.status ≡ true)
        × (r ≡ some (cancel_active_row t))
        × Wrote id cancel_active_row s s')
    ⊎ ((status_eq t.status TaskStatus.pending ≡ false)
        × (is_active t.status ≡ false)
        × (r ≡ some t)
        × (s' ≡ s))

-- request_cancel by the status of the task: a PENDING task is canceled at once, a task that is RUNNING,
-- DISPATCHING, PARTIALLY_RUNNING or AGGREGATING is marked and otherwise left, every other one
-- (RETRY_WAIT too) is returned as it is, and no other task changes. None is returned for no task.
pub request_cancel-Cancels :
    (env : Env) (id : ℕ) (s : Session) → Cancels env id s (get id s.tasks) (request_cancel env id s)
unfolding request_cancel
request_cancel-Cancels env id s = elim (Option-cases (get id s.tasks)) [
  | inl e ↦ rw (e, request_cancel) (refl, refl)
  | inr (t, e) ↦ elim (Bool-cases (status_eq t.status TaskStatus.pending)) [
    | inl p ↦ rw (e, p, request_cancel) (inl (ground arith, refl, search write_rules))
    | inr p ↦ elim (Bool-cases (is_active t.status)) [
      | inl a ↦ rw (e, p, a, request_cancel) (inr (inl (refl, refl, search write_rules)))
      | inr a ↦ rw (e, p, a, request_cancel) (inr (inr (refl, refl, refl, refl)))
    ]
  ]
]

-- A method that writes `f` to a task where the test passes, and otherwise changes nothing.
abbrev pub WritesIf : (Task → Bool) → (Task → Task) → ℕ → Session → Option Task → Session → Type 0
WritesIf test f id s none s' = s' ≡ s
WritesIf test f id s (some t) s' =
    ((test t ≡ true) × Wrote id f s s') ⊎ ((test t ≡ false) × (s' ≡ s))

-- retry_task puts a FAILED, DEAD or CANCELED task back to PENDING, with the traces of its failure
-- removed, and returns any other task as it is.
pub retry_task-WritesIf :
    (env : Env) (id : ℕ) (s : Session)
    → WritesIf
        (λ t. is_retryable t.status)
        (retry_row env)
        id
        s
        (get id s.tasks)
        (retry_task env id s).1
unfolding retry_task
retry_task-WritesIf env id s = elim (Option-cases (get id s.tasks)) [
  | inl e ↦ rw (e, retry_task) refl
  | inr (t, e) ↦ elim (Bool-cases (is_retryable t.status)) [
    | inl p ↦ rw (e, p, retry_task) (inl (refl, search write_rules))
    | inr p ↦ rw (e, p, retry_task) (inr (refl, refl))
  ]
]

pub renew_lease-WritesIf :
    (env : Env) (id attempt : ℕ) (worker : String) (lease : ℕ) (s : Session)
    → WritesIf
        (is_owned worker)
        (renew_row env lease)
        id
        s
        (get id s.tasks)
        (renew_lease env id attempt worker lease s).1
unfolding renew_lease
renew_lease-WritesIf env id attempt worker lease s = elim (Option-cases (get id s.tasks)) [
  | inl e ↦ rw (e, renew_lease) refl
  | inr (t, e) ↦ elim (Bool-cases (is_owned worker t)) [
    | inl p ↦ rw (e, p, renew_lease) (inl (refl, record { tasks = refl; next = refl }))
    | inr p ↦ rw (e, p, renew_lease) (inr (refl, refl))
  ]
]

pub update_progress-WritesIf :
    (id : ℕ) (worker : String) (progress : ℤ) (stage : Option String) (s : Session)
    → WritesIf
        (is_owned worker)
        (progress_row progress stage)
        id
        s
        (get id s.tasks)
        (update_progress id worker progress stage s).1
unfolding update_progress
update_progress-WritesIf id worker progress stage s = elim (Option-cases (get id s.tasks)) [
  | inl e ↦ rw (e, update_progress) refl
  | inr (t, e) ↦ elim (Bool-cases (is_owned worker t)) [
    | inl p ↦ rw (e, p, update_progress) (inl (refl, search write_rules))
    | inr p ↦ rw (e, p, update_progress) (inr (refl, refl))
  ]
]

pub clamp_progress-le : (p : ℤ) → clamp_progress p ≤ 100
clamp_progress-le (ℤ.pos n) = omega arith
clamp_progress-le (ℤ.negsuc n) = omega arith
