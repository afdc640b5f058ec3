-- ===== src/Tasks/Claim/Requeued.antt =====
-- retry_task and request_cancel, as the claims and the workers see them.
use amsz_web.Table.Laws.{get-modify, get-flush}
use amsz_web.Tasks.Family.Summary.{is_parent}
use amsz_web.Domain.{status_eq, TaskStatus}
use amsz_web.Base.{
  ◌≡◌, some, true, inl, ==_refl, false, inr, ◌≤◌, refl, ◌∙◌, subst, arith, str_eq_refl, none,
}
use amsz_web.Tasks.Control.{
  retry_task, retry_row, is_retryable, request_cancel, is_cancel_requested, is_active,
  cancel_active_row,
}
use amsz_web.Tasks.Control.Effects.{WritesIf, retry_task-WritesIf, Cancels, request_cancel-Cancels}
use amsz_web.Tasks.Claim.{is_claimable, ℕ, Task, Option}
use amsz_web.Session.{Env, Session, commit}
use amsz_web.Table.{get}

claimable_after :
    (env env' : Env) (id : ℕ) (s s' : Session) (t : Task)
    → get id s.tasks ≡ some t
    → is_retryable t.status ≡ true
    → WritesIf (λ u. is_retryable u.status) (retry_row env) id s (some t) s'
    → get id s'.tasks ≡ some (retry_row env t)
claimable_after env env' id s s' t g r (inl (_, w)) =
    rw (w.tasks, get-modify id id (retry_row env) s.tasks, g, ==_refl id) refl
claimable_after env env' id s s' t g r (inr (n, _)) = cc

-- A FAILED, DEAD or CANCELED task that is retried can be claimed: after the commit, the query of
-- claim_tasks takes it for its queue, at every later time, unless it is a parent.
pub retry_task_claimable :
    (env env' : Env) (id : ℕ) (s : Session) (t : Task)
    → get id s.tasks ≡ some t
    → is_retryable t.status ≡ true
    → is_parent t ≡ false
    → env.now ≤ env'.now
    → (t' : Task) × (get id (commit (retry_task env id s).1).tasks ≡ some t')
      × (is_claimable env' t.queue_name t' ≡ true)
retry_task_claimable env env' id s t g r p later = (
  retry_row env t,
  get-flush id (retry_task env id s).1.tasks
      ∙ claimable_after env env' id s (retry_task env id s).1 t g r (
          subst
            (λ o.
              WritesIf (λ u. is_retryable u.status) (retry_row env) id s o (retry_task env id s).1)
            g (retry_task-WritesIf env id s)),
  ground (arith, later, p, str_eq_refl t.queue_name),
)

asked_after :
    (env : Env) (id : ℕ) (s s' : Session) (t : Task) (r : Option Task)
    → get id s.tasks ≡ some t
    → is_active t.status ≡ true
    → status_eq t.status TaskStatus.pending ≡ false
    → Cancels env id s (some t) (r, s')
    → get id s'.tasks ≡ some (cancel_active_row t)
asked_after env id s s' t r g a n (inl (e, _, _)) = cc (rw e at n)
asked_after env id s s' t r g a n (inr (inl (_, _, w))) =
    rw (w.tasks, get-modify id id cancel_active_row s.tasks, g, ==_refl id) refl
asked_after env id s s' t r g a n (inr (inr (_, e, _, _))) = cc

asked :
    (id : ℕ) (above : Option ℕ) (s : Session) (t : Task)
    → get id s.tasks ≡ some t
    → t.cancel_requested ≡ true
    → is_cancel_requested id above s ≡ true
unfolding is_cancel_requested
asked id none s t g c = ground (arith, g, c)
asked id (some p) s t g c = ground (arith, g, c)

asked_above :
    (child id : ℕ) (s : Session) (t : Task)
    → get id s.tasks ≡ some t
    → t.cancel_requested ≡ true
    → is_cancel_requested child (some id) s ≡ true
unfolding is_cancel_requested
asked_above child id s t g c = ground (arith, g, c)

-- A task that is RUNNING, DISPATCHING, PARTIALLY_RUNNING or AGGREGATING and is asked to be canceled:
-- afterwards is_cancel_requested tells the worker of this task, and that of a child of it, to stop.
pub request_cancel_stops :
    (env : Env) (id child : ℕ) (above : Option ℕ) (s : Session) (t : Task)
    → get id s.tasks ≡ some t
    → is_active t.status ≡ true
    → status_eq t.status TaskStatus.pending ≡ false
    → (is_cancel_requested id above (request_cancel env id s).1 ≡ true)
      × (is_cancel_requested child (some id) (request_cancel env id s).1 ≡ true)
unfolding is_cancel_requested
request_cancel_stops env id child above s t g a n =
    let now : get id (request_cancel env id s).1.tasks ≡ some (cancel_active_row t) =
      asked_after env id s (request_cancel env id s).1 t (request_cancel env id s).0 g a n (
        subst (λ o. Cancels env id s o (request_cancel env id s)) g
          (request_cancel-Cancels env id s)) in
    (
      asked id above (request_cancel env id s).1 (cancel_active_row t) now refl,
      asked_above child id (request_cancel env id s).1 (cancel_active_row t) now refl,
    )
