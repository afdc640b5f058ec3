-- ===== src/Tasks/Control/Cancellation.antt =====
-- task_repository.py: request_cancel, by the status that the task has.
use amsz_web.Table.Laws.{get-modify_self, without-modify}
use amsz_web.Table.{get, without}
use amsz_web.Base.{ℕ, true, false, Option, none, some, ◌≡◌, refl, inl, inr, sym, subst, ap, ◌∙◌}
use amsz_web.Domain.{TaskStatus, status_eq}
use amsz_web.Models.{Task}
use amsz_web.Session.{Env, Session}
use amsz_web.Tasks.Effects.{Wrote}
use amsz_web.Tasks.Control.{is_active, cancel_pending_row, cancel_active_row, request_cancel}
use amsz_web.Tasks.Control.Effects.{Cancels, request_cancel-Cancels}

-- `t'` is the task `t` after its end before any worker had it
pub record EndedEarly (env : Env) (t t' : Task) : Type 0 where
  pub status : t'.status ≡ TaskStatus.canceled
  pub cancel_requested : t'.cancel_requested ≡ true
  pub finished_at : t'.finished_at ≡ some env.now
  pub owner : t'.lease_owner ≡ none
  pub lease : t'.lease_until ≡ none
  pub attempt_no : t'.attempt_no ≡ t.attempt_no
  pub parent_task_id : t'.parent_task_id ≡ t.parent_task_id

-- `t'` is the task `t` with the request for its end, and nothing else
abbrev pub Asked : Task → Task → Type 0
Asked t t' = t' ≡ record t { cancel_requested = true }

-- what a cancellation makes of a task with a status
abbrev pub CanceledAs : Env → TaskStatus → Task → Task → Type 0
CanceledAs env TaskStatus.pending t t' = EndedEarly env t t'
CanceledAs env TaskStatus.running t t' = Asked t t'
CanceledAs env TaskStatus.dispatching t t' = Asked t t'
CanceledAs env TaskStatus.partially_running t t' = Asked t t'
CanceledAs env TaskStatus.aggregating t t' = Asked t t'
CanceledAs env TaskStatus.retry_wait t t' = t' ≡ t
CanceledAs env TaskStatus.succeeded t t' = t' ≡ t
CanceledAs env TaskStatus.failed t t' = t' ≡ t
CanceledAs env TaskStatus.canceled t t' = t' ≡ t
CanceledAs env TaskStatus.dead t t' = t' ≡ t

abbrev pub Canceled : Env → ℕ → Session → Option Task → Option Task × Session → Type 0
Canceled env id s none (r, s') = (r ≡ none) × (s' ≡ s)
Canceled env id s (some t) (r, s') =
    (t' : Task) × (r ≡ some t')
    × CanceledAs env t.status t t'
    × (get id s'.tasks ≡ some t')
    × (without id s'.tasks ≡ without id s.tasks)

active-Asked :
    (env : Env) (st : TaskStatus) (t : Task)
    → is_active st ≡ true
    → CanceledAs env st t (cancel_active_row t)
active-Asked env TaskStatus.running t e = refl
active-Asked env TaskStatus.dispatching t e = refl
active-Asked env TaskStatus.partially_running t e = refl
active-Asked env TaskStatus.aggregating t e = refl
active-Asked env TaskStatus.pending t e = absurd (cc e)
active-Asked env TaskStatus.retry_wait t e = absurd (cc e)
active-Asked env TaskStatus.succeeded t e = absurd (cc e)
active-Asked env TaskStatus.failed t e = absurd (cc e)
active-Asked env TaskStatus.canceled t e = absurd (cc e)
active-Asked env TaskStatus.dead t e = absurd (cc e)

other-same :
    (env : Env) (st : TaskStatus) (t : Task)
    → status_eq st TaskStatus.pending ≡ false
    → is_active st ≡ false
    → CanceledAs env st t t
other-same env TaskStatus.pending t n e = absurd (cc n)
other-same env TaskStatus.running t n e = absurd (cc e)
other-same env TaskStatus.dispatching t n e = absurd (cc e)
other-same env TaskStatus.partially_running t n e = absurd (cc e)
other-same env TaskStatus.aggregating t n e = absurd (cc e)
other-same env TaskStatus.retry_wait t n e = refl
other-same env TaskStatus.succeeded t n e = refl
other-same env TaskStatus.failed t n e = refl
other-same env TaskStatus.canceled t n e = refl
other-same env TaskStatus.dead t n e = refl

pending-EndedEarly : (env : Env) (t : Task) → EndedEarly env t (cancel_pending_row env t)
pending-EndedEarly env t = record {
  status = refl;
  cancel_requested = refl;
  finished_at = refl;
  owner = refl;
  lease = refl;
  attempt_no = refl;
  parent_task_id = refl;
}

written-Canceled :
    (env : Env) (id : ℕ) (s s' : Session) (f : Task → Task) (t : Task) (r : Option Task)
    → get id s.tasks ≡ some t
    → CanceledAs env t.status t (f t)
    → r ≡ some (f t)
    → Wrote id f s s'
    → Canceled env id s (some t) (r, s')
written-Canceled env id s s' f t r g c e w = (
  f t,
  e,
  c,
  rw w.tasks (get-modify_self id f s.tasks t g),
  rw w.tasks (without-modify id f s.tasks),
)

Cancels-Canceled :
    (env : Env) (id : ℕ) (s : Session) (o : Option Task) (r : Option Task × Session)
    → get id s.tasks ≡ o
    → Cancels env id s o r
    → Canceled env id s o r
Cancels-Canceled env id s none r g c = c
Cancels-Canceled env id s (some t) (r, s') g (inl (p, e, w)) =
    written-Canceled env id s s' (cancel_pending_row env) t r g
      (subst (λ x. CanceledAs env x t (cancel_pending_row env t)) (sym p)
        (pending-EndedEarly env t))
      e w
Cancels-Canceled env id s (some t) (r, s') g (inr (inl (a, e, w))) =
    written-Canceled env id s s' cancel_active_row t r g (active-Asked env t.status t a) e w
Cancels-Canceled env id s (some t) (r, s') g (inr (inr (n, a, e, same))) = (
  t,
  e,
  other-same env t.status t n a,
  ap (λ x. get id x.tasks) same ∙ g,
  ap (λ x. without id x.tasks) same,
)

-- request_cancel by the status of the task: a PENDING task becomes CANCELED, with the time of its end,
-- without owner and lease; a task that is RUNNING, DISPATCHING, PARTIALLY_RUNNING or AGGREGATING
-- gets the mark cancel_requested and no other change; a task with another status (RETRY_WAIT too) is
-- as it was. The task so changed is returned and no other task changes. None is returned for no task,
-- and nothing changes.
pub request_cancel-Canceled :
    (env : Env) (id : ℕ) (s : Session)
    → Canceled env id s (get id s.tasks) (request_cancel env id s)
request_cancel-Canceled env id s =
    Cancels-Canceled env id s (get id s.tasks) (request_cancel env id s) refl
      (request_cancel-Cancels env id s)
