-- ===== src/Tasks/Invariant.antt =====
-- The invariant of the table task that every method of TaskRepository keeps, and the rules by which
-- its children prove that.
pub mod Marks
pub mod Families
pub mod Creates
pub mod Claims
use mathlib.Core.Path.{subst₂}
use amsz_web.Base.{
  subst, ℕ, suc, ◌≤◌, String, Bool, true, false, Bool-cases, inl, inr, sym, ◌∙◌, Option, none, some,
  List, ◌≡◌, refl, arith, is_some, All,
}
use amsz_web.Domain.{TaskStatus, AttemptStatus, TaskRole, Json, status_eq, role_eq, is_final}
use amsz_web.Models.{Task}
use amsz_web.Table.{Row, get, modify, flush, flushed, insert}
use amsz_web.Table.Laws.{
  Distinct, Below, All-modify, All-flush, Distinct-modify, Below-modify, Distinct-flush,
  Below-flush,
}
use amsz_web.Session.{◌>>=◌, Env, Session, Result, ok, err, set_task, commit, end_scope}
use amsz_web.Tasks.Events.{add_event, update_attempt_status}

-- A task is RUNNING exactly while it has an owner and a lease; a parent is never RUNNING; progress
-- is a percentage; a RUNNING task has started, and a final one has finished.
pub record IsSound (t : Task) : Type 0 where
  pub owned : is_some t.lease_owner ≡ status_eq t.status TaskStatus.running
  pub leased : is_some t.lease_until ≡ status_eq t.status TaskStatus.running
  pub parent_idle :
      role_eq t.task_role TaskRole.parent ≡ true → status_eq t.status TaskStatus.running ≡ false
  pub percentage : t.progress ≤ 100
  pub started : status_eq t.status TaskStatus.running ≡ true → is_some t.started_at ≡ true
  pub finished : is_final t.status ≡ true → is_some t.finished_at ≡ true

-- The object is sound, and its role is the stored one.
abbrev pub IsSoundRow : Row Task → Type 0
IsSoundRow r = IsSound r.live × (r.stored.task_role ≡ r.live.task_role)

-- Every task is sound, and ids are distinct and below the next one.
pub record Sound (s : Session) : Type 0 where
  pub rows : All IsSoundRow s.tasks
  pub distinct : Distinct s.tasks
  pub below : Below s.next_task_id s.tasks

-- what holds of the session where the method returns
abbrev pub Ensures {ℓ} : {A : Type ℓ} → (Session → Type 0) → Result (A × Session) → Type 0
Ensures P (ok (a, s)) = P s
Ensures P (err e) = Unit

-- the same, of a method that returns the session alone
abbrev pub Holds : (Session → Type 0) → Result Session → Type 0
Holds P (ok s) = P s
Holds P (err e) = Unit

-- The rest of a method runs where the first part has returned.
module _ {A : Type 0} (P Q : Session → Type 0) where
  pub Ensures-bind :
      {B : Type 0} (m : Result (A × Session)) (k : A → Session → Result (B × Session))
      → Ensures P m
      → ((a : A) (s : Session) → P s → Ensures Q (k a s))
      → Ensures Q (m >>= λ (a, s). k a s)
  Ensures-bind (ok (a, s)) k h step = step a s h
  Ensures-bind (err e) k h step = tt

  pub Holds-bind :
      (m : Result (A × Session)) (k : A → Session → Result Session)
      → Ensures P m
      → ((a : A) (s : Session) → P s → Holds Q (k a s))
      → Holds Q (m >>= λ (a, s). k a s)
  Holds-bind (ok (a, s)) k h step = step a s h
  Holds-bind (err e) k h step = tt

  pub Ensures-after :
      (m : Result Session) (k : Session → Result (A × Session))
      → Holds P m
      → ((s : Session) → P s → Ensures Q (k s))
      → Ensures Q (m >>= k)
  Ensures-after (ok s) k h step = step s h
  Ensures-after (err e) k h step = tt

pub Sound-set_task :
    (k : ℕ) (f : Task → Task) (s : Session)
    → ((t : Task) → get k s.tasks ≡ some t → IsSound t → IsSound (f t))
    → ((t : Task) → (f t).task_role ≡ t.task_role)
    → Sound s
    → Sound (set_task k f s)
Sound-set_task k f s step same h = record {
  rows =
      All-modify IsSoundRow k f s.tasks (λ r e g q. (step r.live g q.0, q.1 ∙ sym (same r.live)))
        h.rows;
  distinct = Distinct-modify k f s.tasks h.distinct;
  below = Below-modify s.next_task_id k f s.tasks h.below;
}

-- It speaks of the table and of the next id alone.
pub Sound-same :
    (s s' : Session) → s'.tasks ≡ s.tasks → s'.next_task_id ≡ s.next_task_id → Sound s → Sound s'
Sound-same s s' e n h = record {
  rows = subst (All IsSoundRow) (sym e) h.rows;
  distinct = subst Distinct (sym e) h.distinct;
  below = subst₂ Below (sym n) (sym e) h.below;
}

pub Sound-add_event :
    (env : Env) (id : ℕ) (kind : String) (from to : Option TaskStatus) (message : Option String)
    (payload : Option Json) (s : Session)
    → Sound s
    → Sound (add_event env id kind from to message payload s)
unfolding add_event
Sound-add_event env id kind from to message payload s =
    Sound-same s (add_event env id kind from to message payload s) (ground arith) (ground arith)

pub Sound-update_attempt_status :
    (env : Env) (id attempt : ℕ) (status : AttemptStatus) (code message : Option String)
    (s : Session)
    → Sound s
    → Sound (update_attempt_status env id attempt status code message s)
unfolding update_attempt_status
Sound-update_attempt_status env id attempt status code message s =
    Sound-same s (update_attempt_status env id attempt status code message s) (ground arith)
      (ground arith)

-- A commit keeps it.
pub Sound-commit : (s : Session) → Sound s → Sound (commit s)
Sound-commit s h = record {
  rows = All-flush IsSoundRow s.tasks (λ r q. (q.0, refl)) h.rows;
  distinct = Distinct-flush s.tasks h.distinct;
  below = Below-flush s.next_task_id s.tasks h.below;
}

pub end_scope-Sound :
    {A : Type 0} (db : Session) (r : Result (A × Session))
    → Ensures Sound r
    → Sound db
    → Sound (end_scope db r).1
end_scope-Sound db (ok (a, s)) e h = Sound-commit s e
end_scope-Sound db (err x) e h = h
