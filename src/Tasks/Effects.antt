-- ===== src/Tasks/Effects.antt =====
-- What a method does to the table task, apart from events and attempts: the form in which the proofs
-- about methods are handed on.
use amsz_web.Base.{ℕ, String, Option, ◌≡◌, refl, arith, Bool, keep_if, false, some, ap, true}
use amsz_web.Domain.{TaskStatus, AttemptStatus, Json}
use amsz_web.Models.{Task}
use amsz_web.Table.{modify, get}
use amsz_web.Session.{Env, Session, set_task, Error, Result, err, ok}
use amsz_web.Tasks.Events.{add_event, update_attempt_status}

-- `s'` has the tasks of `s`, with `f` applied to one.
pub record Wrote (id : ℕ) (f : Task → Task) (s s' : Session) : Type 0 where
  pub tasks : s'.tasks ≡ modify id f s.tasks
  pub next : s'.next_task_id ≡ s.next_task_id

pub Wrote-set_task : (id : ℕ) (f : Task → Task) (s : Session) → Wrote id f s (set_task id f s)
Wrote-set_task id f s = record { tasks = refl; next = refl }

module _ {id : ℕ} {f : Task → Task} {s s' : Session} (w : Wrote id f s s') where
  pub Wrote-add_event :
      (env : Env) (task_id : ℕ) (kind : String) (from to : Option TaskStatus)
      (message : Option String) (payload : Option Json)
      → Wrote id f s (add_event env task_id kind from to message payload s')
  unfolding add_event
  Wrote-add_event env task_id kind from to message payload = record {
    tasks = ground (arith, w.tasks);
    next = ground (arith, w.next);
  }

  pub Wrote-update_attempt_status :
      (env : Env) (task_id attempt : ℕ) (status : AttemptStatus) (code message : Option String)
      → Wrote id f s (update_attempt_status env task_id attempt status code message s')
  unfolding update_attempt_status
  Wrote-update_attempt_status env task_id attempt status code message = record {
    tasks = ground (arith, w.tasks);
    next = ground (arith, w.next);
  }

pub ruleset write_rules = (Wrote-set_task, Wrote-add_event, Wrote-update_attempt_status)

-- A method that asks for a task which passes a test: it finds one, and `f` is written to it alone
-- and returned, or it raises, and no such task was there.
abbrev pub Guarded :
    (Task → Bool) → Error → (Task → Task) → ℕ → Session → Result (Task × Session) → Type 0
Guarded test e f id s (ok (t', s')) =
    (t : Task) × (get id s.tasks ≡ some t) × (test t ≡ true) × (t' ≡ f t) × Wrote id f s s'
Guarded test e f id s (err x) = (x ≡ e) × (keep_if test (get id s.tasks) ≡ false)

pub Guarded-raises :
    (test : Task → Bool) (e : Error) (f : Task → Task) (id : ℕ) (s : Session)
    (r : Result (Task × Session))
    → keep_if test (get id s.tasks) ≡ false
    → Guarded test e f id s r
    → r ≡ err e
Guarded-raises test e f id s (ok (t', s')) n (t, g, o, _, _) = cc (rw g at n)
Guarded-raises test e f id s (err x) n (g, _) = ap err g
