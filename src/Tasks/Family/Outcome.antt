-- ===== src/Tasks/Family/Outcome.antt =====
-- refresh_parent_state: the parent afterwards, by the rows of its children.
use amsz_web.Table.Laws.{get-modify}
use amsz_web.Tasks.Family.Effects.{Parents, refresh_parent_state-Parents}
use amsz_web.Table.{get}
use amsz_web.Models.{Task}
use amsz_web.Domain.{TaskStatus}
use amsz_web.Base.{
  ℕ, arith, ◌+◌, ◌≡◌, count, true, false, ◌<◌, some, ==_refl, subst, sym, keep_if, refl,
}
use amsz_web.Tasks.Family.Refresh.{refreshed, is_closed, refresh_parent_state}
use amsz_web.Tasks.Family.Summary.{is_child_of, Summary, build_child_summary, is_parent}
use amsz_web.Tasks.Family.Counts.{children_with, Summarises, build_child_summary-Summarises}
use amsz_web.Session.{Env, Session, Result, ok, err, Error}

-- how many children of a task have ended without success
abbrev pub lost_children : ℕ → Session → ℕ
lost_children id s =
    children_with id TaskStatus.failed s
    + children_with id TaskStatus.canceled s
    + children_with id TaskStatus.dead s

-- what the columns of a parent say afterwards, by those before
pub record Tells (id : ℕ) (s : Session) (t t' : Task) : Type 0 where
  pub total : t'.total_children ≡ count (λ r. is_child_of id r.stored) s.tasks
  pub succeeded : t'.succeeded_children ≡ children_with id TaskStatus.succeeded s
  pub failed : t'.failed_children ≡ lost_children id s
  pub running : t'.running_children ≡ children_with id TaskStatus.running s
  pub closed : is_closed t.status ≡ true → t'.status ≡ t.status
  pub child_failed :
      is_closed t.status ≡ false → 0 < lost_children id s → t'.status ≡ TaskStatus.failed
  pub aggregating :
      is_closed t.status ≡ false
      → lost_children id s ≡ 0
      → t.aggregation_dispatched ≡ true
      → t'.status ≡ TaskStatus.aggregating
  pub children_running :
      is_closed t.status ≡ false
      → lost_children id s ≡ 0
      → t.aggregation_dispatched ≡ false
      → 0 < t'.total_children
      → t'.status ≡ TaskStatus.partially_running

-- the columns that are written, by the branches
refreshed-Tells :
    (env : Env) (id : ℕ) (s : Session) (c : Summary) (t : Task)
    → Summarises id s c
    → Tells id s t (refreshed env c t)
unfolding refreshed
refreshed-Tells env id s c t h =
    let total = h.total in
    let lost = h.failed in
    let succeeded = h.succeeded in
    let running = h.running in
    record {
      total = ground (arith, total);
      succeeded = ground (arith, succeeded);
      failed = ground (arith, lost);
      running = ground (arith, running);
      closed = λ e. ground (arith, e);
      child_failed = λ e f. ground (arith, e, f, lost);
      aggregating = λ e f g. ground (arith, e, f, g, lost);
      children_running = λ e f g k. ground (arith, e, f, g, k, lost, total);
    }

-- The parent that is written is the one that is returned, or the id is not that of a parent.
abbrev pub Reflects : ℕ → Session → Result (Task × Session) → Type 0
Reflects id s (ok (t', s')) =
    (t : Task) × (get id s.tasks ≡ some t)
    × (is_parent t ≡ true)
    × (get id s'.tasks ≡ some t')
    × Tells id s t t'
Reflects id s (err e) = (e ≡ Error.not_parent id) × (keep_if is_parent (get id s.tasks) ≡ false)

Reflects-Parents :
    (env : Env) (id : ℕ) (s : Session) (c : Summary) (r : Result (Task × Session))
    → Summarises id s c
    → Parents id (refreshed env c) s r
    → Reflects id s r
Reflects-Parents env id s c (ok (t', s')) h (t, g, o, same, w) = (
  t,
  g,
  o,
  rw (w.tasks, get-modify id id (refreshed env c) s.tasks, g, ==_refl id, same) refl,
  subst (Tells id s t) (sym same) (refreshed-Tells env id s c t h),
)
Reflects-Parents env id s c (err e) h (x, n) = (x, n)

-- refresh_parent_state raises exactly where the id is not that of a parent task. Otherwise the
-- counters of the parent become the numbers of its child rows with the statuses they name; a
-- SUCCEEDED, CANCELED or DEAD parent keeps its status; any other one becomes FAILED if a child is
-- FAILED, CANCELED or DEAD, else AGGREGATING if the aggregate task was dispatched, else
-- PARTIALLY_RUNNING if it has a child.
pub refresh_parent_state-Reflects :
    (env : Env) (id : ℕ) (s : Session) → Reflects id s (refresh_parent_state env id s)
refresh_parent_state-Reflects env id s =
    Reflects-Parents env id s (build_child_summary id s) (refresh_parent_state env id s)
      (build_child_summary-Summarises id s) (refresh_parent_state-Parents env id s)
