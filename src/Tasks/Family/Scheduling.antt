-- ===== src/Tasks/Family/Scheduling.antt =====
-- schedule_aggregate_task_if_ready: when it schedules, and that it does so once.
use amsz_web.Table.Laws.{get-insert, get-modify}
use amsz_web.Tasks.Events.{add_event}
use amsz_web.Tasks.Effects.{Wrote, write_rules}
use amsz_web.Tasks.Create.Effects.{create_task-Creates, Adds}
use amsz_web.Tasks.Create.{Created, new_row}
use amsz_web.Domain.{TaskStatus}
use amsz_web.Table.{get}
use amsz_web.Models.{Task}
use amsz_web.Tasks.Family.Summary.{parent_for_update, is_parent}
use amsz_web.Tasks.Family.Aggregate.{
  schedule_aggregate_task_if_ready, AggregateArgs, is_ready, aggregate_args, aggregating_row,
  id_payload,
}
use amsz_web.Base.{
  none, some, true, false, inl, inr, refl, Option-cases, Option, Bool-cases, ◌≡◌, keep_if, subst,
  arith, ==_refl,
}
use amsz_web.Session.{ok, err, Env, Session, Result, ◌>>=◌, Error, set_task}

-- The aggregate task is added, and the parent is marked, exactly where the parent is ready; it
-- raises exactly where the id is not that of a parent.
abbrev pub Schedules : Env → AggregateArgs → Session → Result (Option Created × Session) → Type 0
Schedules env a s (ok (none, s')) =
    (p : Task) × (get a.parent_task_id s.tasks ≡ some p)
    × (is_parent p ≡ true)
    × (is_ready p ≡ false)
    × (s' ≡ s)
Schedules env a s (ok (some m, s')) =
    (p : Task) × (get a.parent_task_id s.tasks ≡ some p)
    × (is_parent p ≡ true)
    × (is_ready p ≡ true)
    × (s1 : Session) × Adds env (aggregate_args env a) s (ok (m, s1))
    × Wrote a.parent_task_id aggregating_row s1 s'
Schedules env a s (err e) =
    (e ≡ Error.not_parent a.parent_task_id)
    × (keep_if is_parent (get a.parent_task_id s.tasks) ≡ false)

Schedules-add :
    (env : Env) (a : AggregateArgs) (s : Session) (p : Task) (from : TaskStatus)
    (r : Result (Created × Session))
    → get a.parent_task_id s.tasks ≡ some p
    → is_parent p ≡ true
    → is_ready p ≡ true
    → Adds env (aggregate_args env a) s r
    → Schedules env a s (
        r >>= λ (made, s'). ok (
          some made,
          add_event env a.parent_task_id "AGGREGATE_SCHEDULED"
              (some from)
              (some TaskStatus.aggregating)
              (some "Aggregate task scheduled")
              (some (id_payload "aggregate_task_id" made.id))
              (set_task a.parent_task_id aggregating_row s'),
        ))
Schedules-add env a s p from (ok (m, s1)) e o y h = (p, e, o, y, s1, h, search write_rules)
Schedules-add env a s p from (err x) e o y (h, _) = cc

-- The method raises exactly where the id is not that of a parent task. It
-- returns None and changes nothing where the parent is not ready; where it is ready, one aggregate
-- task is added, with the arguments that the method gives to create_task, and the parent alone is
-- marked as AGGREGATING.
pub schedule_aggregate_task_if_ready-Schedules :
    (env : Env) (a : AggregateArgs) (s : Session)
    → Schedules env a s (schedule_aggregate_task_if_ready env a s)
unfolding schedule_aggregate_task_if_ready parent_for_update
schedule_aggregate_task_if_ready-Schedules env a s =
    elim (Option-cases (get a.parent_task_id s.tasks)) [
      | inl e ↦ rw (e, schedule_aggregate_task_if_ready, parent_for_update) (refl, rw e)
      | inr (p, e) ↦ elim (Bool-cases (is_parent p)) [
        | inr o ↦ rw (e, o, schedule_aggregate_task_if_ready, parent_for_update) (refl, rw e o)
        | inl o ↦ elim (Bool-cases (is_ready p)) [
          | inr n ↦
              rw (e, o, n, schedule_aggregate_task_if_ready, parent_for_update) (p, e, o, n, refl)
          | inl y ↦
              rw (e, o, y, schedule_aggregate_task_if_ready, parent_for_update)
                (Schedules-add env a s p p.status _ e o y
                  (create_task-Creates env (aggregate_args env a) s))
        ]
      ]
    ]

Schedules-none :
    (env : Env) (a : AggregateArgs) (s : Session) (p : Task) (r : Result (Option Created × Session))
    → get a.parent_task_id s.tasks ≡ some p
    → is_parent p ≡ true
    → is_ready p ≡ false
    → Schedules env a s r
    → r ≡ ok (none, s)
Schedules-none env a s p (ok (none, s')) e o n (_, _, _, _, same) = rw same
Schedules-none env a s p (ok (some m, s')) e o n (q, f, _, y, _, _, _) = ground arith
Schedules-none env a s p (err x) e o n (_, f) = cc (rw e at f)

-- The parent of a task that was just added keeps its row, and then is marked.
get-aggregating :
    (env : Env) (a : AggregateArgs) (s s1 s' : Session) (p : Task) (m : Created)
    → get a.parent_task_id s.tasks ≡ some p
    → Adds env (aggregate_args env a) s (ok (m, s1))
    → Wrote a.parent_task_id aggregating_row s1 s'
    → get a.parent_task_id s'.tasks ≡ some (aggregating_row p)
get-aggregating env a s s1 s' p m e (_, _, t, _) w =
    let kept : get a.parent_task_id s1.tasks ≡ some p =
      rw
        (
          t,
          get-insert s.next_task_id a.parent_task_id (new_row env (aggregate_args env a)) s.tasks,
          e,
        )
        refl in
    rw (
      w.tasks,
      get-modify a.parent_task_id a.parent_task_id aggregating_row s1.tasks,
      kept,
      ==_refl a.parent_task_id,
    )

again-Schedules :
    (env env' : Env) (a b : AggregateArgs) (s s' : Session) (m : Created)
    → b.parent_task_id ≡ a.parent_task_id
    → Schedules env a s (ok (some m, s'))
    → schedule_aggregate_task_if_ready env' b s' ≡ ok (none, s')
again-Schedules env env' a b s s' m same (p, e, o, y, s1, h, w) =
    let marked = get-aggregating env a s s1 s' p m e h w in
    Schedules-none env' b s' (aggregating_row p) _ (rw same marked) o (ground arith)
      (schedule_aggregate_task_if_ready-Schedules env' b s')

-- The aggregate task of a parent is scheduled once: after a call that has scheduled it, a call for the
-- same parent, whatever its other arguments, schedules nothing and changes nothing.
pub schedule_aggregate_twice :
    (env env' : Env) (a b : AggregateArgs) (s s' : Session) (m : Created)
    → b.parent_task_id ≡ a.parent_task_id
    → schedule_aggregate_task_if_ready env a s ≡ ok (some m, s')
    → schedule_aggregate_task_if_ready env' b s' ≡ ok (none, s')
schedule_aggregate_twice env env' a b s s' m same e =
    again-Schedules env env' a b s s' m same
      (subst (Schedules env a s) e (schedule_aggregate_task_if_ready-Schedules env a s))
