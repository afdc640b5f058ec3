-- ===== src/Tasks/Invariant/Creates.antt =====
-- The methods that create tasks keep the invariant.
use amsz_web.Tasks.Family.Summary.{is_parent}
use amsz_web.Tasks.Invariant.Marks.{Wrote-Sound}
use amsz_web.Tasks.Family.Scheduling.{Schedules, schedule_aggregate_task_if_ready-Schedules}
use amsz_web.Tasks.Family.Aggregate.{
  AggregateArgs, schedule_aggregate_task_if_ready, aggregate_args, aggregating_row,
}
use amsz_web.Table.Laws.{Distinct-snoc, Below-flush, Distinct-flush, Below-insert, get-insert}
use amsz_web.Tasks.Create.Effects.{create_task-Creates, Creates}
use amsz_web.Tasks.Invariant.{
  Ensures, Sound, IsSound, insert, Row, status_eq, Task, TaskStatus, Sound-same, is_final,
  IsSoundRow, flush, All-flush, get,
}
use amsz_web.Tasks.Create.{NewTask, create_task, new_row, Created}
use amsz_web.Base.{true, refl, some, none, arith, Option, Bool, ◌≡◌, not, suc, ◌&&◌, All-append}
use amsz_web.Session.{ok, err, Env, Session, Result}

-- A new task is neither RUNNING nor final.
abbrev pub starts_open : NewTask → Bool
starts_open a = not (status_eq a.status TaskStatus.running) && not (is_final a.status)

new_row-IsSound : (env : Env) (a : NewTask) → starts_open a ≡ true → IsSound (new_row env a)
new_row-IsSound env a o = ground arith

pub Adds-Sound :
    (env : Env) (a : NewTask) (s s' : Session)
    → starts_open a ≡ true
    → s'.tasks ≡ insert s.next_task_id (new_row env a) s.tasks
    → s'.next_task_id ≡ suc s.next_task_id
    → Sound s
    → Sound s'
Adds-Sound env a s s' o e n h =
    Sound-same
      (record s {
        tasks = insert s.next_task_id (new_row env a) s.tasks;
        next_task_id = suc s.next_task_id;
      })
      s' e n
      (record {
        rows =
            All-append IsSoundRow (flush s.tasks) _
              (All-flush IsSoundRow s.tasks (λ r q. (q.0, refl)) h.rows)
              ((new_row-IsSound env a o, refl), tt);
        distinct =
            Distinct-snoc s.next_task_id (new_row env a) (flush s.tasks)
              (Below-flush s.next_task_id s.tasks h.below) (Distinct-flush s.tasks h.distinct);
        below = Below-insert s.next_task_id (new_row env a) s.tasks h.below;
      })

Creates-Sound :
    (env : Env) (a : NewTask) (s : Session) (found : Option (Row Task))
    (r : Result (Created × Session))
    → starts_open a ≡ true
    → Creates env a s found r
    → Sound s
    → Ensures Sound r
Creates-Sound env a s none (ok (m, s')) o (_, _, e, n) h = Adds-Sound env a s s' o e n h
Creates-Sound env a s none (err x) o e h = tt
Creates-Sound env a s (some r) res o e h = rw e h

pub create_task-Sound :
    (env : Env) (a : NewTask) (s : Session)
    → starts_open a ≡ true
    → Sound s
    → Ensures Sound (create_task env a s)
create_task-Sound env a s o = Creates-Sound env a s _ _ o (create_task-Creates env a s)

aggregating-Sound :
    (env : Env) (a : AggregateArgs) (s : Session) (r : Result (Option Created × Session))
    → Schedules env a s r
    → Sound s
    → Ensures Sound r
aggregating-Sound env a s (ok (none, s')) (_, _, _, _, same) h = rw same h
aggregating-Sound env a s (ok (some m, s')) (p, e, o, _, s1, added, w) h =
    let (_, _, t, n) = added in
    let kept : get a.parent_task_id s1.tasks ≡ some p =
      rw
        (
          t,
          get-insert s.next_task_id a.parent_task_id (new_row env (aggregate_args env a)) s.tasks,
          e,
        )
        refl in
    Wrote-Sound a.parent_task_id aggregating_row s1 s'
      (λ u g k. let same : u ≡ p = cc in let q : is_parent u ≡ true = rw same o in ground arith)
      (λ u. refl) w (Adds-Sound env (aggregate_args env a) s s1 refl t n h)
aggregating-Sound env a s (err x) _ h = tt

pub schedule_aggregate-Sound :
    (env : Env) (a : AggregateArgs) (s : Session)
    → Sound s
    → Ensures Sound (schedule_aggregate_task_if_ready env a s)
schedule_aggregate-Sound env a s =
    aggregating-Sound env a s _ (schedule_aggregate_task_if_ready-Schedules env a s)
