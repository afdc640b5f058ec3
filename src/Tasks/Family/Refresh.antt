-- ===== src/Tasks/Family/Refresh.antt =====
-- task_repository.py: refresh_parent_state and transition_parent_to_running.
use amsz_web.Base.{
  ℕ, ◌+◌, Bool, true, false, ◌&&◌, not, none, some, List, [], ◌∷◌, if◌then◌else◌, ltb,
}
use amsz_web.Domain.{TaskStatus, Json, Fields}
use amsz_web.Models.{Task, ChildSummary}
use amsz_web.Session.{Env, Session, Result, ok, ◌>>=◌, set_task}
use amsz_web.Tasks.Events.{add_event}
use amsz_web.Tasks.Family.Summary.{Summary, no_children, parent_for_update, build_child_summary}

-- the counters of a parent, which three methods write
abbrev pub counted : Summary → Task → Task
counted c t = record t {
  total_children = c.total;
  succeeded_children = c.succeeded;
  failed_children = c.failed;
  running_children = c.running;
  child_summary = some (ChildSummary.counts c.detail);
}

abbrev pub measured : Env → Summary → Task → Task
measured env c t =
    if ltb 0 c.total
    then record (counted c t) { progress = env.percent (c.succeeded + c.failed) c.total }
    else counted c t

-- parent_task.status in {SUCCEEDED, CANCELED, DEAD}
abbrev pub is_closed : TaskStatus → Bool
is_closed TaskStatus.succeeded = true
is_closed TaskStatus.canceled = true
is_closed TaskStatus.dead = true
is_closed _ = false

abbrev pub child_failed_row : Env → Task → Task
child_failed_row env t = record t {
  status = TaskStatus.failed;
  current_stage = some "child_failed";
  finished_at = some env.now;
}

-- the columns of the parent after refresh_parent_state
unfoldable pub refreshed : Env → Summary → Task → Task
refreshed env c t =
    if is_closed t.status
    then measured env c t
    else if ltb 0 c.failed
    then child_failed_row env (measured env c t)
    else if t.aggregation_dispatched
    then record (measured env c t) {
      status = TaskStatus.aggregating;
      current_stage = some "aggregating";
    }
    else if ltb 0 c.total
    then record (measured env c t) {
      status = TaskStatus.partially_running;
      current_stage = some "children_running";
    }
    else measured env c t

unfoldable pub refresh_parent_state : Env → ℕ → Session → Result (Task × Session)
refresh_parent_state env id s = do
  parent_task ← parent_for_update id s
  let c = build_child_summary id s
  let s' = set_task id (refreshed env c) s
  ok (
    refreshed env c parent_task,
    if not (is_closed parent_task.status) && ltb 0 c.failed
        then add_event env id "PARENT_FAILED" (some parent_task.status) (some TaskStatus.failed)
            (some "Parent task failed because at least one child failed") none s'
        else s',
  )

-- for parent_task_id in parent_ids_to_refresh
unfoldable pub refresh_parents : Env → List ℕ → Session → Result Session
refresh_parents env [] s = ok s
refresh_parents env (id ∷ ids) s = do
  (_, s') ← refresh_parent_state env id s
  refresh_parents env ids s'

abbrev pub dispatched_row : ℕ → Task → Task
dispatched_row total t = record t {
  status = TaskStatus.partially_running;
  current_stage = some "children_running";
  total_children = total;
  succeeded_children = 0;
  failed_children = 0;
  running_children = 0;
  child_summary = some (ChildSummary.counts (record no_children { pending = total }));
}

unfoldable pub transition_parent_to_running : Env → ℕ → ℕ → Session → Result (Task × Session)
transition_parent_to_running env id total s = do
  parent ← parent_for_update id s
  ok (
    dispatched_row total parent,
    add_event env id "DISPATCHED" (some parent.status) (some TaskStatus.partially_running)
        (some "Parent task dispatched child tasks")
        (some (Json.obj (Fields.field "total_children" (Json.num total) Fields.end)))
        (set_task id (dispatched_row total) s),
  )
