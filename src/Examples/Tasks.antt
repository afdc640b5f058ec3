-- ===== src/Examples/Tasks.antt =====
-- The operations on tasks and families, at concrete arguments.
use amsz_web.Tasks.Claim.{ticket}
use amsz_web.Tasks.Family.Summary.{count_status}
use amsz_web.Tasks.Claim.{ticket}
use amsz_web.Services.Commands.{request_args}
use amsz_web.Tasks.Control.{request_cancel}
use amsz_web.Table.{get}
use amsz_web.Tasks.Events.{add_event}
use amsz_web.Tasks.Family.Refresh.{refresh_parent_state, refreshed}
use amsz_web.Tasks.Family.Scheduling.{schedule_aggregate_twice}
use amsz_web.Tasks.Family.Outcome.{Reflects, refresh_parent_state-Reflects}
use amsz_web.Tasks.Family.Summary.{
  build_child_summary, parent_for_update, child_tasks, count_children,
}
use amsz_web.Services.Fanout.{shards, slices}
use amsz_web.Tasks.Control.Cancellation.{Canceled, request_cancel-Canceled}
use amsz_web.Tasks.Family.Counts.{Summarises, build_child_summary-Summarises}
use amsz_web.Tasks.Create.Rows.{Submitted, create_task-Submitted}
use amsz_web.Base.{ℕ, false, ◌≡◌, Option, ◌∷◌, some, none, true, [], refl, All, arith, List}
use amsz_web.Services.Execution.Creator.{End, end_tasks, creators, ends_without_creator}
use amsz_web.Tasks.Finish.Ownership.{succeeds}
use amsz_web.Models.{Task}
use amsz_web.Domain.{TaskRole}
use amsz_web.Examples.Data.{running_task, parent_task, clean}
use amsz_web.Services.Fanout.Shards.{flatten, IsShard, shards-IsShard}
use amsz_web.Examples.Data.{env_at, five_tasks, value, left, waiting_task, request}
use amsz_web.Session.{Session, Result, ok}
use amsz_web.Tasks.Create.{create_task, Created, add_task, new_row, NewTask}
use amsz_web.Tasks.Family.Aggregate.{
  AggregateArgs, schedule_aggregate_task_if_ready, aggregate_args,
}

abbrev new_task : NewTask
new_task = request_args (env_at 100) request (some "client")

abbrev made : Created
made =
    value (record { id = 0; task = waiting_task; created = false })
      (create_task (env_at 100) new_task five_tasks)

create_returns :
    create_task (env_at 100) new_task five_tasks
    ≡ ok (made, left (create_task (env_at 100) new_task five_tasks))
unfolding create_task add_task add_event
create_returns = refl

create_task-Submitted_example :
    Submitted (env_at 100) new_task five_tasks (create_task (env_at 100) new_task five_tasks)
create_task-Submitted_example = create_task-Submitted (env_at 100) new_task five_tasks

abbrev aggregate_of : ℕ → AggregateArgs
aggregate_of id = record {
  parent_task_id = id;
  aggregate_task_type = "batch.sleep.echo.aggregate";
  queue_name = "default";
  priority = 5;
  max_attempts = 3;
  timeout_seconds = 3600;
  created_by = some "client";
}

-- the parent, once its counters say that its one child has succeeded
abbrev counted_session : Session
counted_session = left (refresh_parent_state (env_at 100) 4 five_tasks)

abbrev scheduled : Result (Option Created × Session)
scheduled = schedule_aggregate_task_if_ready (env_at 101) (aggregate_of 4) counted_session

abbrev aggregate_made : Created
aggregate_made = record {
  id = 6;
  task = new_row (env_at 101) (aggregate_args (env_at 101) (aggregate_of 4));
  created = true;
}

scheduled_returns : scheduled ≡ ok (some aggregate_made, left scheduled)
unfolding schedule_aggregate_task_if_ready refresh_parent_state parent_for_update
    build_child_summary refreshed count_status create_task add_task add_event child_tasks
    count_children
scheduled_returns = refl

schedule_aggregate_twice_example :
    schedule_aggregate_task_if_ready (env_at 102) (aggregate_of 4) (left scheduled)
    ≡ ok (none, left scheduled)
schedule_aggregate_twice_example =
    schedule_aggregate_twice (env_at 101) (env_at 102) (aggregate_of 4) (aggregate_of 4)
      counted_session (left scheduled) aggregate_made refl scheduled_returns

refresh_parent_state-Reflects_example :
    Reflects 4 five_tasks (refresh_parent_state (env_at 100) 4 five_tasks)
refresh_parent_state-Reflects_example = refresh_parent_state-Reflects (env_at 100) 4 five_tasks

build_child_summary-Summarises_example : Summarises 4 five_tasks (build_child_summary 4 five_tasks)
build_child_summary-Summarises_example = build_child_summary-Summarises 4 five_tasks

request_cancel-Canceled_example :
    Canceled
      (env_at 100)
      3
      five_tasks
      (get 3 five_tasks.tasks)
      (request_cancel (env_at 100) 3 five_tasks)
request_cancel-Canceled_example = request_cancel-Canceled (env_at 100) 3 five_tasks

-- two children that run, of a parent that nobody is named to have created
abbrev running_child : ℕ → Task
running_child n = record running_task {
  task_role = TaskRole.child;
  parent_task_id = some 4;
  shard_index = some n;
  created_by = none;
}

abbrev two_children : Session
two_children = record five_tasks {
  tasks =
      clean 4 (record parent_task { total_children = 2; created_by = none })
      ∷ clean 5 (running_child 0)
      ∷ clean 6 (running_child 1)
      ∷ [];
  next_task_id = 7;
}

abbrev end_of : ℕ → ℕ → End
end_of id n = record {
  env = env_at 100;
  later = env_at 101;
  task = ticket id (running_child n);
  worker = "worker";
  ending = succeeds none;
}

ends_without_creator_example :
    creators (end_tasks (end_of 5 0 ∷ end_of 6 1 ∷ []) two_children).tasks
    ≡ creators two_children.tasks
ends_without_creator_example =
    ends_without_creator (end_of 5 0 ∷ end_of 6 1 ∷ []) two_children
      ((refl, refl), ((refl, refl), tt))

abbrev three_items : List ℕ
three_items = 1 ∷ 2 ∷ 3 ∷ []

shards-IsShard_example :
    (flatten (shards 2 three_items) ≡ three_items) × All (IsShard 2) (shards 2 three_items)
shards-IsShard_example = shards-IsShard 2 three_items (omega arith)

two_shards : shards 2 three_items ≡ (1 ∷ 2 ∷ []) ∷ (3 ∷ []) ∷ []
unfolding shards slices
two_shards = refl
