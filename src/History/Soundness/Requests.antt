-- ===== src/History/Soundness/Requests.antt =====
-- app/application/task_command_service.py and task_orchestration_service.py keep the invariant of the
-- table task.
use amsz_web.Tasks.Invariant.Families.{transition_parent_to_running-Sound}
use amsz_web.Services.Fanout.{
  dispatch_children, create_fanout_task, child_specs, shards, children_of, payload_items,
  parent_args,
}
use amsz_web.Tasks.Invariant.Creates.{create_task-Sound}
use amsz_web.Tasks.Invariant.{Ensures, Sound, Holds, Holds-bind, Ensures-after, Ensures-bind}
use amsz_web.Services.Commands.{
  TaskCreateRequest, is_internal, external_fanout_task_type, accept, request_args,
}
use amsz_web.Tasks.Create.{
  create_task, create_child_tasks, ChildrenOf, ChildTaskSpec, Created, child_args,
}
use amsz_web.Base.{
  [], ◌∷◌, true, inl, inr, refl, List, Option, String, Bool-cases, str_eq, length, arith,
}
use amsz_web.Services.Commands
use amsz_web.Session.{ok, Env, Session, IsPercent}

pub submit-Sound :
    (env : Env) (r : TaskCreateRequest) (created_by : Option String) (db : Session)
    → Sound db
    → Ensures Sound (Commands.create_task env r created_by db)
unfolding Commands.create_task
submit-Sound env r created_by db h = elim (Bool-cases (is_internal r.task_type)) [
  | inl i ↦ rw i tt
  | inr i ↦ elim (Bool-cases (str_eq r.task_type external_fanout_task_type)) [
    | inl x ↦ rw (i, x) tt
    | inr x ↦
        rw (i, x)
          (Ensures-bind Sound Sound _ (λ m s'. ok (accept m, s'))
            (create_task-Sound env (request_args env r created_by) db refl h) (λ m s' k. k))
  ]
]

create_child_tasks-Sound :
    (env : Env) (p : ChildrenOf) (specs : List ChildTaskSpec) (s : Session)
    → Sound s
    → Holds Sound (create_child_tasks env p specs s)
unfolding create_child_tasks
create_child_tasks-Sound env p [] s h = h
create_child_tasks-Sound env p (spec ∷ specs) s h =
    Holds-bind Sound Sound (create_task env (child_args env p spec) s)
      (λ _ s'. create_child_tasks env p specs s')
      (create_task-Sound env (child_args env p spec) s refl h)
      (λ _ s'. create_child_tasks-Sound env p specs s')

module _ (env : Env) (law : IsPercent env.percent) where
  dispatch_children-Sound :
      (r : TaskCreateRequest) (created_by : Option String) (specs : List ChildTaskSpec)
      (m : Created) (s : Session)
      → Sound s
      → Ensures Sound (dispatch_children env r created_by specs m s)
  unfolding dispatch_children
  dispatch_children-Sound r created_by specs m s h = elim (Bool-cases m.created) [
    | inr n ↦ rw n h
    | inl y ↦ rw y (
        Ensures-after Sound Sound _ _
          (create_child_tasks-Sound env (children_of r created_by m.id) specs s h)
          λ s1 h1.
            Ensures-bind Sound Sound _
              (λ parent s2.
                ok (record { task_id = m.id; status = parent.status; created = true }, s2))
              (transition_parent_to_running-Sound env law m.id (length specs) s1 h1) (λ _ s2 k. k))
  ]

  pub fan_out-Sound :
      (r : TaskCreateRequest) (created_by : Option String) (s : Session)
      → Sound s
      → Ensures Sound (create_fanout_task env r created_by s)
  unfolding create_fanout_task
  fan_out-Sound r created_by s h =
      let specs =
        child_specs r.priority 0
          (shards env.settings.task_fanout_shard_size (payload_items r.payload)) in
      let go =
        Ensures-bind Sound Sound _ (dispatch_children env r created_by specs)
          (create_task-Sound env (parent_args env r created_by) s refl h)
          (λ m s'. dispatch_children-Sound r created_by specs m s') in
      ground (arith, go)
