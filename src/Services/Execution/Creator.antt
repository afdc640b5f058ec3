-- ===== src/Services/Execution/Creator.antt =====
-- task_execution_service.py: children that nobody is named to have created, and their parent.
use amsz_web.Domain.{TaskRole, Json, AttemptStatus, role_eq}
use amsz_web.Models.{Task}
use amsz_web.Tasks.Claim.{ClaimedTask}
use amsz_web.Tasks.Finish.Ownership.{
  Ending, succeeds, waits, fails, dies, stops, ended_row, Ends, end_attempt-Ends,
}
use amsz_web.Tasks.Finish.Endings.{ended_row-EndedAs}
use amsz_web.Tasks.Family.Effects.{refresh_parent_state-Parents, Parents}
use amsz_web.Tasks.Family.Refresh.{refresh_parent_state, refreshed}
use amsz_web.Tasks.Family.Summary.{build_child_summary, Summary}
use amsz_web.Table.{Row, get, modify, flush}
use amsz_web.Services.Execution.{
  Reply, after, update_parent, drop_task, parent_as, handle_post_child_update, handle_post_success,
  handle_post_failure, handle_post_pause, handle_post_aggregate, mark_task_succeeded,
  mark_task_retry_wait, mark_task_failed, mark_task_dead, mark_task_canceled, is_szdm,
}
use amsz_web.Session.{Env, Session, Result, ok, err, end_scope, commit}
use amsz_web.Base.{
  subst, ℕ, String, true, Option, none, some, List, [], ◌∷◌, All, ◌≡◌, refl, ap, ◌∙◌, sym, inl, inr,
  Bool-cases, Option-cases, ◌==◌, if◌then◌else◌, arith, is_some, All-map, some-injective,
}

-- an attempt that ends: the service's method for it, its arguments, and the clock in both
-- transactions
pub record End : Type 0 where
  pub env : Env
  pub later : Env
  pub task : ClaimedTask
  pub worker : String
  pub ending : Ending

abbrev pub end_as : Ending → Env → Env → ClaimedTask → String → Session → Reply
end_as (succeeds result) env later task worker db =
    mark_task_succeeded env later task worker result db
end_as (waits code message at) env later task worker db =
    mark_task_retry_wait env later task worker code message at db
end_as (fails code message status) env later task worker db =
    mark_task_failed env later task worker code message db
end_as (dies code message) env later task worker db =
    mark_task_dead env later task worker code message db
end_as stops env later task worker db = mark_task_canceled env later task worker db

abbrev pub end_task : End → Session → Reply
end_task e db = end_as e.ending e.env e.later e.task e.worker db

-- attempts that end one after another, whatever each of them replies
abbrev pub end_tasks : List End → Session → Session
end_tasks [] db = db
end_tasks (e ∷ es) db = end_tasks es (end_task e db).1

-- the ids of the tasks, each with the creator of the task
abbrev pub creators : List (Row Task) → List (ℕ × Option String)
creators [] = []
creators (r ∷ rs) = (r.key, r.live.created_by) ∷ creators rs

abbrev pub creator_of : ℕ → List (ℕ × Option String) → Option (Option String)
creator_of id [] = none
creator_of id ((k, c) ∷ cs) = if k == id then some c else creator_of id cs

creator_of-get :
    (id : ℕ) (rs : List (Row Task)) (t : Task)
    → get id rs ≡ some t
    → creator_of id (creators rs) ≡ some t.created_by
creator_of-get id [] t e = absurd (cc e)
creator_of-get id (r ∷ rs) t e = elim (Bool-cases (r.key == id)) [
  | inl y ↦ rw y (ap (λ o. elim o [ none ↦ none | some x ↦ some x.created_by ]) (rw y at e))
  | inr n ↦ rw n (creator_of-get id rs t (rw n at e))
]

creators-modify :
    (id : ℕ) (f : Task → Task) (rs : List (Row Task))
    → ((t : Task) → (f t).created_by ≡ t.created_by)
    → creators (modify id f rs) ≡ creators rs
creators-modify id f [] k = refl
creators-modify id f (r ∷ rs) k = elim (Bool-cases (r.key == id)) [
  | inl y ↦ rw y (ap (λ c. (r.key, c) ∷ creators rs) (k r.live))
  | inr n ↦ rw n (ap (◌∷◌ (r.key, r.live.created_by)) (creators-modify id f rs k))
]

creators-flush : (rs : List (Row Task)) → creators (flush rs) ≡ creators rs
creators-flush [] = refl
creators-flush (r ∷ rs) = ap (◌∷◌ (r.key, r.live.created_by)) (creators-flush rs)

refreshed-created_by :
    (env : Env) (c : Summary) (t : Task) → (refreshed env c t).created_by ≡ t.created_by
unfolding refreshed
refreshed-created_by env c t = ground arith

-- the second transaction, in which the parent is refreshed
refresh-creators :
    (env : Env) (id : ℕ) (db : Session) (r : Result (Task × Session))
    → Parents id (refreshed env (build_child_summary id db)) db r
    → creators (end_scope db (drop_task r)).1.tasks ≡ creators db.tasks
refresh-creators env id db (ok (t, s)) (_, _, _, _, w) =
    creators-flush s.tasks
    ∙ ap creators w.tasks
    ∙ creators-modify id (refreshed env (build_child_summary id db)) db.tasks
        (refreshed-created_by env (build_child_summary id db))
refresh-creators env id db (err e) h = refl

module _ (env : Env) (task : ClaimedTask)
    (child : role_eq task.task_role TaskRole.child ≡ true) where
  child_update-creators :
      (db : Session)
      → creators (handle_post_child_update env task none db).1.tasks ≡ creators db.tasks
  unfolding handle_post_child_update update_parent
  child_update-creators db = elim (Option-cases (parent_as TaskRole.child task)) [
    | inl e ↦ rw (e, handle_post_child_update) refl
    | inr (id, e) ↦
        rw (e, handle_post_child_update, update_parent)
          (refresh-creators env id db (refresh_parent_state env id db)
            (refresh_parent_state-Parents env id db))
  ]

  no_aggregate : parent_as TaskRole.aggregate task ≡ none
  no_aggregate = ground (arith, child)

  aggregate-same :
      (body : ℕ → Session → Result (Task × Session)) (db : Session)
      → handle_post_aggregate task body db ≡ (ok tt, db)
  unfolding handle_post_aggregate
  aggregate-same body db = rw (handle_post_aggregate, no_aggregate) refl

  post_success-creators :
      (result : Option Json) (db : Session)
      → creators (handle_post_success env task result none db).1.tasks ≡ creators db.tasks
  unfolding handle_post_success
  post_success-creators result db = elim (Bool-cases (is_szdm task.task_type)) [
    | inl y ↦ rw (handle_post_success, y) refl
    | inr n ↦ elim (Bool-cases (is_some (parent_as TaskRole.child task))) [
      | inl y ↦ rw (handle_post_success, n, y) (child_update-creators db)
      | inr m ↦ rw (handle_post_success, n, m) (ap (λ o. creators o.1.tasks) (aggregate-same _ db))
    ]
  ]

  post_failure-creators :
      (code message : String) (db : Session)
      → creators (handle_post_failure env task code message db).1.tasks ≡ creators db.tasks
  unfolding handle_post_failure
  post_failure-creators code message db = elim (Bool-cases (is_szdm task.task_type)) [
    | inl y ↦ rw (handle_post_failure, y) refl
    | inr n ↦ elim (Bool-cases (is_some (parent_as TaskRole.child task))) [
      | inl y ↦ rw (handle_post_failure, n, y) (child_update-creators db)
      | inr m ↦ rw (handle_post_failure, n, m) (ap (λ o. creators o.1.tasks) (aggregate-same _ db))
    ]
  ]

  post_pause-creators :
      (db : Session) → creators (handle_post_pause env task db).1.tasks ≡ creators db.tasks
  unfolding handle_post_pause
  post_pause-creators db = elim (Bool-cases (is_szdm task.task_type)) [
    | inl y ↦ rw (handle_post_pause, y) refl
    | inr n ↦ rw (handle_post_pause, n) (child_update-creators db)
  ]

-- the first transaction, and what follows it
after-creators :
    (ending : Ending) (env : Env) (id : ℕ) (worker : String) (db : Session)
    (k : Task → Session → Reply) (r : Result (Task × Session))
    → creator_of id (creators db.tasks) ≡ some none
    → ((t : Task) (s : Session) → t.created_by ≡ none → creators (k t s).1.tasks ≡ creators s.tasks)
    → Ends id worker (ended_row ending env) db r
    → creators (after k (end_scope db r)).1.tasks ≡ creators db.tasks
after-creators ending env id worker db k (err e) unnamed step h = refl
after-creators ending env id worker db k (ok (t', s)) unnamed step (t, g, _, e, w) =
    let f = ended_row ending env in
    let kept : (u : Task) → (f u).created_by ≡ u.created_by =
      λ u. (ended_row-EndedAs ending env u).created_by in
    let nobody : t.created_by ≡ none =
      some-injective (sym (creator_of-get id db.tasks t g) ∙ unnamed) in
    step t' (commit s) (ap (λ x. x.created_by) e ∙ kept t ∙ nobody)
    ∙ creators-flush s.tasks
    ∙ ap creators w.tasks
    ∙ creators-modify id f db.tasks kept

-- a child whose row names nobody as its creator
abbrev pub IsUnnamed : Session → End → Type 0
IsUnnamed db e =
    (role_eq e.task.task_role TaskRole.child ≡ true)
    × (creator_of e.task.id (creators db.tasks) ≡ some none)

end_as-creators :
    (ending : Ending) (env later : Env) (task : ClaimedTask) (worker : String) (db : Session)
    → role_eq task.task_role TaskRole.child ≡ true
    → creator_of task.id (creators db.tasks) ≡ some none
    → creators (end_as ending env later task worker db).1.tasks ≡ creators db.tasks
unfolding mark_task_succeeded mark_task_retry_wait mark_task_failed mark_task_dead
    mark_task_canceled
end_as-creators (succeeds result) env later task worker db child unnamed =
    after-creators (succeeds result) env task.id worker db _ _ unnamed
      (λ t s n.
        subst (λ c. creators (handle_post_success later task result c s).1.tasks ≡ creators s.tasks)
          (sym n) (post_success-creators later task child result s))
      (end_attempt-Ends (succeeds result) env task.id task.attempt_no worker db)
end_as-creators (waits code message at) env later task worker db child unnamed =
    after-creators (waits code message at) env task.id worker db _ _ unnamed
      (λ t s _. post_pause-creators later task child s)
      (end_attempt-Ends (waits code message at) env task.id task.attempt_no worker db)
end_as-creators (fails code message status) env later task worker db child unnamed =
    after-creators (fails code message AttemptStatus.failed) env task.id worker db _ _ unnamed
      (λ t s _. post_failure-creators later task child code message s)
      (end_attempt-Ends (fails code message AttemptStatus.failed) env task.id task.attempt_no worker
        db)
end_as-creators (dies code message) env later task worker db child unnamed =
    after-creators (dies code message) env task.id worker db _ _ unnamed
      (λ t s _. post_failure-creators later task child code message s)
      (end_attempt-Ends (dies code message) env task.id task.attempt_no worker db)
end_as-creators stops env later task worker db child unnamed =
    after-creators stops env task.id worker db _ _ unnamed
      (λ t s _. post_pause-creators later task child s)
      (end_attempt-Ends stops env task.id task.attempt_no worker db)

-- Children whose rows have created_by NULL end one after another, in whatever ways and by whatever
-- workers: no task is added to the table, an aggregate task neither, and no row gets another creator.
pub ends_without_creator :
    (es : List End) (db : Session)
    → All (IsUnnamed db) es
    → creators (end_tasks es db).tasks ≡ creators db.tasks
ends_without_creator [] db h = refl
ends_without_creator (e ∷ es) db h =
    let first : creators (end_task e db).1.tasks ≡ creators db.tasks =
      end_as-creators e.ending e.env e.later e.task e.worker db h.0.0 h.0.1 in
    ends_without_creator es (end_task e db).1 (
      All-map (IsUnnamed db) (IsUnnamed (end_task e db).1) es
        (λ q (c, u). (c, ap (creator_of q.task.id) first ∙ u)) h.1)
    ∙ first
