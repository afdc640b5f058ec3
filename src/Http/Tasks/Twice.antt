-- ===== src/Http/Tasks/Twice.antt =====
-- routes/tasks.py: a POST that a client sends again.
use amsz_web.Http.Tasks.Effects.{commit-clean}
use amsz_web.Session.{Env}
use amsz_web.Services.Commands.{TaskCreateRequest, Accepted, external_fanout_task_type, is_internal}
use amsz_web.Table.{Row}
use amsz_web.Session.{commit}
use amsz_web.Models.{Task}
use amsz_web.Base.{none, some}
use amsz_web.Table.Laws.{IsClean-flush}
use amsz_web.Table.{IsClean, flush}
use amsz_web.Services.Commands.{create_task, request_args, accept}
use amsz_web.Tasks.Create.{Created, NewTask}
use amsz_web.Base.{
  ℕ, String, Option, true, false, ◌≡◌, refl, subst, sym, str_eq, All-append, truthy, ◌∙◌, some_eq,
  Bool-cases, ap, some, inl, inr,
}
use amsz_web.Session.{◌>>=◌, Session, Result, ok, err, ok-injective}
use amsz_web.Tasks.Create.Idempotency.{create_task_again}
use amsz_web.Tasks.Create.Effects.{looks_up, Creates, found_by, create_task-Creates}
use amsz_web.Tasks.Create
use amsz_web.Services.Commands
use amsz_web.Http.{Answer, HttpEnv, with_api_key, end_request, Headers, is_value_error, status_text}
use amsz_web.Http.Tasks.{
  serve, create_task_route, submit, TaskCreateResponse, created_response, created_answer, Body,
  TaskRequest,
}

-- what create_task leaves of a session that has just begun
create_task-IsClean :
    (env : Env) (a : NewTask) (s s' : Session) (m : Created) (found : Option (Row Task))
    → Creates env a s found (ok (m, s'))
    → IsClean s.tasks
    → IsClean s'.tasks
create_task-IsClean env a s s' m none (h, made, t, n) clean =
    subst IsClean (sym t)
      (All-append (λ r. r.stored ≡ r.live) (flush s.tasks) _ (IsClean-flush s.tasks) (refl, tt))
create_task-IsClean env a s s' m (some r) h clean = let same : s' ≡ s = cc h in rw same clean

module _ (env : Env) (r : TaskCreateRequest) (client : Option String) (s : Session) where
  -- what a command that succeeds has done
  pub record Commanded (a : Accepted) (s' : Session) : Type 0 where
    pub made : Created
    pub created : Create.create_task env (request_args env r client) s ≡ ok (made, s')
    pub accepted : a ≡ accept made

  abbrev accepted_of : Created × Session → Result (Accepted × Session)
  accepted_of (m, z) = ok (accept m, z)

  command_succeeds :
      (x : Result (Created × Session)) (a : Accepted) (s' : Session)
      → Create.create_task env (request_args env r client) s ≡ x
      → (x >>= accepted_of) ≡ ok (a, s')
      → Commanded a s'
  command_succeeds (err e) a s' q h = cc h
  command_succeeds (ok (m, z)) a s' q h =
      let p : (accept m, z) ≡ (a, s') = ok-injective h in
      record {
        made = m;
        created = q ∙ ap (λ y. ok (m, y)) (ap (λ y. y.1) p);
        accepted = sym (ap (λ y. y.0) p);
      }

  submit-succeeds :
      (a : Accepted) (s' : Session)
      → str_eq r.task_type external_fanout_task_type ≡ false
      → submit env r client s ≡ ok (a, s')
      → (is_internal r.task_type ≡ false) × Commanded a s'
  unfolding submit create_task
  submit-succeeds a s' f h = elim (Bool-cases (is_internal r.task_type)) [
    | inl y ↦ cc (rw (submit, y) at h)
    | inr n ↦ (n, command_succeeds _ a s' refl (rw (submit, n, f, Commands.create_task) at h))
  ]

-- a response whose body is that of a creation
record Answered (x : Result (Accepted × Session)) (c : TaskCreateResponse) (db' : Session)
    : Type 0 where
  accepted : Accepted
  after : Session
  succeeded : x ≡ ok (accepted, after)
  body : c ≡ created_response accepted
  committed : db' ≡ commit after

answered :
    (h : HttpEnv) (db db' : Session) (code : ℕ) (c : TaskCreateResponse)
    (x : Result (Accepted × Session))
    → end_request commit db (created_answer h x) ≡ (Answer.answers code (Body.created c), db')
    → Answered x c db'
answered h db db' code c (err e) q = elim (Bool-cases (is_value_error e)) [
  | inl y ↦ cc (rw y at q)
  | inr n ↦ cc (rw n at q)
]
answered h db db' code c (ok (a, s)) q = record {
  accepted = a;
  after = s;
  succeeded = refl;
  body = cc q;
  committed = cc q;
}

module _ (env : Env) (r : TaskCreateRequest) (client : Option String) where
  looks_up_request : truthy r.idempotency_key ≡ true → looks_up (request_args env r client) ≡ true
  looks_up_request k = rw k refl

  create_task-leaves-IsClean :
      (s s' : Session) (m : Created)
      → Create.create_task env (request_args env r client) s ≡ ok (m, s')
      → IsClean s.tasks
      → IsClean s'.tasks
  create_task-leaves-IsClean s s' m e =
      let a = request_args env r client in
      create_task-IsClean env a s s' m (found_by a s)
        (subst (Creates env a s (found_by a s)) e (create_task-Creates env a s))

  submit-creates :
      (s s' : Session) (m : Created)
      → is_internal r.task_type ≡ false
      → str_eq r.task_type external_fanout_task_type ≡ false
      → Create.create_task env (request_args env r client) s ≡ ok (m, s')
      → submit env r client s ≡ ok (accept m, s')
  unfolding submit create_task
  submit-creates s s' m i f e = rw (submit, i, f, Commands.create_task, e) refl

  serve_found :
      (h : HttpEnv) (headers : Headers) (db : Session) (m : Created)
      → some_eq headers.x_api_key h.api_key ≡ true
      → h.env ≡ env
      → headers.x_client_id ≡ client
      → submit env r client db ≡ ok (accept (record m { created = false }), db)
      → IsClean db.tasks
      → serve h headers (TaskRequest.create r) db ≡ (
        Answer.answers 200 (
            Body.created (record {
              task_id = m.id;
              status = status_text m.task.status;
              message = "existing task returned";
            })),
        db,
      )
  unfolding serve with_api_key create_task_route
  serve_found h headers db m key same_env same_client e clean =
      rw
        (
          serve,
          with_api_key,
          key,
          create_task_route,
          same_env,
          same_client,
          e,
          commit-clean db clean,
        )
        refl

-- A POST of a task that is no fan-out, with an idempotency key, on a session that has just begun, which
-- is answered with a task: a POST to the database that this leaves, with the right API key and the same
-- type and idempotency key, whatever else it has in it, and whatever the clock and the settings are by
-- then, is answered with 200, the same id and status, and the message "existing task returned", and
-- changes nothing.
pub create_task_route_twice :
    (h h' : HttpEnv) (headers headers' : Headers) (r r' : TaskCreateRequest) (db db' : Session)
    (code : ℕ) (c : TaskCreateResponse)
    → IsClean db.tasks
    → str_eq r.task_type external_fanout_task_type ≡ false
    → truthy r.idempotency_key ≡ true
    → r'.task_type ≡ r.task_type
    → r'.idempotency_key ≡ r.idempotency_key
    → some_eq headers'.x_api_key h'.api_key ≡ true
    → serve h headers (TaskRequest.create r) db ≡ (Answer.answers code (Body.created c), db')
    → serve h' headers' (TaskRequest.create r') db'
      ≡ (Answer.answers 200 (Body.created (record c { message = "existing task returned" })), db')
unfolding serve with_api_key create_task_route
create_task_route_twice h h' headers headers' r r' db db' code c clean f k t k' key q =
    elim (Bool-cases (some_eq headers.x_api_key h.api_key)) [
      | inr n ↦ cc (rw (serve, with_api_key, n) at q)
      | inl y ↦
          let w : Answered (submit h.env r headers.x_client_id db) c db' =
            answered h db db' code c (submit h.env r headers.x_client_id db)
              (rw (serve, with_api_key, y) at q) in
          let d : (is_internal r.task_type ≡ false)
              × Commanded h.env r headers.x_client_id db w.accepted w.after =
            submit-succeeds h.env r headers.x_client_id db w.accepted w.after f w.succeeded in
          let made : Created = d.1.made in
          let created = d.1.created in
          let clean' : IsClean w.after.tasks =
            create_task-leaves-IsClean h.env r headers.x_client_id db w.after made created clean in
          let same : db' ≡ w.after = w.committed ∙ commit-clean w.after clean' in
          let again =
            create_task_again h.env h'.env (request_args h.env r headers.x_client_id)
              (request_args h'.env r' headers'.x_client_id) db w.after made
              (looks_up_request h.env r headers.x_client_id k)
              (looks_up_request h'.env r' headers'.x_client_id (rw k' k)) t k' created in
          let found =
            submit-creates h'.env r' headers'.x_client_id w.after w.after
              (record made { created = false }) (rw t d.0) (rw t f) again in
          let served =
            serve_found h'.env r' headers'.x_client_id h' headers' w.after made key refl refl found
              clean' in
          let body : c ≡ created_response (accept made) =
            w.body ∙ ap created_response d.1.accepted in
          rw (same, body) served
    ]
