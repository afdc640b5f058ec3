-- ===== src/Http/Tasks/Effects.antt =====
-- routes/tasks.py: which requests change the database.
use amsz_web.Session.{Error}
use amsz_web.Tasks.Queries.{get_task}
use amsz_web.Table.Laws.{flush-clean}
use amsz_web.Table.{IsClean}
use amsz_web.Base.{
  ℕ, Bool, true, false, ◌≡◌, refl, ◌&&◌, ◌⊎◌, Option-cases, ap, some_eq, Bool-cases, inl, inr,
}
use amsz_web.Session.{Session, Result, ok, err, commit}
use amsz_web.Http.{Answer, HttpEnv, Headers, with_api_key, end_request}
use amsz_web.Http.Tasks.{
  serve, TaskRequest, Body, get_task_route, list_tasks_route, list_task_events_route, route,
  list_task_children_route, Listing, status_filter,
}

abbrev pub is_write : TaskRequest → Bool
is_write (TaskRequest.create r) = true
is_write (TaskRequest.cancel id) = true
is_write (TaskRequest.retry id) = true
is_write _ = false

abbrev pub is_success {ℓ} : {A : Type ℓ} → Answer A → Bool
is_success (Answer.answers code a) = true
is_success _ = false

-- the session that a route gives with its response is the one that it got
abbrev Reads : Session → Answer (Body × Session) → Type 0
Reads db (Answer.answers code (b, s)) = s ≡ db
Reads db _ = Unit

get_task_route-Reads : (id : ℕ) (db : Session) → Reads db (get_task_route id db)
unfolding get_task_route
get_task_route-Reads id db = elim (Option-cases (get_task id db)) [
  | inl e ↦ rw (get_task_route, e) tt
  | inr (t, e) ↦ rw (get_task_route, e) refl
]

list_task_children_route-Reads : (id : ℕ) (db : Session) → Reads db (list_task_children_route id db)
unfolding list_task_children_route
list_task_children_route-Reads id db = elim (Option-cases (get_task id db)) [
  | inl e ↦ rw (list_task_children_route, e) tt
  | inr (t, e) ↦ rw (list_task_children_route, e) refl
]

list_task_events_route-Reads :
    (h : HttpEnv) (id : ℕ) (db : Session) → Reads db (list_task_events_route h id db)
unfolding list_task_events_route
list_task_events_route-Reads h id db = elim (Option-cases (get_task id db)) [
  | inl e ↦ rw (list_task_events_route, e) tt
  | inr (t, e) ↦ elim (Bool-cases h.env.settings.task_event_db_enabled) [
    | inl y ↦ rw (list_task_events_route, e, y) refl
    | inr n ↦ rw (list_task_events_route, e, n) refl
  ]
]

Result-cases : {A : Type 0} (x : Result A) → ((a : A) × (x ≡ ok a)) ⊎ ((e : Error) × (x ≡ err e))
Result-cases (ok a) = inl (a, refl)
Result-cases (err e) = inr (e, refl)

list_tasks_route-Reads :
    (h : HttpEnv) (q : Listing) (db : Session) → Reads db (list_tasks_route h q db)
unfolding list_tasks_route
list_tasks_route-Reads h q db = elim (Result-cases (status_filter q.status)) [
  | inl (a, e) ↦ rw (list_tasks_route, e) refl
  | inr (x, e) ↦ rw (list_tasks_route, e) tt
]

route-Reads :
    (h : HttpEnv) (headers : Headers) (r : TaskRequest) (db : Session)
    → is_write r ≡ false
    → Reads db (route h headers r db)
route-Reads h headers (TaskRequest.create r) db e = cc e
route-Reads h headers (TaskRequest.cancel id) db e = cc e
route-Reads h headers (TaskRequest.retry id) db e = cc e
route-Reads h headers (TaskRequest.show id) db e = get_task_route-Reads id db
route-Reads h headers (TaskRequest.list q) db e = list_tasks_route-Reads h q db
route-Reads h headers (TaskRequest.show_events id) db e = list_task_events_route-Reads h id db
route-Reads h headers (TaskRequest.show_children id) db e = list_task_children_route-Reads id db

pub commit-clean : (db : Session) → IsClean db.tasks → commit db ≡ db
commit-clean db clean = ap (λ t. record db { tasks = t }) (flush-clean db.tasks clean)

end_request-read :
    (db : Session) (x : Answer (Body × Session))
    → IsClean db.tasks
    → Reads db x
    → (end_request commit db x).1 ≡ db
end_request-read db (Answer.answers code (b, s)) clean e = rw e (commit-clean db clean)
end_request-read db (Answer.refuses code d) clean e = refl
end_request-read db (Answer.crashes x) clean e = refl

end_request-refused :
    (db : Session) (x : Answer (Body × Session))
    → is_success (end_request commit db x).0 ≡ false
    → (end_request commit db x).1 ≡ db
end_request-refused db (Answer.answers code (b, s)) e = cc e
end_request-refused db (Answer.refuses code d) e = refl
end_request-refused db (Answer.crashes x) e = refl

-- A request to the task routes changes the database, as it is at the beginning of the request's
-- session, only if its API key is the right one, it is a POST, and it is answered with a success: a
-- request that is refused with 400, 401 or 404, or ends in any other exception, changes nothing, and
-- neither does a GET.
pub serve-unchanged :
    (h : HttpEnv) (headers : Headers) (r : TaskRequest) (db : Session)
    → IsClean db.tasks
    → (some_eq headers.x_api_key h.api_key && is_write r && is_success (serve h headers r db).0)
      ≡ false
    → (serve h headers r db).1 ≡ db
unfolding serve with_api_key
serve-unchanged h headers r db clean e = elim (Bool-cases (some_eq headers.x_api_key h.api_key)) [
  | inr n ↦ rw (serve, with_api_key, n) refl
  | inl y ↦ elim (Bool-cases (is_write r)) [
    | inr n ↦
        rw (serve, with_api_key, y)
          (end_request-read db (route h headers r db) clean (route-Reads h headers r db n))
    | inl w ↦
        rw (serve, with_api_key, y)
          (end_request-refused db (route h headers r db) (rw (serve, with_api_key, y, w) at e))
  ]
]
