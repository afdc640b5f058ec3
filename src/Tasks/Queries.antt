-- ===== src/Tasks/Queries.antt =====
-- task_repository.py: get_task, list_tasks, list_children and list_events, which change nothing.
use amsz_web.Base.{
  ℕ, String, Bool, true, ◌&&◌, ◌||◌, not, Option, none, some, List, ◌==◌, ltb, str_eq, some_eq,
  take, drop, keep_if, is_some, select,
}
use amsz_web.Domain.{TaskStatus, status_eq}
use amsz_web.Models.{Task, TaskEvent}
use amsz_web.Table.{Row, get, query}
use amsz_web.Table.Order.{order_by}
use amsz_web.Session.{Session}

unfoldable pub get_task : ℕ → Session → Option Task
get_task id s = get id s.tasks

pub record Filters : Type 0 where
  pub status : Option TaskStatus
  pub task_type : Option String
  pub queue_name : Option String
  pub biz_key : Option String

-- `if value: stmt = stmt.where(column == value)`
abbrev matches : Option String → (String → Bool) → Bool
matches none test = true
matches (some String.[]) test = true
matches (some v) test = test v

abbrev pub is_listed : Filters → Task → Bool
is_listed f t =
    not (is_some t.parent_task_id)
    && elim f.status [ none ↦ true | some v ↦ status_eq t.status v ]
    && matches f.task_type (str_eq t.task_type)
    && matches f.queue_name (str_eq t.queue_name)
    && matches f.biz_key (some_eq t.biz_key)

-- ORDER BY created_at DESC leaves the order of rows of one time open: `ties` is the order in which the
-- database takes the rows for this SELECT, which may be another one for the next
unfoldable pub list_tasks :
    (List (Row Task) → List (Row Task)) → Filters → ℕ → ℕ → Session → List (Row Task)
list_tasks ties f limit offset s = take limit (
    drop offset (
      order_by (λ r q. ltb q.stored.created_at r.stored.created_at)
        (ties (query (is_listed f) s.tasks))))

unfoldable pub list_children : ℕ → Session → List (Row Task)
list_children id s =
    order_by
      (λ r q.
        ltb r.stored.created_at q.stored.created_at
        || ((r.stored.created_at == q.stored.created_at) && ltb r.key q.key))
      (query (λ t. keep_if (λ p. p == id) t.parent_task_id) s.tasks)

unfoldable pub list_events : ℕ → Session → List TaskEvent
list_events id s =
    order_by (λ e f. ltb e.created_at f.created_at) (select (λ e. e.task_id == id) s.events)
