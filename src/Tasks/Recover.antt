-- ===== src/Tasks/Recover.antt =====
-- task_repository.py: recover_expired_running_tasks. The SELECT has no ORDER BY, so `pick` stands
-- for the order in which the database gives the rows.
use amsz_web.Base.{
  ℕ, Bool, ◌&&◌, not, none, some, List, [], ◌∷◌, ltb, take, keep_if, select, length,
}
use amsz_web.Domain.{TaskStatus, status_eq}
use amsz_web.Models.{Task}
use amsz_web.Table.{Row, query}
use amsz_web.Session.{Env, Session, Result, ok, ◌>>=◌, set_task}
use amsz_web.Tasks.Events.{add_event}
use amsz_web.Tasks.Claim.{noted_parents}
use amsz_web.Tasks.Family.Refresh.{refresh_parents}

-- the WHERE clause: RUNNING, with a lease that has ended
abbrev pub is_expired : Env → Task → Bool
is_expired env t =
    status_eq t.status TaskStatus.running && keep_if (λ until. ltb until env.now) t.lease_until

abbrev pub recovered_row : Task → Task
recovered_row t = record t {
  status = TaskStatus.pending;
  lease_owner = none;
  lease_until = none;
  current_stage = some "recovered";
}

abbrev pub expired_rows : Env → (ℕ → Bool) → Session → List (Row Task)
expired_rows env locked s = select (λ r. not (locked r.key)) (query (is_expired env) s.tasks)

unfoldable pub recover_one : Env → Row Task → Session → Session
recover_one env r s =
    add_event env r.key "LEASE_EXPIRED" (some r.live.status) (some TaskStatus.pending)
      (some "Expired lease recovered") none (set_task r.key recovered_row s)

unfoldable pub recover_all : Env → List (Row Task) → Session → Session
recover_all env [] s = s
recover_all env (r ∷ rs) s = recover_all env rs (recover_one env r s)

unfoldable pub recover_expired_running_tasks :
    Env → (List (Row Task) → List (Row Task)) → (ℕ → Bool) → ℕ → Session → Result (ℕ × Session)
recover_expired_running_tasks env pick locked limit s = do
  let rows = take limit (pick (expired_rows env locked s))
  s' ← refresh_parents env (noted_parents rows []) (recover_all env rows s)
  ok (length rows, s')
