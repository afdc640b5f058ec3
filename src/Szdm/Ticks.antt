-- ===== src/Szdm/Ticks.antt =====
-- szdm_scheduler_service.py: tick, for the jobs that claim_dispatchable_jobs gives. The rows of items
-- that other transactions hold are an argument.
use amsz_web.Base.{◌∷◌, ◌+◌, []}
use amsz_web.Szdm.{SzdmJob, Board, claim_dispatchable_jobs, ℕ, Bool, List}
use amsz_web.Szdm.Dispatch.{DispatchArgs, dispatch_items_for_job}
use amsz_web.Szdm.Reports.{schedule_aggregate_if_ready}
use amsz_web.Table.{Row}
use amsz_web.Session.{Env, Result, ok, ◌>>=◌}

unfoldable pub tick_jobs :
    Env → DispatchArgs → (ℕ → Bool) → List (Row SzdmJob) → Board → Result (ℕ × Board)
tick_jobs env a locked [] p = ok (0, p)
tick_jobs env a locked (r ∷ rs) p = do
  (n, p1) ← dispatch_items_for_job env a locked r.key r.live p
  (_, p2) ← schedule_aggregate_if_ready env a r.key p1
  (k, p3) ← tick_jobs env a locked rs p2
  ok (n + k, p3)

unfoldable pub tick_szdm :
    Env
    → DispatchArgs
    → (ℕ → ℕ)
    → (locked_jobs locked_items : ℕ → Bool) → ℕ
    → Board
    → Result (ℕ × Board)
tick_szdm env a updated_at locked_jobs locked_items max_jobs p =
    tick_jobs env a locked_items (claim_dispatchable_jobs updated_at locked_jobs max_jobs p) p
