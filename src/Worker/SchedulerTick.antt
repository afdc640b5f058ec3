-- ===== src/Worker/SchedulerTick.antt =====
-- worker_runner.py: _run_scheduler_tick_if_due, which runs the ticks of both schedulers in one
-- session, and logs what they raise.
use mathlib.Core.Option
use amsz_web.Schedules.{Planner, SystemSchedule, tick}
use amsz_web.Szdm.{Board, SzdmJob, SzdmItem}
use amsz_web.Szdm.Dispatch.{DispatchArgs}
use amsz_web.Szdm.Ticks.{tick_szdm}
use amsz_web.Table.{Row, flush}
use amsz_web.Session.{Env, Result, ok, err, Session, commit}
use amsz_web.Base.{ℕ, ◌+◌, ltb, Bool, false, not, ◌||◌, Option, none, some, List, if◌then◌else◌}

-- the tables that both schedulers work on
pub record Central : Type 0 where
  pub session : Session
  pub schedules : List (Row SystemSchedule)
  pub jobs : List (Row SzdmJob)
  pub items : List (Row SzdmItem)

-- the settings of the scheduler, its interval in microseconds; the rows that other transactions hold;
-- and the order in which the jobs are claimed
pub record TickArgs : Type 0 where
  pub scheduler_enabled : Bool
  pub scheduler_tick_interval : ℕ
  pub scheduler_max_due_schedules : ℕ
  pub szdm : DispatchArgs
  pub szdm_scheduler_max_jobs : ℕ
  pub updated_at : ℕ → ℕ
  pub locked_schedules : ℕ → Bool
  pub locked_jobs : ℕ → Bool
  pub locked_items : ℕ → Bool

abbrev pub with_board : Central → Planner → Board → Central
with_board c p b = record {
  session = commit b.session;
  schedules = flush p.schedules;
  jobs = flush b.jobs;
  items = flush b.items;
}

abbrev pub board_of : Central → Planner → Board
board_of c p = record { session = p.session; jobs = c.jobs; items = c.items }

-- the commit, or the rollback that forgets the work of both schedulers
abbrev pub end_central : Central → Planner → Result (ℕ × Board) → Central
end_central c p (ok (n, b)) = with_board c p b
end_central c p (err e) = c

abbrev pub then_szdm : Env → TickArgs → Central → Result (ℕ × Planner) → Central
then_szdm env a c (ok (n, p)) = end_central c p (
    tick_szdm env a.szdm a.updated_at a.locked_jobs a.locked_items a.szdm_scheduler_max_jobs
      (board_of c p))
then_szdm env a c (err e) = c

-- the two ticks in one session; `none` is a tick that does not end
unfoldable pub scheduler_tick : Env → TickArgs → Central → Option Central
scheduler_tick env a c = Option.map (then_szdm env a c) (
    tick env a.scheduler_max_due_schedules a.locked_schedules
      (record { session = c.session; schedules = c.schedules }))

-- elapsed < scheduler_tick_interval_seconds
abbrev pub is_early : Option ℕ → ℕ → ℕ → Bool
is_early none interval now = false
is_early (some last) interval now = ltb now (last + interval)

-- with _last_scheduler_tick_at, which is set in front of the ticks, whatever they raise
unfoldable pub run_scheduler_tick_if_due :
    Env → TickArgs → Option ℕ × Central → Option (Option ℕ × Central)
unfolding scheduler_tick
run_scheduler_tick_if_due env a (last, c) =
    let ticked = Option.map (λ c'. (some env.now, c')) (scheduler_tick env a c) in
    if not a.scheduler_enabled || is_early last a.scheduler_tick_interval env.now
    then some (last, c)
    else ticked
