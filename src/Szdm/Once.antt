-- ===== src/Szdm/Once.antt =====
-- szdm_repository.py: the aggregate task of a job is created once.
use amsz_web.Szdm.Items.{require_job-get}
use amsz_web.Base.{
  ◌≡◌, Bool-cases, some, none, inl, str_eq, false, if◌then◌else◌, inr, refl, ==_refl, subst, arith,
}
use amsz_web.Szdm.{
  SzdmJob, Board, ℕ, Option, require_job, refreshed_board, refresh_job_counts, is_broken,
  refreshed_job, counted_job,
}
use amsz_web.Szdm.Dispatch.{DispatchArgs, with_session}
use amsz_web.Szdm.Reports.{
  report_args, reporting_job, start_report, reporting_board, schedule_aggregate_if_ready,
  report_if_complete, is_complete, report_started,
}
use amsz_web.Tasks.Create.{Created, create_task}
use amsz_web.Table.{get}
use amsz_web.Table.Laws.{get-modify, get-flush}
use amsz_web.Session.{Env, Session, Result, ok, err, ◌>>=◌}

-- the job is there, and its report is not PENDING
abbrev pub IsReported : ℕ → Board → Type 0
IsReported id p =
    (j : SzdmJob) × (get id p.jobs ≡ some j) × (str_eq j.report_status "PENDING" ≡ false)

get-with_session :
    (id : ℕ) (m : Created) (s : Session) (p : Board)
    → get id (with_session m s p).jobs ≡ get id p.jobs
get-with_session id m s p = elim (Bool-cases m.created) [
  | inl y ↦ rw y (get-flush id p.jobs)
  | inr n ↦ rw n refl
]

-- the call made an aggregate task
abbrev pub Reports : ℕ → Result (Option Created × Board) → Type 0
Reports id (ok (some m, p)) = IsReported id p
Reports id (ok (none, p)) = Unit
Reports id (err e) = Unit

reports : (id : ℕ) (o : Option Created) (p : Board) → IsReported id p → Reports id (ok (o, p))
reports id none p h = tt
reports id (some m) p h = h

start_report-Reports :
    (env : Env) (a : DispatchArgs) (id : ℕ) (j : SzdmJob) (p : Board)
    → get id p.jobs ≡ some j
    → Reports id (start_report env a id j p)
unfolding start_report
start_report-Reports env a id j p g = from (create_task env (report_args env a id j) p.session)
  where
    from : (x : Result (Created × Session)) → Reports id (x >>= λ (m, s). report_started id j p m s)
    from (err e) = tt
    from (ok (m, s)) =
        reports id (if m.created then some m else none) (reporting_board id j (with_session m s p))
          (
            reporting_job j,
            rw
                (
                  get-modify id id reporting_job (with_session m s p).jobs,
                  get-with_session id m s p,
                  g,
                  ==_refl id,
                )
                refl,
            refl,
          )

module _ (env : Env) (a : DispatchArgs) (id : ℕ) where
  over_job :
      (p : Board) (x : Result SzdmJob)
      → ((j : SzdmJob) → x ≡ ok j → get id p.jobs ≡ some j)
      → Reports id (x >>= λ j. report_if_complete env a id p j)
  over_job p (err e) there = tt
  over_job p (ok j) there = elim (Bool-cases (is_complete j)) [
    | inl y ↦ rw y (start_report-Reports env a id j p (there j refl))
    | inr n ↦ rw n tt
  ]

  over_refresh :
      (x : Result Board)
      → Reports id (x >>= λ p. require_job id p >>= λ j. report_if_complete env a id p j)
  over_refresh (err e) = tt
  over_refresh (ok p) = over_job p (require_job id p) (λ j. require_job-get id p j)

  schedule-Reports : (p : Board) → Reports id (schedule_aggregate_if_ready env a id p)
  unfolding schedule_aggregate_if_ready
  schedule-Reports p = over_refresh (refresh_job_counts env id p)

  -- a job whose report is not PENDING is counted again, and that is all
  schedules_nothing :
      (p : Board) (j : SzdmJob)
      → get id p.jobs ≡ some j
      → str_eq j.report_status "PENDING" ≡ false
      → schedule_aggregate_if_ready env a id p ≡ ok (none, refreshed_board env id p j)
  unfolding schedule_aggregate_if_ready refresh_job_counts
  schedules_nothing p j g n =
      let p1 = refreshed_board env id p j in
      let first : require_job id p ≡ ok j = rw (require_job, g) refl in
      let now : get id p1.jobs ≡ some (refreshed_job id p.items j) =
        rw (get-modify id id (refreshed_job id p.items) p.jobs, g, ==_refl id) refl in
      let second : require_job id p1 ≡ ok (refreshed_job id p.items j) =
        rw (require_job, now) refl in
      let open_ : is_complete (refreshed_job id p.items j) ≡ false = ground (arith, n) in
      rw first (rw second (rw open_ refl))

  keeps_session :
      (p : Board) (j : SzdmJob)
      → str_eq j.report_status "PENDING" ≡ false
      → (refreshed_board env id p j).session ≡ p.session
  keeps_session p j n =
      let whole : is_broken (counted_job id p.items j) ≡ false = ground (arith, n) in rw whole refl

-- the call creates nothing and leaves the tasks
abbrev pub Rests : Board → Result (Option Created × Board) → Type 0
Rests p r = (q : Board) × (r ≡ ok (none, q)) × (q.session ≡ p.session)

-- The aggregate task of a job is created once: after a call that has created it, the next call for the
-- job, whatever its other arguments, returns None and leaves all tasks as they are.
pub schedule_aggregate_once :
    (env env' : Env) (a b : DispatchArgs) (id : ℕ) (p p' : Board) (m : Created)
    → schedule_aggregate_if_ready env a id p ≡ ok (some m, p')
    → Rests p' (schedule_aggregate_if_ready env' b id p')
schedule_aggregate_once env env' a b id p p' m e =
    let (j, g, n) = subst (Reports id) e (schedule-Reports env a id p) in
    (
      refreshed_board env' id p' j,
      schedules_nothing env' b id p' j g n,
      keeps_session env' b id p' j n,
    )
