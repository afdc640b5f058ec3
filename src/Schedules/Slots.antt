-- ===== src/Schedules/Slots.antt =====
-- mark_schedule_dispatched: the next slot of a schedule.
use amsz_web.Base.{ℕ, ◌+◌}
use Prim.Native.Nat.{zero, suc}
use amsz_web.Base.{
  ◌*◌, ◌<◌, ◌≤◌, arith, suc, ◌≡◌, some, Bool-cases, leb, inr, inl, List, refl, none,
}
use amsz_web.Schedules.{SystemSchedule, advance, mark_schedule_dispatched, dispatched_schedule}
use amsz_web.Table.{Row, modify, get, without}
use amsz_web.Table.Laws.{get-modify_self, without-modify}
use amsz_web.Session.{seconds}

-- `m` is `n` or a later slot of the schedule
pub data Follows (interval : ℕ) : ℕ → ℕ → Type 0 where
  here : {n : ℕ} → Follows interval n n
  later : {n m : ℕ} → Follows interval (n + interval) m → Follows interval n m

-- `m` is the first slot after a time
pub record IsNext (interval at n m : ℕ) : Type 0 where
  pub after : at < m
  pub within : n ≤ at + interval → m ≤ at + interval
  pub follows : Follows interval n m

IsNext-later :
    (interval at n m : ℕ) → n ≤ at → IsNext interval at (n + interval) m → IsNext interval at n m
IsNext-later interval at n m h x = record {
  after = x.after;
  within = λ _. x.within (omega arith);
  follows = Follows.later x.follows;
}

advance-IsNext :
    (fuel interval at n : ℕ)
    → 0 < interval
    → at < fuel + n
    → (m : ℕ) × (advance (suc fuel) interval at n ≡ some m) × IsNext interval at n m
advance-IsNext zero interval at n p f =
    (n, ground arith, record { after = omega (arith, f); within = λ h. h; follows = Follows.here })
advance-IsNext (suc g) interval at n p f = elim (Bool-cases (leb n at)) [
  | inr out ↦ (
    n,
    rw out refl,
    record { after = ground (arith, out); within = λ h. h; follows = Follows.here },
  )
  | inl due ↦
      let (m, e, x) = advance-IsNext g interval at (n + interval) p (omega arith) in
      (m, rw due e, IsNext-later interval at n m (ground (arith, due)) x)
]

-- the loop ends, and the schedule is written
pub mark_schedule_dispatched-modify :
    (r : Row SystemSchedule) (task_id dispatched_at : ℕ) (rows : List (Row SystemSchedule))
    → 0 < r.live.interval_seconds
    → (next : ℕ) × (mark_schedule_dispatched r task_id dispatched_at rows
        ≡ some (modify r.key (dispatched_schedule task_id dispatched_at next) rows))
      × IsNext (seconds r.live.interval_seconds) dispatched_at r.live.next_run_at next
unfolding mark_schedule_dispatched
mark_schedule_dispatched-modify r task_id dispatched_at rows p =
    let (m, e, x) =
      advance-IsNext (suc dispatched_at) (seconds r.live.interval_seconds) dispatched_at
        r.live.next_run_at (omega arith) (omega arith) in
    (m, rw (mark_schedule_dispatched, e) refl, x)

-- `t'` is the schedule `t` after its dispatch
pub record Dispatched (task_id dispatched_at : ℕ) (t t' : SystemSchedule) : Type 0 where
  pub next : IsNext (t.interval_seconds * 1000000) dispatched_at t.next_run_at t'.next_run_at
  pub task : t'.last_task_id ≡ some task_id
  pub run : t'.last_run_at ≡ some dispatched_at
  pub enabled : t'.enabled ≡ t.enabled
  pub interval : t'.interval_seconds ≡ t.interval_seconds
  pub key : t'.schedule_key ≡ t.schedule_key

-- mark_schedule_dispatched ends for a schedule that is there and whose interval is positive: afterwards
-- the schedule has the task and the time of the dispatch, its next run is the first of its slots
-- after that time, which is at most an interval away if the schedule was due, its key, interval and
-- enabled are what they were, and no other schedule is changed.
pub mark_schedule_dispatched-IsNext :
    (r : Row SystemSchedule) (task_id dispatched_at : ℕ) (rows : List (Row SystemSchedule))
    → 0 < r.live.interval_seconds
    → get r.key rows ≡ some r.live
    → (rows' : List (Row SystemSchedule)) × (mark_schedule_dispatched r task_id dispatched_at rows
        ≡ some rows')
      × (t : SystemSchedule) × (get r.key rows' ≡ some t)
      × Dispatched task_id dispatched_at r.live t
      × (without r.key rows' ≡ without r.key rows)
mark_schedule_dispatched-IsNext r task_id dispatched_at rows p g =
    let (m, e, x) = mark_schedule_dispatched-modify r task_id dispatched_at rows p in
    let f = dispatched_schedule task_id dispatched_at m in
    (
      modify r.key f rows,
      e,
      f r.live,
      get-modify_self r.key f rows r.live g,
      record { next = x; task = refl; run = refl; enabled = refl; interval = refl; key = refl },
      without-modify r.key f rows,
    )

-- A schedule that is due and whose interval is 0 keeps the loop of mark_schedule_dispatched running
-- for ever: no fuel is enough.
pub advance_zero_interval :
    (fuel dispatched_at next_run_at : ℕ)
    → next_run_at ≤ dispatched_at
    → advance fuel 0 dispatched_at next_run_at ≡ none
advance_zero_interval zero at n h = refl
advance_zero_interval (suc fuel) at n h =
    ground (arith, advance_zero_interval fuel at (n + 0) (omega arith))
