-- ===== src/Schedules/Ticks.antt =====
-- tick: it ends, keeps the invariant of the table task, and leaves no schedule due that it took.
use amsz_web.Base.{ℕ, Option, List, some}
use amsz_web.Tasks.Create.{Created}
use amsz_web.Table.Order.{All-order_by}
use amsz_web.Tasks.Invariant.Creates.{create_task-Sound}
use amsz_web.Tasks.Create.{create_task}
use amsz_web.Table.Laws.{get-modify, Distinct, Distinct-get}
use amsz_web.Base.{
  ◌<◌, is_some, ◌≡◌, Bool-cases, ◌==◌, true, ==_refl, inl, All, inr, refl, Option-cases, none, ◌∷◌,
  [], arith, Bool, if◌then◌else◌, All-map, All-take, suc, All-select_of_All, not,
}
use amsz_web.Tasks.Invariant.{Sound, Ensures}
use amsz_web.Schedules.{
  SystemSchedule, Planner, dispatched_schedule, mark_created, and_then, dispatch, dispatch_all,
  tick, schedule_args, claim_due_schedules, due_before, is_due,
}
use amsz_web.Schedules.Slots.{mark_schedule_dispatched-modify}
use amsz_web.Table.{Row, modify, get, keys}
use amsz_web.Session.{Env, Session, Result, ok, err}

-- the schedule under a key runs after a time
abbrev pub RunsAfter : ℕ → List (Row SystemSchedule) → ℕ → Type 0
RunsAfter at rows k = (t : SystemSchedule) × (get k rows ≡ some t) × (at < t.next_run_at)

RunsAfter-modify :
    (at next task_id j k : ℕ) (rows : List (Row SystemSchedule))
    → at < next
    → RunsAfter at rows k
    → RunsAfter at (modify j (dispatched_schedule task_id at next) rows) k
RunsAfter-modify at next task_id j k rows h (t, g, b) = elim (Bool-cases (j == k)) [
  | inl hit ↦ (
    dispatched_schedule task_id at next t,
    rw (get-modify j k (dispatched_schedule task_id at next) rows, hit, g) refl,
    h,
  )
  | inr miss ↦ (t, rw (get-modify j k (dispatched_schedule task_id at next) rows, miss) g, b)
]

RunsAfter-mark :
    (at next task_id k : ℕ) (t : SystemSchedule) (rows : List (Row SystemSchedule))
    → at < next
    → get k rows ≡ some t
    → RunsAfter at (modify k (dispatched_schedule task_id at next) rows) k
RunsAfter-mark at next task_id k t rows h g = (
  dispatched_schedule task_id at next t,
  rw (get-modify k k (dispatched_schedule task_id at next) rows, ==_refl k, g) refl,
  h,
)

-- How a run ends: the tasks satisfy the invariant, the schedules that have moved on have still moved
-- on, those that are there are still there, and the schedules of a list have moved on.
record Moves (at : ℕ) (ks : List ℕ) (p p' : Planner) : Type 0 where
  sound : Sound p'.session
  still : (k : ℕ) → RunsAfter at p.schedules k → RunsAfter at p'.schedules k
  there : (k : ℕ) → is_some (get k p.schedules) ≡ true → is_some (get k p'.schedules) ≡ true
  moved : All (RunsAfter at p'.schedules) ks

abbrev pub Ends {ℓ} : {A : Type ℓ} → (Planner → Type 0) → Option (Result (A × Planner)) → Type 0
Ends P none = ⊥
Ends P (some (ok (a, p))) = P p
Ends P (some (err e)) = Unit

Ends-and_then {ℓ κ} :
    {A : Type ℓ} {B : Type κ} (P Q : Planner → Type 0) (m : Option (Result (A × Planner)))
    (k : A → Planner → Option (Result (B × Planner)))
    → Ends P m
    → ((a : A) (p : Planner) → P p → Ends Q (k a p))
    → Ends Q (and_then m (λ (a, p). k a p))
Ends-and_then P Q none k h step = absurd h
Ends-and_then P Q (some (ok (a, p))) k h step = step a p h
Ends-and_then P Q (some (err e)) k h step = tt

Ends-map {ℓ} :
    {A : Type ℓ} (P Q : Planner → Type 0) (m : Option (Result (A × Planner)))
    → ((p : Planner) → P p → Q p)
    → Ends P m
    → Ends Q m
Ends-map P Q none f h = absurd h
Ends-map P Q (some (ok (a, p))) f h = f p h
Ends-map P Q (some (err e)) f h = tt

-- the schedule of the row is there
abbrev IsThere : Planner → Row SystemSchedule → Type 0
IsThere p r = is_some (get r.key p.schedules) ≡ true

Moves-after :
    (at k : ℕ) (ks : List ℕ) (p p1 p' : Planner)
    → Moves at (k ∷ []) p p1
    → Moves at ks p1 p'
    → Moves at (k ∷ ks) p p'
Moves-after at k ks p p1 p' m n = record {
  sound = n.sound;
  still = λ j h. n.still j (m.still j h);
  there = λ j h. n.there j (m.there j h);
  moved = (n.still k m.moved.0, n.moved);
}

is_some-modify :
    (j k : ℕ) (f : SystemSchedule → SystemSchedule) (rows : List (Row SystemSchedule))
    → is_some (get k rows) ≡ true
    → is_some (get k (modify j f rows)) ≡ true
is_some-modify j k f rows h = elim (Option-cases (get k rows)) [
  | inl e ↦ cc (rw e at h)
  | inr (t, e) ↦ ground (arith, get-modify j k f rows, e)
]

mark_created-Moves :
    (env : Env) (r : Row SystemSchedule) (p : Planner) (m : Created) (s : Session)
    → 0 < r.live.interval_seconds
    → IsThere p r
    → Sound s
    → Ends (Moves env.now (r.key ∷ []) p) (mark_created env r p (m, s))
unfolding mark_created
mark_created-Moves env r p m s pos here h =
    let (next, e, x) = mark_schedule_dispatched-modify r m.id env.now p.schedules pos in
    elim (Option-cases (get r.key p.schedules)) [
      | inl g ↦ cc (rw g at here)
      | inr (t, g) ↦
          rw (mark_created, e)
            (record {
              sound = h;
              still = λ k. RunsAfter-modify env.now next m.id r.key k p.schedules x.after;
              there = λ k. is_some-modify r.key k _ p.schedules;
              moved = (RunsAfter-mark env.now next m.id r.key t p.schedules x.after g, tt);
            })
    ]

after_create :
    (env : Env) (r : Row SystemSchedule) (p : Planner) (x : Result (Created × Session))
    → 0 < r.live.interval_seconds
    → IsThere p r
    → Ensures Sound x
    → Ends (Moves env.now (r.key ∷ []) p) (and_then (some x) (mark_created env r p))
after_create env r p (ok (m, s)) pos here h = mark_created-Moves env r p m s pos here h
after_create env r p (err e) pos here h = tt

dispatch-Moves :
    (env : Env) (r : Row SystemSchedule) (p : Planner)
    → 0 < r.live.interval_seconds
    → IsThere p r
    → Sound p.session
    → Ends (Moves env.now (r.key ∷ []) p) (dispatch env r p)
unfolding dispatch
dispatch-Moves env r p pos here h =
    after_create env r p (create_task env (schedule_args env r.live) p.session) pos here
      (create_task-Sound env (schedule_args env r.live) p.session refl h)

dispatch_all-Moves :
    (env : Env) (rs : List (Row SystemSchedule)) (n : ℕ) (p : Planner)
    → All (λ r. 0 < r.live.interval_seconds) rs
    → All (IsThere p) rs
    → Sound p.session
    → Ends (Moves env.now (keys rs) p) (dispatch_all env rs n p)
unfolding dispatch_all
dispatch_all-Moves env [] n p pos here h = record {
  sound = h;
  still = λ k x. x;
  there = λ k x. x;
  moved = tt;
}
dispatch_all-Moves env (r ∷ rs) n p pos here h =
    Ends-and_then (Moves env.now (r.key ∷ []) p) (Moves env.now (r.key ∷ keys rs) p)
      (dispatch env r p) (λ created p'. dispatch_all env rs (if created then suc n else n) p')
      (dispatch-Moves env r p pos.0 here.0 h)
      λ created p' m.
        Ends-map (Moves env.now (keys rs) p') (Moves env.now (r.key ∷ keys rs) p) _
          (λ q. Moves-after env.now r.key (keys rs) p p' q m)
          (dispatch_all-Moves env rs (if created then suc n else n) p' pos.1
            (All-map (IsThere p) (IsThere p') rs (λ q. m.there q.key) here.1) m.sound)

claimed :
    (env : Env) (limit : ℕ) (locked : ℕ → Bool) (rows : List (Row SystemSchedule))
    (P : Row SystemSchedule → Type 0)
    → All P rows
    → All P (claim_due_schedules env.now limit locked rows)
claimed env limit locked rows P h = All-take P limit _ (
    All-order_by due_before P _ (
      All-select_of_All (λ r. not (locked r.key)) P _
        (All-select_of_All (λ r. is_due env.now r.stored) P rows h)))

-- A tick ends, where every interval is positive and keys are distinct: it raises, or it leaves the
-- table task as the invariant wants it and every schedule that it took with a next run that lies in
-- the future.
pub tick-RunsAfter :
    (env : Env) (limit : ℕ) (locked : ℕ → Bool) (p : Planner)
    → Sound p.session
    → Distinct p.schedules
    → All (λ r. 0 < r.live.interval_seconds) p.schedules
    → Ends
        (λ p'.
          Sound p'.session
          × All
              (RunsAfter env.now p'.schedules)
              (keys (claim_due_schedules env.now limit locked p.schedules)))
        (tick env limit locked p)
unfolding tick
tick-RunsAfter env limit locked p h d pos =
    Ends-map (Moves env.now (keys (claim_due_schedules env.now limit locked p.schedules)) p) _ _
      (λ q m. (m.sound, m.moved))
      (dispatch_all-Moves env (claim_due_schedules env.now limit locked p.schedules) 0 p
        (claimed env limit locked p.schedules (λ r. 0 < r.live.interval_seconds) pos)
        (claimed env limit locked p.schedules (IsThere p) (
          All-map (λ r. get r.key p.schedules ≡ some r.live) (IsThere p) p.schedules
            (λ r g. rw g refl) (Distinct-get p.schedules d)))
        h)
