-- ===== src/Szdm/Limits.antt =====
-- szdm_repository.py: dispatch_items_for_job keeps the limits of the job.
use amsz_web.Base.{
  ◌≤◌, suc, count, Bool-cases, ◌≡◌, ◌+◌, length, arith, inl, ◌∷◌, inr, [], ap, refl, Bool, max,
  take, ◌==◌, length-take-le,
}
use amsz_web.Szdm.{
  SzdmJob, SzdmItem, Board, ℕ, List, if◌then◌else◌, refresh_job_counts, refreshed_board,
  require_job,
}
use amsz_web.Szdm.Dispatch.{
  DispatchArgs, is_active_item, item_args, dispatched_item, with_session, dispatch_item,
  dispatch_items, dispatch_limit, dispatch_some, dispatch_items_for_job, active_child_count,
  dispatched_from, pending_items,
}
use amsz_web.Tasks.Create.{Created, create_task}
use amsz_web.Table.{Row, modify, flush, IsClean}
use amsz_web.Session.{Env, Session, Result, ok, err, ◌>>=◌}

-- the items of a job that are DISPATCHED or RUNNING, as the session has them
abbrev pub active_now : ℕ → List (Row SzdmItem) → ℕ
active_now id = count (λ r. is_active_item id r.live)

active_now-modify :
    (id k : ℕ) (f : SzdmItem → SzdmItem) (rs : List (Row SzdmItem))
    → active_now id (modify k f rs) ≤ suc (active_now id rs)
active_now-modify id k f [] = omega arith
active_now-modify id k f (r ∷ rs) = ground (arith, active_now-modify id k f rs)

active_now-flush : (id : ℕ) (rs : List (Row SzdmItem)) → active_now id (flush rs) ≡ active_now id rs
active_now-flush id [] = refl
active_now-flush id (r ∷ rs) = ground (arith, active_now-flush id rs)

-- in a session that has just begun, the database has what the session has
active_now-IsClean :
    (id : ℕ) (rs : List (Row SzdmItem))
    → IsClean rs
    → count (λ r. is_active_item id r.stored) rs ≡ active_now id rs
active_now-IsClean id [] h = refl
active_now-IsClean id (r ∷ rs) h =
    ground (arith, active_now-IsClean id rs h.1, ap (is_active_item id) h.0)

-- a call that creates at most `k` tasks and makes at most `k` items active
abbrev pub Within : ℕ → ℕ → Board → Result (ℕ × Board) → Type 0
Within id k p (ok (n, p')) = (n ≤ k) × (active_now id p'.items ≤ active_now id p.items + k)
Within id k p (err e) = Unit

after_task :
    (id item_id : ℕ) (p : Board) (x : Result (Created × Session))
    → Within id 1 p (
        x >>= λ (m, s). ok (
          if m.created then 1 else 0,
          record (with_session m s p) {
            items = modify item_id (dispatched_item m.id) (with_session m s p).items;
          },
        ))
after_task id item_id p (err e) = tt
after_task id item_id p (ok (m, s)) = elim (Bool-cases m.created) [
  | inl y ↦ rw y (
    omega arith,
    omega (
      arith,
      active_now-modify id item_id (dispatched_item m.id) (flush p.items),
      active_now-flush id p.items,
    ),
  )
  | inr n ↦
      rw n (omega arith, omega (arith, active_now-modify id item_id (dispatched_item m.id) p.items))
]

dispatch_item-Within :
    (env : Env) (a : DispatchArgs) (id : ℕ) (j : SzdmJob) (r : Row SzdmItem) (p : Board)
    → Within id 1 p (dispatch_item env a id j r p)
unfolding dispatch_item
dispatch_item-Within env a id j r p =
    after_task id r.key p (create_task env (item_args env a id j r.key r.live) p.session)

Within-next :
    (id k : ℕ) (p : Board) (x : Result (ℕ × Board)) (rest : Board → Result (ℕ × Board))
    → Within id 1 p x
    → ((q : Board) → Within id k q (rest q))
    → Within id (suc k) p (x >>= λ (n, p1). rest p1 >>= λ (m, p2). ok (n + m, p2))
Within-next id k p (err e) rest h step = tt
Within-next id k p (ok (n, p1)) rest h step = both (rest p1) (step p1)
  where
    both :
        (y : Result (ℕ × Board))
        → Within id k p1 y
        → Within id (suc k) p (y >>= λ (m, p2). ok (n + m, p2))
    both (ok (m, p2)) g = (omega (arith, h.0, g.0), omega (arith, h.1, g.1))
    both (err e) g = tt

dispatch_items-Within :
    (env : Env) (a : DispatchArgs) (id : ℕ) (j : SzdmJob) (rs : List (Row SzdmItem)) (p : Board)
    → Within id (length rs) p (dispatch_items env a id j rs p)
unfolding dispatch_items
dispatch_items-Within env a id j [] p = (omega arith, omega arith)
dispatch_items-Within env a id j (r ∷ rs) p =
    Within-next id (length rs) p (dispatch_item env a id j r p)
      (λ q. dispatch_items env a id j rs q) (dispatch_item-Within env a id j r p)
      (λ q. dispatch_items-Within env a id j rs q)

Within-le :
    (id k l : ℕ) (p : Board) (x : Result (ℕ × Board)) → k ≤ l → Within id k p x → Within id l p x
Within-le id k l p (ok (n, p')) h w = (omega (arith, h, w.0), omega (arith, h, w.1))
Within-le id k l p (err e) h w = tt

-- refresh_job_counts leaves the items
abbrev pub SameItems : Board → Result Board → Type 0
SameItems p (ok p') = p'.items ≡ p.items
SameItems p (err e) = Unit

refresh_job_counts-SameItems :
    (env : Env) (id : ℕ) (p : Board) → SameItems p (refresh_job_counts env id p)
unfolding refresh_job_counts
refresh_job_counts-SameItems env id p = same (require_job id p)
  where
    same : (x : Result SzdmJob) → SameItems p (x >>= λ j. ok (refreshed_board env id p j))
    same (ok j) = refl
    same (err e) = tt

Within-refresh :
    (env : Env) (id k : ℕ) (p : Board) (x : Result (ℕ × Board))
    → Within id k p x
    → Within id k p (x >>= λ (n, p1). refresh_job_counts env id p1 >>= λ p2. ok (n, p2))
Within-refresh env id k p (err e) w = tt
Within-refresh env id k p (ok (n, p1)) w =
    last (refresh_job_counts env id p1) (refresh_job_counts-SameItems env id p1)
  where
    last : (y : Result Board) → SameItems p1 y → Within id k p (y >>= λ p2. ok (n, p2))
    last (ok p2) same = (w.0, rw same w.1)
    last (err e) same = tt

dispatch_some-Within :
    (env : Env) (a : DispatchArgs) (locked : ℕ → Bool) (id : ℕ) (j : SzdmJob) (limit : ℕ)
    (p : Board)
    → Within id limit p (dispatch_some env a locked id j limit p)
unfolding dispatch_some
dispatch_some-Within env a locked id j limit p =
    let items = take limit (pending_items id locked p) in
    Within-refresh env id limit p (dispatch_items env a id j items p) (
      Within-le id (length items) limit p (dispatch_items env a id j items p)
        (length-take-le limit (pending_items id locked p))
        (dispatch_items-Within env a id j items p))

-- the limits of a dispatch
abbrev pub Limited : DispatchArgs → ℕ → SzdmJob → Board → Result (ℕ × Board) → Type 0
Limited a id j p (ok (n, p')) =
    (n ≤ a.per_job_limit)
    × (n ≤ j.dispatch_batch_size)
    × (active_now id p'.items ≤ max (active_now id p.items) j.max_parallel_children)
Limited a id j p (err e) = Unit

Limited-Within :
    (a : DispatchArgs) (id : ℕ) (j : SzdmJob) (p p1 : Board) (x : Result (ℕ × Board))
    → IsClean p.items
    → p1.items ≡ p.items
    → Within id (dispatch_limit a j (active_child_count id p1)) p1 x
    → Limited a id j p x
Limited-Within a id j p p1 (err e) clean same w = tt
Limited-Within a id j p p1 (ok (n, p')) clean same w =
    let before : active_child_count id p1 ≡ active_now id p.items =
      rw same (active_now-IsClean id p.items clean) in
    let now : active_now id p1.items ≡ active_now id p.items = ap (active_now id) same in
    (omega (arith, w.0), omega (arith, w.0), omega (arith, w.1, before, now))

after_refresh :
    (env : Env) (a : DispatchArgs) (locked : ℕ → Bool) (id : ℕ) (j : SzdmJob) (p : Board)
    (x : Result Board)
    → IsClean p.items
    → SameItems p x
    → Limited a id j p (x >>= λ p1. dispatched_from env a locked id j p1)
after_refresh env a locked id j p (err e) clean same = tt
after_refresh env a locked id j p (ok p1) clean same =
    Limited-Within a id j p p1 (dispatched_from env a locked id j p1) clean same
      (elim (Bool-cases (dispatch_limit a j (active_child_count id p1) == 0)) [
        | inl y ↦ rw y (omega arith, omega arith)
        | inr n ↦ rw n (
            dispatch_some-Within env a locked id j (dispatch_limit a j (active_child_count id p1))
              p1)
      ])

-- In a session whose items are as in the database, dispatch_items_for_job creates no more tasks than
-- the limit of the call and the batch size of the job, and afterwards no more items of the job are
-- DISPATCHED or RUNNING than max_parallel_children, unless there were more before; then there are no
-- more than before.
pub dispatch_items_for_job-Limited :
    (env : Env) (a : DispatchArgs) (locked : ℕ → Bool) (id : ℕ) (j : SzdmJob) (p : Board)
    → IsClean p.items
    → Limited a id j p (dispatch_items_for_job env a locked id j p)
unfolding dispatch_items_for_job
dispatch_items_for_job-Limited env a locked id j p clean =
    after_refresh env a locked id j p (refresh_job_counts env id p) clean
      (refresh_job_counts-SameItems env id p)
