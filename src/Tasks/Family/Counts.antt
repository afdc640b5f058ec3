-- ===== src/Tasks/Family/Counts.antt =====
-- What the counters of a parent say of its children.
use amsz_web.Session.{Session}
use amsz_web.Tasks.Family.Summary.{
  count_children, count_status, child_tasks, build_child_summary, no_children, child_before,
  Summary, is_child_of,
}
use amsz_web.Table.Order.{count-order_by, length-order_by}
use amsz_web.Table.{query}
use amsz_web.Base.{
  ◌∙◌, count-select, length-select, ◌&&◌, ℕ, ◌+◌, ◌≡◌, List, [], ◌∷◌, arith, refl, count, ◌≤◌,
  length,
}
use amsz_web.Domain.{TaskStatus, status_eq}
use amsz_web.Models.{Task, Detail}
use amsz_web.Table.{Row}

-- how many of the rows have a status
abbrev pub with_status : TaskStatus → List (Row Task) → ℕ
with_status k rs = count (λ r. status_eq r.live.status k) rs

-- the detail that counts some rows on top of another detail
pub record Counts (rs : List (Row Task)) (d d' : Detail) : Type 0 where
  pub pending : d'.pending ≡ d.pending + with_status TaskStatus.pending rs
  pub running : d'.running ≡ d.running + with_status TaskStatus.running rs
  pub retry_wait : d'.retry_wait ≡ d.retry_wait + with_status TaskStatus.retry_wait rs
  pub succeeded : d'.succeeded ≡ d.succeeded + with_status TaskStatus.succeeded rs
  pub canceled : d'.canceled ≡ d.canceled + with_status TaskStatus.canceled rs
  pub dead : d'.dead ≡ d.dead + with_status TaskStatus.dead rs
  pub failed :
      d'.failed
      ≡ d.failed
        + with_status TaskStatus.failed rs
        + with_status TaskStatus.canceled rs
        + with_status TaskStatus.dead rs

Counts-cons :
    (r : Row Task) (rs : List (Row Task)) (k : TaskStatus) (d d' : Detail)
    → r.live.status ≡ k
    → Counts rs (count_status k d) d'
    → Counts (r ∷ rs) d d'
unfolding count_status
Counts-cons r rs TaskStatus.pending d d' e h = ground arith
Counts-cons r rs _ d d' e h = ground arith

count_children-Counts : (rs : List (Row Task)) (d : Detail) → Counts rs d (count_children rs d)
unfolding count_children
count_children-Counts [] d = ground arith
count_children-Counts (r ∷ rs) d =
    Counts-cons r rs r.live.status d _ refl
      (count_children-Counts rs (count_status r.live.status d))

-- how many rows of the table are children of a task, by their stored columns, and have a status
abbrev pub children_with : ℕ → TaskStatus → Session → ℕ
children_with id k s = count (λ r. is_child_of id r.stored && status_eq r.live.status k) s.tasks

with_status-child_tasks :
    (id : ℕ) (k : TaskStatus) (s : Session)
    → with_status k (child_tasks id s) ≡ children_with id k s
unfolding child_tasks
with_status-child_tasks id k s =
    count-order_by child_before (λ r. status_eq r.live.status k) (query (is_child_of id) s.tasks)
    ∙ count-select (λ r. is_child_of id r.stored) (λ r. status_eq r.live.status k) s.tasks

-- _build_child_summary against the table: the total is the number of children, each counter is the
-- number of children with its status, and `failed` counts the FAILED, CANCELED and DEAD ones.
pub record Summarises (id : ℕ) (s : Session) (c : Summary) : Type 0 where
  pub total : c.total ≡ count (λ r. is_child_of id r.stored) s.tasks
  pub succeeded : c.succeeded ≡ children_with id TaskStatus.succeeded s
  pub running : c.running ≡ children_with id TaskStatus.running s
  pub failed :
      c.failed
      ≡ children_with id TaskStatus.failed s
        + children_with id TaskStatus.canceled s
        + children_with id TaskStatus.dead s
  pub pending : c.detail.pending ≡ children_with id TaskStatus.pending s
  pub retry_wait : c.detail.retry_wait ≡ children_with id TaskStatus.retry_wait s
  pub canceled : c.detail.canceled ≡ children_with id TaskStatus.canceled s
  pub dead : c.detail.dead ≡ children_with id TaskStatus.dead s

length-child_tasks :
    (id : ℕ) (s : Session)
    → length (child_tasks id s) ≡ count (λ r. is_child_of id r.stored) s.tasks
unfolding child_tasks
length-child_tasks id s =
    length-order_by child_before (query (is_child_of id) s.tasks)
    ∙ length-select (λ r. is_child_of id r.stored) s.tasks

-- The summary that the loop of _build_child_summary computes counts the rows of the table.
pub build_child_summary-Summarises :
    (id : ℕ) (s : Session) → Summarises id s (build_child_summary id s)
unfolding build_child_summary
build_child_summary-Summarises id s =
    let c = count_children-Counts (child_tasks id s) no_children in
    let n = with_status-child_tasks id in
    record {
      total = length-child_tasks id s;
      succeeded = omega (arith, c.succeeded, n TaskStatus.succeeded s);
      running = omega (arith, c.running, n TaskStatus.running s);
      failed =
          omega
            (arith, c.failed, n TaskStatus.failed s, n TaskStatus.canceled s, n TaskStatus.dead s);
      pending = omega (arith, c.pending, n TaskStatus.pending s);
      retry_wait = omega (arith, c.retry_wait, n TaskStatus.retry_wait s);
      canceled = omega (arith, c.canceled, n TaskStatus.canceled s);
      dead = omega (arith, c.dead, n TaskStatus.dead s);
    }

-- a child has one status at most
statuses-le-length :
    (rs : List (Row Task))
    → with_status TaskStatus.succeeded rs
        + with_status TaskStatus.failed rs
        + with_status TaskStatus.canceled rs
        + with_status TaskStatus.dead rs
      ≤ length rs
statuses-le-length [] = omega arith
statuses-le-length (r ∷ rs) = ground (arith, statuses-le-length rs)

-- The children that a summary counts as succeeded or failed, by which the progress of the parent is
-- measured, are at most all of its children.
pub completed-le-total :
    (id : ℕ) (s : Session)
    → (build_child_summary id s).succeeded + (build_child_summary id s).failed
      ≤ (build_child_summary id s).total
unfolding build_child_summary
completed-le-total id s =
    let c = count_children-Counts (child_tasks id s) no_children in
    omega (arith, c.succeeded, c.failed, statuses-le-length (child_tasks id s))
