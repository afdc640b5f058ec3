-- ===== src/Szdm/Items.antt =====
-- szdm_repository.py: the methods that mark an item.
use amsz_web.Base.{String, ℕ, some}
use amsz_web.Table.Laws.{get-modify}
use amsz_web.Base.{
  Bool, true, false, if◌then◌else◌, ◌+◌, ◌≡◌, List, none, take_text, or_else, ◌∷◌, arith, [], refl,
  Option-cases, ==_refl, inl, ◌∙◌, inr,
}
use amsz_web.Szdm.{
  with_reuse_status, counted_job, is_broken, SzdmJob, SzdmItem, Board, refresh_job_counts,
  require_item, with_item_status, refreshed_job, require_job, refreshed_board,
}
use amsz_web.Domain.{Json}
use amsz_web.Table.{Row, get, modify}
use amsz_web.Session.{Env, Result, ok, err, ◌>>=◌}

abbrev pub running_item : Env → ℕ → SzdmItem → SzdmItem
running_item env attempt_no i = record i {
  status = "RUNNING";
  attempt_no = attempt_no;
  started_at = some (or_else i.started_at env.now);
}

-- the keyword arguments of mark_item_succeeded
pub record ItemResult : Type 0 where
  pub reuse_status : String
  pub result_s3_key : String
  pub result_timestamp : ℕ
  pub metrics : Json
  pub display_summary : Json

abbrev pub succeeded_item : Env → ItemResult → SzdmItem → SzdmItem
succeeded_item env r i = record i {
  status = "SUCCEEDED";
  reuse_status = r.reuse_status;
  result_s3_key = some r.result_s3_key;
  result_timestamp = some r.result_timestamp;
  metrics_json = some r.metrics;
  display_summary_json = some r.display_summary;
  error_code = none;
  error_message = none;
  finished_at = some env.now;
}

abbrev pub failed_item : Env → String → String → SzdmItem → SzdmItem
failed_item env error_code error_message i = record i {
  status = "FAILED";
  error_code = some error_code;
  error_message = some (take_text 512 error_message);
  finished_at = some env.now;
}

-- the form of the three methods: the item is there, its columns are written, and the counts of its
-- job are refreshed, without a flush
abbrev pub mark_item : Env → (SzdmItem → SzdmItem) → ℕ → Board → Result (SzdmItem × Board)
mark_item env f id p = require_item id p >>= λ i.
    refresh_job_counts env i.job_id (record p { items = modify id f p.items }) >>= λ p1.
    ok (f i, p1)

unfoldable pub mark_item_running : Env → ℕ → ℕ → Board → Result (SzdmItem × Board)
mark_item_running env id attempt_no p = mark_item env (running_item env attempt_no) id p

unfoldable pub mark_item_succeeded : Env → ℕ → ItemResult → Board → Result (SzdmItem × Board)
mark_item_succeeded env id r p = mark_item env (succeeded_item env r) id p

unfoldable pub mark_item_failed : Env → ℕ → String → String → Board → Result (SzdmItem × Board)
mark_item_failed env id error_code error_message p =
    mark_item env (failed_item env error_code error_message) id p

-- what the database has is not changed
with_item_status-modify :
    (job_id k : ℕ) (status : String) (f : SzdmItem → SzdmItem) (rs : List (Row SzdmItem))
    → with_item_status job_id status (modify k f rs) ≡ with_item_status job_id status rs
with_item_status-modify job_id k status f [] = refl
with_item_status-modify job_id k status f (r ∷ rs) =
    ground (arith, with_item_status-modify job_id k status f rs)

with_reuse_status-modify :
    (job_id k : ℕ) (status : String) (f : SzdmItem → SzdmItem) (rs : List (Row SzdmItem))
    → with_reuse_status job_id status (modify k f rs) ≡ with_reuse_status job_id status rs
with_reuse_status-modify job_id k status f [] = refl
with_reuse_status-modify job_id k status f (r ∷ rs) =
    ground (arith, with_reuse_status-modify job_id k status f rs)

-- the six counters of a job, for the items of a table
pub record Counts (id : ℕ) (items : List (Row SzdmItem)) (j : SzdmJob) : Type 0 where
  pub dispatched :
      j.dispatched_count
      ≡ with_item_status id "DISPATCHED" items
        + with_item_status id "RUNNING" items
        + with_item_status id "SUCCEEDED" items
        + with_item_status id "FAILED" items
  pub running :
      j.running_count ≡ with_item_status id "DISPATCHED" items + with_item_status id "RUNNING" items
  pub succeeded : j.succeeded_count ≡ with_item_status id "SUCCEEDED" items
  pub failed : j.failed_count ≡ with_item_status id "FAILED" items
  pub reused : j.reused_count ≡ with_reuse_status id "REUSED" items
  pub generated : j.generated_count ≡ with_reuse_status id "GENERATED" items

-- the counters of the job are those of the items that the database had before the call
abbrev pub CountsBefore : Board → Result (SzdmItem × Board) → Type 0
CountsBefore p (ok (i, p')) =
    (j : SzdmJob) × (get i.job_id p'.jobs ≡ some j) × Counts i.job_id p.items j
CountsBefore p (err e) = Unit

counted_job-Counts :
    (id k : ℕ) (f : SzdmItem → SzdmItem) (items : List (Row SzdmItem)) (j : SzdmJob)
    → Counts id items (counted_job id (modify k f items) j)
counted_job-Counts id k f items j =
    let dispatched = with_item_status-modify id k "DISPATCHED" f items in
    let running = with_item_status-modify id k "RUNNING" f items in
    let succeeded = with_item_status-modify id k "SUCCEEDED" f items in
    let failed = with_item_status-modify id k "FAILED" f items in
    record {
      dispatched = rw (dispatched, running, succeeded, failed) refl;
      running = rw (dispatched, running) (omega arith);
      succeeded = succeeded;
      failed = failed;
      reused = with_reuse_status-modify id k "REUSED" f items;
      generated = with_reuse_status-modify id k "GENERATED" f items;
    }

-- a job that is made FAILED keeps its counters
failed-Counts :
    (id : ℕ) (items : List (Row SzdmItem)) (c : SzdmJob) (b : Bool)
    → Counts id items c
    → Counts id items (if b then record c { status = "FAILED" } else c)
failed-Counts id items c false h = h
failed-Counts id items c true h = record {
  dispatched = h.dispatched;
  running = h.running;
  succeeded = h.succeeded;
  failed = h.failed;
  reused = h.reused;
  generated = h.generated;
}

pub require_job-get :
    (id : ℕ) (p : Board) (j : SzdmJob) → require_job id p ≡ ok j → get id p.jobs ≡ some j
require_job-get id p j h = elim (Option-cases (get id p.jobs)) [
  | inl e ↦ cc (rw (require_job, e) at h)
  | inr (q, e) ↦ e ∙ cc (rw (require_job, e) at h)
]

module _ (env : Env) (f : SzdmItem → SzdmItem) (same : (i : SzdmItem) → (f i).job_id ≡ i.job_id)
    (id : ℕ) (p : Board) where
  abbrev marked : Board
  marked = record p { items = modify id f p.items }

  after_job :
      (i : SzdmItem) (x : Result SzdmJob)
      → ((j : SzdmJob) → x ≡ ok j → get i.job_id p.jobs ≡ some j)
      → CountsBefore p
          ((x >>= λ j. ok (refreshed_board env i.job_id marked j)) >>= λ p1. ok (f i, p1))
  after_job i (err e) there = tt
  after_job i (ok j) there =
      let c = counted_job i.job_id marked.items j in
      (
        refreshed_job i.job_id marked.items j,
        rw
            (
              same i,
              get-modify i.job_id i.job_id (refreshed_job i.job_id marked.items) p.jobs,
              there j refl,
              ==_refl i.job_id,
            )
            refl,
        rw (same i) (
            failed-Counts i.job_id p.items c (is_broken c)
              (counted_job-Counts i.job_id id f p.items j)),
      )

  counts_before :
      (x : Result SzdmItem)
      → CountsBefore p (x >>= λ i. refresh_job_counts env i.job_id marked >>= λ p1. ok (f i, p1))
  unfolding refresh_job_counts
  counts_before (err e) = tt
  counts_before (ok i) =
      after_job i (require_job i.job_id marked) (λ j. require_job-get i.job_id marked j)

-- The six counters that mark_item_running, mark_item_succeeded and mark_item_failed write to the job,
-- where they do not raise, are those of the items as the database has them before the call: the
-- session does not flush by itself, so the status that the call gives to its item is not counted.
pub mark_item-CountsBefore :
    (env : Env) (id attempt_no : ℕ) (r : ItemResult) (code message : String) (p : Board)
    → CountsBefore p (mark_item_running env id attempt_no p)
      × CountsBefore p (mark_item_succeeded env id r p)
      × CountsBefore p (mark_item_failed env id code message p)
unfolding mark_item_running mark_item_succeeded mark_item_failed
mark_item-CountsBefore env id attempt_no r code message p = (
  counts_before env (running_item env attempt_no) (λ i. refl) id p (require_item id p),
  counts_before env (succeeded_item env r) (λ i. refl) id p (require_item id p),
  counts_before env (failed_item env code message) (λ i. refl) id p (require_item id p),
)
