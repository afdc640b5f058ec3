-- ===== src/Szdm/Handlers/Ended.antt =====
-- workers/modules/szdm.py: no item stays RUNNING after its handler.
use amsz_web.Szdm.Items.{ItemResult}
use amsz_web.Szdm.Items.{
  mark_item_running, mark_item_failed, mark_item_succeeded, running_item, failed_item,
  succeeded_item,
}
use amsz_web.Table.{get, modify}
use amsz_web.Szdm.Creation.{flush_board}
use amsz_web.Table.Laws.{get-flush, get-modify}
use amsz_web.Szdm.Items.{mark_item}
use amsz_web.Base.{
  ℕ, ◌≡◌, some, refl, or_else, take_text, ◌∙◌, ==_refl, Option, String, subst, none, sym,
}
use amsz_web.Session.{Env, Result, ok, err, ◌>>=◌}
use amsz_web.Szdm.{
  SzdmJob, SzdmItem, Board, refresh_job_counts, refreshed_board, require_item, require_job,
  refreshed_job,
}
use amsz_web.Szdm.Handlers.{
  HandlerEnv, SubResult, then_do, szdm_sub_handler, generate, execute_szdm_sub, end_board,
  generated_result, reuse, start_item, found_or_new, reused_result, find_reusable, stored_result,
  or_item_failed, required_job, failed_mark,
}

-- the item with an id, and its job, are there
abbrev pub HasItem : ℕ → SzdmItem → Board → Type 0
HasItem id i p = (get id p.items ≡ some i) × (j : SzdmJob) × (get i.job_id p.jobs ≡ some j)

abbrev pub Ready : ℕ → Board → Type 0
Ready id p = (i : SzdmItem) × HasItem id i p

flush_board-HasItem :
    (id : ℕ) (i : SzdmItem) (p : Board) → HasItem id i p → HasItem id i (flush_board p)
flush_board-HasItem id i p (e, j, g) = (get-flush id p.items ∙ e, j, get-flush i.job_id p.jobs ∙ g)

-- what a mark does, where the item and its job are there
module _ (env : Env) (f : SzdmItem → SzdmItem) (same : (i : SzdmItem) → (f i).job_id ≡ i.job_id)
    (id : ℕ) where
  pub record Marks (i : SzdmItem) (p : Board) : Type 0 where
    pub board : Board
    pub marks : mark_item env f id p ≡ ok (f i, board)
    pub there : HasItem id (f i) board

  mark_item-Marks : (i : SzdmItem) (p : Board) → HasItem id i p → Marks i p
  unfolding refresh_job_counts
  mark_item-Marks i p (e, j, g) =
      let marked = record p { items = modify id f p.items } in
      record {
        board = refreshed_board env i.job_id marked j;
        marks = rw (mark_item, require_item, e, refresh_job_counts, require_job, g) refl;
        there = (
          rw (get-modify id id f p.items, ==_refl id, e) refl,
          refreshed_job i.job_id marked.items j,
          rw
              (
                same i,
                get-modify i.job_id i.job_id (refreshed_job i.job_id marked.items) p.jobs,
                ==_refl i.job_id,
                g,
              )
              refl,
        );
      }

-- the item's status after the handler: that of its result
abbrev pub ItemEnded : HandlerEnv → ℕ → Result SubResult × Board → Type 0
ItemEnded h id (ok r, p) =
    (i : SzdmItem) × HasItem id i p
    × (i.status ≡ "SUCCEEDED")
    × (i.reuse_status ≡ r.reuse_status)
    × (i.result_s3_key ≡ some r.result_s3_key)
ItemEnded h id (err e, p) =
    (i : SzdmItem) × HasItem id i p
    × (i.status ≡ "FAILED")
    × (i.error_code ≡ some (or_else (h.error_code e) "SZDM_SUB_FAILED"))
    × (i.error_message ≡ some (take_text 512 (h.message e)))

-- the body: the item has SUCCEEDED, or it is there
abbrev Worked : HandlerEnv → ℕ → Result SubResult × Board → Type 0
Worked h id (ok r, p) = ItemEnded h id (ok r, p)
Worked h id (err e, p) = Ready id p

then_do-Worked {ℓ} :
    {A : Type ℓ} (h : HandlerEnv) (id : ℕ) (x : Result A × Board)
    (k : A → Board → Result SubResult × Board)
    → Ready id x.1
    → ((a : A) (p : Board) → Ready id p → Worked h id (k a p))
    → Worked h id (then_do x k)
then_do-Worked h id (ok a, p) k r f = f a p r
then_do-Worked h id (err e, p) k r f = r

module _ (h : HandlerEnv) (id : ℕ) where
  required-Ready :
      {B : Type 0} (db p : Board) (i : SzdmItem) (x : Result SzdmJob) (k : SzdmJob → B)
      → Ready id db
      → HasItem id i p
      → Ready id ((end_board db (x >>= λ j. ok (k j, p))).1)
  required-Ready db p i (ok j) k r q = (i, flush_board-HasItem id i p q)
  required-Ready db p i (err e) k r q = r

  start_item-Ready :
      (job_id : ℕ) (db : Board)
      → Ready id db
      → Ready id ((end_board db (start_item h job_id id db)).1)
  unfolding mark_item_running
  start_item-Ready job_id db (i, q) =
      let f = running_item (h.env 0) h.attempt_no in
      let m = mark_item-Marks (h.env 0) f (λ x. refl) id i db q in
      rw (start_item, mark_item_running, m.marks)
        (required-Ready db m.board (f i) (required_job job_id m.board) (λ j. (f i, j)) (i, q)
          m.there)

  -- the transaction that stores a result
  stored_result-ends :
      (r : ItemResult) (p : Board)
      → Ready id p
      → (q : Board) × (s : SubResult) × (end_board p (stored_result h id r p) ≡ (ok s, q))
        × ItemEnded h id (ok s, q)
  unfolding mark_item_succeeded
  stored_result-ends r p (i, there) =
      let f = succeeded_item (h.env 3) r in
      let m = mark_item-Marks (h.env 3) f (λ x. refl) id i p there in
      (
        flush_board m.board,
        record { reuse_status = r.reuse_status; result_s3_key = r.result_s3_key },
        rw (stored_result, mark_item_succeeded, m.marks) refl,
        (f i, flush_board-HasItem id (f i) m.board m.there, refl, refl, refl),
      )

  reuse-Worked : (key : String) (db : Board) → Ready id db → Worked h id (reuse h id key db)
  reuse-Worked key db r =
      then_do-Worked h id (reused_result h key, db) (λ x p. end_board p (stored_result h id x p)) r
        (λ x p q. let e = stored_result-ends x p q in subst (Worked h id) (sym e.2) e.3)

  reported-Worked :
      (s : SubResult) (q : Board) (x : Result (Unit {0}))
      → ItemEnded h id (ok s, q)
      → Worked h id (then_do (x, q) (λ u o. (ok s, o)))
  reported-Worked s q (ok u) e = e
  reported-Worked s q (err x) e = (e.0, e.1)

  generate-Worked : (i : SzdmItem) (db : Board) → Ready id db → Worked h id (generate h id i db)
  generate-Worked i db r =
      then_do-Worked h id (generated_result h id i, db) _ r
        (λ x p q.
          let e = stored_result-ends x p q in
          subst
            (λ y.
              Worked h id
                (then_do y λ s o. then_do (h.progress 100 "completed", o) λ u n. (ok s, n)))
            (sym e.2) (reported-Worked e.1 e.0 (h.progress 100 "completed") e.3))

  found_or_new-Worked :
      (i : SzdmItem) (key : Option String) (db : Board)
      → Ready id db
      → Worked h id (found_or_new h id i key db)
  found_or_new-Worked i (some key) db r = reuse-Worked key db r
  found_or_new-Worked i none db r = generate-Worked i db r

  execute_szdm_sub-Worked :
      (job_id : ℕ) (db : Board) → Ready id db → Worked h id (execute_szdm_sub h job_id id db)
  unfolding execute_szdm_sub
  execute_szdm_sub-Worked job_id db r =
      then_do-Worked h id (end_board db (start_item h job_id id db)) _
        (start_item-Ready job_id db r)
        (λ x p q.
          then_do-Worked h id (h.canceled, p) _ q
            (λ u o w.
              then_do-Worked h id (find_reusable h (h.env 1).now x.0 x.1.reuse_window_seconds, o) _
                w (λ key n v. found_or_new-Worked x.0 key n v)))

  or_item_failed-ends :
      (x : Result SubResult × Board) → Worked h id x → ItemEnded h id (or_item_failed h id x)
  unfolding mark_item_failed
  or_item_failed-ends (ok r, p) w = w
  or_item_failed-ends (err e, p) (i, there) =
      let code = or_else (h.error_code e) "SZDM_SUB_FAILED" in
      let f = failed_item (h.env 4) code (h.message e) in
      let m = mark_item-Marks (h.env 4) f (λ x. refl) id i p there in
      rw (failed_mark, mark_item_failed, m.marks)
        (f i, flush_board-HasItem id (f i) m.board m.there, refl, refl, refl)

-- Where an item and its job are there, the item is not RUNNING when its handler ends: it has SUCCEEDED
-- with the key and the reuse status that are returned, or the exception is raised again and the item
-- has FAILED with the exception's code and the first 512 characters of its message. This holds wherever
-- the exception comes from: a cancellation, the bucket, the progress callback, or a job that is not the
-- item's.
pub szdm_sub_handler-ItemEnded :
    (h : HandlerEnv) (job_id item_id : ℕ) (i : SzdmItem) (j : SzdmJob) (db : Board)
    → get item_id db.items ≡ some i
    → get i.job_id db.jobs ≡ some j
    → ItemEnded h item_id (szdm_sub_handler h job_id item_id db)
unfolding szdm_sub_handler
szdm_sub_handler-ItemEnded h job_id item_id i j db e g =
    or_item_failed-ends h item_id (execute_szdm_sub h job_id item_id db)
      (execute_szdm_sub-Worked h item_id job_id db (i, (e, j, g)))
