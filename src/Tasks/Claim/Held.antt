-- ===== src/Tasks/Claim/Held.antt =====
-- claim_tasks: what the claimed rows are afterwards.
use amsz_web.Tasks.Claim.Selection.{eligible, Sorted}
use mathlib.Core.List.{Perm}
use amsz_web.Session.{ok, err, Result, ◌>>=◌, Error}
use amsz_web.Tasks.Family.Refresh.{refresh_parents, refresh_parent_state}
use amsz_web.Tasks.Family.Effects.{Parents, refresh_parent_state-Parents}
use amsz_web.Tasks.Invariant.Claims.{claim_one-Wrote}
use amsz_web.Tasks.Family.Summary.{is_parent}
use amsz_web.Base.{
  All, ◌≡◌, false, some, ◌∷◌, ◌∙◌, arith, ==_refl, refl, All-both, [], Bool-cases, ◌++◌, inl, ap,
  ==_iff, length, inr, min, ◌+◌, ◌*◌, suc,
}
use amsz_web.Table.Laws.{Distinct, get-modify}
use amsz_web.Table.{get}
use amsz_web.Tasks.Claim.{
  ClaimArgs, claim_one, claim_all, claimed_row, tickets, ℕ, refresh_parents, Env, Task, Row,
  Session, Bool, List, ClaimedTask, ◌==◌, Result, ok, TaskStatus,
}

-- the row is claimed, with the columns that it had before
abbrev pub IsHeld : Env → ClaimArgs → Session → Row Task → Type 0
IsHeld env a s r = get r.key s.tasks ≡ some (claimed_row env a r.live)

module _ (env : Env) (a : ClaimArgs) where
  -- a claim leaves the rows with other keys
  get-claim_one :
      (k : ℕ) (r : Row Task) (s : Session)
      → (r.key == k) ≡ false
      → get k (claim_one env a r s).tasks ≡ get k s.tasks
  get-claim_one k r s h =
      rw ((claim_one-Wrote env a r s).tasks, get-modify r.key k (claimed_row env a) s.tasks, h) refl

  get-claim_all :
      (k : ℕ) (rows : List (Row Task)) (s : Session)
      → All (λ r. (k == r.key) ≡ false) rows
      → get k (claim_all env a rows s).tasks ≡ get k s.tasks
  unfolding claim_all
  get-claim_all k [] s h = refl
  get-claim_all k (r ∷ rows) s h =
      get-claim_all k rows (claim_one env a r s) h.1 ∙ get-claim_one k r s (ground (arith, h.0))

  pub claim_all-IsHeld :
      (rows : List (Row Task)) (s : Session)
      → Distinct rows
      → All (λ r. get r.key s.tasks ≡ some r.live) rows
      → All (IsHeld env a (claim_all env a rows s)) rows
  unfolding claim_all
  claim_all-IsHeld [] s d h = tt
  claim_all-IsHeld (r ∷ rows) s d h = (
    get-claim_all r.key rows (claim_one env a r s) d.0
        ∙ (rw
            (
              (claim_one-Wrote env a r s).tasks,
              get-modify r.key r.key (claimed_row env a) s.tasks,
              h.0,
              ==_refl r.key,
            )
            refl),
    claim_all-IsHeld rows (claim_one env a r s) d.1 (
        All-both (λ q. (r.key == q.key) ≡ false) (λ q. get q.key s.tasks ≡ some q.live)
          (λ q. get q.key (claim_one env a r s).tasks ≡ some q.live) rows
          (λ q e g. get-claim_one q.key r s e ∙ g) d.0 h.1),
  )

-- refresh_parent_state leaves every row that is no parent
abbrev Refreshed : (k : ℕ) (t : Task) → Result (Task × Session) → Type 0
Refreshed k t (ok (u, s')) = get k s'.tasks ≡ some t
Refreshed k t (err e) = Unit

get-Parents :
    (k id : ℕ) (t : Task) (f : Task → Task) (s : Session) (r : Result (Task × Session))
    → get k s.tasks ≡ some t
    → is_parent t ≡ false
    → Parents id f s r
    → Refreshed k t r
get-Parents k id t f s (err e) g n h = tt
get-Parents k id t f s (ok (u, s')) g n (p, q, o, _, w) = elim (Bool-cases (id == k)) [
  | inl hit ↦ cc (rw (ap (λ i. get i s.tasks) ((==_iff id k).0 hit), g) at q)
  | inr miss ↦ rw (w.tasks, get-modify id k f s.tasks, miss) g
]

-- refresh_parents either returns, with every such row left, or raises for an id that is no parent's
abbrev pub Refreshes : (k : ℕ) (t : Task) → Result Session → Type 0
Refreshes k t (ok s') = get k s'.tasks ≡ some t
Refreshes k t (err e) = Unit

Refreshes-bind :
    (k : ℕ) (t : Task) (r : Result (Task × Session)) (rest : Session → Result Session)
    → Refreshed k t r
    → ((s : Session) → get k s.tasks ≡ some t → Refreshes k t (rest s))
    → Refreshes k t (r >>= λ (_, s). rest s)
Refreshes-bind k t (ok (u, s)) rest h go = go s h
Refreshes-bind k t (err e) rest h go = tt

pub get-refresh_parents :
    (env : Env) (k : ℕ) (t : Task) (ids : List ℕ) (s : Session)
    → get k s.tasks ≡ some t
    → is_parent t ≡ false
    → Refreshes k t (refresh_parents env ids s)
unfolding refresh_parents
get-refresh_parents env k t [] s g n = g
get-refresh_parents env k t (id ∷ ids) s g n =
    Refreshes-bind k t (refresh_parent_state env id s) (refresh_parents env ids)
      (get-Parents k id t _ s (refresh_parent_state env id s) g n
        (refresh_parent_state-Parents env id s))
      (λ s1 h. get-refresh_parents env k t ids s1 h n)

-- what the claim of a row means: the task is RUNNING, with the worker, its lease and one attempt more
abbrev pub IsOwnedBy : Env → ClaimArgs → Session → Row Task → Type 0
IsOwnedBy env a s r =
    (t : Task) × (get r.key s.tasks ≡ some t)
    × (t.status ≡ TaskStatus.running)
    × (t.lease_owner ≡ some a.worker_id)
    × (t.lease_until ≡ some (env.now + a.lease_seconds * 1000000))
    × (t.attempt_no ≡ suc r.live.attempt_no)

pub IsHeld-IsOwnedBy :
    (env : Env) (a : ClaimArgs) (s : Session) (r : Row Task)
    → IsHeld env a s r
    → IsOwnedBy env a s r
IsHeld-IsOwnedBy env a s r h = (claimed_row env a r.live, h, refl, refl, refl, refl)

-- the tickets are those of the first rows in the order, and their rows are claimed
pub record Claims (env : Env) (a : ClaimArgs) (locked : ℕ → Bool) (s : Session)
    (ts : List ClaimedTask) (s' : Session) : Type 0 where
  pub rows : List (Row Task)
  pub rest : List (Row Task)
  pub given : ts ≡ tickets env a rows
  pub all : Perm (rows ++ rest) (eligible env a locked s)
  pub in_order : Sorted (rows ++ rest)
  pub full : length rows ≡ min a.batch_size (length (eligible env a locked s))
  pub held : All (IsHeld env a s') rows
  pub owned : All (IsOwnedBy env a s') rows

-- what claim_tasks does: it gives tickets, or an id that a child row names is that of no parent task
abbrev pub ClaimsOrRaises :
    Env → ClaimArgs → (ℕ → Bool) → Session → Result (List ClaimedTask × Session) → Type 0
ClaimsOrRaises env a locked s (ok (ts, s')) = Claims env a locked s ts s'
ClaimsOrRaises env a locked s (err e) = (id : ℕ) × (e ≡ Error.not_parent id)
