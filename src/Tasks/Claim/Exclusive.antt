-- ===== src/Tasks/Claim/Exclusive.antt =====
-- claim_tasks: no two workers are given one task.
use amsz_web.Tasks.Claim.Tickets.{chosen, claim_tasks-Claims}
use amsz_web.Tasks.Claim.Held.{ClaimsOrRaises}
use amsz_web.Tasks.Invariant.Claims.{claim_tasks-Sound}
use amsz_web.Table.Laws.{Distinct-get, Distinct, Distinct-flush, IsClean-flush, get-flush}
use amsz_web.Tasks.Claim.Selection.{All-candidates}
use amsz_web.Tasks.Invariant.{Sound, Ensures}
use amsz_web.Table.{get, IsClean}
use amsz_web.Base.{
  ◌≡◌, ◌∷◌, some, All, [], All-take, All-map, false, true, ap, sym, ◌∙◌, All-both, ◌==◌, Bool-cases,
  inr, inl, ==_iff, keep_if, String, arith, subst,
}
use amsz_web.Session.{ok, err, Result, ◌>>=◌, Session, Env, IsPercent, commit}
use amsz_web.Tasks.Claim.Held.{IsHeld, ClaimsOrRaises}
use amsz_web.Tasks.Claim.{
  ClaimArgs, claimed_row, claim_tasks, tickets, candidates, is_claimable, ℕ, Bool, List, Task, Row,
  ClaimedTask,
}

-- a claimed task is not claimable
claimed_row-is_claimable :
    (env env' : Env) (a : ClaimArgs) (queue_name : String) (t : Task)
    → is_claimable env' queue_name (claimed_row env a t) ≡ false
claimed_row-is_claimable env env' a queue_name t = ground arith

apart :
    (env env' : Env) (a b : ClaimArgs) (s : Session) (r q : Row Task)
    → IsHeld env a s r
    → get q.key s.tasks ≡ some q.live
    → is_claimable env' b.queue_name q.live ≡ true
    → (r.key == q.key) ≡ false
apart env env' a b s r q h g c = elim (Bool-cases (r.key == q.key)) [
  | inr miss ↦ miss
  | inl hit ↦
      let p = is_claimable env' b.queue_name in
      let no : keep_if p (get q.key s.tasks) ≡ false =
        ap (λ i. keep_if p (get i s.tasks)) (sym ((==_iff r.key q.key).0 hit))
        ∙ (ap (keep_if p) h ∙ claimed_row-is_claimable env env' a b.queue_name r.live) in
      let yes : keep_if p (get q.key s.tasks) ≡ true = ap (keep_if p) g ∙ c in cc (sym no ∙ yes)
]

-- the candidates of a session that has just begun are apart from the rows that are claimed in it
candidates-apart :
    (env env' : Env) (a b : ClaimArgs) (locked : ℕ → Bool) (s : Session) (r : Row Task)
    → Distinct s.tasks
    → IsClean s.tasks
    → IsHeld env a s r
    → All (λ q. (r.key == q.key) ≡ false) (candidates env' b locked s)
candidates-apart env env' a b locked s r d clean h =
    All-candidates env' b locked s (λ q. (r.key == q.key) ≡ false)
      (All-both (λ q. get q.key s.tasks ≡ some q.live) (λ q. q.stored ≡ q.live)
        (λ q. is_claimable env' b.queue_name q.stored ≡ true → (r.key == q.key) ≡ false) s.tasks
        (λ q g same c.
          apart env env' a b s r q h g (ap (is_claimable env' b.queue_name) (sym same) ∙ c))
        (Distinct-get s.tasks d) clean)

All-tickets :
    (P : ℕ → Type 0) (env : Env) (a : ClaimArgs) (rows : List (Row Task))
    → All (λ r. P r.key) rows
    → All (λ t. P t.id) (tickets env a rows)
unfolding tickets
All-tickets P env a [] h = tt
All-tickets P env a (r ∷ rows) h = (h.0, All-tickets P env a rows h.1)

gives :
    (ts us : List ClaimedTask) (s' : Session) (r : Result Session)
    → ◌>>=◌ {B = List ClaimedTask × Session} r (λ s1. ok (ts, s1)) ≡ ok (us, s')
    → ts ≡ us
gives ts us s' (ok s1) e = ground arith
gives ts us s' (err x) e = cc e

claim_tasks-tickets :
    (env : Env) (a : ClaimArgs) (locked : ℕ → Bool) (s s' : Session) (ts : List ClaimedTask)
    → claim_tasks env a locked s ≡ ok (ts, s')
    → tickets env a (chosen env a locked s) ≡ ts
unfolding claim_tasks
claim_tasks-tickets env a locked s s' ts e = gives _ ts s' _ e

-- No task is given to two workers: if one call returns tickets and is committed, then no ticket of
-- the next call, by any worker, at any time and on any queue, has the id of one of them. The session
-- of the first call satisfies the invariant.
pub claim_tasks_apart :
    (env env' : Env) (a b : ClaimArgs) (locked locked' : ℕ → Bool) (s s' s'' : Session)
    (ts us : List ClaimedTask)
    → IsPercent env.percent
    → Sound s
    → claim_tasks env a locked s ≡ ok (ts, s')
    → claim_tasks env' b locked' (commit s') ≡ ok (us, s'')
    → All (λ t. All (λ u. (t.id == u.id) ≡ false) us) ts
claim_tasks_apart env env' a b locked locked' s s' s'' ts us law h e f =
    let c = subst (ClaimsOrRaises env a locked s) e (claim_tasks-Claims env a locked s h) in
    let sound = subst (Ensures Sound) e (claim_tasks-Sound env law a locked s h) in
    rw c.given (
      All-tickets (λ k. All (λ u. (k == u.id) ≡ false) us) env a c.rows
        (All-map (IsHeld env a s') (λ r. All (λ u. (r.key == u.id) ≡ false) us) c.rows
          (λ r held. rw⁻¹ (claim_tasks-tickets env' b locked' (commit s') s'' us f) (
            All-tickets (λ k. (r.key == k) ≡ false) env' b (chosen env' b locked' (commit s'))
              (All-take (λ q. (r.key == q.key) ≡ false) b.batch_size _
                (candidates-apart env env' a b locked' (commit s') r
                  (Distinct-flush s'.tasks sound.distinct) (IsClean-flush s'.tasks)
                  (get-flush r.key s'.tasks ∙ held)))))
          c.held))
