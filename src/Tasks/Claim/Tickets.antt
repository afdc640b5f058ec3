-- ===== src/Tasks/Claim/Tickets.antt =====
-- claim_tasks: the tickets that it gives, and what becomes of their rows.
use amsz_web.Tasks.Invariant.Claims.{is_claimable-is_parent}
use amsz_web.Table.Order.{order_by-perm, InOrder-order_by, length-order_by}
use amsz_web.Table.Laws.{Distinct-get}
use amsz_web.Tasks.Claim.Selection.{
  All-candidates, Distinct-take, candidates-Distinct, eligible, claim_before_asym,
  claim_before_trans, InOrder-Sorted,
}
use amsz_web.Tasks.Family.Summary.{is_parent}
use amsz_web.Tasks.Invariant.{Sound, IsSoundRow}
use amsz_web.Table.{get}
use amsz_web.Tasks.Family.Effects.{Parents, refresh_parent_state-Parents}
use amsz_web.Base.{
  ◌≡◌, ◌∷◌, some, All, take, [], All-take, All-map, false, true, drop, ap, take-append-drop, sym,
  ◌∙◌, length-take, min, All-both, refl,
}
use amsz_web.Session.{ok, err, Result, ◌>>=◌, Session, Env, Error}
use amsz_web.Tasks.Family.Refresh.{refresh_parents, refresh_parent_state}
use amsz_web.Tasks.Claim.Held.{
  IsHeld, ClaimsOrRaises, get-refresh_parents, claim_all-IsHeld, Refreshes, IsOwnedBy,
  IsHeld-IsOwnedBy,
}
use amsz_web.Tasks.Claim.{
  ClaimArgs, claim_all, claimed_row, claim_tasks, tickets, noted_parents, candidates, is_claimable,
  ℕ, Bool, List, Task, Row, role_eq, TaskRole, claim_before,
}

abbrev RefreshesOrRaises : Result Session → Type 0
RefreshesOrRaises (ok s') = Unit
RefreshesOrRaises (err e) = (id : ℕ) × (e ≡ Error.not_parent id)

RefreshesOrRaises-bind :
    (id : ℕ) (f : Task → Task) (s : Session) (r : Result (Task × Session))
    (rest : Session → Result Session)
    → Parents id f s r
    → ((s : Session) → RefreshesOrRaises (rest s))
    → RefreshesOrRaises (r >>= λ (_, s). rest s)
RefreshesOrRaises-bind id f s (ok (u, s')) rest h go = go s'
RefreshesOrRaises-bind id f s (err e) rest h go = (id, h.0)

refresh_parents-raises :
    (env : Env) (ids : List ℕ) (s : Session) → RefreshesOrRaises (refresh_parents env ids s)
unfolding refresh_parents
refresh_parents-raises env [] s = tt
refresh_parents-raises env (id ∷ ids) s =
    RefreshesOrRaises-bind id _ s (refresh_parent_state env id s) (refresh_parents env ids)
      (refresh_parent_state-Parents env id s) (refresh_parents-raises env ids)

module _ (env : Env) (a : ClaimArgs) (locked : ℕ → Bool) (s : Session) where
  abbrev pub chosen : List (Row Task)
  chosen = take a.batch_size (candidates env a locked s)

  -- the first rows, and what refreshing the parents leaves of their claims
  claims :
      (r : Result Session)
      → RefreshesOrRaises r
      → ((k : ℕ) (t : Task)
          → get k (claim_all env a chosen s).tasks ≡ some t
          → is_parent t ≡ false
          → Refreshes k t r)
      → All (IsHeld env a (claim_all env a chosen s)) chosen
      → All (λ q. is_parent q.live ≡ false) chosen
      → ClaimsOrRaises env a locked s (r >>= λ s'. ok (tickets env a chosen, s'))
  claims (err e) x keep h n = x
  claims (ok s') x keep h n =
      let kept =
        All-both (λ q. is_parent q.live ≡ false) (IsHeld env a (claim_all env a chosen s))
          (IsHeld env a s') chosen (λ q p g. keep q.key (claimed_row env a q.live) g p) n h in
      record {
        rows = chosen;
        rest = drop a.batch_size (candidates env a locked s);
        given = refl;
        all =
            rw (take-append-drop a.batch_size (candidates env a locked s))
              (order_by-perm claim_before (eligible env a locked s));
        in_order = rw (take-append-drop a.batch_size (candidates env a locked s)) (
            InOrder-Sorted (candidates env a locked s) (
              InOrder-order_by claim_before claim_before_asym claim_before_trans
                (eligible env a locked s)));
        full =
            length-take a.batch_size (candidates env a locked s)
            ∙ ap (min a.batch_size) (length-order_by claim_before (eligible env a locked s));
        held = kept;
        owned =
            All-map (IsHeld env a s') (IsOwnedBy env a s') chosen (IsHeld-IsOwnedBy env a s') kept;
      }

  -- the rows of the SELECT are the rows of the table under their ids, and no parents
  chosen-get : Sound s → All (λ r. get r.key s.tasks ≡ some r.live) chosen
  chosen-get h =
      let at = λ (r : Row Task). get r.key s.tasks ≡ some r.live in
      All-take at a.batch_size _ (
        All-candidates env a locked s at (
          All-map at (λ r. is_claimable env a.queue_name r.stored ≡ true → at r) s.tasks
            (λ r g _. g) (Distinct-get s.tasks h.distinct)))

  chosen-is_parent : Sound s → All (λ r. is_parent r.live ≡ false) chosen
  chosen-is_parent h =
      let no = λ (r : Row Task). is_parent r.live ≡ false in
      All-take no a.batch_size _ (
        All-candidates env a locked s no (
          All-map IsSoundRow (λ r. is_claimable env a.queue_name r.stored ≡ true → no r) s.tasks
            (λ r q c.
              ap (λ x. role_eq x TaskRole.parent) (sym q.1)
              ∙ is_claimable-is_parent env a.queue_name r.stored c)
            h.rows))

-- claim_tasks in a session that satisfies the invariant: the rows that it may take, by their queue,
-- role, status, time and locks, are put in order of priority, then of scheduled_at, then of id; the
-- first batch_size of them, or all if there are fewer, are returned as tickets, and afterwards each
-- of them is RUNNING with the worker's name, lease and next attempt number. The only
-- error that it raises is the one that says of an id that it is no parent's.
pub claim_tasks-Claims :
    (env : Env) (a : ClaimArgs) (locked : ℕ → Bool) (s : Session)
    → Sound s
    → ClaimsOrRaises env a locked s (claim_tasks env a locked s)
unfolding claim_tasks
claim_tasks-Claims env a locked s h =
    claims env a locked s
      (refresh_parents env (noted_parents (chosen env a locked s) [])
        (claim_all env a (chosen env a locked s) s))
      (refresh_parents-raises env _ _) (λ k t g n. get-refresh_parents env k t _ _ g n)
      (claim_all-IsHeld env a (chosen env a locked s) s
        (Distinct-take a.batch_size _ (candidates-Distinct env a locked s h.distinct))
        (chosen-get env a locked s h))
      (chosen-is_parent env a locked s h)
