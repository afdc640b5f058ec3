-- ===== src/Tasks/Invariant/Claims.antt =====
-- claim_tasks and recover_expired_running_tasks keep the invariant.
use amsz_web.Tasks.Claim.Selection.{All-candidates}
use amsz_web.Tasks.Recover.{
  recover_all, recover_expired_running_tasks, recover_one, recovered_row, expired_rows,
}
use amsz_web.Tasks.Invariant.Families.{refresh_parent_state-Sound}
use amsz_web.Tasks.Invariant.Marks.{Wrote-Sound}
use amsz_web.Table.Laws.{get-modify, Distinct-get}
use amsz_web.Tasks.Invariant.{
  IsSound, Sound, Ensures, Holds, role_eq, TaskRole, IsSoundRow, Holds-bind, Ensures-after,
}
use amsz_web.Tasks.Family.Summary.{is_parent}
use amsz_web.Tasks.Effects.{Wrote, Wrote-add_event}
use amsz_web.Table.{get, Row}
use amsz_web.Tasks.Family.Refresh.{refresh_parents, refresh_parent_state}
use amsz_web.Models.{Task}
use amsz_web.Tasks.Claim.{
  claim_one, claim_all, ClaimArgs, claimed_row, claim_tasks, candidates, noted_parents,
  is_claimable,
}
use mathlib.Core.Option
use amsz_web.Base.{
  ℕ, true, false, refl, some, none, [], ◌∷◌, arith, ◌≡◌, List, All, All-map, keep_if, Bool, Option,
  take, ap, All-take, All-both, ◌∙◌, String, sym,
}
use amsz_web.Session.{Env, Session, IsPercent}

-- the row of an id is no parent
abbrev pub NoParentAt : Session → ℕ → Type 0
NoParentAt s k = keep_if is_parent (get k s.tasks) ≡ false

keep_if-map :
    (f : Task → Task) (o : Option Task)
    → ((t : Task) → (f t).task_role ≡ t.task_role)
    → keep_if is_parent o ≡ false
    → keep_if is_parent (Option.map f o) ≡ false
keep_if-map f none same h = refl
keep_if-map f (some t) same h = ap (λ x. role_eq x TaskRole.parent) (same t) ∙ h

NoParentAt-Wrote :
    (id k : ℕ) (f : Task → Task) (s s' : Session)
    → ((t : Task) → (f t).task_role ≡ t.task_role)
    → Wrote id f s s'
    → NoParentAt s k
    → NoParentAt s' k
NoParentAt-Wrote id k f s s' same w h =
    ground (arith, w.tasks, get-modify id k f s.tasks, keep_if-map f (get k s.tasks) same h)

pub claim_one-Wrote :
    (env : Env) (a : ClaimArgs) (r : Row Task) (s : Session)
    → Wrote r.key (claimed_row env a) s (claim_one env a r s)
unfolding claim_one
claim_one-Wrote env a r s =
    Wrote-add_event (record { tasks = refl; next = refl }) env r.key "CLAIMED" _ _ _ _

recover_one-Wrote :
    (env : Env) (r : Row Task) (s : Session) → Wrote r.key recovered_row s (recover_one env r s)
unfolding recover_one
recover_one-Wrote env r s =
    Wrote-add_event (record { tasks = refl; next = refl }) env r.key "LEASE_EXPIRED" _ _ _ _

claimed_row-IsSound :
    (env : Env) (a : ClaimArgs) (t : Task)
    → is_parent t ≡ false
    → IsSound t
    → IsSound (claimed_row env a t)
claimed_row-IsSound env a t p h = ground arith

claim_all-Sound :
    (env : Env) (a : ClaimArgs) (rows : List (Row Task)) (s : Session)
    → All (λ r. NoParentAt s r.key) rows
    → Sound s
    → Sound (claim_all env a rows s)
unfolding claim_all
claim_all-Sound env a [] s p h = h
claim_all-Sound env a (r ∷ rows) s p h =
    let w = claim_one-Wrote env a r s in
    claim_all-Sound env a rows (claim_one env a r s)
      (All-map (λ q. NoParentAt s q.key) (λ q. NoParentAt (claim_one env a r s) q.key) rows
        (λ q. NoParentAt-Wrote r.key q.key (claimed_row env a) s _ (λ t. refl) w) p.1)
      (Wrote-Sound r.key (claimed_row env a) s _
        (λ t e. claimed_row-IsSound env a t (cc (rw e at p.0))) (λ t. refl) w h)

pub is_claimable-is_parent :
    (env : Env) (queue : String) (t : Task) → is_claimable env queue t ≡ true → is_parent t ≡ false
is_claimable-is_parent env queue t h = ground arith

claimable-NoParentAt :
    (env : Env) (queue : String) (s : Session) (r : Row Task)
    → get r.key s.tasks ≡ some r.live
    → IsSoundRow r
    → is_claimable env queue r.stored ≡ true
    → NoParentAt s r.key
claimable-NoParentAt env queue s r e q c =
    rw e
      (ap (λ x. role_eq x TaskRole.parent) (sym q.1) ∙ is_claimable-is_parent env queue r.stored c)

candidates-NoParentAt :
    (env : Env) (a : ClaimArgs) (locked : ℕ → Bool) (s : Session)
    → Sound s
    → All (λ r. NoParentAt s r.key) (candidates env a locked s)
candidates-NoParentAt env a locked s h =
    let at = λ (r : Row Task). NoParentAt s r.key in
    let each =
      All-both (λ r. get r.key s.tasks ≡ some r.live) IsSoundRow
        (λ r. is_claimable env a.queue_name r.stored ≡ true → at r) s.tasks
        (λ r. claimable-NoParentAt env a.queue_name s r) (Distinct-get s.tasks h.distinct) h.rows in
    All-candidates env a locked s at each

module _ (env : Env) (law : IsPercent env.percent) where
  pub refresh_parents-Sound :
      (ids : List ℕ) (s : Session) → Sound s → Holds Sound (refresh_parents env ids s)
  unfolding refresh_parents
  refresh_parents-Sound [] s h = h
  refresh_parents-Sound (id ∷ ids) s h =
      Holds-bind Sound Sound (refresh_parent_state env id s) (λ _ s'. refresh_parents env ids s')
        (refresh_parent_state-Sound env law id s h) (λ _ s'. refresh_parents-Sound ids s')

  pub claim_tasks-Sound :
      (a : ClaimArgs) (locked : ℕ → Bool) (s : Session)
      → Sound s
      → Ensures Sound (claim_tasks env a locked s)
  unfolding claim_tasks
  claim_tasks-Sound a locked s h =
      let rows = take a.batch_size (candidates env a locked s) in
      Ensures-after Sound Sound _ _
        (refresh_parents-Sound (noted_parents rows []) (claim_all env a rows s) (
          claim_all-Sound env a rows s
            (All-take (λ r. NoParentAt s r.key) a.batch_size (candidates env a locked s)
              (candidates-NoParentAt env a locked s h))
            h))
        (λ s' k. k)

  recover_all-Sound :
      (rows : List (Row Task)) (s : Session) → Sound s → Sound (recover_all env rows s)
  unfolding recover_all
  recover_all-Sound [] s h = h
  recover_all-Sound (r ∷ rows) s h = recover_all-Sound rows (recover_one env r s) (
      Wrote-Sound r.key recovered_row s _ (λ t e k. ground arith) (λ t. refl)
        (recover_one-Wrote env r s) h)

  pub recover_expired_running_tasks-Sound :
      (pick : List (Row Task) → List (Row Task)) (locked : ℕ → Bool) (limit : ℕ) (s : Session)
      → Sound s
      → Ensures Sound (recover_expired_running_tasks env pick locked limit s)
  unfolding recover_expired_running_tasks
  recover_expired_running_tasks-Sound pick locked limit s h =
      let rows = take limit (pick (expired_rows env locked s)) in
      Ensures-after Sound Sound _ _
        (refresh_parents-Sound (noted_parents rows []) (recover_all env rows s)
          (recover_all-Sound rows s h))
        (λ s' k. k)
