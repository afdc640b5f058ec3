-- ===== src/Tasks/Invariant/Families.antt =====
-- The methods on a parent and its children keep the invariant.
use amsz_web.Tasks.Invariant.Marks.{Wrote-Sound}
use amsz_web.Tasks.Family.Counts.{completed-le-total}
use amsz_web.Tasks.Effects.{Guarded}
use amsz_web.Tasks.Family.Effects.{
  mark_parent_succeeded-Parents, mark_parent_failed-Parents, transition_parent_to_running-Parents,
  refresh_parent_state-Parents,
}
use amsz_web.Tasks.Family.Aggregate.{mark_parent_failed, mark_parent_succeeded}
use amsz_web.Domain.{Json}
use amsz_web.Tasks.Family.Summary.{Summary, build_child_summary, is_parent}
use amsz_web.Tasks.Invariant.{Sound, Ensures, IsSound}
use amsz_web.Tasks.Family.Refresh.{
  refreshed, transition_parent_to_running, refresh_parent_state, dispatched_row,
}
use amsz_web.Session.{Env, IsPercent, Error, Session, Result, ok, err}
use amsz_web.Models.{Task}
use amsz_web.Base.{ℕ, Bool, String, Option, ◌+◌, ◌≡◌, true, arith, ◌≤◌, refl}

pub Guarded-Sound :
    (test : Task → Bool) (e : Error) (f : Task → Task) (id : ℕ) (s : Session)
    (r : Result (Task × Session))
    → ((t : Task) → test t ≡ true → IsSound t → IsSound (f t))
    → ((t : Task) → (f t).task_role ≡ t.task_role)
    → Guarded test e f id s r
    → Sound s
    → Ensures Sound r
Guarded-Sound test e f id s (ok (t', s')) step same (t, g, o, _, w) h =
    Wrote-Sound id f s s' (λ u k. step u (cc)) same w h
Guarded-Sound test e f id s (err x) step same _ h = tt

module _ (env : Env) (law : IsPercent env.percent) where
  refreshed-IsSound :
      (c : Summary) (t : Task)
      → c.succeeded + c.failed ≤ c.total
      → is_parent t ≡ true
      → IsSound t
      → IsSound (refreshed env c t)
  unfolding refreshed
  refreshed-IsSound c t le p h = ground (arith, law.part (c.succeeded + c.failed) c.total)

  refreshed-role : (c : Summary) (t : Task) → (refreshed env c t).task_role ≡ t.task_role
  unfolding refreshed
  refreshed-role c t = ground arith

  pub refresh_parent_state-Sound :
      (id : ℕ) (s : Session) → Sound s → Ensures Sound (refresh_parent_state env id s)
  refresh_parent_state-Sound id s =
      let c = build_child_summary id s in
      Guarded-Sound is_parent _ (refreshed env c) id s _
        (λ t. refreshed-IsSound c t (completed-le-total id s)) (refreshed-role c)
        (refresh_parent_state-Parents env id s)

  pub transition_parent_to_running-Sound :
      (id total : ℕ) (s : Session)
      → Sound s
      → Ensures Sound (transition_parent_to_running env id total s)
  transition_parent_to_running-Sound id total s =
      Guarded-Sound is_parent _ (dispatched_row total) id s _ (λ t p h. ground arith) (λ t. refl)
        (transition_parent_to_running-Parents env id total s)

  pub mark_parent_succeeded-Sound :
      (id : ℕ) (result : Option Json) (s : Session)
      → Sound s
      → Ensures Sound (mark_parent_succeeded env id result s)
  mark_parent_succeeded-Sound id result s =
      Guarded-Sound is_parent _ _ id s _ (λ t p h. ground arith) (λ t. refl)
        (mark_parent_succeeded-Parents env id result s)

  pub mark_parent_failed-Sound :
      (id : ℕ) (code message : String) (s : Session)
      → Sound s
      → Ensures Sound (mark_parent_failed env id code message s)
  mark_parent_failed-Sound id code message s =
      Guarded-Sound is_parent _ _ id s _ (λ t p h. ground arith) (λ t. refl)
        (mark_parent_failed-Parents env id code message s)
