-- ===== src/Tasks/Invariant/Marks.antt =====
-- The methods of Finish and Control keep the invariant.
use amsz_web.Base.{
  ℕ, String, Bool, true, Option, none, some, ◌≡◌, refl, arith, inl, inr, subst, sym,
}
use amsz_web.Models.{Task}
use amsz_web.Table.{get}
use amsz_web.Session.{Env, Session, Result, ok, err}
use amsz_web.Tasks.Effects.{Wrote}
use amsz_web.Tasks.Finish.Ownership.{
  Ending, succeeds, end_attempt, ended_row, Ends, end_attempt-Ends,
}
use amsz_web.Tasks.Control.{ℤ, request_cancel, retry_task, renew_lease, update_progress}
use amsz_web.Tasks.Control.Effects.{
  Cancels, request_cancel-Cancels, WritesIf, retry_task-WritesIf, renew_lease-WritesIf,
  update_progress-WritesIf, clamp_progress-le,
}
use amsz_web.Tasks.Invariant.{IsSound, Sound, Ensures, Sound-set_task, Sound-same}

pub Wrote-Sound :
    (k : ℕ) (f : Task → Task) (s s' : Session)
    → ((t : Task) → get k s.tasks ≡ some t → IsSound t → IsSound (f t))
    → ((t : Task) → (f t).task_role ≡ t.task_role)
    → Wrote k f s s'
    → Sound s
    → Sound s'
Wrote-Sound k f s s' step same w h =
    Sound-same _ s' w.tasks w.next (Sound-set_task k f s step same h)

ended_row-IsSound :
    (ending : Ending) (env : Env) (t : Task) → IsSound t → IsSound (ended_row ending env t)
ended_row-IsSound (succeeds result) env t h = ground arith
ended_row-IsSound _ env t h = ground arith

ended_row-role :
    (ending : Ending) (env : Env) (t : Task) → (ended_row ending env t).task_role ≡ t.task_role
ended_row-role (succeeds result) env t = refl
ended_row-role _ env t = refl

Ends-Sound :
    (id : ℕ) (worker : String) (ending : Ending) (env : Env) (s : Session)
    (r : Result (Task × Session))
    → Ends id worker (ended_row ending env) s r
    → Sound s
    → Ensures Sound r
Ends-Sound id worker ending env s (ok (t', s')) (t, _, _, _, w) h =
    Wrote-Sound id _ s s' (λ u _. ended_row-IsSound ending env u) (ended_row-role ending env) w h
Ends-Sound id worker ending env s (err x) e h = tt

pub end_attempt-Sound :
    (ending : Ending) (env : Env) (id attempt : ℕ) (worker : String) (s : Session)
    → Sound s
    → Ensures Sound (end_attempt ending env id attempt worker s)
end_attempt-Sound ending env id attempt worker s =
    Ends-Sound id worker ending env s _ (end_attempt-Ends ending env id attempt worker s)

WritesIf-Sound :
    (test : Task → Bool) (f : Task → Task) (id : ℕ) (s s' : Session) (found : Option Task)
    → ((t : Task) → test t ≡ true → IsSound t → IsSound (f t))
    → ((t : Task) → (f t).task_role ≡ t.task_role)
    → get id s.tasks ≡ found
    → WritesIf test f id s found s'
    → Sound s
    → Sound s'
WritesIf-Sound test f id s s' none step same e w h = subst Sound (sym w) h
WritesIf-Sound test f id s s' (some t) step same e (inl (p, w)) h =
    Wrote-Sound id f s s' (λ u g. step u (cc)) same w h
WritesIf-Sound test f id s s' (some t) step same e (inr (_, w)) h = subst Sound (sym w) h

pub retry_task-Sound : (env : Env) (id : ℕ) (s : Session) → Sound s → Sound (retry_task env id s).1
retry_task-Sound env id s =
    WritesIf-Sound _ _ id s _ _ (λ t _ h. ground arith) (λ t. refl) refl
      (retry_task-WritesIf env id s)

pub renew_lease-Sound :
    (env : Env) (id attempt : ℕ) (worker : String) (lease : ℕ) (s : Session)
    → Sound s
    → Sound (renew_lease env id attempt worker lease s).1
renew_lease-Sound env id attempt worker lease s =
    WritesIf-Sound _ _ id s _ _ (λ t o h. ground arith) (λ t. refl) refl
      (renew_lease-WritesIf env id attempt worker lease s)

pub update_progress-Sound :
    (id : ℕ) (worker : String) (progress : ℤ) (stage : Option String) (s : Session)
    → Sound s
    → Sound (update_progress id worker progress stage s).1
update_progress-Sound id worker progress stage s =
    WritesIf-Sound _ _ id s _ _ (λ t o h. ground (arith, clamp_progress-le progress)) (λ t. refl)
      refl (update_progress-WritesIf id worker progress stage s)

Cancels-Sound :
    (env : Env) (id : ℕ) (s : Session) (found : Option Task) (r : Option Task × Session)
    → Cancels env id s found r
    → Sound s
    → Sound r.1
Cancels-Sound env id s none r (_, e) h = subst Sound (sym e) h
Cancels-Sound env id s (some t) r (inl (_, _, w)) h =
    Wrote-Sound id _ s r.1 (λ u _ k. ground arith) (λ u. refl) w h
Cancels-Sound env id s (some t) r (inr (inl (_, _, w))) h =
    Wrote-Sound id _ s r.1 (λ u _ k. ground arith) (λ u. refl) w h
Cancels-Sound env id s (some t) r (inr (inr (_, _, _, e))) h = subst Sound (sym e) h

pub request_cancel-Sound :
    (env : Env) (id : ℕ) (s : Session) → Sound s → Sound (request_cancel env id s).1
request_cancel-Sound env id s = Cancels-Sound env id s _ _ (request_cancel-Cancels env id s)
