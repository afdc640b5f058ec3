-- ===== src/Tasks/Family/Effects.antt =====
-- What the methods on a parent write: they raise unless the id is that of a parent task, and
-- otherwise change this task alone.
use amsz_web.Tasks.Family.Summary.{is_parent, parent_for_update, build_child_summary}
use amsz_web.Base.{
  true, false, ℕ, Bool-cases, Option-cases, inl, inr, refl, Bool, String, Option, if◌then◌else◌,
  some, none,
}
use amsz_web.Tasks.Effects.{Guarded, Wrote, write_rules}
use amsz_web.Table.{get}
use amsz_web.Session.{◌>>=◌, Env, Session, Result, ok, Error, set_task}
use amsz_web.Models.{Task}
use amsz_web.Tasks.Events.{add_event}
use amsz_web.Tasks.Family.Aggregate.{
  parent_failed_row, parent_succeeded_row, mark_parent_failed, mark_parent_succeeded,
}
use amsz_web.Tasks.Family.Refresh.{
  refreshed, refresh_parent_state, transition_parent_to_running, dispatched_row, counted,
}
use amsz_web.Domain.{Json, TaskStatus}

abbrev pub Parents : ℕ → (Task → Task) → Session → Result (Task × Session) → Type 0
Parents id f = Guarded is_parent (Error.not_parent id) f id

Parents-parent_for_update :
    (id : ℕ) (f : Task → Task) (s : Session) (finish : Task → Session)
    → ((t : Task) → Wrote id f s (finish t))
    → Parents id f s (parent_for_update id s >>= λ t. ok (f t, finish t))
unfolding parent_for_update
Parents-parent_for_update id f s finish wrote = elim (Option-cases (get id s.tasks)) [
  | inl e ↦ rw (e, parent_for_update) (refl, rw e)
  | inr (t, e) ↦ elim (Bool-cases (is_parent t)) [
    | inl o ↦ rw (e, o, parent_for_update) (t, e, o, refl, wrote t)
    | inr o ↦ rw (e, o, parent_for_update) (refl, rw e o)
  ]
]

refresh_event :
    (env : Env) (id : ℕ) (s : Session) (f : Task → Task) (b : Bool) (from : Option TaskStatus)
    → Wrote id f s (
        if b
        then add_event env id "PARENT_FAILED" from
            (some TaskStatus.failed)
            (some "Parent task failed because at least one child failed")
            none
            (set_task id f s)
        else set_task id f s)
refresh_event env id s f true from = search write_rules
refresh_event env id s f false from = search write_rules

pub refresh_parent_state-Parents :
    (env : Env) (id : ℕ) (s : Session)
    → Parents id (refreshed env (build_child_summary id s)) s (refresh_parent_state env id s)
unfolding refresh_parent_state
refresh_parent_state-Parents env id s =
    Parents-parent_for_update id _ s _ (λ t. refresh_event env id s _ _ _)

pub transition_parent_to_running-Parents :
    (env : Env) (id total : ℕ) (s : Session)
    → Parents id (dispatched_row total) s (transition_parent_to_running env id total s)
unfolding transition_parent_to_running
transition_parent_to_running-Parents env id total s =
    Parents-parent_for_update id _ s _ (λ t. search write_rules)

pub mark_parent_succeeded-Parents :
    (env : Env) (id : ℕ) (result : Option Json) (s : Session)
    → Parents id
        (λ t. parent_succeeded_row env result (counted (build_child_summary id s) t))
        s
        (mark_parent_succeeded env id result s)
unfolding mark_parent_succeeded
mark_parent_succeeded-Parents env id result s =
    Parents-parent_for_update id _ s _ (λ t. search write_rules)

pub mark_parent_failed-Parents :
    (env : Env) (id : ℕ) (code message : String) (s : Session)
    → Parents id
        (λ t. parent_failed_row env code message (counted (build_child_summary id s) t))
        s
        (mark_parent_failed env id code message s)
unfolding mark_parent_failed
mark_parent_failed-Parents env id code message s =
    Parents-parent_for_update id _ s _ (λ t. search write_rules)
