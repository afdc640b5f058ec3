-- ===== src/Examples/Runs.antt =====
-- Claims, attempts and histories, at concrete arguments.
use amsz_web.Tasks.Claim.Held.{ClaimsOrRaises}
use amsz_web.Tasks.Events.{update_attempt_status, find_attempt, set_attempt, add_event}
use amsz_web.History.Soundness.{run-Sound}
use amsz_web.Worker.Refusals.{run_claimed_task_lost}
use amsz_web.Tasks.Invariant.{Sound}
use amsz_web.Tasks.Finish.{mark_succeeded, owned_task}
use amsz_web.Models.{Task}
use amsz_web.Tasks.Finish.Endings.{EndsAttempt, end_attempt-EndsAttempt}
use amsz_web.Worker.Outcomes.{Settled, ending_of, run_claimed_task-Settled}
use amsz_web.Tasks.Family.Refresh.{refresh_parents}
use amsz_web.Base.{List, All, none, ◌≡◌, ◌==◌, false, [], refl, some, ◌∷◌, map}
use amsz_web.Worker.{raises_retryable, returns, Messages, run_claimed_task}
use amsz_web.Tasks.Finish.Ownership.{stops, dies, succeeds, end_attempt, end_attempt_twice}
use amsz_web.History.{submits, fans_out, rounds, settles, run, Call}
use amsz_web.Examples.Data.{
  env_at, five_tasks, five_tasks-Sound, whole_percent-IsPercent, claim_args, unlocked, value, left,
  request, fan_out_request, running_task,
}
use amsz_web.Tasks.Claim.{
  claim_tasks, ClaimedTask, ticket, noted_parents, claim_all, claim_one, tickets,
}
use amsz_web.Tasks.Claim.Tickets.{claim_tasks-Claims}
use amsz_web.Tasks.Claim.Exclusive.{claim_tasks_apart}
use amsz_web.Session.{Session, Result, ok, commit, err, Error, Env}

abbrev first_claim : Result (List ClaimedTask × Session)
first_claim = claim_tasks (env_at 100) claim_args unlocked five_tasks

abbrev second_claim : Result (List ClaimedTask × Session)
second_claim = claim_tasks (env_at 200) claim_args unlocked (commit (left first_claim))

first_claim_returns : first_claim ≡ ok (value [] first_claim, left first_claim)
unfolding claim_tasks refresh_parents noted_parents claim_all claim_one add_event tickets
first_claim_returns = refl

second_claim_returns : second_claim ≡ ok (value [] second_claim, left second_claim)
unfolding claim_tasks refresh_parents noted_parents claim_all claim_one add_event tickets
second_claim_returns = refl

-- the more urgent task goes first, then the other one
claim_order :
    (map (λ t. t.id) (value [] first_claim) ≡ 2 ∷ [])
    × (map (λ t. t.id) (value [] second_claim) ≡ 1 ∷ [])
unfolding claim_tasks refresh_parents noted_parents claim_all claim_one add_event tickets
claim_order = (refl, refl)

claim_tasks-Claims_example : ClaimsOrRaises (env_at 100) claim_args unlocked five_tasks first_claim
claim_tasks-Claims_example =
    claim_tasks-Claims (env_at 100) claim_args unlocked five_tasks five_tasks-Sound

claim_tasks_apart_example :
    All (λ t. All (λ u. (t.id == u.id) ≡ false) (value [] second_claim)) (value [] first_claim)
claim_tasks_apart_example =
    claim_tasks_apart (env_at 100) (env_at 200) claim_args claim_args unlocked unlocked five_tasks
      (left first_claim) (left second_claim) (value [] first_claim) (value [] second_claim)
      whole_percent-IsPercent five_tasks-Sound first_claim_returns second_claim_returns

-- The task that runs, as its worker holds it.
abbrev held_task : ClaimedTask
held_task = ticket 3 running_task

abbrev no_text : Messages
no_text e = ""

run_claimed_task-Settled_example :
    Settled 3
      (ending_of (env_at 100) held_task (raises_retryable "E" "m"))
      (env_at 100)
      running_task
      (run_claimed_task
        (env_at 100)
        (env_at 101)
        no_text
        held_task
        "worker"
        (raises_retryable "E" "m")
        five_tasks)
run_claimed_task-Settled_example =
    run_claimed_task-Settled (env_at 100) (env_at 101) no_text held_task "worker" five_tasks refl
      running_task refl refl (raises_retryable "E" "m")

run_claimed_task_lost_example :
    run_claimed_task (env_at 100) (env_at 101) no_text held_task "other" (returns none) five_tasks
    ≡ (err (Error.not_owned 3 "other"), five_tasks)
run_claimed_task_lost_example =
    run_claimed_task_lost (env_at 100) (env_at 101) no_text held_task "other" five_tasks refl
      (returns none)

end_attempt-EndsAttempt_example :
    EndsAttempt stops
      (env_at 100)
      3
      "worker"
      five_tasks
      (end_attempt stops (env_at 100) 3 1 "worker" five_tasks)
end_attempt-EndsAttempt_example = end_attempt-EndsAttempt stops (env_at 100) 3 1 "worker" five_tasks

abbrev first_end : Result (Task × Session)
first_end = end_attempt (succeeds none) (env_at 100) 3 1 "worker" five_tasks

first_end_returns : first_end ≡ ok (value running_task first_end, left first_end)
unfolding mark_succeeded owned_task update_attempt_status find_attempt set_attempt add_event
first_end_returns = refl

end_attempt_twice_example :
    end_attempt (dies "E" "m") (env_at 101) 3 1 "worker" (left first_end)
    ≡ err (Error.not_owned 3 "worker")
end_attempt_twice_example =
    end_attempt_twice (succeeds none) (dies "E" "m") (env_at 100) (env_at 101) 3 1 1 "worker"
      "worker" five_tasks (left first_end) (value running_task first_end) first_end_returns

abbrev day : List (Env × Call)
day =
    (env_at 100, submits request (some "client"))
    ∷ (env_at 110, fans_out fan_out_request none)
    ∷ (env_at 120, rounds claim_args 10 (λ rows. rows) unlocked)
    ∷ (env_at 130, settles (env_at 131) no_text held_task "worker" (returns none))
    ∷ []

run-Sound_example : Sound (run day five_tasks)
run-Sound_example =
    run-Sound day five_tasks
      (
        whole_percent-IsPercent,
        (
          whole_percent-IsPercent,
          (whole_percent-IsPercent, ((whole_percent-IsPercent, whole_percent-IsPercent), tt)),
        ),
      )
      five_tasks-Sound
