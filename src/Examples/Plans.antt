-- ===== src/Examples/Plans.antt =====
-- Schedules, configuration revisions and the backoff, at concrete arguments.
use amsz_web.Templates.Resolution.{IsOk, validated_template_resolves}
use amsz_web.Templates.Secrets.{IsHidden, api_key-IsHidden}
use amsz_web.Templates.{
  Environment, resolve, resolve_fields, resolve_text, validate_runtime_config_template, check,
  check_text, placeholder, name_before_brace, has_open,
}
use amsz_web.Session.{ok}
use amsz_web.Table.{keys}
use amsz_web.Tasks.Invariant.{Sound}
use amsz_web.Session.{seconds}
use amsz_web.Domain.{ConfigRevisionStatus, Fields, Json}
use amsz_web.Base.{◌∷◌, true, ℕ, arith, ◌≡◌, some, [], refl, none, All}
use amsz_web.Examples.Data.{env_at, five_tasks, five_tasks-Sound, unlocked, empty_payload}
use amsz_web.Schedules.{
  SystemSchedule, Planner, tick, claim_due_schedules, advance, mark_schedule_dispatched,
}
use amsz_web.Table.{get, without, Row}
use amsz_web.Schedules.{SystemSchedule}
use amsz_web.Base.{List, some}
use amsz_web.Schedules.Slots.{Dispatched, mark_schedule_dispatched-IsNext, advance_zero_interval}
use amsz_web.Schedules.Ticks.{Ends, RunsAfter, tick-RunsAfter}
use amsz_web.Configs.{Configs, Revision}
use amsz_web.Configs.Consistency.{Consistent}
use amsz_web.Configs.Actions.{act, activates, act-Consistent}

-- due at 50 seconds, every 60 seconds
abbrev hourly : SystemSchedule
hourly = record {
  schedule_key = "sync";
  task_type = "noop.success";
  enabled = true;
  interval_seconds = 60;
  next_run_at = seconds 50;
  last_run_at = none;
  last_task_id = none;
  payload_json = empty_payload;
  queue_name = "default";
  priority = 5;
  max_attempts = 3;
  timeout_seconds = 3600;
}

abbrev planned : Planner
planned = record {
  session = five_tasks;
  schedules = record { key = 1; stored = hourly; live = hourly } ∷ [];
}

tick-RunsAfter_example :
    Ends
      (λ p'.
        Sound p'.session
        × All
            (RunsAfter (seconds 200) p'.schedules)
            (keys (claim_due_schedules (seconds 200) 10 unlocked planned.schedules)))
      (tick (env_at (seconds 200)) 10 unlocked planned)
tick-RunsAfter_example =
    tick-RunsAfter (env_at (seconds 200)) 10 unlocked planned five_tasks-Sound (tt, tt)
      (omega arith, tt)

abbrev hourly_row : Row SystemSchedule
hourly_row = record { key = 1; stored = hourly; live = hourly }

mark_schedule_dispatched-IsNext_example :
    (rows : List (Row SystemSchedule)) × (mark_schedule_dispatched hourly_row 6
        (seconds 200)
        planned.schedules
      ≡ some rows)
    × (t : SystemSchedule) × (get 1 rows ≡ some t)
    × Dispatched 6 (seconds 200) hourly t
    × (without 1 rows ≡ without 1 planned.schedules)
mark_schedule_dispatched-IsNext_example =
    mark_schedule_dispatched-IsNext hourly_row 6 (seconds 200) planned.schedules (omega arith) refl

advance_zero_interval_example : advance 1000 0 20 10 ≡ none
advance_zero_interval_example = advance_zero_interval 1000 20 10 (omega arith)

-- 5 is due at 20, with steps of 4: 21 is next
next_of_five : advance 22 4 20 5 ≡ some 21
next_of_five = refl

abbrev draft : ℕ → Revision
draft version = record {
  version_no = version;
  status = ConfigRevisionStatus.draft;
  schema_version = 1;
  base_revision_id = none;
  change_note = none;
  config_json = empty_payload;
  created_by = none;
  published_by = none;
  published_at = none;
}

abbrev live_revision : Revision
live_revision = record (draft 1) { status = ConfigRevisionStatus.active }

abbrev two_revisions : Configs
two_revisions = record {
  revisions =
      record { key = 1; stored = live_revision; live = live_revision }
      ∷ record { key = 2; stored = draft 2; live = draft 2 }
      ∷ [];
  state = some (some 1);
  next_revision_id = 3;
}

two_revisions-Consistent : Consistent two_revisions
two_revisions-Consistent = record {
  marked = (refl, (refl, tt));
  present = refl;
  numbered = (refl, (refl, tt), (refl, tt, tt));
  distinct = ((refl, tt), (tt, tt));
  below = (omega arith, (omega arith, tt));
}

act-Consistent_example : Consistent (act (env_at 100) (activates 2 (some "admin")) two_revisions)
act-Consistent_example =
    act-Consistent (env_at 100) (activates 2 (some "admin")) two_revisions two_revisions-Consistent

-- {"api_key": "${API_KEY}", "worker_queue": "slow"}
abbrev template : Fields
template =
    Fields.field "api_key" (Json.str "${API_KEY}")
      (Fields.field "worker_queue" (Json.str "slow") Fields.end)

abbrev all_set : Environment
all_set name = some "set"

template-IsOk : IsOk (validate_runtime_config_template template)
unfolding validate_runtime_config_template check check_text placeholder name_before_brace has_open
template-IsOk = tt

resolved_template :
    resolve_fields all_set template
    ≡ ok (
        Fields.field "api_key"
          (Json.str "set")
          (Fields.field "worker_queue" (Json.str "slow") Fields.end))
unfolding resolve resolve_text placeholder name_before_brace has_open
resolved_template = refl

validated_template_resolves_example : IsOk (resolve_fields all_set template)
validated_template_resolves_example =
    validated_template_resolves all_set template (λ name h. tt) template-IsOk

api_key-IsHidden_example : IsHidden "${API_KEY}"
api_key-IsHidden_example = api_key-IsHidden template "${API_KEY}" template-IsOk refl
