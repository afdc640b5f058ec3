-- ===== src/Examples/Requests.antt =====
-- HTTP requests, and the theorems on them, at concrete arguments.
use amsz_web.Tasks.Events.{add_event}
use amsz_web.Tasks.Create.{add_task}
use amsz_web.Tasks.Create
use amsz_web.Services.Commands
use amsz_web.Http.Configs.Created.{create_then_show}
use amsz_web.Http.Tasks.Twice.{create_task_route_twice}
use amsz_web.Configs.{Configs, new_revision, create_revision}
use amsz_web.Configs.Consistency.{Consistent}
use amsz_web.Templates.{
  Environment, build_runtime_settings, validate_runtime_config_template, check, check_text,
  placeholder, name_before_brace, has_open, resolve_fields, resolve, resolve_text,
}
use amsz_web.Http.Configs.{
  RuntimeConfigRevisionCreateRequest, serve_config, RuntimeConfigRevisionResponse, ConfigRequest,
  build_revision_response, ConfigBody, revision_args, config_route, create_checked,
}
use amsz_web.Http.Tasks.Effects.{serve-unchanged}
use amsz_web.Base.{ℕ, none, some, [], ◌≡◌, refl}
use amsz_web.Domain.{Json, Fields}
use amsz_web.Session.{Result, ok, Session}
use amsz_web.Http.{Answer, HttpEnv, Headers, with_api_key}
use amsz_web.Http.Tasks.{serve, TaskRequest, Body, TaskCreateResponse, create_task_route, submit}
use amsz_web.Examples.Data.{env_at, five_tasks, request}

abbrev http_at : ℕ → HttpEnv
http_at now = record { env = env_at now; api_key = "key"; message = λ e. "bad"; ties = λ rs. rs }

abbrev with_key : Headers
with_key = record { x_api_key = some "key"; x_client_id = some "client"; request_id = "r1" }

abbrev without_key : Headers
without_key = record { x_api_key = none; x_client_id = none; request_id = "r2" }

abbrev after_post : Session
after_post = (serve (http_at 100) with_key (TaskRequest.create request) five_tasks).1

abbrev first_reply : TaskCreateResponse
first_reply = record { task_id = 6; status = "PENDING"; message = "task accepted" }

first_post :
    serve (http_at 100) with_key (TaskRequest.create request) five_tasks
    ≡ (Answer.answers 202 (Body.created first_reply), after_post)
unfolding serve with_api_key create_task_route submit Commands.create_task Create.create_task
    add_task add_event
first_post = refl

create_task_route_twice_example :
    serve (http_at 900) with_key (TaskRequest.create (record request { priority = 9 })) after_post
    ≡ (
      Answer.answers 200 (
          Body.created
            (record { task_id = 6; status = "PENDING"; message = "existing task returned" })),
      after_post,
    )
create_task_route_twice_example =
    create_task_route_twice (http_at 100) (http_at 900) with_key with_key request
      (record request { priority = 9 }) five_tasks after_post 202 first_reply
      (refl, (refl, (refl, (refl, (refl, tt))))) refl refl refl refl refl first_post

serve-unchanged_example :
    (serve (http_at 100) without_key (TaskRequest.cancel 1) five_tasks).1 ≡ five_tasks
serve-unchanged_example =
    serve-unchanged (http_at 100) without_key (TaskRequest.cancel 1) five_tasks
      (refl, (refl, (refl, (refl, (refl, tt))))) refl

abbrev variables : Environment
variables name = some "set"

abbrev template_fields : Fields
template_fields = Fields.field "api_key" (Json.str "${API_KEY}") Fields.end

abbrev config_request : RuntimeConfigRevisionCreateRequest
config_request = record {
  config = template_fields;
  change_note = none;
  schema_version = 1;
  base_revision_id = none;
}

abbrev no_revisions : Configs
no_revisions = record { revisions = []; state = none; next_revision_id = 1 }

no_revisions-Consistent : Consistent no_revisions
no_revisions-Consistent = record {
  marked = tt;
  present = tt;
  numbered = tt;
  distinct = tt;
  below = tt;
}

abbrev dumped_settings : Fields → Result Json
dumped_settings p = ok (Json.obj p)

abbrev after_config : Configs
after_config =
    (serve_config variables dumped_settings (http_at 100) with_key
      (ConfigRequest.create config_request) no_revisions).1

abbrev config_reply : RuntimeConfigRevisionResponse
config_reply =
    build_revision_response 1 (new_revision (revision_args config_request (some "client")) 1) none

first_config :
    serve_config variables dumped_settings
      (http_at 100)
      with_key
      (ConfigRequest.create config_request)
      no_revisions
    ≡ (Answer.answers 201 (ConfigBody.revision config_reply), after_config)
unfolding serve_config with_api_key config_route create_checked create_revision
    build_runtime_settings validate_runtime_config_template check check_text placeholder
    name_before_brace has_open resolve_fields resolve resolve_text
first_config = refl

create_then_show_example :
    (serve_config variables dumped_settings
      (http_at 200)
      with_key
      (ConfigRequest.show 1)
      after_config).0
    ≡ Answer.answers 200 (ConfigBody.revision config_reply)
create_then_show_example =
    create_then_show variables dumped_settings (http_at 100) (http_at 200) with_key with_key
      config_request no_revisions after_config config_reply no_revisions-Consistent refl
      first_config
