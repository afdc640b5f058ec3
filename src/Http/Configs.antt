-- ===== src/Http/Configs.antt =====
-- app/interfaces/http/routes/runtime_config.py, with runtime_config_service.py and the responses of
-- contracts/http/runtime_config.py. pydantic's check of the resolved settings, and their model_dump,
-- are parameters; the caches of the settings, which two routes clear, are left out.
pub mod Created
use amsz_web.Configs.Actions.{commit_configs}
use amsz_web.Table.{Row}
use amsz_web.Base.{ℕ, String, Option, none, some, List, map}
use amsz_web.Domain.{Json, Fields, ConfigRevisionStatus}
use amsz_web.Session.{◌>>=◌, Result, ok, err, Error}
use amsz_web.Templates.{Environment, build_runtime_settings}
use amsz_web.Configs.{
  Configs, Revision, create_revision, activate_revision, NewRevision, archive_revision,
  get_active_revision, list_revisions, get_revision,
}
use amsz_web.Http.{Answer, HttpEnv, Headers, with_api_key, refused_with}

pub record RuntimeConfigRevisionCreateRequest : Type 0 where
  pub config : Fields
  pub change_note : Option String
  pub schema_version : ℕ
  pub base_revision_id : Option ℕ

pub record RuntimeConfigRevisionResponse : Type 0 where
  pub revision_id : ℕ
  pub version_no : ℕ
  pub status : ConfigRevisionStatus
  pub schema_version : ℕ
  pub base_revision_id : Option ℕ
  pub change_note : Option String
  pub config : Json
  pub resolved_config : Option Json
  pub created_by : Option String
  pub published_by : Option String
  pub published_at : Option ℕ

pub record RuntimeConfigRevisionListItemResponse : Type 0 where
  pub revision_id : ℕ
  pub version_no : ℕ
  pub status : ConfigRevisionStatus
  pub schema_version : ℕ
  pub change_note : Option String
  pub created_by : Option String
  pub published_by : Option String
  pub published_at : Option ℕ

pub record RuntimeConfigActionResponse : Type 0 where
  pub revision_id : ℕ
  pub status : ConfigRevisionStatus
  pub message : String

pub data ConfigBody : Type 0 where
  revision : RuntimeConfigRevisionResponse → ConfigBody
  revisions : List RuntimeConfigRevisionListItemResponse → ConfigBody
  action : RuntimeConfigActionResponse → ConfigBody

-- resolve_revision, where a RuntimeConfigError counts as None
abbrev or_none : Result Json → Option Json
or_none (ok v) = some v
or_none (err e) = none

abbrev pub build_revision_response : ℕ → Revision → Option Json → RuntimeConfigRevisionResponse
build_revision_response id r resolved = record {
  revision_id = id;
  version_no = r.version_no;
  status = r.status;
  schema_version = r.schema_version;
  base_revision_id = r.base_revision_id;
  change_note = r.change_note;
  config = r.config_json;
  resolved_config = resolved;
  created_by = r.created_by;
  published_by = r.published_by;
  published_at = r.published_at;
}

abbrev list_item : Row Revision → RuntimeConfigRevisionListItemResponse
list_item r = record {
  revision_id = r.key;
  version_no = r.live.version_no;
  status = r.live.status;
  schema_version = r.live.schema_version;
  change_note = r.live.change_note;
  created_by = r.live.created_by;
  published_by = r.live.published_by;
  published_at = r.live.published_at;
}

abbrev pub revision_args : RuntimeConfigRevisionCreateRequest → Option String → NewRevision
revision_args r created_by = record {
  config_json = Json.obj r.config;
  created_by = created_by;
  change_note = r.change_note;
  schema_version = r.schema_version;
  base_revision_id = r.base_revision_id;
}

abbrev pub created_revision :
    HttpEnv → Result ((ℕ × Revision) × Configs) → Answer (ConfigBody × Configs)
created_revision h (err e) = refused_with 400 h e
created_revision h (ok ((id, r), c)) =
    Answer.answers 201 (ConfigBody.revision (build_revision_response id r none), c)

abbrev acted : HttpEnv → ℕ → String → Result (Revision × Configs) → Answer (ConfigBody × Configs)
acted h id message (err e) = refused_with 400 h e
acted h id message (ok (r, c)) =
    Answer.answers 200
      (ConfigBody.action (record { revision_id = id; status = r.status; message = message }), c)

pub data ConfigRequest : Type 0 where
  active list : ConfigRequest
  show activate archive : (revision_id : ℕ) → ConfigRequest
  create : RuntimeConfigRevisionCreateRequest → ConfigRequest

-- `dump` is model_validate and model_dump of RuntimeSettings
module _ (getenv : Environment) (dump : Fields → Result Json) where
  -- a configuration is a dict
  abbrev settings_of : Json → Result Json
  settings_of (Json.obj p) = build_runtime_settings getenv dump p
  settings_of v = err (Error.raised "AttributeError" "no items")

  abbrev active_answer : Option (ℕ × Revision) × Configs → Answer (ConfigBody × Configs)
  active_answer (none, c) = Answer.refuses 404 "Active revision not found"
  active_answer (some (id, r), c) =
      Answer.answers 200 (
        ConfigBody.revision (build_revision_response id r (or_none (settings_of r.config_json))),
        c,
      )

  -- RuntimeConfigService.create_revision
  unfoldable pub create_checked :
      RuntimeConfigRevisionCreateRequest
      → Option String
      → Configs
      → Result ((ℕ × Revision) × Configs)
  unfolding build_runtime_settings create_revision
  create_checked r created_by c = build_runtime_settings getenv dump r.config >>= λ _.
      create_revision (revision_args r created_by) c

  unfoldable pub config_route :
      HttpEnv → Headers → ConfigRequest → Configs → Answer (ConfigBody × Configs)
  unfolding create_checked activate_revision archive_revision
  config_route h headers ConfigRequest.active c = active_answer (get_active_revision c)
  config_route h headers ConfigRequest.list c =
      Answer.answers 200 (ConfigBody.revisions (map list_item (list_revisions c)), c)
  config_route h headers (ConfigRequest.show id) c = elim (get_revision id c) [
    | none ↦ Answer.refuses 404 "Revision not found"
    | some r ↦ Answer.answers 200 (ConfigBody.revision (build_revision_response id r none), c)
  ]
  config_route h headers (ConfigRequest.create r) c =
      created_revision h (create_checked r headers.x_client_id c)
  config_route h headers (ConfigRequest.activate id) c =
      acted h id "runtime config revision activated"
        (activate_revision h.env id headers.x_client_id c)
  config_route h headers (ConfigRequest.archive id) c =
      acted h id "runtime config revision archived" (archive_revision id c)

  unfoldable pub serve_config :
      HttpEnv → Headers → ConfigRequest → Configs → Answer ConfigBody × Configs
  unfolding config_route with_api_key
  serve_config h headers r db = with_api_key commit_configs h headers (config_route h headers r) db
