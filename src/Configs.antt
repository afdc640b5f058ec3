-- ===== src/Configs.antt =====
-- runtime_config_repository.py and runtime_config_service.py: the revisions of the runtime
-- configuration, and which of them is active.
pub mod Consistency
pub mod Marking
pub mod Actions
use amsz_web.Base.{
  ℕ, ltb, Option, none, some, Bool, String, List, ◌==◌, ◌+◌, false, if◌then◌else◌, ◌∷◌, suc, max,
  [],
}
use amsz_web.Domain.{ConfigRevisionStatus, Json}
use amsz_web.Table.{Row, get, flush, insert, modify}
use amsz_web.Table.Order.{order_by}
use amsz_web.Session.{Env, Result, ok, err, Error, ◌>>=◌}

-- class RuntimeConfigRevision, less created_at, which the database writes
pub record Revision : Type 0 where
  pub version_no : ℕ
  pub status : ConfigRevisionStatus
  pub schema_version : ℕ
  pub base_revision_id : Option ℕ
  pub change_note : Option String
  pub config_json : Json
  pub created_by : Option String
  pub published_by : Option String
  pub published_at : Option ℕ

-- the two tables: `state` is the row 1 of runtime_config_state, if it is there, by its
-- active_revision_id
pub record Configs : Type 0 where
  pub revisions : List (Row Revision)
  pub state : Option (Option ℕ)
  pub next_revision_id : ℕ

-- the keyword arguments of create_revision
pub record NewRevision : Type 0 where
  pub config_json : Json
  pub created_by : Option String
  pub change_note : Option String
  pub schema_version : ℕ
  pub base_revision_id : Option ℕ

-- _get_or_create_state, and what it writes
abbrev pub active_id : Configs → Option ℕ
active_id c = elim c.state [ none ↦ none | some a ↦ a ]

abbrev pub create_missing : Option (Option ℕ) → Configs → Configs
create_missing (some a) c = c
create_missing none c = record c { state = some none; revisions = flush c.revisions }

abbrev pub with_state : Configs → Configs
with_state c = create_missing c.state c

-- session.get, with the id of the revision
abbrev pub found : ℕ → List (Row Revision) → Option (ℕ × Revision)
found id rows = elim (get id rows) [ none ↦ none | some r ↦ some (id, r) ]

abbrev pub get_active_revision : Configs → Option (ℕ × Revision) × Configs
get_active_revision c =
    (elim (active_id c) [ none ↦ none | some id ↦ found id (with_state c).revisions ], with_state c)

abbrev pub get_revision : ℕ → Configs → Option Revision
get_revision id c = get id c.revisions

abbrev pub list_revisions : Configs → List (Row Revision)
list_revisions c = order_by (λ r q. ltb q.stored.version_no r.stored.version_no) c.revisions

-- select(func.max(version_no)) or 0
abbrev pub max_version : List (Row Revision) → ℕ
max_version [] = 0
max_version (r ∷ rs) = max r.stored.version_no (max_version rs)

abbrev pub new_revision : NewRevision → ℕ → Revision
new_revision a version_no = record {
  version_no = version_no;
  status = ConfigRevisionStatus.draft;
  schema_version = a.schema_version;
  base_revision_id = a.base_revision_id;
  change_note = a.change_note;
  config_json = a.config_json;
  created_by = a.created_by;
  published_by = none;
  published_at = none;
}

-- the part of create_revision after the test
abbrev pub add_revision : NewRevision → Configs → (ℕ × Revision) × Configs
add_revision a c =
    let r = new_revision a (max_version c.revisions + 1) in
    (
      (c.next_revision_id, r),
      record c {
        revisions = insert c.next_revision_id r c.revisions;
        next_revision_id = suc c.next_revision_id;
      },
    )

-- base_revision_id != active_revision_id, for a given base
abbrev pub is_base : ℕ → Option (ℕ × Revision) → Bool
is_base base none = false
is_base base (some (id, r)) = base == id

unfoldable pub create_revision : NewRevision → Configs → Result ((ℕ × Revision) × Configs)
create_revision a c = elim a.base_revision_id [
  | none ↦ ok (add_revision a c)
  | some base ↦
      if is_base base (get_active_revision c).0
      then ok (add_revision a (with_state c))
      else err (Error.invalid "base_revision_id does not match the active revision")
]

-- _require_revision
abbrev pub require_revision : ℕ → Configs → Result Revision
require_revision id c = elim (get id c.revisions) [
  | none ↦ err (Error.not_found "Runtime config revision" id)
  | some r ↦ ok r
]

abbrev pub archived_revision : Revision → Revision
archived_revision r = record r { status = ConfigRevisionStatus.archived }

abbrev pub published_revision : Env → Option String → Revision → Revision
published_revision env published_by r = record r {
  status = ConfigRevisionStatus.active;
  published_by = published_by;
  published_at = some env.now;
}

-- the revision that was active is archived, unless it is the same one
abbrev pub archive_current : ℕ → Option ℕ → List (Row Revision) → List (Row Revision)
archive_current id none rows = rows
archive_current id (some current) rows =
    if current == id then rows else modify current archived_revision rows

-- the writes of activate_revision, after the state is there
abbrev pub published : Env → ℕ → Option String → Configs → Configs
published env id published_by c = record c {
  revisions =
      modify id (published_revision env published_by)
        (archive_current id (active_id c) c.revisions);
  state = some (some id);
}

unfoldable pub activate_revision : Env → ℕ → Option String → Configs → Result (Revision × Configs)
activate_revision env id published_by c = do
  revision ← require_revision id c
  ok (published_revision env published_by revision, published env id published_by (with_state c))

-- state.active_revision_id == revision.id
abbrev pub is_current : Option ℕ → ℕ → Bool
is_current none id = false
is_current (some a) id = a == id

abbrev pub archive_found : ℕ → Configs → Revision → Result (Revision × Configs)
archive_found id c revision =
    if is_current (active_id c) id
    then err (Error.invalid "Active revision cannot be archived")
    else ok (
      archived_revision revision,
      record (with_state c) { revisions = modify id archived_revision (with_state c).revisions },
    )

unfoldable pub archive_revision : ℕ → Configs → Result (Revision × Configs)
archive_revision id c = require_revision id c >>= archive_found id c

abbrev pub get_revision_config : ℕ → Configs → Result Json
get_revision_config id c = do revision ← require_revision id c; ok revision.config_json
