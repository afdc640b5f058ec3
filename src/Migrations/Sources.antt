-- ===== src/Migrations/Sources.antt =====
-- app/bootstrap/migration.py: the table alembic_schema, the revisions that it records as applied, and
-- the sources that are stored in it.
use amsz_web.Base.{
  is_some, ℕ, zero, suc, String, Bool, Option, none, some, List, [], ◌∷◌, ◌++◌, map, select, take,
  drop, str_eq, not, ◌&&◌, ◌||◌, if◌then◌else◌, false,
}
use amsz_web.Session.{◌>>=◌, Result, ok, err, Error}
use amsz_web.Storage.{text_before}

-- a migration file that Alembic has loaded: its text is missing where its path does not exist
pub record Script : Type 0 where
  pub revision : String
  pub text : Option String

-- Alembic's revisions from the head down to the one without a down_revision
pub data Chain : Type 0 where
  base : Script → Chain
  above : Script → Chain → Chain

-- `named_after` has the texts of the files that glob finds for {revision}_*.py
pub record ScriptDirectory : Type 0 where
  pub head : Option Chain
  pub named_after : String → List String

abbrev pub script_of : Chain → Script
script_of (Chain.base f) = f
script_of (Chain.above f c) = f

-- the loop of _revision_chain
abbrev pub downwards : Chain → List String
downwards (Chain.base f) = f.revision ∷ []
downwards (Chain.above f c) = f.revision ∷ downwards c

abbrev pub reversed : List String → List String
reversed [] = []
reversed (x ∷ xs) = reversed xs ++ (x ∷ [])

abbrev pub revision_chain : ScriptDirectory → List String
revision_chain dir = elim dir.head [ none ↦ [] | some c ↦ reversed (downwards c) ]

-- script.get_revision(revision)
abbrev pub find_script : String → Chain → Option Script
find_script v (Chain.base f) = if str_eq f.revision v then some f else none
find_script v (Chain.above f c) =
    let rest = find_script v c in if str_eq f.revision v then some f else rest

-- a row of alembic_schema; rows are in the order of their ids
pub record SchemaRow : Type 0 where
  pub version_num : String
  pub direction : String
  pub migration_source : Option String

abbrev pub is_among : String → List String → Bool
is_among v [] = false
is_among v (w ∷ ws) = str_eq w v || is_among v ws

-- applied.add(version_num) or applied.discard(version_num)
abbrev pub apply_row : SchemaRow → List String → List String
apply_row r s =
    if str_eq r.direction "upgrade"
    then if is_among r.version_num s then s else r.version_num ∷ s
    else select (λ v. not (str_eq v r.version_num)) s

unfoldable pub applied : List SchemaRow → List String → List String
applied [] s = s
applied (r ∷ rs) s = applied rs (apply_row r s)

-- max(applied), from its first element on
unfoldable pub greatest : String → List String → String
greatest m [] = m
greatest m (v ∷ vs) = greatest (if text_before m v then v else m) vs

abbrev pub greatest_or : Option String → List String → Option String
greatest_or legacy [] = legacy
greatest_or legacy (v ∷ vs) = some (greatest v vs)

-- _get_db_revision, with what the table alembic_version has
unfoldable pub db_revision : Option String → List SchemaRow → Option String
unfolding applied greatest
db_revision legacy rows = greatest_or legacy (applied rows [])

abbrev pub is_upgrade_of : String → SchemaRow → Bool
is_upgrade_of v r = str_eq r.version_num v && str_eq r.direction "upgrade"

abbrev pub has_upgrade : String → List SchemaRow → Bool
has_upgrade v [] = false
has_upgrade v (r ∷ rs) = is_upgrade_of v r || has_upgrade v rs

abbrev pub first_text : List String → Option String
first_text [] = none
first_text (t ∷ ts) = some t

abbrev pub text_or : List String → Option Script → Option String
text_or named_after none = first_text named_after
text_or named_after (some f) = elim f.text [ none ↦ first_text named_after | some t ↦ some t ]

-- the text of the revision's file, or of the first file that is named after it
abbrev pub source_of : ScriptDirectory → String → Option String
source_of dir v = elim dir.head [
  | none ↦ text_or (dir.named_after v) none
  | some c ↦ text_or (dir.named_after v) (find_script v c)
]

-- UPDATE of one row
abbrev pub with_source : String → String → SchemaRow → SchemaRow
with_source v t r = if is_upgrade_of v r then record r { migration_source = some t } else r

abbrev pub upgrade_row : String → String → Option String → SchemaRow
upgrade_row v direction source = record {
  version_num = v;
  direction = direction;
  migration_source = source;
}

-- one turn of the loop of _store_migration_sources
abbrev pub store_source : String → Option String → List SchemaRow → List SchemaRow
store_source v none rows = rows
store_source v (some t) rows =
    if has_upgrade v rows
    then map (with_source v t) rows
    else rows ++ (upgrade_row v "upgrade" (some t) ∷ [])

unfoldable pub store_sources : ScriptDirectory → List String → List SchemaRow → List SchemaRow
store_sources dir [] rows = rows
store_sources dir (v ∷ vs) rows = store_sources dir vs (store_source v (source_of dir v) rows)

-- list.index
unfoldable pub index : String → List String → Result ℕ
index v [] = err (Error.raised "ValueError" "not in list")
index v (w ∷ ws) =
    let rest = index v ws >>= (λ n. ok (suc n)) in if str_eq w v then ok zero else rest

-- _store_migration_sources
unfoldable pub store_migration_sources :
    ScriptDirectory → Option String → String → List SchemaRow → Result (List SchemaRow)
unfolding index store_sources
store_migration_sources dir none target rows = do
  end ← index target (revision_chain dir)
  ok (store_sources dir (take (suc end) (revision_chain dir)) rows)
store_migration_sources dir (some v) target rows = do
  start ← index v (revision_chain dir)
  end ← index target (revision_chain dir)
  ok (store_sources dir (drop (suc start) (take (suc end) (revision_chain dir))) rows)

-- the source of the last upgrade row of a revision, if there is such a row
abbrev pub last_source : String → List SchemaRow → Option (Option String)
last_source v [] = none
last_source v (r ∷ rs) =
    let later = last_source v rs in
    elim later [
      | none ↦ if is_upgrade_of v r then some r.migration_source else none
      | some t ↦ some t
    ]

-- INSERT INTO alembic_schema ... SELECT
abbrev pub with_record : String → String → List SchemaRow → List SchemaRow
with_record direction v rows = elim (last_source v rows) [
  | none ↦ rows
  | some t ↦ rows ++ (upgrade_row v direction t ∷ [])
]

abbrev pub has_file : Option Script → Bool
has_file none = false
has_file (some f) = is_some f.text

abbrev pub is_local : ScriptDirectory → String → Bool
is_local dir v = elim dir.head [ none ↦ false | some c ↦ has_file (find_script v c) ]
