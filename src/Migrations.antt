-- ===== src/Migrations.antt =====
-- app/bootstrap/migration.py: what SchemaMigrationRunner does to a database. Alembic and SQL are seen
-- through `Alembic`, and a database is what Alembic manages, of any type, and the table
-- alembic_schema. Whatever raises, the connection is committed at the end.
pub mod Sources
pub mod Recorded
pub mod Stored
pub mod Chains
pub mod Ahead
pub mod Reruns
use amsz_web.Base.{
  not, ◌&&◌, ℕ, suc, String, Bool, Option, none, some, List, [], ◌∷◌, ◌++◌, take, drop, str_eq,
  append, if◌then◌else◌, ltb, or_else, is_some, false,
}
use amsz_web.Session.{Result, ok, err, Error}
use amsz_web.Migrations.Sources.{
  Chain, ScriptDirectory, SchemaRow, revision_chain, reversed, script_of, find_script, Script,
  with_record, last_source, is_local, store_migration_sources, index, db_revision, is_among,
}

-- command.upgrade and command.downgrade, the second with the text of a temporary migration file, if
-- there is one; and SELECT version_num FROM alembic_version
pub record Alembic (S : Type 0) : Type 0 where
  pub upgrade : String → S → Result (Unit {0}) × S
  pub downgrade : Option String → String → S → Result (Unit {0}) × S
  pub version : S → Result (Option String)

-- `locks` says whether GET_LOCK gives 1, and `create_index` what CREATE INDEX does.
pub record Runner : Type 0 where
  pub uses_mysql : Bool
  pub locks : Bool
  pub create_index : Result (Unit {0})
  pub script : ScriptDirectory

pub record Database (S : Type 0) : Type 0 where
  pub schema : S
  pub alembic_schema : Option (List SchemaRow)

-- _get_legacy_alembic_version
abbrev pub legacy : Result (Option String) → Option String
legacy (ok v) = v
legacy (err e) = none

abbrev pub exits : Error
exits = Error.raised "SystemExit" "1"

module _ {S : Type 0} where
  -- what follows a step that did not raise; an exception keeps what the step has done
  abbrev pub and_then {ℓ κ} :
      {A : Type ℓ} {B : Type κ}
      → Result A × Database S
      → (A → Database S → Result B × Database S)
      → Result B × Database S
  and_then (ok a, d) k = k a d
  and_then (err e, d) k = (err e, d)

  abbrev pub rows_of : Database S → List SchemaRow
  rows_of d = or_else d.alembic_schema []

  -- _ensure_alembic_schema_table
  abbrev pub ensure_alembic_schema_table : Runner → Database S → Result (Unit {0}) × Database S
  ensure_alembic_schema_table r d = (
    if r.uses_mysql then r.create_index else ok tt,
    record d { alembic_schema = some (rows_of d) },
  )

  unfoldable pub get_db_revision : Alembic S → Database S → Option String
  unfolding db_revision
  get_db_revision al d = db_revision (legacy (al.version d.schema)) (rows_of d)

  abbrev pub put_rows : Database S → Result (List SchemaRow) → Result (Unit {0}) × Database S
  put_rows d (err e) = (err e, d)
  put_rows d (ok rows) = (ok tt, record d { alembic_schema = some rows })

  unfoldable pub store :
      Runner → Option String → String → Database S → Result (Unit {0}) × Database S
  unfolding store_migration_sources
  store r from target d = put_rows d (store_migration_sources r.script from target (rows_of d))

  abbrev pub recorded :
      String → Database S → Result (Option String) → Result (Unit {0}) × Database S
  recorded direction d (err e) = (err e, d)
  recorded direction d (ok none) = (ok tt, d)
  recorded direction d (ok (some v)) =
      (ok tt, record d { alembic_schema = some (with_record direction v (rows_of d)) })

  -- _run_alembic_command, after the command
  abbrev pub commanded :
      Alembic S → String → Database S → Result (Unit {0}) × S → Result (Unit {0}) × Database S
  commanded al direction d (r, s) =
      and_then (r, record d { schema = s }) (λ _ d'. recorded direction d' (al.version d'.schema))

  abbrev pub run_upgrade : Alembic S → String → Database S → Result (Unit {0}) × Database S
  run_upgrade al target d = commanded al "upgrade" d (al.upgrade target d.schema)

  abbrev pub run_downgrade :
      Alembic S → Option String → String → Database S → Result (Unit {0}) × Database S
  run_downgrade al file target d = commanded al "downgrade" d (al.downgrade file target d.schema)

  -- _downgrade_from_stored_source
  abbrev pub downgrade_from_stored_source :
      Alembic S → String → Database S → Result (Unit {0}) × Database S
  downgrade_from_stored_source al v d = elim (last_source v (rows_of d)) [
    | none ↦ (err exits, d)
    | some source ↦ elim source [ none ↦ (err exits, d) | some t ↦ run_downgrade al (some t) v d ]
  ]

  -- the loop of _downgrade_to_target
  unfoldable pub downgrade_all :
      Alembic S → ScriptDirectory → List String → Database S → Result (Unit {0}) × Database S
  downgrade_all al dir [] d = (ok tt, d)
  downgrade_all al dir (v ∷ vs) d =
      and_then
        (if is_local dir v then run_downgrade al none v d else downgrade_from_stored_source al v d)
        (λ _ d'. downgrade_all al dir vs d')

  -- the cases of _migrate_to_target, by the indices of the database's revision and of the target
  unfoldable pub migrate_between :
      Alembic S
      → Runner
      → (from target : String) → ℕ
      → Result ℕ
      → Database S
      → Result (Unit {0}) × Database S
  unfolding store downgrade_all
  migrate_between al r from target i (err e) d = (err e, d)
  migrate_between al r from target i (ok j) d =
      if ltb i j
      then and_then (store r (some from) target d) (λ _ d'. run_upgrade al target d')
      else if ltb j i
      then downgrade_all al r.script
          (reversed (drop (suc j) (take (suc i) (revision_chain r.script)))) d
      else (ok tt, d)

  abbrev pub migrate_from :
      Alembic S
      → Runner
      → (from target : String) → (from_index target_index : Result ℕ) → Database S
      → Result (Unit {0}) × Database S
  migrate_from al r from target (err e) o d = (err exits, d)
  migrate_from al r from target (ok i) o d = migrate_between al r from target i o d

  -- _migrate_to_target
  unfoldable pub migrate_to_target :
      Alembic S → Runner → (from target : String) → Database S → Result (Unit {0}) × Database S
  unfolding migrate_between index
  migrate_to_target al r from target d =
      migrate_from al r from target (index from (revision_chain r.script))
        (index target (revision_chain r.script)) d

  -- the three cases of run, by the database's revision
  abbrev pub from_revision :
      Alembic S → Runner → String → Option String → Database S → Result (Unit {0}) × Database S
  from_revision al r head none d = and_then (store r none head d) (λ _ d'. run_upgrade al "head" d')
  from_revision al r head (some v) d =
      if str_eq v head then store r none head d else migrate_to_target al r v head d

  abbrev pub for_head :
      Alembic S → Runner → Option Chain → Database S → Result (Unit {0}) × Database S
  for_head al r none d = (err (Error.raised "RuntimeError" "No migration head found"), d)
  for_head al r (some c) d = from_revision al r (script_of c).revision (get_db_revision al d) d

  -- run
  unfoldable pub run : Alembic S → Runner → Database S → Result (Unit {0}) × Database S
  unfolding get_db_revision store migrate_to_target
  run al r d =
      if r.uses_mysql && not r.locks
      then (err exits, d)
      else and_then (ensure_alembic_schema_table r d) (λ _ d'. for_head al r r.script.head d')
