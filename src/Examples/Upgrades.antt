-- ===== src/Examples/Upgrades.antt =====
-- Databases with and without migrations, and the theorems on them, at concrete arguments.
use amsz_web.Migrations.Reruns.{failed_upgrade_passes}
use amsz_web.Migrations.Ahead.{other, run-never_downgrades}
use amsz_web.Migrations.Sources.{Chain, Script, ScriptDirectory, SchemaRow}
use amsz_web.Migrations.{Alembic, Runner, Database, run}
use amsz_web.Storage.{text_before}
use amsz_web.Session.{Result, ok, err, Error}
use amsz_web.Base.{String, Option, none, some, [], ◌∷◌, ◌≡◌, refl, inl, inr, true}

abbrev baseline : Script
baseline = record { revision = "20260430_000001"; text = some "create tables" }

abbrev fanout : Script
fanout = record { revision = "20260505_000002"; text = some "add columns" }

abbrev two_files : Chain
two_files = Chain.above fanout (Chain.base baseline)

abbrev local_files : ScriptDirectory
local_files = record { head = some two_files; named_after = λ v. [] }

abbrev mysql_runner : Runner
mysql_runner = record {
  uses_mysql = true;
  locks = true;
  create_index = ok tt;
  script = local_files;
}

abbrev broken_upgrade : Error
broken_upgrade = Error.raised "OperationalError" "a column exists already"

-- what Alembic manages is the text of the last revision that it applied
abbrev failing : Alembic String
failing = record {
  upgrade = λ target s. (err broken_upgrade, "20260430_000001");
  downgrade = λ file target s. (ok tt, target);
  version = λ s. ok none;
}

abbrev working : Alembic String
working = record {
  upgrade = λ target s. (ok tt, "20260505_000002");
  downgrade = λ file target s. (ok tt, target);
  version = λ s. ok (some s);
}

abbrev fresh_database : Database String
fresh_database = record { schema = ""; alembic_schema = none }

abbrev row_of : String → SchemaRow
row_of v = record { version_num = v; direction = "upgrade"; migration_source = none }

abbrev database_ahead : Database String
database_ahead = record {
  schema = "20260519_000003";
  alembic_schema = some (row_of "20260519_000003" ∷ []);
}

abbrev no_downgrade : Option String → String → String → Result (Unit {0}) × String
no_downgrade file target s = (err broken_upgrade, "")

failed_upgrade_passes_example :
    ((run failing mysql_runner fresh_database).0 ≡ err broken_upgrade)
    × ((run working mysql_runner (run failing mysql_runner fresh_database).1).0 ≡ ok tt)
    × ((run working mysql_runner (run failing mysql_runner fresh_database).1).1.schema
        ≡ "20260430_000001")
unfolding text_before
failed_upgrade_passes_example =
    failed_upgrade_passes failing working mysql_runner two_files "add columns" fresh_database
      "20260430_000001" broken_upgrade (record { locked = refl; indexed = refl }) refl refl
      (inl refl, (inr refl, tt)) refl refl refl

run-never_downgrades_example :
    run (other working no_downgrade) mysql_runner database_ahead
    ≡ run working mysql_runner database_ahead
run-never_downgrades_example =
    run-never_downgrades working no_downgrade mysql_runner two_files database_ahead refl (refl, tt)
