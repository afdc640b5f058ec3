-- ===== src/Migrations/Reruns.antt =====
-- app/bootstrap/migration.py: what a run does after one whose upgrade has failed.
use amsz_web.Migrations.Sources.{db_revision}
use amsz_web.Session.{Error}
use amsz_web.Migrations.{
  Runner, Alembic, store, Database, run, rows_of, from_revision, legacy, err, for_head,
  get_db_revision,
}
use amsz_web.Migrations.Sources.{
  applied, Chain, script_of, index, revision_chain, downwards, source_of, store_sources,
  store_migration_sources, SchemaRow, has_upgrade, is_among, ScriptDirectory,
}
use amsz_web.Migrations.Recorded.{Below, Recorded, db_revision-head}
use amsz_web.Migrations.Stored.{store_sources-All, store_sources-head}
use amsz_web.Migrations.Chains.{before_head, chain-eq, index-among, All-reversed}
use amsz_web.Session.{ok}
use amsz_web.Base.{
  or_else, ap, ◌∙◌, ℕ, suc, String, none, some, inr, true, ◌≡◌, refl, take, List, [], ◌∷◌, ◌++◌,
  All, All-take, subst, sym, ◌&&◌, not, false, str_eq_refl, if◌then◌else◌, Option,
}

-- the rows that a run on a fresh database stores in front of the upgrade
module _ (dir : ScriptDirectory) (c : Chain) (t : String) (loaded : dir.head ≡ some c)
    (found : source_of dir (script_of c).revision ≡ some t)
    (newest : All (Below (script_of c).revision) (downwards c)) where
  abbrev head_revision : String
  head_revision = (script_of c).revision

  chain_of_head : revision_chain dir ≡ before_head c ++ (head_revision ∷ [])
  chain_of_head = rw loaded (chain-eq c)

  revisions-Below : All (Below head_revision) (revision_chain dir)
  revisions-Below = rw loaded (All-reversed (Below head_revision) (downwards c) newest)

  -- the index of the head
  head_index :
      (n : ℕ) × (index head_revision (revision_chain dir) ≡ ok n)
      × (is_among head_revision (take (suc n) (revision_chain dir)) ≡ true)
  head_index =
      subst
        (λ xs.
          (n : ℕ) × (index head_revision xs ≡ ok n)
          × (is_among head_revision (take (suc n) xs) ≡ true))
        (sym chain_of_head) (index-among head_revision (before_head c))

  -- storing the sources works, and records the head
  pub stored_rows :
      (rows : List SchemaRow)
      → All (Recorded head_revision) rows
      → (after : List SchemaRow) × (store_migration_sources dir none head_revision rows ≡ ok after)
        × All (Recorded head_revision) after
        × (has_upgrade head_revision after ≡ true)
  unfolding store_migration_sources
  stored_rows rows h =
      let (n, e, i) = head_index in
      (
        store_sources dir (take (suc n) (revision_chain dir)) rows,
        rw e refl,
        store_sources-All head_revision dir t found (take (suc n) (revision_chain dir)) rows
            (All-take (Below head_revision) (suc n) (revision_chain dir) revisions-Below) h,
        store_sources-head head_revision dir t found (take (suc n) (revision_chain dir)) rows
            (inr i),
      )

-- the lock is got and the index is made, where the database is MySQL
pub record Starts (r : Runner) : Type 0 where
  pub locked : (r.uses_mysql && not r.locks) ≡ false
  pub indexed : (if r.uses_mysql then r.create_index else ok tt) ≡ ok tt

module _ {S : Type 0} (al : Alembic S) (r : Runner) where
  abbrev with_rows : S → List SchemaRow → Database S
  with_rows s rows = record { schema = s; alembic_schema = some rows }

  run-Starts :
      (d : Database S) (rows : List SchemaRow)
      → Starts r
      → rows_of d ≡ rows
      → run al r d ≡ for_head al r r.script.head (with_rows d.schema rows)
  unfolding run
  run-Starts d rows h e = rw (h.locked, h.indexed, e) refl

  upgrade_from :
      (head : String) (s s' : S) (x : Error) (rows after : List SchemaRow)
      → al.upgrade "head" s ≡ (err x, s')
      → store_migration_sources r.script none head rows ≡ ok after
      → from_revision al r head none (with_rows s rows) ≡ (err x, with_rows s' after)
  unfolding store
  upgrade_from head s s' x rows after fails stores = rw (stores, fails) refl

  stays_at :
      (head : String) (s : S) (rows after : List SchemaRow)
      → store_migration_sources r.script none head rows ≡ ok after
      → from_revision al r head (some head) (with_rows s rows) ≡ (ok tt, with_rows s after)
  unfolding store
  stays_at head s rows after stores = rw (str_eq_refl head, stores) refl

  run_at :
      (c : Chain) (d : Database S) (rows : List SchemaRow) (v : Option String)
      → Starts r
      → r.script.head ≡ some c
      → rows_of d ≡ rows
      → db_revision (legacy (al.version d.schema)) rows ≡ v
      → run al r d ≡ from_revision al r (script_of c).revision v (with_rows d.schema rows)
  unfolding get_db_revision
  run_at c d rows v h loaded e q =
      run-Starts d rows h e
      ∙ ap (λ o. for_head al r o (with_rows d.schema rows)) loaded
      ∙ ap (λ w. from_revision al r (script_of c).revision w (with_rows d.schema rows)) q

module _ {S : Type 0} (al al' : Alembic S) (r : Runner) where
  -- A fresh database, where Alembic's upgrade raises: the run raises the same exception, and the next
  -- run, whatever Alembic then does, reports success and leaves what Alembic manages as
  -- the failed upgrade left it. The local files have a head, whose source is found, no revision of the chain
  -- is greater than the head, and the lock and the index are got where the database is MySQL.
  pub failed_upgrade_passes :
      (c : Chain) (t : String) (d : Database S) (s' : S) (x : Error)
      → Starts r
      → r.script.head ≡ some c
      → source_of r.script (script_of c).revision ≡ some t
      → All (Below (script_of c).revision) (downwards c)
      → d.alembic_schema ≡ none
      → legacy (al.version d.schema) ≡ none
      → al.upgrade "head" d.schema ≡ (err x, s')
      → ((run al r d).0 ≡ err x)
        × ((run al' r (run al r d).1).0 ≡ ok tt)
        × ((run al' r (run al r d).1).1.schema ≡ s')
  unfolding db_revision applied
  failed_upgrade_passes c t d s' x h loaded found newest fresh unversioned fails =
      let head : String = (script_of c).revision in
      let (rows, stores, recorded, has) = stored_rows r.script c t loaded found newest [] tt in
      let (later, restores, _, _) = stored_rows r.script c t loaded found newest rows recorded in
      let empty : rows_of d ≡ [] = ap (λ o. or_else o []) fresh in
      let first : run al r d ≡ (err x, with_rows al r s' rows) =
        run_at al r c d [] none h loaded empty unversioned
        ∙ upgrade_from al r head d.schema s' x [] rows fails stores in
      let second : run al' r (with_rows al r s' rows) ≡ (ok tt, with_rows al' r s' later) =
        run_at al' r c (with_rows al' r s' rows) rows (some head) h loaded refl
          (db_revision-head head (legacy (al'.version s')) rows recorded has)
        ∙ stays_at al' r head s' rows later restores in
      rw (first, second) (refl, refl, refl)
