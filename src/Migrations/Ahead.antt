-- ===== src/Migrations/Ahead.antt =====
-- app/bootstrap/migration.py: the runner never downgrades a database.
use amsz_web.Migrations.{
  migrate_from, Alembic, Runner, Database, run, migrate_between, migrate_to_target, get_db_revision,
  from_revision, for_head, ensure_alembic_schema_table, and_then, exits,
}
use amsz_web.Migrations.Sources.{Chain, script_of, index, revision_chain}
use amsz_web.Migrations.Chains.{
  HasNoRepeats, before_head, chain-eq, among-before_head, index-head, index-le-length,
}
use amsz_web.Session.{ok-injective, Result, ok, err}
use amsz_web.Base.{
  subst, not, ◌&&◌, ℕ, String, Option, none, some, ◌≤◌, ltb, Bool-cases, inl, inr, false, ◌≡◌, refl,
  arith, length, str_eq, if◌then◌else◌, List, [], ◌∷◌, ◌++◌, sym, ap, not, ◌&&◌, subst, ◌∙◌,
}

module _ {S : Type 0} (al : Alembic S)
    (f : Option String → String → S → Result (Unit {0}) × S) where
  abbrev pub other : Alembic S
  other = record al { downgrade = f }

  migrate_between-same :
      (r : Runner) (from target : String) (i : ℕ) (o : Result ℕ) (d : Database S)
      → ((j : ℕ) → o ≡ ok j → i ≤ j)
      → migrate_between other r from target i o d ≡ migrate_between al r from target i o d
  unfolding migrate_between
  migrate_between-same r from target i (err e) d h = refl
  migrate_between-same r from target i (ok j) d h = elim (Bool-cases (ltb i j)) [
    | inl y ↦ rw y refl
    | inr n ↦
        let b : i ≤ j = h j refl in let m : ltb j i ≡ false = ground (arith, b, n) in rw (n, m) refl
  ]

  migrate_from-same :
      (r : Runner) (from target : String) (a o : Result ℕ) (d : Database S)
      → ((i j : ℕ) → a ≡ ok i → o ≡ ok j → i ≤ j)
      → migrate_from other r from target a o d ≡ migrate_from al r from target a o d
  migrate_from-same r from target (err e) o d h = refl
  migrate_from-same r from target (ok i) o d h =
      migrate_between-same r from target i o d (λ j q. h i j refl q)

  -- no index is greater than the head's
  bounded :
      (c : Chain) (from : String) (xs : List String)
      → HasNoRepeats c
      → xs ≡ before_head c ++ ((script_of c).revision ∷ [])
      → (i j : ℕ) → index from xs ≡ ok i
      → index (script_of c).revision xs ≡ ok j
      → i ≤ j
  bounded c from xs h e i j p q =
      let a : i ≤ length (before_head c) =
        index-le-length from (script_of c).revision (before_head c) i (rw e at p) in
      let b : ok (length (before_head c)) ≡ ok j =
        sym (index-head (script_of c).revision (before_head c) (among-before_head c h))
        ∙ (rw e at q) in
      let same : length (before_head c) ≡ j = ok-injective b in omega (arith, a, same)

  from_revision-same :
      (r : Runner) (c : Chain) (v : Option String) (d : Database S)
      → HasNoRepeats c
      → revision_chain r.script ≡ before_head c ++ ((script_of c).revision ∷ [])
      → from_revision other r (script_of c).revision v d
        ≡ from_revision al r (script_of c).revision v d
  unfolding migrate_to_target
  from_revision-same r c none d h e = refl
  from_revision-same r c (some v) d h e = elim (Bool-cases (str_eq v (script_of c).revision)) [
    | inl y ↦ rw y refl
    | inr n ↦ rw n (
        migrate_from-same r v (script_of c).revision (index v (revision_chain r.script))
          (index (script_of c).revision (revision_chain r.script)) d
          (bounded c v (revision_chain r.script) h e))
  ]

  for_head-same :
      (r : Runner) (c : Chain) (o : Option Chain) (d : Database S)
      → o ≡ some c
      → revision_chain r.script ≡ before_head c ++ ((script_of c).revision ∷ [])
      → HasNoRepeats c
      → for_head other r o d ≡ for_head al r o d
  unfolding get_db_revision
  for_head-same r c none d e chain h = refl
  for_head-same r c (some b) d e chain h =
      let same : c ≡ b = cc e in
      subst (λ x. for_head other r (some x) d ≡ for_head al r (some x) d) same
        (from_revision-same r c (get_db_revision al d) d h chain)

  after_table-same :
      (r : Runner) (c : Chain) (o : Result (Unit {0}) × Database S)
      → r.script.head ≡ some c
      → HasNoRepeats c
      → and_then o (λ _ d. for_head other r r.script.head d)
        ≡ and_then o (λ _ d. for_head al r r.script.head d)
  after_table-same r c (err x, d) e h = refl
  after_table-same r c (ok u, d) e h =
      let chain : revision_chain r.script ≡ before_head c ++ ((script_of c).revision ∷ []) =
        rw e (chain-eq c) in
      for_head-same r c r.script.head d e chain h

  -- The runner never downgrades: where no revision stands twice in the chain of the local files,
  -- what it does to a database, and whether it raises, is the same whatever command.downgrade does.
  pub run-never_downgrades :
      (r : Runner) (c : Chain) (d : Database S)
      → r.script.head ≡ some c
      → HasNoRepeats c
      → run other r d ≡ run al r d
  unfolding run
  run-never_downgrades r c d e h =
      ap (λ o. if r.uses_mysql && not r.locks then (err exits, d) else o)
        (after_table-same r c (ensure_alembic_schema_table r d) e h)
