-- ===== src/Configs/Actions.antt =====
-- Every action of the repository keeps the invariant of the revisions.
use amsz_web.Table.{flush}
use amsz_web.Session.{Env}
use amsz_web.Configs.Marking.{Keeps, activate_revision-Keeps, archive_revision-Keeps}
use mathlib.Core.Path.{refl}
use amsz_web.Base.{
  All-append, ◌≡◌, ◌==◌, ◌+◌, false, sym, Option-cases, inl, inr, Bool-cases, ℕ, Option, String,
}
use amsz_web.Table.Laws.{Distinct-snoc, All-flush, Below-flush, Distinct-flush, Below-insert}
use amsz_web.Configs.{
  Configs, NewRevision, is_current, active_id, with_state, max_version, add_revision,
  create_revision, new_revision, is_base, get_active_revision, archive_revision, activate_revision,
}
use amsz_web.Configs.Consistency.{
  Consistent, is_live, Numbered-snoc, max_version-is_new, Numbered-flush, Present-Below,
  Present-insert, with_state-Consistent, Present-flush,
}
use amsz_web.Session.{ok, err, Result}

add_revision-Consistent :
    (a : NewRevision) (c : Configs) → Consistent c → Consistent (add_revision a c).1
add_revision-Consistent a c h = record {
  marked =
      All-append (λ r. is_live r.live.status ≡ is_current (active_id c) r.key) (flush c.revisions) _
        (All-flush _ c.revisions (λ r g. g) h.marked)
        (sym (Present-Below (active_id c) c.next_revision_id c.revisions h.present h.below), tt);
  present = Present-insert (active_id c) c.next_revision_id _ c.revisions h.present;
  numbered =
      Numbered-snoc (flush c.revisions)
        (record {
          key = c.next_revision_id;
          stored = new_revision a (max_version c.revisions + 1);
          live = new_revision a (max_version c.revisions + 1);
        })
        refl
        (All-flush (λ r. (r.live.version_no == (max_version c.revisions + 1)) ≡ false) c.revisions
          (λ r g. g) (max_version-is_new c.revisions h.numbered))
        (Numbered-flush c.revisions h.numbered);
  distinct =
      Distinct-snoc c.next_revision_id (new_revision a (max_version c.revisions + 1))
        (flush c.revisions) (Below-flush c.next_revision_id c.revisions h.below)
        (Distinct-flush c.revisions h.distinct);
  below =
      Below-insert c.next_revision_id (new_revision a (max_version c.revisions + 1)) c.revisions
        h.below;
}

create_revision-Consistent :
    (a : NewRevision) (c : Configs) → Consistent c → Keeps (create_revision a c)
unfolding create_revision
create_revision-Consistent a c h = elim (Option-cases a.base_revision_id) [
  | inl e ↦ rw (e, create_revision) (add_revision-Consistent a c h)
  | inr (base, e) ↦ elim (Bool-cases (is_base base (get_active_revision c).0)) [
    | inl y ↦
        rw (e, y, create_revision)
          (add_revision-Consistent a (with_state c) (with_state-Consistent c h))
    | inr n ↦ rw (e, n, create_revision) tt
  ]
]

-- a transaction on the revisions
pub data Action : Type 0 where
  creates : NewRevision → Action
  activates : (id : ℕ) (published_by : Option String) → Action
  archives : (id : ℕ) → Action
  reads : Action

abbrev pub commit_configs : Configs → Configs
commit_configs c = record c { revisions = flush c.revisions }

-- the end of session_scope
abbrev settle {ℓ} : {A : Type ℓ} → Configs → Result (A × Configs) → Configs
settle db (ok (a, c)) = commit_configs c
settle db (err e) = db

-- what a transaction leaves in the database
unfoldable pub act : Env → Action → Configs → Configs
act env (creates a) db = settle db (create_revision a db)
act env (activates id by) db = settle db (activate_revision env id by db)
act env (archives id) db = settle db (archive_revision id db)
act env reads db = commit_configs (get_active_revision db).1

commit_configs-Consistent : (c : Configs) → Consistent c → Consistent (commit_configs c)
commit_configs-Consistent c h = record {
  marked = All-flush _ c.revisions (λ r g. g) h.marked;
  present = Present-flush (active_id c) c.revisions h.present;
  numbered = Numbered-flush c.revisions h.numbered;
  distinct = Distinct-flush c.revisions h.distinct;
  below = Below-flush c.next_revision_id c.revisions h.below;
}

settle-Consistent {ℓ} :
    {A : Type ℓ} (db : Configs) (r : Result (A × Configs))
    → Keeps r
    → Consistent db
    → Consistent (settle db r)
settle-Consistent db (ok (a, c)) k h = commit_configs-Consistent c k
settle-Consistent db (err e) k h = h

-- Every transaction on the revisions keeps their invariant, whether it returns or raises: the
-- revision that runtime_config_state names is there and is ACTIVE, no other one is, no two have one
-- version number, and ids are distinct.
pub act-Consistent :
    (env : Env) (action : Action) (db : Configs) → Consistent db → Consistent (act env action db)
unfolding act
act-Consistent env (creates a) db h =
    settle-Consistent db (create_revision a db) (create_revision-Consistent a db h) h
act-Consistent env (activates id by) db h =
    settle-Consistent db (activate_revision env id by db) (activate_revision-Keeps env id by db h) h
act-Consistent env (archives id) db h =
    settle-Consistent db (archive_revision id db) (archive_revision-Keeps id db h) h
act-Consistent env reads db h =
    commit_configs-Consistent (with_state db) (with_state-Consistent db h)
