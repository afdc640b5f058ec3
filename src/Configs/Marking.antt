-- ===== src/Configs/Marking.antt =====
-- activate_revision and archive_revision keep the invariant of the revisions.
use mathlib.Core.Path.{refl}
use amsz_web.Base.{
  ◌≡◌, ◌==◌, false, sym, Option-cases, inl, inr, Bool-cases, ℕ, List, Option, All, some, arith,
  All-map, none, String, ap, ◌∙◌,
}
use amsz_web.Table.Laws.{Distinct, Below, All-modify_at, Below-modify, Distinct-modify, All-modify}
use amsz_web.Configs.{
  Configs, is_current, active_id, with_state, Row, Revision, archive_current, archived_revision,
  archive_found, Env, archive_revision, activate_revision, get, published, published_revision,
  require_revision,
}
use amsz_web.Configs.Consistency.{
  Consistent, is_live, with_state-Consistent, Numbered, Present, Marked, Present-modify,
  Numbered-modify, get-with_state, with_state-active_id,
}
use amsz_web.Session.{ok, err, Result, ◌>>=◌}

-- a call that returns keeps the invariant, and one that raises is rolled back
abbrev pub Keeps {ℓ} : {A : Type ℓ} → Result (A × Configs) → Type 0
Keeps (ok (a, c)) = Consistent c
Keeps (err e) = Unit

Keeps-bind :
    (m : Result Revision) (k : Revision → Result (Revision × Configs))
    → ((r : Revision) → m ≡ ok r → Keeps (k r))
    → Keeps (m >>= k)
Keeps-bind (ok r) k step = step r refl
Keeps-bind (err e) k step = tt

require_revision-get :
    (id : ℕ) (c : Configs) (r : Revision)
    → require_revision id c ≡ ok r
    → get id c.revisions ≡ some r
require_revision-get id c r h = elim (Option-cases (get id c.revisions)) [
  | inl e ↦ cc (rw (require_revision, e) at h)
  | inr (q, e) ↦ e ∙ cc (rw (require_revision, e) at h)
]

-- the rows, in which no revision but that of the id may be ACTIVE
abbrev Quiet : ℕ → Row Revision → Type 0
Quiet id r = (r.key == id) ≡ false → is_live r.live.status ≡ false

archive_current-Quiet :
    (id : ℕ) (o : Option ℕ) (rows : List (Row Revision))
    → Distinct rows
    → Marked o rows
    → All (Quiet id) (archive_current id o rows)
archive_current-Quiet id none rows d h = All-map _ (Quiet id) rows (λ r e _. e) h
archive_current-Quiet id (some current) rows d h = elim (Bool-cases (current == id)) [
  | inl same ↦ rw same (All-map _ (Quiet id) rows (λ r e n. ground (arith, same, e, n)) h)
  | inr other ↦ rw other (
      All-modify_at (Quiet id) current archived_revision rows d (λ r e n. refl)
        (All-map _ (λ r. (r.key == current) ≡ false → Quiet id r) rows
          (λ r e n _. ground (arith, e, n)) h))
]

-- what archive_current keeps
module _ (id : ℕ) (rows : List (Row Revision)) where
  archive_current-Numbered : (o : Option ℕ) → Numbered rows → Numbered (archive_current id o rows)
  archive_current-Numbered none h = h
  archive_current-Numbered (some a) h =
      ground (arith, Numbered-modify a archived_revision rows (λ r. refl) h)

  archive_current-Distinct : (o : Option ℕ) → Distinct rows → Distinct (archive_current id o rows)
  archive_current-Distinct none h = h
  archive_current-Distinct (some a) h = ground (arith, Distinct-modify a archived_revision rows h)

  archive_current-Below :
      (n : ℕ) (o : Option ℕ) → Below n rows → Below n (archive_current id o rows)
  archive_current-Below n none h = h
  archive_current-Below n (some a) h = ground (arith, Below-modify n a archived_revision rows h)

  archive_current-Present :
      (p o : Option ℕ) → Present p rows → Present p (archive_current id o rows)
  archive_current-Present p none h = h
  archive_current-Present p (some a) h = elim (Bool-cases (a == id)) [
    | inl e ↦ rw e h
    | inr e ↦ rw e (Present-modify p a archived_revision rows h)
  ]

published-Consistent :
    (env : Env) (id : ℕ) (by : Option String) (c : Configs) (r : Revision)
    → get id c.revisions ≡ some r
    → Consistent c
    → Consistent (published env id by c)
published-Consistent env id by c r e h =
    let o = active_id c in
    let rows = archive_current id o c.revisions in
    let f = published_revision env by in
    record {
      marked =
          All-modify_at (λ q. is_live q.live.status ≡ (id == q.key)) id f rows
            (archive_current-Distinct id c.revisions o h.distinct) (λ q k. ground (arith, k))
            (All-map (Quiet id) (λ q. (q.key == id) ≡ false → is_live q.live.status ≡ (id == q.key))
              rows (λ q g n. ground (arith, g n, n))
              (archive_current-Quiet id o c.revisions h.distinct h.marked));
      present =
          Present-modify (some id) id f rows
            (archive_current-Present id c.revisions (some id) o (rw e refl));
      numbered =
          Numbered-modify id f rows (λ q. refl)
            (archive_current-Numbered id c.revisions o h.numbered);
      distinct = Distinct-modify id f rows (archive_current-Distinct id c.revisions o h.distinct);
      below =
          Below-modify c.next_revision_id id f rows
            (archive_current-Below id c.revisions c.next_revision_id o h.below);
    }

pub activate_revision-Keeps :
    (env : Env) (id : ℕ) (by : Option String) (c : Configs)
    → Consistent c
    → Keeps (activate_revision env id by c)
unfolding activate_revision
activate_revision-Keeps env id by c h = Keeps-bind (require_revision id c) _ λ r e.
    published-Consistent env id by (with_state c) r
      (get-with_state c id ∙ require_revision-get id c r e) (with_state-Consistent c h)

archive_found-Keeps :
    (id : ℕ) (c : Configs) (r : Revision) → Consistent c → Keeps (archive_found id c r)
archive_found-Keeps id c r h = elim (Bool-cases (is_current (active_id c) id)) [
  | inl y ↦ rw y tt
  | inr n ↦
      let k = with_state-Consistent c h in
      let rows = (with_state c).revisions in
      rw n (record {
        marked =
            All-modify (λ q. is_live q.live.status ≡ is_current (active_id (with_state c)) q.key) id
              archived_revision rows
              (λ q e _ _. sym (
                ap (is_current (active_id (with_state c))) e
                ∙ (ap (λ o. is_current o id) (with_state-active_id c) ∙ n)))
              k.marked;
        present = Present-modify (active_id (with_state c)) id archived_revision rows k.present;
        numbered = Numbered-modify id archived_revision rows (λ q. refl) k.numbered;
        distinct = Distinct-modify id archived_revision rows k.distinct;
        below = Below-modify _ id archived_revision rows k.below;
      })
]

pub archive_revision-Keeps : (id : ℕ) (c : Configs) → Consistent c → Keeps (archive_revision id c)
unfolding archive_revision
archive_revision-Keeps id c h =
    Keeps-bind (require_revision id c) (archive_found id c) (λ r _. archive_found-Keeps id c r h)
