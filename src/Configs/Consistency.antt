-- ===== src/Configs/Consistency.antt =====
-- The invariant of the revisions, and what the actions write.
use amsz_web.Table.Laws.{
  Distinct, Below, All-flush, Distinct-flush, All-modify, Below-flush, All-get, get-modify,
  get-insert, get-flush,
}
use amsz_web.Base.{
  Option-cases, inr, Bool, ◌∷◌, some, ◌≡◌, All, inl, true, false, is_some, ◌≤◌, ◌==◌, [], ◌++◌,
  arith, Bool-cases, refl, ap, All-map, none, All-append, ◌∙◌, sym, ◌+◌, ◌<◌,
}
use amsz_web.Configs.{
  Configs, Revision, is_current, active_id, with_state, max_version, ConfigRevisionStatus, Option,
  ℕ, List, Row, flush, modify, get, create_missing, insert,
}

abbrev pub is_live : ConfigRevisionStatus → Bool
is_live ConfigRevisionStatus.active = true
is_live _ = false

-- the revision that the state names is ACTIVE, and no other
abbrev pub Marked : Option ℕ → List (Row Revision) → Type 0
Marked a = All (λ r. is_live r.live.status ≡ is_current a r.key)

-- the revision that the state names is there
abbrev pub Present : Option ℕ → List (Row Revision) → Type 0
Present none rows = Unit
Present (some id) rows = is_some (get id rows) ≡ true

-- the version numbers are the same in the database and in the session, and no two are equal
abbrev pub Numbered : List (Row Revision) → Type 0
Numbered [] = Unit
Numbered (r ∷ rs) =
    (r.stored.version_no ≡ r.live.version_no)
    × All (λ q. (r.live.version_no == q.live.version_no) ≡ false) rs
    × Numbered rs

pub record Consistent (c : Configs) : Type 0 where
  pub marked : Marked (active_id c) c.revisions
  pub present : Present (active_id c) c.revisions
  pub numbered : Numbered c.revisions
  pub distinct : Distinct c.revisions
  pub below : Below c.next_revision_id c.revisions

pub Numbered-modify :
    (k : ℕ) (f : Revision → Revision) (rows : List (Row Revision))
    → ((r : Revision) → (f r).version_no ≡ r.version_no)
    → Numbered rows
    → Numbered (modify k f rows)
Numbered-modify k f [] same h = tt
Numbered-modify k f (r ∷ rs) same h = elim (Bool-cases (r.key == k)) [
  | inl hit ↦ rw hit (h.0 ∙ sym (same r.live), rw (same r.live) h.1, h.2)
  | inr miss ↦ rw miss (
    h.0,
    All-modify (λ q. (r.live.version_no == q.live.version_no) ≡ false) k f rs
        (λ q _ _ g. rw (same q.live) g) h.1,
    Numbered-modify k f rs same h.2,
  )
]

pub Numbered-flush : (rows : List (Row Revision)) → Numbered rows → Numbered (flush rows)
Numbered-flush [] h = tt
Numbered-flush (r ∷ rs) h = (
  refl,
  All-flush (λ q. (r.live.version_no == q.live.version_no) ≡ false) rs (λ q g. g) h.1,
  Numbered-flush rs h.2,
)

-- a number above the largest is new
le-max_version :
    (rows : List (Row Revision))
    → Numbered rows
    → All (λ r. r.live.version_no ≤ max_version rows) rows
le-max_version [] h = tt
le-max_version (r ∷ rs) h = (
  omega (arith, h.0),
  All-map (λ q. q.live.version_no ≤ max_version rs) (λ q. q.live.version_no ≤ max_version (r ∷ rs))
      rs (λ q g. omega arith) (le-max_version rs h.2),
)

pub Numbered-snoc :
    (rows : List (Row Revision)) (q : Row Revision)
    → q.stored ≡ q.live
    → All (λ r. (r.live.version_no == q.live.version_no) ≡ false) rows
    → Numbered rows
    → Numbered (rows ++ q ∷ [])
Numbered-snoc [] q e f h = (ap (λ x. x.version_no) e, tt, tt)
Numbered-snoc (r ∷ rs) q e f h = (
  h.0,
  All-append (λ p. (r.live.version_no == p.live.version_no) ≡ false) rs _ h.1 (f.0, tt),
  Numbered-snoc rs q e f.1 h.2,
)

create_missing-Consistent :
    (o : Option (Option ℕ)) (c : Configs)
    → c.state ≡ o
    → Consistent c
    → Consistent (create_missing o c)
create_missing-Consistent (some a) c e h = h
create_missing-Consistent none c e h = record {
  marked = All-flush (λ r. is_live r.live.status ≡ false) c.revisions (λ r g. g) (rw e at h.marked);
  present = tt;
  numbered = Numbered-flush c.revisions h.numbered;
  distinct = Distinct-flush c.revisions h.distinct;
  below = Below-flush c.next_revision_id c.revisions h.below;
}

pub with_state-Consistent : (c : Configs) → Consistent c → Consistent (with_state c)
with_state-Consistent c h = create_missing-Consistent c.state c refl h

pub max_version-is_new :
    (rows : List (Row Revision))
    → Numbered rows
    → All (λ r. (r.live.version_no == (max_version rows + 1)) ≡ false) rows
max_version-is_new rows h =
    All-map (λ r. r.live.version_no ≤ max_version rows)
      (λ r. (r.live.version_no == (max_version rows + 1)) ≡ false) rows (λ r g. ground (arith, g))
      (le-max_version rows h)

pub Present-modify :
    (o : Option ℕ) (k : ℕ) (f : Revision → Revision) (rows : List (Row Revision))
    → Present o rows
    → Present o (modify k f rows)
Present-modify none k f rows h = tt
Present-modify (some id) k f rows h = elim (Option-cases (get id rows)) [
  | inl e ↦ cc (rw e at h)
  | inr (r, e) ↦ ground (arith, get-modify k id f rows, e)
]

pub Present-insert :
    (o : Option ℕ) (k : ℕ) (a : Revision) (rows : List (Row Revision))
    → Present o rows
    → Present o (insert k a rows)
Present-insert none k a rows h = tt
Present-insert (some id) k a rows h = elim (Option-cases (get id rows)) [
  | inl e ↦ cc (rw e at h)
  | inr (r, e) ↦ rw (get-insert k id a rows, e) refl
]

-- the id of a new revision is not the one that the state names
pub Present-Below :
    (o : Option ℕ) (n : ℕ) (rows : List (Row Revision))
    → Present o rows
    → Below n rows
    → is_current o n ≡ false
Present-Below none n rows h b = refl
Present-Below (some id) n rows h b = elim (Option-cases (get id rows)) [
  | inl e ↦ cc (rw e at h)
  | inr (r, e) ↦
      let (q, same, _, below) = All-get (λ q. q.key < n) id rows r b e in
      ground (arith, same, below)
]

get-create_missing :
    (o : Option (Option ℕ)) (c : Configs) (k : ℕ)
    → get k (create_missing o c).revisions ≡ get k c.revisions
get-create_missing (some a) c k = refl
get-create_missing none c k = get-flush k c.revisions

pub get-with_state : (c : Configs) (k : ℕ) → get k (with_state c).revisions ≡ get k c.revisions
get-with_state c k = get-create_missing c.state c k

create_missing-active_id :
    (o : Option (Option ℕ)) (c : Configs)
    → c.state ≡ o
    → active_id (create_missing o c) ≡ active_id c
create_missing-active_id (some a) c e = refl
create_missing-active_id none c e = rw e refl

pub with_state-active_id : (c : Configs) → active_id (with_state c) ≡ active_id c
with_state-active_id c = create_missing-active_id c.state c refl

pub Present-flush :
    (o : Option ℕ) (rows : List (Row Revision)) → Present o rows → Present o (flush rows)
Present-flush none rows h = tt
Present-flush (some id) rows h = rw (get-flush id rows) h
