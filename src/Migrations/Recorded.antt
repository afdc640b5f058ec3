-- ===== src/Migrations/Recorded.antt =====
-- app/bootstrap/migration.py: the revision that alembic_schema gives a database in which upgrades are
-- recorded and no downgrade.
use amsz_web.Migrations.Sources.{
  SchemaRow, is_among, apply_row, applied, greatest, greatest_or, db_revision, is_upgrade_of,
  has_upgrade,
}
use amsz_web.Storage.{text_before}
use amsz_web.Base.{
  ℕ, String, Option, some, List, [], ◌∷◌, str_eq, ◌≡◌, ◌⊎◌, inl, inr, refl, All, true, false,
  Bool-cases, arith, str_eq_iff, if◌then◌else◌, ap, sym, ltb, ◌==◌, ◌||◌, ◌&&◌, Bool, subst,
}
use Prim.Native.Char.{code}

lesser :
    (c d : ℕ) (r q : Bool)
    → (r ≡ true → q ≡ false)
    → (ltb c d || ((c == d) && r)) ≡ true
    → (ltb d c || ((d == c) && q)) ≡ false
lesser c d r q f e = elim (Bool-cases r) [
  | inl y ↦ let z : q ≡ false = f y in ground (arith, z)
  | inr n ↦ ground (arith, n)
]

pub text_before-asymm : (a b : String) → text_before a b ≡ true → text_before b a ≡ false
unfolding text_before
text_before-asymm String.[] String.[] e = refl
text_before-asymm String.[] (String.◌∷◌ d t) e = refl
text_before-asymm (String.◌∷◌ c s) String.[] e = absurd (cc e)
text_before-asymm (String.◌∷◌ c s) (String.◌∷◌ d t) e =
    lesser (code c) (code d) (text_before s t) (text_before t s) (text_before-asymm s t) e

pub text_before_irrefl : (a : String) → text_before a a ≡ false
text_before_irrefl a = elim (Bool-cases (text_before a a)) [
  | inl y ↦ text_before-asymm a a y
  | inr n ↦ n
]

both : (a b : Bool) → (a && b) ≡ true → a ≡ true
both true b e = refl
both false b e = absurd (cc e)

second : (a b : Bool) → b ≡ true → (a || b) ≡ true
second true b e = refl
second false b e = e

module _ (head : String) where
  -- a revision that is the head or comes before it
  abbrev pub Below : String → Type 0
  Below v = (v ≡ head) ⊎ (text_before v head ≡ true)

  -- an upgrade to such a revision
  pub record Recorded (q : SchemaRow) : Type 0 where
    pub upgrade : str_eq q.direction "upgrade" ≡ true
    pub below : Below q.version_num

  before_head : (v : String) → Below v → text_before head v ≡ false
  before_head v (inl e) = rw e (text_before_irrefl head)
  before_head v (inr e) = text_before-asymm v head e

  -- one turn of the search for the greatest
  larger-Below : (m v : String) → Below m → Below v → Below (if text_before m v then v else m)
  larger-Below m v b c = elim (Bool-cases (text_before m v)) [ inl y ↦ rw y c | inr n ↦ rw n b ]

  stays_head : (m v : String) → Below v → m ≡ head → (if text_before m v then v else m) ≡ head
  stays_head m v c e =
      let n : text_before m v ≡ false =
        subst (λ x. text_before x v ≡ false) (sym e) (before_head v c) in
      rw n e

  larger-head :
      (m v : String)
      → Below m
      → Below v
      → (m ≡ head) ⊎ (v ≡ head)
      → (if text_before m v then v else m) ≡ head
  larger-head m v b c (inl e) = stays_head m v c e
  larger-head m v (inl q) c (inr e) = stays_head m v c q
  larger-head m v (inr q) c (inr e) =
      let y : text_before m v ≡ true = subst (λ x. text_before m x ≡ true) (sym e) q in rw y e

  either_head :
      (m v : String) (vs : List String)
      → (m ≡ head) ⊎ (is_among head (v ∷ vs) ≡ true)
      → ((m ≡ head) ⊎ (v ≡ head)) ⊎ (is_among head vs ≡ true)
  either_head m v vs (inl e) = inl (inl e)
  either_head m v vs (inr e) = elim (Bool-cases (str_eq v head)) [
    | inl y ↦ inl (inr ((str_eq_iff v head).0 y))
    | inr n ↦ inr (rw n at e)
  ]

  -- the greatest of revisions among which the head is
  greatest-head :
      (m : String) (vs : List String)
      → Below m
      → All Below vs
      → (m ≡ head) ⊎ (is_among head vs ≡ true)
      → greatest m vs ≡ head
  unfolding greatest
  greatest-head m [] b h (inl e) = e
  greatest-head m [] b h (inr e) = absurd (cc e)
  greatest-head m (v ∷ vs) b h i =
      greatest-head (if text_before m v then v else m) vs (larger-Below m v b h.0) h.1
        (elim (either_head m v vs i) [ inl e ↦ inl (larger-head m v b h.0 e) | inr e ↦ inr e ])

  apply-upgrade :
      (q : SchemaRow) (s : List String) → Recorded q → All Below s → All Below (apply_row q s)
  apply-upgrade q s r h = elim (Bool-cases (is_among q.version_num s)) [
    | inl y ↦ rw (r.upgrade, y) h
    | inr n ↦ rw (r.upgrade, n) (r.below, h)
  ]

  apply-among :
      (q : SchemaRow) (s : List String)
      → Recorded q
      → (is_among head s ≡ true) ⊎ (is_upgrade_of head q ≡ true)
      → is_among head (apply_row q s) ≡ true
  apply-among q s r i = elim (Bool-cases (is_among q.version_num s)) [
    | inl y ↦
        rw (r.upgrade, y)
          (elim i [
            | inl e ↦ e
            | inr e ↦
                subst (λ x. is_among x s ≡ true) ((str_eq_iff q.version_num head).0 (both _ _ e)) y
          ])
    | inr n ↦
        rw (r.upgrade, n)
          (elim i [
            | inl e ↦ second (str_eq q.version_num head) _ e
            | inr e ↦ let same : str_eq q.version_num head ≡ true = both _ _ e in rw same refl
          ])
  ]

  applied-All :
      (rows : List SchemaRow) (s : List String)
      → All Recorded rows
      → All Below s
      → All Below (applied rows s)
  unfolding applied
  applied-All [] s h b = b
  applied-All (q ∷ rows) s h b = applied-All rows (apply_row q s) h.1 (apply-upgrade q s h.0 b)

  applied-among :
      (rows : List SchemaRow) (s : List String)
      → All Recorded rows
      → (is_among head s ≡ true) ⊎ (has_upgrade head rows ≡ true)
      → is_among head (applied rows s) ≡ true
  unfolding applied
  applied-among [] s h (inl e) = e
  applied-among [] s h (inr e) = absurd (cc e)
  applied-among (q ∷ rows) s h i =
      applied-among rows (apply_row q s) h.1 (elim (Bool-cases (is_upgrade_of head q)) [
        | inl y ↦ inl (apply-among q s h.0 (inr y))
        | inr n ↦ elim i [ inl e ↦ inl (apply-among q s h.0 (inl e)) | inr e ↦ inr (rw n at e) ]
      ])

  greatest_or-head :
      (legacy : Option String) (vs : List String)
      → All Below vs
      → is_among head vs ≡ true
      → greatest_or legacy vs ≡ some head
  greatest_or-head legacy [] h e = absurd (cc e)
  greatest_or-head legacy (v ∷ vs) h e = ap some (
      greatest-head v vs h.0 h.1 (elim (Bool-cases (str_eq v head)) [
        | inl y ↦ inl ((str_eq_iff v head).0 y)
        | inr n ↦ inr (rw n at e)
      ]))

  -- where the head's upgrade is recorded, and nothing but upgrades up to it
  pub db_revision-head :
      (legacy : Option String) (rows : List SchemaRow)
      → All Recorded rows
      → has_upgrade head rows ≡ true
      → db_revision legacy rows ≡ some head
  unfolding db_revision
  db_revision-head legacy rows h e =
      greatest_or-head legacy (applied rows []) (applied-All rows [] h tt)
        (applied-among rows [] h (inr e))
