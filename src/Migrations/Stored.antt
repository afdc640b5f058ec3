-- ===== src/Migrations/Stored.antt =====
-- app/bootstrap/migration.py: storing the sources of revisions up to the head records upgrades to them,
-- and one to the head if its source is found.
use amsz_web.Migrations.Recorded.{Below, Recorded}
use amsz_web.Migrations.Sources.{
  SchemaRow, is_among, is_upgrade_of, has_upgrade, with_source, store_source, store_sources,
  source_of, ScriptDirectory, upgrade_row,
}
use amsz_web.Base.{
  String, Option, none, some, List, [], ◌∷◌, ◌++◌, map, str_eq, ◌≡◌, ◌⊎◌, inl, inr, refl, All, true,
  false, Bool-cases, str_eq_iff, str_eq_refl, sym, ◌||◌, Bool, subst, All-append,
}

or_false : (a : Bool) → (a || false) ≡ a
or_false true = refl
or_false false = refl

or_assoc : (a b c : Bool) → (a || (b || c)) ≡ ((a || b) || c)
or_assoc true b c = refl
or_assoc false b c = refl

module _ (head : String) where
  upgrade_of-with_source :
      (v w t : String) (q : SchemaRow) → is_upgrade_of v (with_source w t q) ≡ is_upgrade_of v q
  upgrade_of-with_source v w t q = elim (Bool-cases (is_upgrade_of w q)) [
    | inl y ↦ rw y refl
    | inr n ↦ rw n refl
  ]

  has_upgrade-with_source :
      (v w t : String) (rows : List SchemaRow)
      → has_upgrade v (map (with_source w t) rows) ≡ has_upgrade v rows
  has_upgrade-with_source v w t [] = refl
  has_upgrade-with_source v w t (q ∷ rows) =
      rw (upgrade_of-with_source v w t q, has_upgrade-with_source v w t rows) refl

  Recorded-with_source :
      (w t : String) (q : SchemaRow) → Recorded head q → Recorded head (with_source w t q)
  Recorded-with_source w t q h = elim (Bool-cases (is_upgrade_of w q)) [
    | inl y ↦ rw y (record { upgrade = h.upgrade; below = h.below })
    | inr n ↦ rw n h
  ]

  All-with_source :
      (w t : String) (rows : List SchemaRow)
      → All (Recorded head) rows
      → All (Recorded head) (map (with_source w t) rows)
  All-with_source w t [] h = tt
  All-with_source w t (q ∷ rows) h = (Recorded-with_source w t q h.0, All-with_source w t rows h.1)

  has_upgrade-append :
      (v : String) (rows : List SchemaRow) (q : SchemaRow)
      → has_upgrade v (rows ++ (q ∷ [])) ≡ (has_upgrade v rows || is_upgrade_of v q)
  has_upgrade-append v [] q = or_false (is_upgrade_of v q)
  has_upgrade-append v (p ∷ rows) q =
      rw (has_upgrade-append v rows q)
        (or_assoc (is_upgrade_of v p) (has_upgrade v rows) (is_upgrade_of v q))

  store_source-All :
      (v : String) (o : Option String) (rows : List SchemaRow)
      → Below head v
      → All (Recorded head) rows
      → All (Recorded head) (store_source v o rows)
  store_source-All v none rows b h = h
  store_source-All v (some t) rows b h = elim (Bool-cases (has_upgrade v rows)) [
    | inl y ↦ rw y (All-with_source v t rows h)
    | inr n ↦ rw n (
        All-append (Recorded head) rows (upgrade_row v "upgrade" (some t) ∷ []) h
          (record { upgrade = refl; below = b }, tt))
  ]

  store_source-keeps :
      (v : String) (o : Option String) (rows : List SchemaRow)
      → has_upgrade head rows ≡ true
      → has_upgrade head (store_source v o rows) ≡ true
  store_source-keeps v none rows e = e
  store_source-keeps v (some t) rows e = elim (Bool-cases (has_upgrade v rows)) [
    | inl y ↦ rw (y, has_upgrade-with_source head v t rows) e
    | inr n ↦ rw (n, has_upgrade-append head rows (upgrade_row v "upgrade" (some t)), e) refl
  ]

  store_source-head :
      (t : String) (rows : List SchemaRow)
      → has_upgrade head (store_source head (some t) rows) ≡ true
  store_source-head t rows = elim (Bool-cases (has_upgrade head rows)) [
    | inl y ↦ rw (y, has_upgrade-with_source head head t rows) y
    | inr n ↦
        rw
          (
            n,
            has_upgrade-append head rows (upgrade_row head "upgrade" (some t)),
            n,
            str_eq_refl head,
          )
          refl
  ]

  -- the head's source is there
  module _ (dir : ScriptDirectory) (t : String) (found : source_of dir head ≡ some t) where
    pub store_sources-All :
        (vs : List String) (rows : List SchemaRow)
        → All (Below head) vs
        → All (Recorded head) rows
        → All (Recorded head) (store_sources dir vs rows)
    unfolding store_sources
    store_sources-All [] rows b h = h
    store_sources-All (v ∷ vs) rows b h =
        store_sources-All vs (store_source v (source_of dir v) rows) b.1
          (store_source-All v (source_of dir v) rows b.0 h)

    pub store_sources-head :
        (vs : List String) (rows : List SchemaRow)
        → (has_upgrade head rows ≡ true) ⊎ (is_among head vs ≡ true)
        → has_upgrade head (store_sources dir vs rows) ≡ true
    unfolding store_sources
    store_sources-head [] rows (inl e) = e
    store_sources-head [] rows (inr e) = absurd (cc e)
    store_sources-head (v ∷ vs) rows i =
        store_sources-head vs (store_source v (source_of dir v) rows) (elim i [
          | inl e ↦ inl (store_source-keeps v (source_of dir v) rows e)
          | inr e ↦ elim (Bool-cases (str_eq v head)) [
            | inl y ↦ inl (
                subst (λ x. has_upgrade head (store_source x (source_of dir x) rows) ≡ true)
                  (sym ((str_eq_iff v head).0 y)) (rw found (store_source-head t rows)))
            | inr n ↦ inr (rw n at e)
          ]
        ])
