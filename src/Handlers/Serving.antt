-- ===== src/Handlers/Serving.antt =====
-- workers/registry.py: no handler of a profile is hidden by another one.
use amsz_web.Base.{
  ◌++◌, List, ◌≡◌, String, some, All, ◌∷◌, [], false, is_some, arith, Bool-cases, Option-cases,
  subst, none, inl, str_eq, inr, refl, str_eq_iff,
}
use amsz_web.Handlers.Registry.{
  Handlers, handler_of, overlaps, merge_all, groups_of, build_handler_registry,
}
use amsz_web.Session.{Result, ok, err, ok-injective}

module _ {ℓ} {H : Type ℓ} where
  -- a registry that has every handler of a mapping
  abbrev pub Serves : Handlers H → Handlers H → Type ℓ
  Serves registry handlers =
      (k : String) (h : H) → handler_of k handlers ≡ some h → handler_of k registry ≡ some h

  overlaps-is_some :
      (registry handlers : Handlers H) (k : String) (h : H)
      → overlaps registry handlers ≡ false
      → handler_of k handlers ≡ some h
      → is_some (handler_of k registry) ≡ false
  overlaps-is_some registry [] k h n e = cc e
  overlaps-is_some registry ((j, g) ∷ rest) k h n e = elim (Bool-cases (str_eq j k)) [
    | inl hit ↦
        subst (λ i. is_some (handler_of i registry) ≡ false) ((str_eq_iff j k).0 hit) (ground arith)
    | inr miss ↦ overlaps-is_some registry rest k h (ground arith) (rw miss at e)
  ]

  handler_of-append :
      (k : String) (xs ys : Handlers H)
      → handler_of k (xs ++ ys)
        ≡ elim (handler_of k xs) [ some h ↦ some h | none ↦ handler_of k ys ]
  handler_of-append k [] ys = refl
  handler_of-append k ((j, g) ∷ rest) ys = ground (arith, handler_of-append k rest ys)

  merge-keeps : (registry handlers : Handlers H) → Serves (registry ++ handlers) registry
  merge-keeps registry handlers k h e = rw (handler_of-append k registry handlers, e) refl

  merge-adds :
      (registry handlers : Handlers H)
      → overlaps registry handlers ≡ false
      → Serves (registry ++ handlers) handlers
  merge-adds registry handlers n k h e = elim (Option-cases (handler_of k registry)) [
    | inl none_there ↦ rw (handler_of-append k registry handlers, none_there) e
    | inr (g, there) ↦ cc (rw there at (overlaps-is_some registry handlers k h n e))
  ]

  Merged : Handlers H → List (Handlers H) → Result (Handlers H) → Type ℓ
  Merged registry groups (ok r) = Serves r registry × All (Serves r) groups
  Merged registry groups (err e) = Unit

  Merged-next :
      (registry handlers : Handlers H) (groups : List (Handlers H)) (r : Result (Handlers H))
      → overlaps registry handlers ≡ false
      → Merged (registry ++ handlers) groups r
      → Merged registry (handlers ∷ groups) r
  unfolding Merged
  Merged-next registry handlers groups (ok r) n m = (
    (λ k h e. m.0 k h (merge-keeps registry handlers k h e)),
    ((λ k h e. m.0 k h (merge-adds registry handlers n k h e)), m.1),
  )
  Merged-next registry handlers groups (err e) n m = tt

  merge_all-Merged :
      (registry : Handlers H) (groups : List (Handlers H))
      → Merged registry groups (merge_all registry groups)
  unfolding Merged merge_all
  merge_all-Merged registry [] = ((λ k h e. e), tt)
  merge_all-Merged registry (handlers ∷ groups) = elim (Bool-cases (overlaps registry handlers)) [
    | inl y ↦ rw y tt
    | inr n ↦
        rw n (
          Merged-next registry handlers groups _ n (merge_all-Merged (registry ++ handlers) groups))
  ]

  All-Serves :
      (groups : List (Handlers H)) (r : Handlers H) (x : Result (Handlers H))
      → x ≡ ok r
      → Merged [] groups x
      → All (Serves r) groups
  unfolding Merged
  All-Serves groups r (ok q) e m = subst (λ z. All (Serves z) groups) (ok-injective e) m.1
  All-Serves groups r (err x) e m = cc e

  -- The registry of a profile has every handler of every module of the profile under its task type: no
  -- module hides the handler of another one.
  pub build_handler_registry-Serves :
      (basic batch polymarket szdm : Handlers H) (profile : String) (groups : List (Handlers H))
      (r : Handlers H)
      → groups_of basic batch polymarket szdm profile ≡ some groups
      → build_handler_registry basic batch polymarket szdm profile ≡ ok r
      → All (Serves r) groups
  unfolding build_handler_registry
  build_handler_registry-Serves basic batch polymarket szdm profile groups r g e =
      All-Serves groups r (merge_all [] groups) (rw g at e) (merge_all-Merged [] groups)
