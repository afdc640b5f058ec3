-- ===== src/Handlers/Registry.antt =====
-- workers/registry.py: the handlers of a profile, by task type. A handler is an entry of any type.
use amsz_web.Base.{
  if◌then◌else◌, String, List, Bool, Option, ◌++◌, ◌∷◌, false, str_eq, [], append, none, is_some,
  some, ◌||◌,
}
use amsz_web.Session.{Result, ok, err, Error, ◌>>=◌}

-- a mapping from task types to handlers, in the order of insertion
abbrev pub Handlers {ℓ} : Type ℓ → Type ℓ
Handlers H = List (String × H)

module _ {ℓ} {H : Type ℓ} where
  abbrev pub handler_of : String → Handlers H → Option H
  handler_of name [] = none
  handler_of name ((k, h) ∷ rest) = if str_eq k name then some h else handler_of name rest

  -- set(registry).intersection(handlers), by whether it is empty
  abbrev pub overlaps : Handlers H → Handlers H → Bool
  overlaps registry [] = false
  overlaps registry ((k, h) ∷ rest) = is_some (handler_of k registry) || overlaps registry rest

  -- _merge_handler_map, with registry.update
  abbrev pub merge_handler_map : Handlers H → Handlers H → Result (Handlers H)
  merge_handler_map registry handlers =
      if overlaps registry handlers
      then err (Error.invalid "Duplicate worker task type registrations")
      else ok (registry ++ handlers)

  unfoldable pub merge_all : Handlers H → List (Handlers H) → Result (Handlers H)
  merge_all registry [] = ok registry
  merge_all registry (handlers ∷ groups) =
      merge_handler_map registry handlers >>= λ merged. merge_all merged groups

  -- PROFILE_MODULE_MAP.get(profile), over the four maps of the modules
  abbrev pub groups_of :
      (basic batch polymarket szdm : Handlers H) → String → Option (List (Handlers H))
  groups_of basic batch polymarket szdm profile =
      if str_eq profile "default" || str_eq profile "all"
      then some (basic ∷ batch ∷ polymarket ∷ szdm ∷ [])
      else if str_eq profile "basic"
      then some (basic ∷ [])
      else if str_eq profile "batch"
      then some (batch ∷ [])
      else if str_eq profile "integrations"
      then some (polymarket ∷ [])
      else if str_eq profile "szdm"
      then some (szdm ∷ [])
      else none

  abbrev merge_groups : String → Option (List (Handlers H)) → Result (Handlers H)
  merge_groups profile none =
      err (Error.invalid (append "Unknown worker profile '" (append profile "'")))
  merge_groups profile (some groups) = merge_all [] groups

  unfoldable pub build_handler_registry :
      (basic batch polymarket szdm : Handlers H) → String → Result (Handlers H)
  build_handler_registry basic batch polymarket szdm profile =
      merge_groups profile (groups_of basic batch polymarket szdm profile)
