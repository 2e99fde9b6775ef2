-- ===== src/Exclusivity/Tests.antt =====
-- Runs of the check of exclusivity, and the theorem about it at concrete data.
use cachito.Base.{
  ◌≡◌, refl, true, false, some, List, [], ◌∷◌, ◌==◌, contains, nat_eq, list_eq, all, equalities,
}
use cachito.Base.Text.{Text, text}
use cachito.Base.Dict.{Dict, lookup, insert}
use cachito.Exclusivity.{
  ConfigPath, null, path, git_submodule, is_exclusive, is_root, valid, type_error, submodule_error,
  path_error, validate_package_manager_exclusivity,
}
use cachito.Exclusivity.Pairs.{Apart, paths_of, validate_package_manager_exclusivity_lem}

abbrev npm : Text
npm = text "npm"

abbrev yarn : Text
yarn = text "yarn"

abbrev gomod : Text
gomod = text "gomod"

abbrev pairs : List (Text × Text)
pairs = (npm, yarn) ∷ (gomod, git_submodule) ∷ []

-- The paths of the runs are normal already.
abbrev same : Text → Text
same p = p

abbrev client : Dict Text (List ConfigPath)
client = (npm, path (text "client") ∷ []) ∷ []

separate : validate_package_manager_exclusivity same pairs (npm ∷ yarn ∷ []) client ≡ valid
unfolding validate_package_manager_exclusivity lookup insert equalities
separate = refl

both_at_root : validate_package_manager_exclusivity same pairs (npm ∷ yarn ∷ []) [] ≡ path_error
unfolding validate_package_manager_exclusivity lookup insert equalities
both_at_root = refl

below_submodules :
    validate_package_manager_exclusivity same pairs
      (git_submodule ∷ gomod ∷ [])
      ((gomod, path (text "sub") ∷ []) ∷ [])
    ≡ submodule_error
unfolding validate_package_manager_exclusivity lookup insert equalities
below_submodules = refl

null_path :
    validate_package_manager_exclusivity same pairs (npm ∷ []) ((npm, null ∷ []) ∷ []) ≡ type_error
unfolding validate_package_manager_exclusivity lookup insert equalities
null_path = refl

npm_is_named : contains (npm ∷ yarn ∷ []) npm ≡ true
unfolding equalities
npm_is_named = refl

npm_is_other : (npm == git_submodule) ≡ false
unfolding equalities
npm_is_other = refl

validate_package_manager_exclusivity_lem_example :
    (ps : List Text) × (paths_of same client npm ≡ some ps)
    × ((b : Text) (qs : List Text)
        → contains (npm ∷ yarn ∷ []) b ≡ true
        → (b == git_submodule) ≡ false
        → (npm == b) ≡ false
        → is_exclusive pairs npm b ≡ true
        → paths_of same client b ≡ some qs
        → Apart ps qs)
    × (contains (npm ∷ yarn ∷ []) git_submodule ≡ true
        → is_exclusive pairs npm git_submodule ≡ true
        → all is_root ps ≡ true)
validate_package_manager_exclusivity_lem_example =
    validate_package_manager_exclusivity_lem same client pairs (npm ∷ yarn ∷ []) npm separate
      npm_is_named npm_is_other
