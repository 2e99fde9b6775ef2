-- ===== src/Exclusivity.antt =====
-- Package managers that may not work on one path: _validate_package_manager_exclusivity and
-- _validate_gitsubmodule_exclusivity of cachito/web/models.py. `os.path.normpath` is a parameter.
pub mod Pairs
pub mod Tests
use cachito.Base.{
  Bool, true, false, not, ◌&&◌, ◌||◌, Option, none, some, List, [], ◌∷◌, ◌==◌, contains, nat_eq,
  list_eq, pair_eq, any, if◌then◌else◌,
}
use cachito.Base.Text.{Text, text}
use cachito.Base.Dict.{Dict, lookup, insert}
use cachito.Base.Partial.{◌>>=◌}

-- The value at "path": absent, null, or a text.
pub data ConfigPath : Type 0 where
  absent : ConfigPath
  null : ConfigPath
  path : Text → ConfigPath

abbrev pub git_submodule : Text
git_submodule = text "git-submodule"

-- `os.path.normpath(pkg_cfg.get("path", "."))`; none is `TypeError`.
abbrev pub config_path : (Text → Text) → ConfigPath → Option Text
config_path normpath absent = some (normpath (text "."))
config_path normpath null = none
config_path normpath (path p) = some (normpath p)

unfoldable pub config_paths : (Text → Text) → List ConfigPath → Option (List Text)
config_paths normpath [] = some []
config_paths normpath (c ∷ cs) =
    let rest = config_paths normpath cs in
    config_path normpath c >>= λ p. rest >>= λ ps. some (p ∷ ps)

-- `package_configs.get(pkg_manager, [{}])`
abbrev pub configs_of : Dict Text (List ConfigPath) → Text → List ConfigPath
configs_of configs name = elim (lookup name configs) [ none ↦ absent ∷ [] | some cs ↦ cs ]

-- The comprehension of `pkg_manager_paths`, with the entries made so far.
unfoldable pub manager_paths :
    (Text → Text)
    → Dict Text (List ConfigPath)
    → Dict Text (List Text)
    → List Text
    → Option (Dict Text (List Text))
unfolding config_paths
manager_paths normpath configs d [] = some d
manager_paths normpath configs d (n ∷ ns) =
    let skipped = manager_paths normpath configs d ns in
    let added = config_paths normpath (configs_of configs n) >>= λ ps.
    manager_paths normpath configs (insert n ps d) ns in
    if n == git_submodule then skipped else added

-- `(a, b) in mutually_exclusive or (b, a) in mutually_exclusive`
abbrev pub is_exclusive : List (Text × Text) → Text → Text → Bool
is_exclusive pairs a b = contains pairs (a, b) || contains pairs (b, a)

-- `bool(paths_a & paths_b)`
abbrev pub meet : List Text → List Text → Bool
meet a b = any (contains b) a

abbrev pub is_root : Text → Bool
is_root p = p == text "."

-- `_validate_gitsubmodule_exclusivity` raises.
unfoldable pub submodule_conflict : List (Text × Text) → Dict Text (List Text) → Bool
submodule_conflict pairs [] = false
submodule_conflict pairs ((a, ps) ∷ d) =
    let rest = submodule_conflict pairs d in
    if not (is_exclusive pairs a git_submodule)
    then rest
    else if any (λ p. not (is_root p)) ps
    then true
    else rest

-- The pairs (a, b) of `itertools.combinations` for one a.
unfoldable pub conflicts_with : List (Text × Text) → Text → List Text → Dict Text (List Text) → Bool
conflicts_with pairs a ps [] = false
conflicts_with pairs a ps ((b, qs) ∷ d) =
    let rest = conflicts_with pairs a ps d in
    if not (is_exclusive pairs a b) then rest else if meet ps qs then true else rest

unfoldable pub path_conflict : List (Text × Text) → Dict Text (List Text) → Bool
unfolding conflicts_with
path_conflict pairs [] = false
path_conflict pairs ((a, ps) ∷ d) =
    let rest = path_conflict pairs d in if conflicts_with pairs a ps d then true else rest

pub data Exclusivity : Type 0 where
  valid : Exclusivity
  type_error : Exclusivity
  submodule_error : Exclusivity
  path_error : Exclusivity

-- The checks on the paths of the managers.
unfoldable pub check_paths : List (Text × Text) → Bool → Dict Text (List Text) → Exclusivity
unfolding submodule_conflict path_conflict
check_paths pairs has_submodules d =
    if has_submodules && submodule_conflict pairs d
    then submodule_error
    else if path_conflict pairs d
    then path_error
    else valid

unfoldable pub validate_package_manager_exclusivity :
    (Text → Text) → List (Text × Text) → List Text → Dict Text (List ConfigPath) → Exclusivity
unfolding manager_paths check_paths
validate_package_manager_exclusivity normpath pairs names configs =
    elim (manager_paths normpath configs [] names) [
      | none ↦ type_error
      | some d ↦ check_paths pairs (contains names git_submodule) d
    ]
