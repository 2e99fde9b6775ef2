-- ===== src/Gomod/LocalDeps.antt =====
-- Dependencies replaced by a local path: _vet_local_file_dep_paths and _set_full_local_dep_relpaths
-- of cachito/workers/pkg_managers/gomod.py.
use cachito.Base.{
  Bool, false, ◌||◌, Option, none, some, List, [], ◌∷◌, ◌++◌, map, if◌then◌else◌, filter,
}
use cachito.Base.Text.{Text, text, is_empty, starts_with, ends_with}
use cachito.Base.Partial.{◌>>=◌}
use cachito.Gomod.Names.{path_to_subpackage, match_parent_module}

-- A dependency as the source's dictionary; the standard library has no version.
pub record Dep : Type 0 where
  pub name : Text
  pub version : Option Text

pub record Module : Type 0 where
  pub name : Text
  pub version : Text

-- `os.path.join` of the standard library.
abbrev pub join_path : Text → Text → Text
join_path a b =
    if starts_with b (text "/")
    then b
    else if is_empty a || ends_with a (text "/")
    then a ++ b
    else a ++ (text "/" ++ b)

abbrev pub is_local : Text → Bool
is_local version = starts_with version (text ".")

-- `not dep_path or not dep_path.startswith(".")`, negated.
abbrev pub has_local_path : Dep → Bool
has_local_path d = elim d.version [ none ↦ false | some v ↦ is_local v ]

abbrev pub locally_replaced : List Module → List Text
locally_replaced ms = map (λ m. m.name) (filter (λ m. is_local m.version) ms)

-- The end of the loop's body, for a local dependency; none is `RuntimeError`.
unfoldable pub set_relpath : List Text → Dep → Text → Option Dep
set_relpath names dep path = match_parent_module dep.name names >>= λ m.
    path_to_subpackage m dep.name >>= λ rest.
    some (if is_empty rest then dep else record dep { version = some (join_path path rest) })

-- The body of the loop, by the version of the dependency.
unfoldable pub set_version : List Text → Dep → Option Text → Option Dep
unfolding set_relpath
set_version names dep none = some dep
set_version names dep (some path) = if is_local path then set_relpath names dep path else some dep

unfoldable pub set_dep : List Text → Dep → Option Dep
unfolding set_version
set_dep names dep = set_version names dep dep.version

unfoldable pub set_relpaths : List Text → List Dep → Option (List Dep)
unfolding set_dep
set_relpaths names [] = some []
set_relpaths names (dep ∷ deps) =
    let rest = set_relpaths names deps in set_dep names dep >>= λ d. rest >>= λ ds. some (d ∷ ds)

unfoldable pub set_full_local_dep_relpaths : List Dep → List Module → Option (List Dep)
unfolding set_relpaths
set_full_local_dep_relpaths pkg_deps main_module_deps =
    set_relpaths (locally_replaced main_module_deps) pkg_deps

pub data VetError : Type 0 where
  outside_repository : Text → VetError
  absolute_path : Text → VetError

-- `inside v` stands for `Path(app_source_path, v).resolve().is_relative_to(git_dir_path.resolve())`,
-- which asks the file system, and `windows_root v` for `bool(PureWindowsPath(v).root)`.
unfoldable pub vet_local_file_dep_paths : (Text → Bool) → (Text → Bool) → List Dep → Option VetError
vet_local_file_dep_paths inside windows_root [] = none
vet_local_file_dep_paths inside windows_root (dep ∷ deps) =
    let rest = vet_local_file_dep_paths inside windows_root deps in
    elim dep.version [
      | none ↦ rest
      | some v ↦
          if is_empty v
          then rest
          else if is_local v
          then (if inside v then rest else some (outside_repository v))
          else if starts_with v (text "/") || windows_root v
          then some (absolute_path v)
          else rest
    ]
