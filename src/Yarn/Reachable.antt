-- ===== src/Yarn/Reachable.antt =====
-- The non-dev dependencies of a package: _find_non_dev_deps, _add_reachable_deps,
-- _expand_yarn_lock_keys and _split_yarn_lock_key of cachito/workers/pkg_managers/yarn.py. A set is a
-- list. The search runs on fuel, one unit for each dependency that is taken from the queue.
use cachito.Base.{
  ℕ, zero, suc, Bool, not, ◌&&◌, Option, none, some, List, [], ◌∷◌, ◌++◌, contains, nat_eq, list_eq,
  if◌then◌else◌, ◌==◌, filter, drop,
}
use cachito.Base.Text.{Text, text, starts_with}
use cachito.Base.Dict.{Dict, lookup, insert}
use cachito.Base.Partial.{◌>>=◌}

-- `s.split(", ")`
abbrev pub add_char : ℕ → List Text → List Text
add_char c [] = (c ∷ []) ∷ []
add_char c (part ∷ parts) = (c ∷ part) ∷ parts

abbrev pub drop_blank : List Text → List Text
drop_blank [] = []
drop_blank (part ∷ parts) = drop 1 part ∷ parts

unfoldable pub split_commas : Text → List Text
split_commas [] = [] ∷ []
split_commas (c ∷ s) =
    let rest = split_commas s in
    if c == b',' && starts_with s (text " ") then [] ∷ drop_blank rest else add_char c rest

unfoldable pub split_yarn_lock_key : Text → List Text
unfolding split_commas
split_yarn_lock_key dep_identifier = split_commas (filter (λ c. not (c == b'"')) dep_identifier)

-- `f"{name}@{version}"` of the items of a dictionary.
abbrev pub dep_ids : Dict Text Text → List Text
dep_ids [] = []
dep_ids ((name, version) ∷ d) = (name ++ (b'@' ∷ version)) ∷ dep_ids d

-- A package.json by the names of its dictionaries of dependencies.
abbrev pub PackageJson : Type 0
PackageJson = Dict Text (Dict Text Text)

abbrev pub deps_of : Option (Dict Text Text) → List Text
deps_of none = []
deps_of (some d) = dep_ids d

abbrev pub ids_of_type : Text → List PackageJson → List Text
ids_of_type dep_type [] = []
ids_of_type dep_type (json ∷ jsons) = deps_of (lookup dep_type json) ++ ids_of_type dep_type jsons

unfoldable pub root_dep_ids : List PackageJson → List Text
root_dep_ids jsons =
    ids_of_type (text "dependencies") jsons
    ++ (ids_of_type (text "peerDependencies") jsons
        ++ ids_of_type (text "optionalDependencies") jsons)

-- `visited_deps.add(dep)`
abbrev pub set_add : Text → List Text → List Text
set_add dep visited = if contains visited dep then visited else dep ∷ visited

-- The loop over the queue, for the dependencies of each package.
unfoldable pub search : (Text → List Text) → ℕ → List Text → List Text → Option (List Text)
search next zero [] visited = some visited
search next zero (dep ∷ queue) visited = none
search next (suc fuel) [] visited = some visited
search next (suc fuel) (dep ∷ queue) visited =
    let seen = set_add dep visited in
    search next fuel (queue ++ filter (λ d. not (contains seen d)) (next dep)) seen

-- The loop over the dependencies of the package itself.
unfoldable pub search_all : (Text → List Text) → ℕ → List Text → List Text → Option (List Text)
unfolding search
search_all next fuel [] visited = some visited
search_all next fuel (dep ∷ deps) visited =
    (if contains visited dep then some visited else search next fuel (dep ∷ []) visited)
    >>= search_all next fuel deps

module _ {Info : Type 0} where
  abbrev pub set_all : List Text → Info → Dict Text Info → Dict Text Info
  set_all [] info d = d
  set_all (key ∷ keys) info d = set_all keys info (insert key info d)

  unfoldable pub expand_from : Dict Text Info → Dict Text Info → Dict Text Info
  unfolding split_yarn_lock_key
  expand_from d [] = d
  expand_from d ((multi_key, info) ∷ lock) =
      expand_from (set_all (split_yarn_lock_key multi_key) info d) lock

  unfoldable pub expand_yarn_lock_keys : Dict Text Info → Dict Text Info
  unfolding expand_from
  expand_yarn_lock_keys = expand_from []

-- What yarn.lock says of a dependency is of pyarn's: whether it is not empty, and the dependencies of
-- the package that pyarn makes of it.
module _ {Info : Type 0} (not_empty : Info → Bool)
    (dependencies : Text → Info → Dict Text Text) where
  abbrev pub ids_of_info : Text → Option Info → List Text
  ids_of_info dep none = []
  ids_of_info dep (some info) = if not_empty info then dep_ids (dependencies dep info) else []

  abbrev pub next_deps : Dict Text Info → Text → List Text
  next_deps lock dep = ids_of_info dep (lookup dep lock)

  unfoldable pub find_non_dev_deps :
      ℕ → PackageJson → List PackageJson → Dict Text Info → Option (List Text)
  unfolding expand_yarn_lock_keys root_dep_ids search_all
  find_non_dev_deps fuel main workspaces lock =
      search_all (next_deps (expand_yarn_lock_keys lock)) fuel (root_dep_ids (main ∷ workspaces)) []
