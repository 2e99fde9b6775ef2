-- ===== src/Packages.antt =====
-- The collection of resolved packages: cachito/common/packages_data.py.
-- A dependency keeps the keys that this file reads; `rest` carries the other keys along.
-- `sort`, `sorted` and what calls them raise `TypeError` (none) where two packages that are compared
-- differ in one version being `None`: Python orders a text against no `None`.
pub mod Unique
pub mod Index
pub mod RoundTrip
pub mod Tests
use cachito.Base.{
  Bool, true, false, ◌&&◌, Option, none, some, List, [], ◌∷◌, ◌++◌, map, Eq, ◌==◌, contains, nat_eq,
  bool_eq, list_eq, option_eq, pair_eq, if◌then◌else◌, all,
}
use cachito.Base.Text.{Text, text, is_empty}
use cachito.Base.Dict.{is_some}
use cachito.Base.Partial.{◌>>=◌}
use cachito.Base.Order.{Ord, nat_ord, bool_ord, list_ord, option_ord, pair_ord}
use cachito.Base.Sort.{sort as sort_by}

pub record Dependency : Type 0 where
  pub name : Text
  pub kind : Text
  pub version : Option Text
  pub dev : Option Bool
  pub rest : List (Text × Text)

pub record Package : Type 0 where
  pub name : Text
  pub kind : Text
  pub version : Option Text
  pub dependencies : List Dependency
  pub path : Option Text

-- (type, dev, name, version)
abbrev pub SortKey : Type 0
SortKey = Text × (Bool × (Text × Option Text))

-- (name, type, version)
abbrev pub IndexKey : Type 0
IndexKey = Text × (Text × Option Text)

-- `package.get("dev", False)`
abbrev pub is_dev : Option Bool → Bool
is_dev none = false
is_dev (some b) = b

abbrev pub dep_key : Dependency → SortKey
dep_key d = (d.kind, (is_dev d.dev, (d.name, d.version)))

-- `add_package` stores no `dev`.
abbrev pub package_key : Package → SortKey
package_key p = (p.kind, (false, (p.name, p.version)))

-- Python can order the two keys.
abbrev pub comparable : SortKey → SortKey → Bool
comparable (t, (d, (n, v))) (t', (d', (n', v'))) =
    if t == t' && d == d' && n == n' then is_some v == is_some v' else true

abbrev pub all_comparable : List SortKey → Bool
all_comparable ks = all (λ k. all (comparable k) ks) ks

unfoldable pub sorted : {A : Type 0} → (A → SortKey) → List A → Option (List A)
sorted key xs = if all_comparable (map key xs) then some (sort_by key xs) else none

unfoldable pub package_equal : Option Dependency → Dependency → Bool
package_equal none right = false
package_equal (some left) right =
    left.name == right.name
    && left.kind == right.kind
    && left.version == right.version
    && is_dev left.dev == is_dev right.dev

-- The loop of `unique_packages`; the first argument is `packages[i]`, the one yielded last.
unfoldable pub unique_from : Option Dependency → List Dependency → List Dependency
unfolding package_equal
unique_from left [] = []
unique_from left (right ∷ packages) =
    let skipped = unique_from left packages in
    let yielded = right ∷ unique_from (some right) packages in
    if package_equal left right then skipped else yielded

unfoldable pub unique_packages : List Dependency → List Dependency
unfolding unique_from
unique_packages = unique_from none

pub record PackagesData : Type 0 where
  pub index : List IndexKey
  pub packages : List Package

abbrev pub empty : PackagesData
empty = record { index = []; packages = [] }

pub data Added : Type 0 where
  ok : PackagesData → Added
  duplicate_package : Added

abbrev pub curdir : Text
curdir = text "."

abbrev pub index_key : Package → IndexKey
index_key p = (p.name, (p.kind, p.version))

-- `pkg_info` is the first three arguments.
unfoldable pub add_package :
    PackagesData → Text → Text → Option Text → Text → List Dependency → Added
add_package pd name kind version path deps =
    let key : IndexKey = (name, (kind, version)) in
    let pkg : Package = record {
      name = name;
      kind = kind;
      version = version;
      dependencies = deps;
      path = if path == curdir then none else some path;
    } in
    if contains pd.index key
    then duplicate_package
    else ok (record { index = key ∷ pd.index; packages = pd.packages ++ pkg ∷ [] })

all_deps : List Package → List Dependency
all_deps [] = []
all_deps (p ∷ ps) = p.dependencies ++ all_deps ps

unfoldable pub gathered : PackagesData → List Dependency
unfolding all_deps
gathered pd = all_deps pd.packages

unfoldable pub all_dependencies : PackagesData → Option (List Dependency)
unfolding gathered sorted unique_packages
all_dependencies pd = do deps ← sorted dep_key (gathered pd); some (unique_packages deps)

-- `deps.sort()` for a package with dependencies.
unfoldable pub sort_package : Package → Option Package
unfolding sorted
sort_package p =
    if is_empty p.dependencies
    then some p
    else (do deps ← sorted dep_key p.dependencies; some (record p { dependencies = deps }))

unfoldable pub sort_packages : List Package → Option (List Package)
unfolding sort_package
sort_packages [] = some []
sort_packages (p ∷ ps) = do q ← sort_package p; qs ← sort_packages ps; some (q ∷ qs)

unfoldable pub sort : PackagesData → Option PackagesData
unfolding sorted sort_packages
sort pd = do
  ps ← sorted package_key pd.packages
  qs ← sort_packages ps
  some (record pd { packages = qs })

-- What `load` can find: no file, a JSON object with no "packages", or the packages.
pub data Stored : Type 0 where
  missing : Stored
  without_packages : Stored
  stored : List Package → Stored

-- The object after `write_to_file`, and what the file then holds.
unfoldable pub write_to_file : PackagesData → Option (PackagesData × Stored)
unfolding sort
write_to_file pd = do pd' ← sort pd; some (pd', stored pd'.packages)

-- `p.get("path", os.curdir)`
abbrev pub path_of : Package → Text
path_of p = elim p.path [ none ↦ curdir | some path ↦ path ]

-- The loop of `load`: the object as it is then, and whether an exception ends the loop.
unfoldable pub load_packages : PackagesData → List Package → PackagesData × Bool
unfolding add_package
load_packages pd [] = (pd, false)
load_packages pd (p ∷ ps) =
    elim (add_package pd p.name p.kind p.version (path_of p) p.dependencies) [
      | duplicate_package ↦ (pd, true)
      | ok pd' ↦ load_packages pd' ps
    ]

unfoldable pub load : PackagesData → Stored → PackagesData × Bool
unfolding load_packages
load pd missing = (pd, false)
load pd without_packages = (pd, false)
load pd (stored ps) = load_packages pd ps
