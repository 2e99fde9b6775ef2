-- ===== src/Yarn/Replace.antt =====
-- The replacement of dependencies by those in Nexus: _match_to_new_version,
-- _replace_deps_in_package_json, _replace_deps_in_yarn_lock and _pick_strongest_crypto_hash of
-- cachito/workers/pkg_managers/yarn.py.
use cachito.Base.{
  ℕ, Bool, true, false, ◌||◌, Option, none, some, List, [], ◌∷◌, ◌++◌, nat_eq, list_eq,
  if◌then◌else◌, ◌==◌, ltb, contains,
}
use cachito.Base.Text.{Text, text, is_empty, split}
use cachito.Base.Words.{words}
use cachito.Base.Dict.{Dict, lookup, insert}
use cachito.Yarn.Reachable.{PackageJson, expand_yarn_lock_keys}

-- A replacement's version and integrity.
pub record Replacement : Type 0 where
  pub version : Text
  pub integrity : Option Text

abbrev pub version_of : Option Replacement → Option Text
version_of none = none
version_of (some r) = if is_empty r.version then none else some r.version

-- The new version, where there is one that is not empty.
unfoldable pub match_to_new_version : Dict Text Replacement → Text → Text → Option Text
match_to_new_version expanded name version = version_of (lookup (name ++ (b'@' ∷ version)) expanded)

-- The loop over the dependencies of one kind: the values are replaced in place, and whether any was.
abbrev pub replaced_or : Text → Option Text → Text × Bool
replaced_or version none = (version, false)
replaced_or version (some new_version) = (new_version, true)

unfoldable pub replace_versions : Dict Text Replacement → Dict Text Text → Dict Text Text × Bool
unfolding match_to_new_version
replace_versions expanded [] = ([], false)
replace_versions expanded ((name, version) ∷ deps) =
    let (rest, modified) = replace_versions expanded deps in
    let (new_version, replaced) =
      replaced_or version (match_to_new_version expanded name version) in
    ((name, new_version) ∷ rest, replaced || modified)

abbrev pub replaced_types : List Text
replaced_types =
    text "dependencies"
    ∷ text "devDependencies"
    ∷ text "optionalDependencies"
    ∷ text "peerDependencies"
    ∷ []

-- The dictionaries of a package.json, which has each kind of dependencies once.
unfoldable pub replace_json : Dict Text Replacement → PackageJson → PackageJson × Bool
unfolding replace_versions
replace_json expanded [] = ([], false)
replace_json expanded ((dep_type, deps) ∷ json) =
    let (rest, modified) = replace_json expanded json in
    let (new_deps, replaced) =
      if contains replaced_types dep_type then replace_versions expanded deps else (deps, false) in
    ((dep_type, new_deps) ∷ rest, replaced || modified)

-- None stands for a file that is not modified.
unfoldable pub replace_deps_in_package_json :
    PackageJson → Dict Text Replacement → Option PackageJson
unfolding replace_json expand_yarn_lock_keys
replace_deps_in_package_json json replacements =
    let (new_json, modified) = replace_json (expand_yarn_lock_keys replacements) json in
    if modified then some new_json else none

-- An entry of yarn.lock: the version and the integrity, which a replacement overwrites, and the
-- dependencies; other keys stay as they are.
pub record LockEntry : Type 0 where
  pub version : Text
  pub integrity : Option Text
  pub dependencies : Dict Text Text

-- `new_value.update(replacement)` and the new key, with the name that pyarn makes of the old one.
abbrev pub replace_entry :
    (Text → LockEntry → Text) → Text → LockEntry → Option Replacement → Text × LockEntry
replace_entry name_of key value none = (key, value)
replace_entry name_of key value (some r) = (
  name_of key value ++ (b'@' ∷ r.version),
  record value { version = r.version; integrity = r.integrity },
)

unfoldable pub replace_in_lock :
    (Text → LockEntry → Text)
    → Dict Text Replacement
    → Dict Text Replacement
    → Dict Text LockEntry
    → Dict Text LockEntry
    → Dict Text LockEntry
unfolding replace_versions
replace_in_lock name_of replacements expanded new [] = new
replace_in_lock name_of replacements expanded new ((key, value) ∷ lock) =
    let (new_key, new_value) = replace_entry name_of key value (lookup key replacements) in
    replace_in_lock name_of replacements expanded
      (insert new_key
        (record new_value { dependencies = (replace_versions expanded new_value.dependencies).0 })
        new)
      lock

unfoldable pub replace_deps_in_yarn_lock :
    (Text → LockEntry → Text) → Dict Text LockEntry → Dict Text Replacement → Dict Text LockEntry
unfolding replace_in_lock expand_yarn_lock_keys
replace_deps_in_yarn_lock name_of lock replacements =
    replace_in_lock name_of replacements (expand_yarn_lock_keys replacements) [] lock

-- `priority` of a hash, and the first hash of the highest one; none is `ValueError` of `max`.
abbrev pub algorithm_of : List Text → Text
algorithm_of [] = []
algorithm_of (a ∷ rest) = a

abbrev pub priority : Text → ℕ
priority integrity =
    let algorithm = algorithm_of (split b'-' integrity) in
    if algorithm == text "sha512"
    then 3
    else if algorithm == text "sha384"
    then 2
    else if algorithm == text "sha256"
    then 1
    else 0

unfoldable pub strongest_from : Text → List Text → Text
strongest_from best [] = best
strongest_from best (h ∷ hs) =
    strongest_from (if ltb (priority best) (priority h) then h else best) hs

abbrev pub strongest : List Text → Option Text
strongest [] = none
strongest (h ∷ hs) = some (strongest_from h hs)

unfoldable pub pick_strongest_crypto_hash : Text → Option Text
unfolding strongest_from
pick_strongest_crypto_hash value = strongest (words value)
