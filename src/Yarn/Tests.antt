-- ===== src/Yarn/Tests.antt =====
-- The search through yarn.lock on concrete input, and the witnesses.
use cachito.Base.{
  ◌==◌, if◌then◌else◌, none, ℕ, ◌≤◌, ◌≡◌, refl, ◌↔◌, Bool, true, some, List, [], ◌∷◌, contains,
  nat_eq, list_eq,
}
use cachito.Base.Text.{Text, text, starts_with, split}
use cachito.Base.Dict.{Dict, lookup, insert}
use cachito.Yarn.Reachable.{
  split_commas, split_yarn_lock_key, PackageJson, root_dep_ids, search, search_all, expand_from,
  expand_yarn_lock_keys, next_deps, find_non_dev_deps,
}
use cachito.Base.Words.{words_from}
use cachito.Yarn.Replace.{
  Replacement, LockEntry, match_to_new_version, replace_versions, replace_json,
  replace_deps_in_package_json, replace_in_lock, replace_deps_in_yarn_lock, strongest_from,
  pick_strongest_crypto_hash,
}
use cachito.Yarn.Found.{Reach}
use cachito.Yarn.NonDev.{find_non_dev_deps_lem}

-- A lock file with a cycle and a key of two dependencies.
abbrev main_json : PackageJson
main_json =
    (text "dependencies", (text "a", text "1") ∷ [])
    ∷ (text "devDependencies", (text "d", text "1") ∷ [])
    ∷ []

abbrev lock : Dict Text (Dict Text Text)
lock =
    (text "a@1, \"a@2\"", (text "b", text "1") ∷ [])
    ∷ (text "b@1", (text "a", text "2") ∷ [])
    ∷ (text "d@1", (text "b", text "1") ∷ [])
    ∷ []

abbrev any_info : Dict Text Text → Bool
any_info d = true

abbrev own_deps : Text → Dict Text Text → Dict Text Text
own_deps key d = d

found_ids :
    find_non_dev_deps any_info own_deps 9 main_json [] lock
    ≡ some (text "a@2" ∷ text "b@1" ∷ text "a@1" ∷ [])
unfolding find_non_dev_deps root_dep_ids search_all search expand_yarn_lock_keys expand_from
    split_yarn_lock_key split_commas starts_with lookup insert nat_eq list_eq
found_ids = refl

find_non_dev_deps_lem_example :
    (n : ℕ) × (r : List Text) × ((m : ℕ)
      → n ≤ m
      → find_non_dev_deps any_info own_deps m main_json [] lock ≡ some r)
    × ((x : Text)
        → (contains r x ≡ true)
          ↔ Reach
              (next_deps any_info own_deps (expand_yarn_lock_keys lock))
              (root_dep_ids (main_json ∷ []))
              x)
find_non_dev_deps_lem_example = find_non_dev_deps_lem any_info own_deps main_json [] lock

-- A replacement of an entry with two keys.
abbrev old_lock : Dict Text LockEntry
old_lock =
    (text "a@1, a@2", record { version = text "1"; integrity = none; dependencies = [] })
    ∷ (
      text "b@1",
      record { version = text "1"; integrity = none; dependencies = (text "a", text "2") ∷ [] },
    )
    ∷ []

abbrev in_nexus : Dict Text Replacement
in_nexus =
    (text "a@1, a@2", record { version = text "1-ext"; integrity = some (text "sha512-x") }) ∷ []

-- The name of a key's first dependency, which may begin with an `@`.
abbrev name_from : Text → Text
name_from [] = []
name_from (c ∷ s) = let rest = name_from s in if c == b'@' then [] else c ∷ rest

abbrev first_name : Text → LockEntry → Text
first_name [] value = []
first_name (c ∷ key) value = c ∷ name_from key

-- Replacements of both entries.
abbrev both_in_nexus : Dict Text Replacement
both_in_nexus =
    (text "a@1, a@2", record { version = text "1-ext"; integrity = some (text "sha512-x") })
    ∷ (text "b@1", record { version = text "1-new"; integrity = none })
    ∷ []

new_lock :
    replace_deps_in_yarn_lock first_name old_lock in_nexus
    ≡ (
      text "a@1-ext",
      record { version = text "1-ext"; integrity = some (text "sha512-x"); dependencies = [] },
    )
      ∷ (
        text "b@1",
        record {
          version = text "1";
          integrity = none;
          dependencies = (text "a", text "1-ext") ∷ [];
        },
      )
      ∷ []
unfolding replace_deps_in_yarn_lock replace_in_lock replace_versions match_to_new_version
    expand_yarn_lock_keys expand_from split_yarn_lock_key split_commas starts_with lookup insert
    nat_eq list_eq
new_lock = refl

not_modified :
    replace_deps_in_package_json ((text "dependencies", (text "c", text "1") ∷ []) ∷ []) in_nexus
    ≡ none
unfolding replace_deps_in_package_json replace_json replace_versions match_to_new_version
    expand_yarn_lock_keys expand_from split_yarn_lock_key split_commas starts_with lookup insert
    nat_eq list_eq
not_modified = refl

strongest_hash :
    pick_strongest_crypto_hash (text "sha1-a sha512-b sha256-c") ≡ some (text "sha512-b")
unfolding pick_strongest_crypto_hash strongest_from words_from split nat_eq list_eq
strongest_hash = refl
