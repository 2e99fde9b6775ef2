-- ===== src/Gomod/ModuleTests.antt =====
-- Runs on lists of modules and vendored files, and the theorems about them at concrete data.
use cachito.Base.{
  ◌≡◌, refl, not, ◌&&◌, ◌||◌, true, false, none, some, List, [], ◌∷◌, map, contains, nat_eq,
  list_eq, pair_eq, filter, any, All, IsNodup, equalities,
}
use cachito.Base.Text.{Text, text, starts_with, is_empty, rstrip}
use cachito.Base.Dict.{Dict, values, set_default, modify}
use cachito.Base.Order.{orders, nat_ord, list_ord, pair_ord}
use cachito.Base.Sort.{sort as sort_by, IsSorted as Ascending}
use cachito.Gomod.Modules.{
  GoModule, NameVersion, Gomodule, deduplicate_to_gomod_dicts, should_vendor_deps,
}
use cachito.Gomod.Deduplication.{
  IsNamed, names_module, last_replacement, deduplicate_to_gomod_dicts_lem,
}
use cachito.Gomod.ListFile.{merge_files}
use cachito.Gomod.Merging.{merge_files_lem}
use cachito.Base.Words.{words_from}
use cachito.Gomod.Vendor.{parse_vendor}
use cachito.Gomod.Vendored.{Section, IsSection, file, is_package, parse_vendor_lem}

abbrev plain : Text → GoModule
plain p = record { path = p; version = some (text "v1"); replace = none }

-- Replaced by a version of another module.
abbrev forked : GoModule
forked = record {
  path = text "b";
  version = some (text "v0");
  replace = some (record { path = text "a"; version = some (text "v1") });
}

abbrev modules : List GoModule
modules = plain (text "c") ∷ plain (text "a") ∷ forked ∷ []

abbrev user : List Text
user = text "b" ∷ []

without_duplicates :
    deduplicate_to_gomod_dicts modules user
    ≡ some (
        record {
          name = text "a";
          version = text "v1";
          replaces = some (text "b", some (text "v0"));
        }
        ∷ record { name = text "c"; version = text "v1"; replaces = none }
        ∷ [])
unfolding deduplicate_to_gomod_dicts set_default modify sort_by orders equalities
without_duplicates = refl

deduplicate_to_gomod_dicts_lem_example :
    (d : Dict NameVersion Gomodule) × (deduplicate_to_gomod_dicts modules user ≡ some (values d))
    × Ascending (λ (kv : NameVersion × Gomodule). kv.0) d
    × IsNodup (map (λ kv. kv.0) d)
    × ((k : NameVersion) → contains (map (λ kv. kv.0) d) k ≡ any (names_module k) modules)
    × All IsNamed d
    × All (λ kv. kv.1.replaces ≡ last_replacement none user kv.0 modules) d
deduplicate_to_gomod_dicts_lem_example = deduplicate_to_gomod_dicts_lem modules user (
  ((text "c", text "v1"), refl),
  (((text "a", text "v1"), refl), (((text "a", text "v1"), refl), tt)),
)

unflagged : should_vendor_deps [] (record { exists = true; is_dir = true }) true ≡ none
unfolding equalities
unflagged = refl

checked :
    should_vendor_deps
      (text "gomod-vendor-check" ∷ [])
      (record { exists = true; is_dir = true })
      true
    ≡ some (true, false)
unfolding equalities
checked = refl

abbrev sections : List Section
sections =
    record {
      header = text "# a v1";
      module_ = plain (text "a");
      body = text "## explicit" ∷ text "a/pkg" ∷ [];
    }
    ∷ record { header = text "# c v1"; module_ = plain (text "c"); body = text "## explicit" ∷ [] }
    ∷ []

vendored : parse_vendor (some (file sections)) ≡ some (plain (text "a") ∷ [])
unfolding parse_vendor starts_with equalities
vendored = refl

sections-IsSection : All IsSection sections
unfolding starts_with words_from equalities
sections-IsSection = ((refl, refl, (refl, (refl, tt))), ((refl, refl, (refl, tt)), tt))

parse_vendor_lem_example :
    parse_vendor (some (file sections))
    ≡ some (map (λ s. s.module_) (filter (λ s. any is_package s.body) sections))
parse_vendor_lem_example = parse_vendor_lem sections sections-IsSection

abbrev source : List Text
source = text "v1.1" ∷ text "v1.0" ∷ []

abbrev dest : List Text
dest = text "v1.2" ∷ text "v1.0" ∷ [] ∷ []

merged : merge_files (rstrip 32) source dest ≡ text "v1.0" ∷ text "v1.1" ∷ text "v1.2" ∷ []
unfolding merge_files rstrip sort_by orders equalities
merged = refl

merge_files_lem_example :
    Ascending (λ (l : Text). l) (merge_files (rstrip 32) source dest)
    × IsNodup (merge_files (rstrip 32) source dest)
    × ((x : Text)
        → contains (merge_files (rstrip 32) source dest) x ≡ (
            (contains (map (rstrip 32) source) x || contains (map (rstrip 32) dest) x)
            && not (is_empty x)))
merge_files_lem_example = merge_files_lem (rstrip 32) source dest
