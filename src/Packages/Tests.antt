-- ===== src/Packages/Tests.antt =====
-- Runs of the collection of packages, and the theorems about it at concrete data.
use cachito.Base.{
  ◌≡◌, refl, true, false, none, some, List, [], ◌∷◌, ◌++◌, contains, All, ◌↔◌, map, nat_eq, bool_eq,
  list_eq, option_eq, pair_eq, equalities,
}
use cachito.Base.Text.{Text, text}
use cachito.Base.Order.{orders, nat_ord, bool_ord, list_ord, option_ord, pair_ord}
use cachito.Base.Sort.{sort as sort_by}
use cachito.Packages.{
  Dependency, Package, PackagesData, SortKey, dep_key, index_key, gathered, all_dependencies,
  add_package, duplicate_package, ok, curdir, write_to_file, load, empty, stored,
}
use cachito.Packages.Unique.{IsStrict, all_dependencies_lem}
use cachito.Packages.Index.{IsIndexed, added, add_package_lem, load-IsIndexed}
use cachito.Packages.RoundTrip.{load-write_to_file}

abbrev dep : Text → Dependency
dep n = record { name = n; kind = text "npm"; version = some (text "1"); dev = none; rest = [] }

abbrev app : Package
app = record {
  name = text "app";
  kind = text "npm";
  version = some (text "1");
  dependencies = dep (text "b") ∷ dep (text "a") ∷ [];
  path = none;
}

abbrev client : Package
client = record {
  name = text "client";
  kind = text "npm";
  version = some (text "1");
  dependencies = dep (text "b") ∷ [];
  path = some (text "client");
}

abbrev two : PackagesData
two = record { index = index_key client ∷ index_key app ∷ []; packages = client ∷ app ∷ [] }

abbrev sorted_two : List Package
sorted_two = record app { dependencies = dep (text "a") ∷ dep (text "b") ∷ [] } ∷ client ∷ []

gathered_sorted : all_dependencies two ≡ some (dep (text "a") ∷ dep (text "b") ∷ [])
unfolding all_dependencies sort_by orders equalities
gathered_sorted = refl

two-IsIndexed : IsIndexed two
unfolding equalities
two-IsIndexed = record {
  keys = λ k. refl;
  nodup = (refl, (refl, tt));
  paths = ((λ h. cc), ((λ h. cc), tt));
}

written : write_to_file two ≡ some (record two { packages = sorted_two }, stored sorted_two)
unfolding write_to_file sort_by orders equalities
written = refl

load-write_to_file_example :
    ((load empty (stored sorted_two)).0.packages ≡ sorted_two)
    × ((load empty (stored sorted_two)).1 ≡ false)
load-write_to_file_example = load-write_to_file two two-IsIndexed written

abbrev strict_two : List Dependency
strict_two = dep (text "a") ∷ dep (text "b") ∷ []

all_dependencies_lem_example :
    (deps : List Dependency) × (all_dependencies two ≡ some deps)
    × IsStrict deps
    × ((k : SortKey) → contains (map dep_key deps) k ≡ contains (map dep_key (gathered two)) k)
    × ((P : Dependency → Type 0) → All P (gathered two) → All P deps)
unfolding gathered equalities
all_dependencies_lem_example = all_dependencies_lem two refl

add_package_lem_example :
    ((add_package two (text "app") (text "npm") (some (text "1")) curdir [] ≡ duplicate_package)
      ↔ (contains (map index_key two.packages) (text "app", (text "npm", some (text "1"))) ≡ true))
    × ((contains (map index_key two.packages) (text "app", (text "npm", some (text "1"))) ≡ false)
        → (pd' : PackagesData) × (add_package two
              (text "app")
              (text "npm")
              (some (text "1"))
              curdir
              []
            ≡ ok pd')
          × (pd'.packages
              ≡ two.packages
                ++ added two (text "app") (text "npm") (some (text "1")) curdir [] ∷ [])
          × IsIndexed pd')
add_package_lem_example =
    add_package_lem two (text "app") (text "npm") (some (text "1")) curdir [] two-IsIndexed

load-IsIndexed_example : IsIndexed (load two (stored (app ∷ []))).0
load-IsIndexed_example = load-IsIndexed two (stored (app ∷ [])) two-IsIndexed
