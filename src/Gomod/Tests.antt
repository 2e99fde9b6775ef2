-- ===== src/Gomod/Tests.antt =====
-- Runs of the Go package manager's helpers, and the theorems about them at concrete data.
use cachito.Base.{
  ◌≡◌, refl, ◌↔◌, true, false, none, some, List, [], ◌∷◌, contains, nat_eq, list_eq, option_eq,
  equalities, All,
}
use cachito.Base.Text.{Text, text, starts_with, ends_with, lstrip}
use cachito.Gomod.Names.{
  contains_package, path_to_subpackage, match_parent_module, longest, longest_from,
}
use cachito.Gomod.Matching.{Within, contains_package_lem, IsClosest, match_parent_module_lem}
use cachito.Gomod.LocalDeps.{
  Dep, Module, locally_replaced, set_full_local_dep_relpaths, vet_local_file_dep_paths,
  outside_repository, absolute_path,
}
use cachito.Gomod.Relocation.{HasModule, Pairwise, Relocated, set_full_local_dep_relpaths_lem}

abbrev api : Text
api = text "k8s.io/api"

abbrev core : Text
core = text "k8s.io/api/core"

abbrev names : List Text
names = text "k8s.io" ∷ api ∷ text "k8s.io/apis" ∷ []

not_within : contains_package api (text "k8s.io/apis") ≡ false
unfolding contains_package starts_with equalities
not_within = refl

closest_api : match_parent_module core names ≡ some api
unfolding match_parent_module longest longest_from contains_package starts_with equalities
closest_api = refl

contains_package_lem_example : (contains_package api core ≡ true) ↔ Within api core
contains_package_lem_example = contains_package_lem api core

match_parent_module_lem_example :
    ((m : Text) → (match_parent_module core names ≡ some m) ↔ IsClosest core names m)
    × ((match_parent_module core names ≡ none)
        ↔ ((m : Text) → contains names m ≡ true → contains_package m core ≡ false))
match_parent_module_lem_example = match_parent_module_lem core names

abbrev deps : List Dep
deps =
    record { name = core; version = some (text "./staging") }
    ∷ record { name = text "fmt"; version = none }
    ∷ []

abbrev modules : List Module
modules =
    record { name = api; version = text "./staging" }
    ∷ record { name = text "k8s.io/klog"; version = text "v2.0.0" }
    ∷ []

relocated :
    set_full_local_dep_relpaths deps modules
    ≡ some (
        record { name = core; version = some (text "./staging/core") }
        ∷ record { name = text "fmt"; version = none }
        ∷ [])
unfolding set_full_local_dep_relpaths match_parent_module longest longest_from contains_package
    path_to_subpackage ends_with equalities lstrip
relocated = refl

deps-HasModule : All (HasModule (locally_replaced modules)) deps
unfolding contains_package starts_with equalities
deps-HasModule = ((λ h. (api, refl, refl)), ((λ h. cc), tt))

set_full_local_dep_relpaths_lem_example :
    (deps' : List Dep) × (set_full_local_dep_relpaths deps modules ≡ some deps')
    × Pairwise (Relocated (locally_replaced modules)) deps deps'
set_full_local_dep_relpaths_lem_example =
    set_full_local_dep_relpaths_lem modules deps deps-HasModule

escaping :
    vet_local_file_dep_paths
      (λ v. starts_with v (text "./"))
      (λ v. false)
      (record { name = api; version = some (text "../x") } ∷ [])
    ≡ some (outside_repository (text "../x"))
unfolding vet_local_file_dep_paths starts_with equalities
escaping = refl

absolute :
    vet_local_file_dep_paths
      (λ v. true)
      (λ v. false)
      (record { name = api; version = some (text "/x") } ∷ [])
    ≡ some (absolute_path (text "/x"))
unfolding vet_local_file_dep_paths starts_with equalities
absolute = refl
