-- ===== src/Manifest/Tests.antt =====
-- Content manifests on concrete input, and the witnesses.
use cachito.Base.{
  ◌≡◌, refl, Bool, true, false, none, some, List, [], ◌∷◌, ◌++◌, map, nat_eq, bool_eq, list_eq,
  option_eq, pair_eq, All,
}
use cachito.Base.Text.{Text, text, starts_with, ends_with, partition, rpartition, lstrip, rstrip}
use cachito.Base.Dict.{lookup, update?, set_default}
use cachito.Base.Result.{Result, ok, err}
use cachito.Base.Order.{nat_ord, list_ord}
use cachito.Base.Sort.{IsSorted, sort}
use mathlib.Core.Option.{map as map_option}
use mathlib.Core.List.{Perm}
use cachito.Manifest.Purl.{
  Library, Package, PurlError, not_defined, to_purl, to_purl_npm, npm_purl, match_protocol,
  match_forge, last_forge, to_vcs_purl, Origin, to_top_level_purl,
}
use cachito.Manifest.Content.{Entry, Contents, Component, State, initial, key_of}
use cachito.Manifest.Report.{
  process_standard_package, process, process_all, register, register_all, collected, all_pairs,
  deep_sort, image_contents, to_json, add_top_level, sbom_components_list,
}
use cachito.Manifest.Standard.{dependencies_for, sources_for}
use cachito.Manifest.Collected.{first_with, collected-lookup}
use cachito.Manifest.Components.{package_names, dependency_names, sbom_components_list-names}
use cachito.Base.Json.{arr, nil, cons}
use cachito.Manifest.DeepSort.{deep_sort_icm, unknown_type, generate_icm, icm_of, generate_icm_lem}
use cachito.Manifest.Sorted.{HasSortedLists, sorted_lists, unsorted, to_json-IsSorted}
use cachito.Manifest.Raising.{to_purl-err}

-- urllib for one URL, for the tests.
abbrev github : Library
github = record {
  urlparse = λ s. some (record {
    scheme = text "https";
    netloc = text "github.com";
    path = text "/org/app.git";
    fragment = [];
    hostname = some (text "github.com");
  });
  parse_qs = λ s. [];
  quote = λ s. s;
  quote_all = λ s. s;
  safe_name = λ s. s;
  lower = λ s. s;
  normpath = λ s. s;
  relative_to = λ s t. some (text ".");
}

abbrev origin : Origin
origin = record { repo = text "https://github.com/org/app.git/"; ref = text "abc" }

abbrev named : Text → Text → Text → Bool → Package
named name kind version dev = record {
  name = name;
  kind = kind;
  version = some version;
  dev = dev;
  path = none;
}

abbrev app : List Entry
app =
    record {
      pkg = named (text "app") (text "npm") (text "1.0.0") false;
      dependencies =
          named (text "b") (text "npm") (text "2.0.0") false
          ∷ named (text "a") (text "npm") (text "3.0.0") true
          ∷ [];
    }
    ∷ []

forge_test :
    to_purl github (named (text "x") (text "npm") (text "github:org/x#v1") false) none
    ≡ ok (text "pkg:github/org/x@v1")
unfolding to_purl to_purl_npm npm_purl match_protocol match_forge last_forge partition starts_with
    list_eq nat_eq
forge_test = refl

abbrev app_contents : List Contents
app_contents =
    record {
      purl = text "pkg:github/org/app@abc";
      dependencies = text "pkg:npm/b@2.0.0" ∷ [];
      sources = text "pkg:npm/a@3.0.0" ∷ text "pkg:npm/b@2.0.0" ∷ [];
    }
    ∷ []

abbrev state_of : Result PurlError State → State
state_of (ok s) = s
state_of (err e) = initial

collected-lookup_example :
    lookup
      (key_of (named (text "app") (text "npm") (text "1.0.0") false))
      ((state_of (collected github origin app)).data_of (text "npm"))
    ≡ map_option
        (λ c. record {
          purl = c.purl;
          dependencies =
              dependencies_for github origin
                (text "npm")
                (key_of (named (text "app") (text "npm") (text "1.0.0") false))
                (all_pairs github origin app);
          sources =
              sources_for github origin
                (text "npm")
                (key_of (named (text "app") (text "npm") (text "1.0.0") false))
                (all_pairs github origin app);
        })
        (first_with github origin
          (text "npm")
          (key_of (named (text "app") (text "npm") (text "1.0.0") false))
          app)
unfolding collected register_all register process_all process process_standard_package
    to_top_level_purl to_vcs_purl to_purl to_purl_npm npm_purl match_protocol partition rpartition
    starts_with ends_with lstrip rstrip update? set_default list_eq nat_eq pair_eq option_eq bool_eq
collected-lookup_example =
    collected-lookup github origin (text "npm")
      (key_of (named (text "app") (text "npm") (text "1.0.0") false)) app
      (state_of (collected github origin app)) refl refl

abbrev components : List Component
components =
    record {
      name = text "app";
      version = some (text "1.0.0");
      purl = some (text "pkg:github/org/app@abc");
    }
    ∷ record {
      name = text "b";
      version = some (text "2.0.0");
      purl = some (text "pkg:npm/b@2.0.0");
    }
    ∷ record {
      name = text "a";
      version = some (text "3.0.0");
      purl = some (text "pkg:npm/a@3.0.0");
    }
    ∷ []

sbom_components_list-names_example :
    map (λ (c : Component). c.name) components
    ≡ package_names app ++ dependency_names (all_pairs github origin app)
unfolding sbom_components_list add_top_level process_all process process_standard_package
    to_top_level_purl to_vcs_purl to_purl to_purl_npm npm_purl match_protocol partition rpartition
    starts_with ends_with lstrip rstrip list_eq nat_eq
sbom_components_list-names_example = sbom_components_list-names github origin app components refl

to_purl-err_example :
    to_purl github (named (text "x") (text "cargo") (text "1") false) none
    ≡ err (not_defined (text "cargo"))
unfolding list_eq nat_eq
to_purl-err_example =
    (to_purl-err github (named (text "x") (text "cargo") (text "1") false) none).1 refl

to_json-IsSorted_example :
    IsSorted (λ (c : Contents). c.purl) app_contents
    × All HasSortedLists app_contents
    × ((s : State) × (collected github origin app ≡ ok s)
        × Perm app_contents (map sorted_lists (unsorted s)))
unfolding to_json image_contents deep_sort sort nat_ord list_ord collected register_all register
    process_all process process_standard_package to_top_level_purl to_vcs_purl to_purl to_purl_npm
    npm_purl match_protocol partition rpartition starts_with ends_with lstrip rstrip update?
    set_default list_eq nat_eq pair_eq option_eq bool_eq
to_json-IsSorted_example = to_json-IsSorted github origin app app_contents refl

-- An empty list in a list is not skipped, as one in a dictionary is.
empty_inside : deep_sort_icm (arr (cons (arr nil) nil)) ≡ err unknown_type
unfolding deep_sort_icm
empty_inside = refl

generate_icm_lem_example : generate_icm app_contents ≡ ok (icm_of (deep_sort app_contents))
generate_icm_lem_example = generate_icm_lem app_contents
