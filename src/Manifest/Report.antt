-- ===== src/Manifest/Report.antt =====
-- The image content manifest and the list of SBOM components: ContentManifest.to_json and
-- sbom_components_list of cachito/web/content_manifest.py, with deep_sort_icm of cachito/web/utils.py
-- and get_repo_name of cachito/common/utils.py.
use cachito.Base.{
  Option, none, some, List, [], ◌∷◌, ◌++◌, map, contains, nat_eq, bool_eq, list_eq, option_eq,
  pair_eq, if◌then◌else◌, ◌==◌,
}
use cachito.Base.Text.{Text, text, split, lstrip, rstrip}
use cachito.Base.Dict.{Dict, keys, values, lookup, set_default}
use cachito.Base.Result.{Result, ok, ◌>>=◌}
use cachito.Base.Order.{nat_ord, list_ord}
use cachito.Base.Sort.{sort}
use cachito.Gomod.Names.{match_parent_module}
use cachito.Manifest.Purl.{
  Url, Library, Package, PurlError, Purl, given, without_git, to_purl, to_vcs_purl, Origin,
  to_top_level_purl, replace_parent_purl_placeholder,
}
use cachito.Manifest.Content.{
  Entry, key_of, Contents, GoPackage, GoModule, Component, State, initial, Mode, icm, sbom, Step,
  set_data, add_component, add_source, add_dependency, in_data, process_gomod, modules_by_name,
  process_go_package,
}

-- `xs[-1]` of a list that is not empty.
abbrev pub last_part : Text → List Text → Text
last_part x [] = x
last_part x (y ∷ ys) = last_part y ys

abbrev pub repo_name : Url → Text
repo_name url = without_git (rstrip b'/' (lstrip b'/' url.path))

abbrev pub names_of : List Text → Text
names_of [] = []
names_of (x ∷ xs) = last_part x xs

module _ (L : Library) (request : Origin) where
  -- `_process_standard_package` and `_process_standard_package_sbom`
  abbrev pub listed : Package → Text → Contents → Contents
  listed dependency purl c =
      if dependency.dev then add_source purl c else add_dependency purl (add_source purl c)

  abbrev pub record_standard : Mode → Text → Package → Package → State → Text → Step
  record_standard icm kind pkg dependency s purl = in_data kind pkg (listed dependency purl) s
  record_standard sbom kind pkg dependency s purl =
      ok (add_component dependency.name dependency.version purl s)

  unfoldable pub process_standard_package : Text → Mode → Package → Package → State → Step
  process_standard_package kind mode pkg dependency s =
      if dependency.kind == kind
      then (to_purl L dependency none >>= record_standard mode kind pkg dependency s)
      else ok s

  abbrev pub get_repo_name : Text → Result PurlError Text
  get_repo_name repo = given (L.urlparse repo) >>= λ url. ok (repo_name url)

  abbrev pub record_gem : Mode → Package → Package → State → Text → Step
  record_gem icm pkg dependency s purl =
      in_data (text "rubygems") pkg (λ c. add_dependency purl (add_source purl c)) s
  record_gem sbom pkg dependency s purl =
      ok (add_component dependency.name dependency.version purl s)

  unfoldable pub gem_dependency_purl : Package → Package → Purl
  gem_dependency_purl pkg dependency = get_repo_name request.repo >>= λ name.
      to_vcs_purl L (names_of (split b'/' name)) request.repo request.ref >>= λ parent_purl.
      to_purl L dependency pkg.path >>= λ purl.
      ok (replace_parent_purl_placeholder purl parent_purl)

  unfoldable pub process_rubygems_package : Mode → Package → Package → State → Step
  unfolding gem_dependency_purl
  process_rubygems_package mode pkg dependency s =
      if dependency.kind == text "rubygems"
      then (gem_dependency_purl pkg dependency >>= record_gem mode pkg dependency s)
      else ok s

  -- The body of the loop over the dependencies.
  unfoldable pub process : Dict Text (Option Text) → Mode → Package → Package → State → Step
  unfolding process_standard_package process_rubygems_package
  process versions mode pkg dependency s =
      if pkg.kind == text "go-package"
      then process_go_package L request versions mode pkg dependency s
      else if pkg.kind == text "gomod"
      then process_gomod L request mode pkg dependency s
      else if contains (text "npm" ∷ text "pip" ∷ text "yarn" ∷ []) pkg.kind
      then process_standard_package pkg.kind mode pkg dependency s
      else if pkg.kind == text "rubygems"
      then process_rubygems_package mode pkg dependency s
      else ok s

  abbrev pub pairs_of : Package → List Package → List (Package × Package)
  pairs_of p [] = []
  pairs_of p (d ∷ ds) = (p, d) ∷ pairs_of p ds

  abbrev pub all_pairs : List Entry → List (Package × Package)
  all_pairs [] = []
  all_pairs (e ∷ es) = pairs_of e.pkg e.dependencies ++ all_pairs es

  unfoldable pub process_all :
      Dict Text (Option Text) → Mode → List (Package × Package) → State → Step
  unfolding process
  process_all versions mode [] s = ok s
  process_all versions mode ((p, d) ∷ ps) s =
      process versions mode p d s >>= process_all versions mode ps

  -- The first loop of to_json.
  abbrev pub empty_contents : Text → Contents
  empty_contents purl = record { purl = purl; dependencies = []; sources = [] }

  abbrev pub data_kinds : List Text
  data_kinds = text "npm" ∷ text "pip" ∷ text "yarn" ∷ text "rubygems" ∷ text "git-submodule" ∷ []

  abbrev pub top_level : Package → Purl
  top_level p = to_top_level_purl L p request p.path

  unfoldable pub register : Package → State → Step
  register p s =
      if p.kind == text "go-package"
      then (top_level p >>= λ purl. ok (record s {
        go_packages =
            set_default (key_of p) (record { name = p.name; contents = empty_contents purl })
              s.go_packages;
      }))
      else if p.kind == text "gomod"
      then (top_level p >>= λ purl. ok (record s {
        go_modules = set_default p.name (record { purl = purl; dependencies = [] }) s.go_modules;
      }))
      else if contains data_kinds p.kind
      then (top_level p >>= λ purl.
          ok (set_data p.kind (set_default (key_of p) (empty_contents purl)) s))
      else ok s

  unfoldable pub register_all : List Entry → State → Step
  unfolding register
  register_all [] s = ok s
  register_all (e ∷ es) s = register e.pkg s >>= register_all es

  -- The dictionaries of to_json before the sources of Go packages are set.
  unfoldable pub collected : List Entry → Step
  unfolding register_all process_all
  collected entries =
      register_all entries initial
      >>= process_all (modules_by_name L request [] entries) icm (all_pairs entries)

-- set_go_package_sources
abbrev pub module_of : List Text → Text → Option Text
module_of modules name =
    if contains modules name then some name else match_parent_module name modules

abbrev pub with_sources : Dict Text GoModule → GoPackage → Contents
with_sources modules g = elim (module_of (keys modules) g.name) as (λ _. Contents) [
  | none ↦ g.contents
  | some name ↦ sources_of g.contents (lookup name modules)
]
  where
    sources_of : Contents → Option GoModule → Contents
    sources_of c none = c
    sources_of c (some m) = record c { sources = m.dependencies }

-- What deep_sort_icm makes of the contents of an image, without the JSON around them, for which
-- DeepSort follows it.
unfoldable pub deep_sort : List Contents → List Contents
deep_sort cs =
    sort (λ (c : Contents). c.purl)
      (map
        (λ (c : Contents). record c {
          dependencies = sort (λ (purl : Text). purl) c.dependencies;
          sources = sort (λ (purl : Text). purl) c.sources;
        })
        cs)

unfoldable pub image_contents : State → List Contents
unfolding deep_sort
image_contents s = deep_sort (
    map (with_sources s.go_modules) (values s.go_packages)
    ++ (values (s.data_of (text "npm"))
        ++ (values (s.data_of (text "pip"))
            ++ (values (s.data_of (text "yarn"))
                ++ (values (s.data_of (text "rubygems"))
                    ++ values (s.data_of (text "git-submodule")))))))

unfoldable pub to_json : Library → Origin → List Entry → Result PurlError (List Contents)
unfolding collected image_contents
to_json L request entries = collected L request entries >>= λ s. ok (image_contents s)

-- The first loop of sbom_components_list.
abbrev pub component_kinds : List Text
component_kinds =
    text "go-package"
    ∷ text "gomod"
    ∷ text "npm"
    ∷ text "pip"
    ∷ text "yarn"
    ∷ text "rubygems"
    ∷ text "git-submodule"
    ∷ []

abbrev pub add_go_module : Package → Text → State → State
add_go_module p purl s =
    if p.kind == text "gomod"
    then record s {
      go_modules = set_default p.name (record { purl = purl; dependencies = [] }) s.go_modules;
    }
    else s

unfoldable pub add_top_level : Library → Origin → List Entry → State → Step
add_top_level L request [] s = ok s
add_top_level L request (e ∷ es) s =
    if contains component_kinds e.pkg.kind
    then (top_level L request e.pkg >>= λ purl.
        add_top_level L request es
          (add_component e.pkg.name e.pkg.version purl (add_go_module e.pkg purl s)))
    else add_top_level L request es s

unfoldable pub sbom_components_list :
    Library → Origin → List Entry → Result PurlError (List Component)
unfolding add_top_level process_all
sbom_components_list L request entries = add_top_level L request entries initial >>= λ s.
    process_all L request (modules_by_name L request [] entries) sbom (all_pairs L request entries)
      s
    >>= λ t. ok t.sbom_components
