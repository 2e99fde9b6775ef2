-- ===== src/Manifest/Content.antt =====
-- The content manifest of a request: ContentManifest of cachito/web/content_manifest.py, with its
-- dictionaries and the list of components. A purl stands for the dictionary that holds it alone.
use cachito.Base.{
  Bool, Option, none, some, List, [], ◌∷◌, ◌++◌, nat_eq, bool_eq, list_eq, option_eq, pair_eq,
  if◌then◌else◌, ◌==◌,
}
use cachito.Base.Text.{Text, text, is_empty}
use cachito.Base.Dict.{Dict, keys, lookup, insert, update?}
use cachito.Base.Result.{Result, ok, err, ◌>>=◌}
use cachito.Base.Order.{nat_ord, list_ord}
use cachito.Gomod.Names.{match_parent_module}
use cachito.Gomod.LocalDeps.{join_path}
use cachito.Manifest.Purl.{
  Library, Package, PurlError, python_error, Purl, given, is_local_version, has_version,
  version_text, to_purl, Origin, replace_parent_purl_placeholder,
}

-- A package of the request with its dependencies.
pub record Entry : Type 0 where
  pub pkg : Package
  pub dependencies : List Package

-- What `Package.__eq__` and `Package.__hash__` compare.
abbrev pub PackageKey : Type 0
PackageKey = Text × (Text × (Option Text × Bool))

abbrev pub key_of : Package → PackageKey
key_of p = (p.name, (p.kind, (p.version, p.dev)))

pub record Contents : Type 0 where
  pub purl : Text
  pub dependencies : List Text
  pub sources : List Text

pub record GoPackage : Type 0 where
  pub name : Text
  pub contents : Contents

pub record GoModule : Type 0 where
  pub purl : Text
  pub dependencies : List Text

pub record Component : Type 0 where
  pub name : Text
  pub version : Option Text
  pub purl : Option Text

-- The attributes of the object; `data_of kind` is `_{kind}_data`.
pub record State : Type 0 where
  pub go_packages : Dict PackageKey GoPackage
  pub go_modules : Dict Text GoModule
  pub data_of : Text → Dict PackageKey Contents
  pub sbom_components : List Component

abbrev pub initial : State
initial = record { go_packages = []; go_modules = []; data_of = λ kind. []; sbom_components = [] }

pub data Mode : Type 0 where
  icm sbom : Mode

abbrev pub Step : Type 0
Step = Result PurlError State

abbrev pub set_data : Text → (Dict PackageKey Contents → Dict PackageKey Contents) → State → State
set_data kind f s = record s { data_of = λ k. if k == kind then f (s.data_of k) else s.data_of k }

-- `if dependency.version`
abbrev pub component_version : Option Text → Option Text
component_version version = if has_version version then version else none

abbrev pub add_component : Text → Option Text → Text → State → State
add_component name version purl s = record s {
  sbom_components =
      s.sbom_components
      ++ record { name = name; version = component_version version; purl = some purl } ∷ [];
}

abbrev pub add_source : Text → Contents → Contents
add_source purl c = record c { sources = c.sources ++ purl ∷ [] }

abbrev pub add_dependency : Text → Contents → Contents
add_dependency purl c = record c { dependencies = c.dependencies ++ purl ∷ [] }

-- `d[package]` changed in place.
abbrev pub in_data : Text → Package → (Contents → Contents) → State → Step
in_data kind pkg f s =
    given (update? (key_of pkg) f (s.data_of kind)) >>= λ d. ok (set_data kind (λ old. d) s)

module _ (L : Library) (request : Origin) where
  -- A local dependency's module, and its path in it.
  abbrev pub below : Text → Text → Result PurlError (Text × Option Text)
  below dep parent = given (L.relative_to dep parent) >>= λ path.
      ok (parent, if path == text "." then none else some path)

  -- `if parent_module_name := match_parent_module(...)`
  abbrev pub truthy_text : Option Text → Option Text
  truthy_text none = none
  truthy_text (some s) = if is_empty s then none else some s

  abbrev pub normalized_parent : Text → Option Text → Result PurlError (Text × Option Text)
  normalized_parent normalized none = err python_error
  normalized_parent normalized (some parent) = below normalized parent

  abbrev pub local_parent :
      List Text → Text → Text → Option Text → Result PurlError (Text × Option Text)
  local_parent modules name normalized none =
      normalized_parent normalized (truthy_text (match_parent_module normalized modules))
  local_parent modules name normalized (some parent) = below name parent

  unfoldable pub parent_module :
      List Text → Package → Package → Result PurlError (Text × Option Text)
  parent_module modules pkg dependency =
      if is_local_version (text ".") dependency.version
      then local_parent modules dependency.name
          (L.normpath (join_path pkg.name (version_text dependency.version)))
          (truthy_text (match_parent_module dependency.name modules))
      else ok (pkg.name, none)

  unfoldable pub gomod_purl : Dict Text GoModule → Package → Package → Purl
  unfolding parent_module
  gomod_purl modules pkg dependency =
      parent_module (keys modules) pkg dependency >>= λ (parent, path).
      given (lookup parent modules) >>= λ m.
      to_purl L dependency path >>= λ purl. ok (replace_parent_purl_placeholder purl m.purl)

  -- `self._gomod_data[package.name]["dependencies"].append(icm_source)`
  abbrev pub in_module : Text → Text → State → Step
  in_module name purl s =
      given
        (update? name (λ m. record m { dependencies = m.dependencies ++ purl ∷ [] }) s.go_modules)
      >>= λ d. ok (record s { go_modules = d })

  abbrev pub record_gomod : Mode → Package → Package → State → Text → Step
  record_gomod icm pkg dependency s purl = in_module pkg.name purl s
  record_gomod sbom pkg dependency s purl =
      ok (add_component dependency.name dependency.version purl s)

  unfoldable pub process_gomod : Mode → Package → Package → State → Step
  unfolding gomod_purl
  process_gomod mode pkg dependency s =
      if dependency.kind == text "gomod"
      then (gomod_purl s.go_modules pkg dependency >>= record_gomod mode pkg dependency s)
      else ok s

  -- `go_modules_by_name`, with the versions: the last module of a name counts.
  abbrev pub modules_by_name : Dict Text (Option Text) → List Entry → Dict Text (Option Text)
  modules_by_name d [] = d
  modules_by_name d (e ∷ es) =
      modules_by_name (if e.pkg.kind == text "gomod" then insert e.pkg.name e.pkg.version d else d)
        es

  -- The module is in the repository: the dependency gets its version, in place. Or it is not.
  abbrev pub local_purl :
      Dict Text (Option Text)
      → Dict Text GoModule
      → Package
      → Package
      → Option Text
      → Result PurlError (Text × Option Text)
  local_purl versions modules pkg dependency (some name) =
      given (lookup name versions) >>= λ version.
      to_purl L (record dependency { version = version }) none >>= λ purl. ok (purl, version)
  local_purl versions modules pkg dependency none =
      given (match_parent_module pkg.name (keys versions)) >>= λ package_module.
      let normalized = L.normpath (join_path package_module (version_text dependency.version)) in
      given (match_parent_module normalized (keys versions)) >>= λ dep_module.
      given (L.relative_to normalized dep_module) >>= λ path.
      given (lookup dep_module modules) >>= λ m. to_purl L dependency (some path) >>= λ purl.
      ok (replace_parent_purl_placeholder purl m.purl, dependency.version)

  unfoldable pub go_package_purl :
      Dict Text (Option Text)
      → Dict Text GoModule
      → Package
      → Package
      → Result PurlError (Text × Option Text)
  go_package_purl versions modules pkg dependency =
      if is_local_version (text ".") dependency.version
      then local_purl versions modules pkg dependency
          (match_parent_module dependency.name (keys versions))
      else (to_purl L dependency none >>= λ purl. ok (purl, dependency.version))

  abbrev pub in_go_package : Package → Text → State → Step
  in_go_package pkg purl s =
      given (
        update? (key_of pkg) (λ g. record g { contents = add_dependency purl g.contents })
          s.go_packages)
      >>= λ d. ok (record s { go_packages = d })

  abbrev pub record_go_package : Mode → Package → Package → State → Text × Option Text → Step
  record_go_package icm pkg dependency s (purl, version) = in_go_package pkg purl s
  record_go_package sbom pkg dependency s (purl, version) =
      ok (add_component dependency.name version purl s)

  unfoldable pub process_go_package :
      Dict Text (Option Text) → Mode → Package → Package → State → Step
  unfolding go_package_purl
  process_go_package versions mode pkg dependency s =
      if dependency.kind == text "go-package"
      then (go_package_purl versions s.go_modules pkg dependency
          >>= record_go_package mode pkg dependency s)
      else ok s
