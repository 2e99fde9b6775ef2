-- ===== src/Gomod/Modules.antt =====
-- The modules that go reports: _get_name_and_version, _deduplicate_to_gomod_dicts,
-- _should_vendor_deps and _parse_vendor of cachito/workers/pkg_managers/gomod.py.
-- Of the module that replaces another one, only the path and the version are read.
use cachito.Base.{
  Bool, true, false, not, ◌&&◌, Option, none, some, List, [], ◌∷◌, contains, nat_eq, list_eq,
  pair_eq, ◌==◌, if◌then◌else◌,
}
use cachito.Base.Text.{Text, text, is_empty}
use cachito.Base.Dict.{Dict, values, set_default, modify}
use cachito.Base.Order.{nat_ord, list_ord, pair_ord}
use cachito.Base.Sort.{sort as sort_by}
use cachito.Base.Partial.{◌>>=◌}

pub record Replacement : Type 0 where
  pub path : Text
  pub version : Option Text

pub record GoModule : Type 0 where
  pub path : Text
  pub version : Option Text
  pub replace : Option Replacement

abbrev pub NameVersion : Type 0
NameVersion = Text × Text

-- The dictionary of a module; `replaces` is the replaced name and version.
pub record Gomodule : Type 0 where
  pub name : Text
  pub version : Text
  pub replaces : Option (Text × Option Text)

-- A text that is not empty.
abbrev pub truthy : Option Text → Bool
truthy none = false
truthy (some s) = not (is_empty s)

-- `if not version: raise RuntimeError`
abbrev pub versioned : Text → Option Text → Option NameVersion
versioned name none = none
versioned name (some version) = if is_empty version then none else some (name, version)

abbrev pub get_name_and_version : GoModule → Option NameVersion
get_name_and_version m = elim m.replace [
  | none ↦ versioned m.path m.version
  | some r ↦ if truthy r.version then versioned r.path r.version else versioned m.path (some r.path)
]

-- `mod.replace and mod.replace.version and mod.path in user_specified_deps_to_replace`
abbrev pub is_user_specified : List Text → GoModule → Bool
is_user_specified user m = elim m.replace [
  | none ↦ false
  | some r ↦ truthy r.version && contains user m.path
]

abbrev pub fresh_gomodule : NameVersion → Gomodule
fresh_gomodule (name, version) = record { name = name; version = version; replaces = none }

-- The loop's body.
unfoldable pub add_module :
    List Text → GoModule → NameVersion → Dict NameVersion Gomodule → Dict NameVersion Gomodule
add_module user m k d =
    let d' = set_default k (fresh_gomodule k) d in
    if is_user_specified user m
    then modify k (λ g. record g { replaces = some (m.path, m.version) }) d'
    else d'

unfoldable pub collect :
    List Text → Dict NameVersion Gomodule → List GoModule → Option (Dict NameVersion Gomodule)
unfolding add_module
collect user d [] = some d
collect user d (m ∷ ms) = get_name_and_version m >>= λ k. collect user (add_module user m k d) ms

-- The keys differ, so the sorting compares no values.
unfoldable pub deduplicate_to_gomod_dicts : List GoModule → List Text → Option (List Gomodule)
unfolding collect
deduplicate_to_gomod_dicts modules user =
    collect user [] modules >>= λ d. some (values (sort_by (λ kv. kv.0) d))

-- The vendor directory: `vendor.exists()` and `vendor.is_dir()`.
pub record Vendor : Type 0 where
  pub exists : Bool
  pub is_dir : Bool

-- None is `ValidationError`.
abbrev pub should_vendor_deps : List Text → Vendor → Bool → Option (Bool × Bool)
should_vendor_deps flags vendor strict =
    if contains flags (text "gomod-vendor-check")
    then some (true, not vendor.exists)
    else if contains flags (text "gomod-vendor")
    then some (true, true)
    else if strict && vendor.is_dir
    then none
    else some (false, false)

abbrev pub arrow : Text
arrow = text "=>"

abbrev pub replaced_by : Text → Option Text → Text → Option Text → GoModule
replaced_by name version path new_version = record {
  path = name;
  version = version;
  replace = some (record { path = path; version = new_version });
}

-- `parse_module_line` on the words of the line after "# "; none is `InvalidFileFormat`.
abbrev pub parse_module_line : List Text → Option GoModule
parse_module_line (name ∷ version ∷ []) =
    some (record { path = name; version = some version; replace = none })
parse_module_line (name ∷ a ∷ path ∷ []) =
    if a == arrow then some (replaced_by name none path none) else none
parse_module_line (name ∷ b ∷ c ∷ d ∷ []) =
    if b == arrow
    then some (replaced_by name none c (some d))
    else if c == arrow
    then some (replaced_by name (some b) d none)
    else none
parse_module_line (name ∷ version ∷ a ∷ path ∷ new_version ∷ []) =
    if a == arrow then some (replaced_by name (some version) path (some new_version)) else none
parse_module_line _ = none
