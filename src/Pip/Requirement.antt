-- ===== src/Pip/Requirement.antt =====
-- One requirement of a requirements file: PipRequirement of
-- cachito/workers/pkg_managers/pip.py. What the source takes from pkg_resources, urllib and
-- `str.lower` is the parameter `Library`.
use cachito.Base.{
  Bool, true, false, not, ◌&&◌, Option, none, some, List, [], ◌∷◌, ◌++◌, map, contains, nat_eq,
  list_eq, if◌then◌else◌, ◌==◌, length, drop, ltb, filter,
}
use cachito.Base.Text.{Text, text, is_empty, starts_with, split, partition, join, has_substring}
use cachito.Base.Words.{words, strip}
use cachito.Base.Dict.{Dict, insert}
use cachito.Base.Result.{Result, ok, err, ◌>>=◌}
use cachito.Pip.Options.{split_hashes_from_options}

-- A requirement that pkg_resources parsed.
pub record Parsed : Type 0 where
  pub project_name : Text
  pub name : Text
  pub specs : List (Text × Text)
  pub extras : List Text
  pub marker : Option Text

-- `parse_requirements` (none is its exception), `urlparse(url).fragment`, `unquote` and `lower`.
pub record Library : Type 0 where
  pub parse_requirements : Text → Option (List Parsed)
  pub fragment : Text → Text
  pub unquote : Text → Text
  pub lower : Text → Text

pub record Requirement : Type 0 where
  pub package_name : Text
  pub raw_package : Text
  pub extras : List Text
  pub version_specs : List (Text × Text)
  pub environment_marker : Option Text
  pub hashes : List Text
  pub qualifiers : Dict Text Text
  pub kind : Text
  pub download_line : Text
  pub options : List Text

pub data RequirementError : Type 0 where
  no_scheme : Text → RequirementError
  unsupported_scheme : Text → RequirementError
  no_egg_name : Text → RequirementError
  unparsable : Text → RequirementError
  multiple_requirements : Text → RequirementError

abbrev pub url_schemes : List Text
url_schemes = text "http" ∷ text "https" ∷ text "ftp" ∷ []

abbrev pub vcs_schemes : List Text
vcs_schemes =
    text "bzr"
    ∷ text "bzr+ftp"
    ∷ text "bzr+http"
    ∷ text "bzr+https"
    ∷ text "git"
    ∷ text "git+ftp"
    ∷ text "git+http"
    ∷ text "git+https"
    ∷ text "hg"
    ∷ text "hg+ftp"
    ∷ text "hg+http"
    ∷ text "hg+https"
    ∷ text "svn"
    ∷ text "svn+ftp"
    ∷ text "svn+http"
    ∷ text "svn+https"
    ∷ []

-- `xs[-1]` of a list that `split` made.
abbrev pub last_of : Text → List Text → Text
last_of x [] = x
last_of x (y ∷ ys) = last_of y ys

abbrev pub kind_of : Text → Text
kind_of scheme =
    if contains url_schemes scheme
    then text "url"
    else if contains vcs_schemes scheme
    then text "vcs"
    else scheme

-- None is no direct access requirement.
unfoldable pub assess_direct_access_requirement :
    Library → Text → Result RequirementError (Option Text)
assess_direct_access_requirement L line = elim (partition b':' line) [
  | none ↦ ok none
  | some (scheme, rest) ↦
      let parts = split b'@' scheme in
      if ltb 2 (length parts)
      then err (no_scheme line)
      else ok (some (kind_of (strip (L.lower (last_of [] parts)))))
]

-- `@.+://` is found in the line, which has no line breaks.
unfoldable pub has_name : Text → Bool
has_name [] = false
has_name (c ∷ s) =
    let rest = has_name s in
    if c == b'@' && has_substring (drop 1 s) (text "://") then true else rest

-- `url.split("; ", 1)`, where "; " occurs.
unfoldable pub cut_marker : Text → Option (Text × Text)
cut_marker [] = none
cut_marker (c ∷ s) =
    let rest = cut_marker s in
    if starts_with (c ∷ s) (text "; ")
    then some ([], drop 1 s)
    else elim rest [ none ↦ none | some (url, marker) ↦ some (c ∷ url, marker) ]

-- The loop over the sections of the fragment: the package's name and the qualifiers.
unfoldable pub read_sections :
    Library → Option Text → Dict Text Text → List Text → Option Text × Dict Text Text
read_sections L name qualifiers [] = (name, qualifiers)
read_sections L name qualifiers (section ∷ sections) =
    let skipped = read_sections L name qualifiers sections in
    elim (partition b'=' section) [
      | none ↦ skipped
      | some (attr, value) ↦
          let v = L.unquote value in
          read_sections L (if attr == text "egg" then some v else name) (insert attr v qualifiers)
            sections
    ]

abbrev pub name_and_url : Text → Option Text × Text
name_and_url line =
    if has_name line
    then elim (partition b'@' line) [ none ↦ (none, line) | some (name, url) ↦ (some name, url) ]
    else (none, line)

abbrev pub url_and_marker : Text → Text × Option Text
url_and_marker url = elim (cut_marker url) [
  | none ↦ (url, none)
  | some (before, marker) ↦ (before, some marker)
]

abbrev pub marker_parts : Option Text → List Text
marker_parts none = []
marker_parts (some marker) = if is_empty marker then [] else text ";" ∷ strip marker ∷ []

-- `if not package_name`, and the line for pkg_resources.
abbrev pub adjusted :
    Text
    → Text
    → Option Text
    → Option Text × Dict Text Text
    → Result RequirementError (Text × Dict Text Text)
adjusted line url marker (none, qualifiers) = err (no_egg_name line)
adjusted line url marker (some name, qualifiers) =
    if is_empty name
    then err (no_egg_name line)
    else ok (join (text " ") (strip name ∷ text "@" ∷ strip url ∷ marker_parts marker), qualifiers)

unfoldable pub adjust_direct_access_requirement :
    Library → Text → Result RequirementError (Text × Dict Text Text)
unfolding read_sections
adjust_direct_access_requirement L line =
    let (name, rest) = name_and_url line in
    let (url, marker) = url_and_marker rest in
    let fragment = L.fragment url in
    adjusted line url marker
      (if is_empty fragment then (name, []) else read_sections L name [] (split b'&' fragment))

-- The requirement's line for pkg_resources with the kind and the qualifiers.
unfoldable pub line_to_parse :
    Library → Text → Option Text → Result RequirementError (Text × (Text × Dict Text Text))
unfolding adjust_direct_access_requirement
line_to_parse L line none = ok (text "pypi", (line, []))
line_to_parse L line (some kind) =
    if contains (text "url" ∷ text "vcs" ∷ []) kind
    then (adjust_direct_access_requirement L line >>= λ r. ok (kind, r))
    else err (unsupported_scheme kind)

unfoldable pub requirement_of : Text → Text → Dict Text Text → List Text → Parsed → Requirement
requirement_of kind to_be_parsed qualifiers options p =
    let (hashes, reduced) = split_hashes_from_options options in
    record {
      package_name = p.project_name;
      raw_package = p.name;
      extras = p.extras;
      version_specs = p.specs;
      environment_marker = p.marker;
      hashes = hashes;
      qualifiers = qualifiers;
      kind = kind;
      download_line = to_be_parsed;
      options = reduced;
    }

-- What follows `parse_requirements`; a line that holds no requirement gives none.
unfoldable pub one_requirement :
    Text
    → (Parsed → Requirement)
    → Text
    → Option (List Parsed)
    → Result RequirementError (Option Requirement)
one_requirement line build to_be_parsed none = err (unparsable to_be_parsed)
one_requirement line build to_be_parsed (some []) = ok none
one_requirement line build to_be_parsed (some (p ∷ [])) = ok (some (build p))
one_requirement line build to_be_parsed (some (p ∷ q ∷ ps)) = err (multiple_requirements line)

unfoldable pub from_line : Library → Text → List Text → Result RequirementError (Option Requirement)
unfolding assess_direct_access_requirement line_to_parse requirement_of one_requirement
from_line L line options = assess_direct_access_requirement L line >>= λ access.
    line_to_parse L line access >>= λ (kind, (to_be_parsed, qualifiers)).
    one_requirement line (requirement_of kind to_be_parsed qualifiers options) to_be_parsed
      (L.parse_requirements to_be_parsed)

-- `str(requirement)`
abbrev pub hash_option : Text → Text
hash_option h = text "--hash" ++ (b'=' ∷ h)

unfoldable pub to_text : Requirement → Text
to_text r = join (text " ") (r.options ++ (r.download_line ∷ map hash_option r.hashes))

-- The `url` property: none is `ValueError` or `IndexError`.
abbrev pub third : List Text → Option Text
third (a ∷ b ∷ c ∷ rest) = some c
third _ = none

unfoldable pub url : Requirement → Option Text
url r =
    if contains (text "url" ∷ text "vcs" ∷ []) r.kind then third (words r.download_line) else none

abbrev pub qualifier_texts : Dict Text Text → List Text
qualifier_texts [] = []
qualifier_texts ((key, value) ∷ d) = (key ++ (text "=" ++ value)) ∷ qualifier_texts d

abbrev pub marker_of : Option Text → List Text
marker_of none = []
marker_of (some marker) = if is_empty marker then [] else text ";" ∷ marker ∷ []

-- `url#qualifiers`, or the URL alone.
abbrev pub qualified : Text → Text → Text
qualified url line = if is_empty line then url else url ++ (text "#" ++ line)

abbrev pub url_line : Requirement → Text → Text
url_line r url = join (text " ") (
    r.raw_package
    ∷ text "@"
    ∷ qualified url (join (text "&") (qualifier_texts r.qualifiers))
    ∷ marker_of r.environment_marker)

-- `copy` with a new URL, which is not empty, and without; `hashes or self.hashes`. The options that
-- stay are a set in the source, whose order is not determined; here they keep theirs.
abbrev pub hashes_or : List Text → List Text → List Text
hashes_or [] old = old
hashes_or (h ∷ hs) old = h ∷ hs

unfoldable pub copy : Requirement → Option Text → List Text → Requirement
copy r none hashes = record r { hashes = hashes_or hashes r.hashes }
copy r (some url) hashes = record r {
  download_line = url_line r url;
  options = filter (λ o. not (contains (text "-e" ∷ text "--editable" ∷ []) o)) r.options;
  extras = [];
  version_specs = [];
  kind = text "url";
  hashes = hashes_or hashes r.hashes;
}
