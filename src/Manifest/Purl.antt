-- ===== src/Manifest/Purl.antt =====
-- Package URLs: cachito/web/purl.py. urllib, pkg_resources, os.path.normpath, `Path.relative_to`
-- and `str.lower` are the parameter `Library`.
use cachito.Base.{
  ℕ, Bool, true, false, not, ◌&&◌, ◌||◌, Option, none, some, List, [], ◌∷◌, ◌++◌, contains, nat_eq,
  list_eq, if◌then◌else◌, ◌==◌, length, drop, ◌-◌, zero, suc,
}
use cachito.Base.Text.{
  Text, text, is_empty, starts_with, ends_with, partition, rpartition, lstrip, rstrip, replace,
}
use cachito.Base.Dict.{Dict, lookup}
use cachito.Base.Result.{Result, ok, err, ◌>>=◌}

-- `urllib.parse.urlparse`
pub record Url : Type 0 where
  pub scheme : Text
  pub netloc : Text
  pub path : Text
  pub fragment : Text
  pub hostname : Option Text

-- `urlparse` raises ValueError for some texts (none). `quote` keeps slashes, `quote_all` nothing.
pub record Library : Type 0 where
  pub urlparse : Text → Option Url
  pub parse_qs : Text → Dict Text (List Text)
  pub quote : Text → Text
  pub quote_all : Text → Text
  pub safe_name : Text → Text
  pub lower : Text → Text
  pub normpath : Text → Text
  pub relative_to : Text → Text → Option Text

-- A package of a content manifest; what the source never reads, the dependencies of dependencies, is
-- left out (see Entry).
pub record Package : Type 0 where
  pub name : Text
  pub kind : Text
  pub version : Option Text
  pub dev : Bool
  pub path : Option Text

-- The ContentManifestErrors by their messages, and any other exception of Python (ValueError,
-- TypeError, KeyError, ...).
pub data PurlError : Type 0 where
  not_defined : Text → PurlError
  not_converted : Text → PurlError
  unknown_protocol : Text → PurlError
  not_top_level : Text → PurlError
  python_error : PurlError

abbrev pub Purl : Type 0
Purl = Result PurlError Text

abbrev pub given : {A : Type 0} → Option A → Result PurlError A
given none = err python_error
given (some a) = ok a

abbrev pub parent_purl_placeholder : Text
parent_purl_placeholder = text "PARENT_PURL"

-- `f"{version}"`
abbrev pub version_text : Option Text → Text
version_text none = text "None"
version_text (some v) = v

abbrev pub is_local_version : Text → Option Text → Bool
is_local_version prefix none = false
is_local_version prefix (some v) = not (is_empty v) && starts_with v prefix

abbrev pub has_version : Option Text → Bool
has_version none = false
has_version (some v) = not (is_empty v)

-- The placeholder, with a path behind it if there is one.
abbrev pub placeholder_at : Option Text → Text
placeholder_at none = parent_purl_placeholder
placeholder_at (some path) = parent_purl_placeholder ++ (b'#' ∷ path)

unfoldable pub to_purl_go : Library → Package → Option Text → Text
to_purl_go L p parent =
    let purl = text "pkg:golang/" ++ L.quote_all p.name in
    if is_local_version (text ".") p.version
    then placeholder_at parent
    else if has_version p.version
    then purl ++ (b'@' ∷ version_text p.version)
    else purl

-- What `.+` matches: the text up to a line break.
abbrev pub until_newline : Text → Text
until_newline [] = []
until_newline (c ∷ s) = let rest = until_newline s in if c == 10 then [] else c ∷ rest

-- The match of a version with a protocol: the protocol, whether `//` follows it, and the suffix.
abbrev pub suffix_of : Text → Text → Option (Text × Bool × Text)
suffix_of protocol rest =
    if starts_with rest (text "//") && not (is_empty (until_newline (drop 2 rest)))
    then some (protocol, true, until_newline (drop 2 rest))
    else if is_empty (until_newline rest)
    then none
    else some (protocol, false, until_newline rest)

unfoldable pub match_protocol : Text → Option (Text × Bool × Text)
match_protocol version = elim (partition b':' version) [
  | none ↦ none
  | some (protocol, rest) ↦ if is_empty protocol then none else suffix_of protocol rest
]

-- `[^#/]+#.+`, after a slash.
abbrev pub name_and_ref : Text → Option (Text × Text)
name_and_ref s = elim (partition b'#' s) [
  | none ↦ none
  | some (name, ref) ↦
      if is_empty name || contains name b'/' || is_empty ref then none else some (name, ref)
]

-- The last slash that a name and a version follow: namespace, name and version.
unfoldable pub last_forge : Text → Option (Text × Text × Text)
last_forge [] = none
last_forge (c ∷ s) = elim (last_forge s) [
  | some (namespace, name, ref) ↦ some (c ∷ namespace, name, ref)
  | none ↦
      if c == b'/'
      then elim (name_and_ref s) [ none ↦ none | some (name, ref) ↦ some ([], name, ref) ]
      else none
]

unfoldable pub match_forge : Text → Option (Text × Text × Text)
unfolding last_forge
match_forge suffix = elim (last_forge suffix) [
  | none ↦ none
  | some (namespace, name, ref) ↦ if is_empty namespace then none else some (namespace, name, ref)
]

abbrev pub forge_purl : Text → Text → Option (Text × Text × Text) → Purl
forge_purl version protocol none = err (not_converted version)
forge_purl version protocol (some (namespace, name, ref)) =
    ok (text "pkg:" ++ (protocol ++ (b'/' ∷ (namespace ++ (b'/' ∷ (name ++ (b'@' ∷ ref)))))))

abbrev pub git_protocols : List Text
git_protocols = text "git" ∷ text "git+http" ∷ text "git+https" ∷ text "git+ssh" ∷ []

-- The URL of a version, as a qualifier of a generic purl.
abbrev pub generic : Text → Text → Text → Text
generic name qualifier value =
    text "pkg:generic/" ++ (name ++ (b'?' ∷ (qualifier ++ (b'=' ∷ value))))

unfoldable pub npm_purl : Library → Text → Text → Option (Text × Bool × Text) → Purl
unfolding match_forge
npm_purl L name version none = ok (text "pkg:npm/" ++ (name ++ (b'@' ∷ version)))
npm_purl L name version (some (protocol, has_authority, suffix)) =
    if protocol == text "file"
    then (given (L.urlparse version) >>= λ url.
        ok (generic name (text "file") (L.quote_all url.path)))
    else if not has_authority
    then forge_purl version protocol (match_forge suffix)
    else if contains git_protocols protocol
    then ok (generic name (text "vcs_url") (L.quote_all version))
    else if contains (text "http" ∷ text "https" ∷ []) protocol
    then ok (generic name (text "download_url") (L.quote_all version))
    else err (unknown_protocol version)

unfoldable pub to_purl_npm : Library → Package → Purl
unfolding npm_purl match_protocol
to_purl_npm L p =
    given p.version >>= λ version. npm_purl L (L.quote p.name) version (match_protocol version)

abbrev pub type_of_hostname : Option Text → Text
type_of_hostname none = text "generic"
type_of_hostname (some host) =
    if host == text "github.com"
    then text "github"
    else if host == text "bitbucket.org"
    then text "bitbucket"
    else text "generic"

abbrev pub without_git : Text → Text
without_git repo = elim (ends_with repo (text ".git")) [
  | false ↦ repo
  | true ↦ rest (length repo - 4) repo
]
  where
    rest : ℕ → Text → Text
    rest n [] = []
    rest zero (c ∷ s) = []
    rest (suc n) (c ∷ s) = c ∷ rest n s

abbrev pub namespace_purl : Library → Text → Text → Option (Text × Text) → Purl
namespace_purl L pkg_type ref none = err python_error
namespace_purl L pkg_type ref (some (namespace, repo)) = ok (
    text "pkg:"
    ++ (pkg_type
        ++ (b'/' ∷ (L.lower namespace ++ (b'/' ∷ (L.lower (without_git repo) ++ (b'@' ∷ ref)))))))

abbrev pub vcs_purl : Library → Text → Text → Text → Url → Purl
vcs_purl L name repo_url ref url =
    let pkg_type = type_of_hostname url.hostname in
    if pkg_type == text "generic"
    then ok (generic name (text "vcs_url") (L.quote_all (repo_url ++ (b'@' ∷ ref))))
    else namespace_purl L pkg_type ref (rpartition b'/' (lstrip b'/' url.path))

unfoldable pub to_vcs_purl : Library → Text → Text → Text → Purl
to_vcs_purl L name repo_url ref =
    let stripped = rstrip b'/' repo_url in
    given (L.urlparse stripped) >>= vcs_purl L name stripped ref

unfoldable pub to_git_purl : Library → Text → Url → Purl
unfolding to_vcs_purl
to_git_purl L name url =
    let vcs_url = drop 4 url.scheme ++ (text "://" ++ (url.netloc ++ url.path)) in
    given (rpartition b'@' vcs_url) >>= λ (repo_url, ref). to_vcs_purl L name repo_url ref

-- `fragments["cachito_hash"][0]`
abbrev pub first_of : Option (List Text) → Option Text
first_of none = none
first_of (some []) = none
first_of (some (v ∷ vs)) = some v

abbrev pub pip_purl : Library → Package → Text → Url → Purl
pip_purl L p version url =
    let name = L.safe_name (L.lower p.name) in
    if is_empty url.scheme
    then ok (text "pkg:pypi/" ++ (name ++ (b'@' ∷ version)))
    else if starts_with url.scheme (text "git+")
    then to_git_purl L p.name url
    else (given (first_of (lookup (text "cachito_hash") (L.parse_qs url.fragment))) >>= λ checksum.
        ok (
          generic name (text "download_url")
            (L.quote_all version ++ (text "&checksum=" ++ checksum))))

-- `urlparse(None)` has an empty scheme, so that a pip package without a version prints None.
unfoldable pub to_purl_pip : Library → Package → Purl
to_purl_pip L p = elim p.version [
  | none ↦ ok (text "pkg:pypi/" ++ (L.safe_name (L.lower p.name) ++ text "@None"))
  | some version ↦ given (L.urlparse version) >>= pip_purl L p version
]

abbrev pub gem_purl : Library → Package → Text → Url → Purl
gem_purl L p version url =
    if starts_with url.scheme (text "git+")
    then to_git_purl L p.name url
    else ok (text "pkg:gem/" ++ (p.name ++ (b'@' ∷ version)))

abbrev pub gem_placeholder : Text → Option Text → Text
gem_placeholder path none = placeholder_at (some path)
gem_placeholder path (some parent) = placeholder_at (some (parent ++ (b'/' ∷ path)))

unfoldable pub to_purl_rubygems : Library → Package → Option Text → Purl
to_purl_rubygems L p parent = given p.version >>= λ version.
    if starts_with version (text "./")
    then ok (gem_placeholder (L.normpath version) parent)
    else (given (L.urlparse version) >>= gem_purl L p version)

unfoldable pub to_purl_git : Library → Package → Purl
unfolding to_vcs_purl
to_purl_git L p = given p.version >>= λ version.
    given (rpartition b'#' version) >>= λ (repo_url, ref). to_vcs_purl L p.name repo_url ref

unfoldable pub to_purl : Library → Package → Option Text → Purl
unfolding to_purl_go to_purl_npm to_purl_pip to_purl_rubygems to_purl_git
to_purl L p parent =
    if contains (text "go-package" ∷ text "gomod" ∷ []) p.kind
    then ok (to_purl_go L p parent)
    else if contains (text "npm" ∷ text "yarn" ∷ []) p.kind
    then to_purl_npm L p
    else if p.kind == text "pip"
    then to_purl_pip L p
    else if p.kind == text "rubygems"
    then to_purl_rubygems L p parent
    else if p.kind == text "git-submodule"
    then to_purl_git L p
    else err (not_defined p.kind)

-- The repository and the commit of a request.
pub record Origin : Type 0 where
  pub repo : Text
  pub ref : Text

abbrev pub at_subpath : Option Text → Text → Text
at_subpath none purl = purl
at_subpath (some path) purl = if is_empty path then purl else purl ++ (b'#' ∷ path)

unfoldable pub to_top_level_purl : Library → Package → Origin → Option Text → Purl
unfolding to_purl to_vcs_purl
to_top_level_purl L p request subpath =
    if contains (text "gomod" ∷ text "go-package" ∷ text "git-submodule" ∷ []) p.kind
    then to_purl L p none
    else if contains (text "npm" ∷ text "pip" ∷ text "yarn" ∷ text "rubygems" ∷ []) p.kind
    then (to_vcs_purl L p.name request.repo request.ref >>= λ purl. ok (at_subpath subpath purl))
    else err (not_top_level p.kind)

unfoldable pub replace_parent_purl_placeholder : Text → Text → Text
replace_parent_purl_placeholder dep_purl parent_purl =
    replace dep_purl parent_purl_placeholder parent_purl
