-- ===== src/Gomod/Tags.antt =====
-- The version of a Go module in a repository: _get_highest_semver_tag, _get_golang_pseudo_version,
-- _get_semantic_version_from_tag and get_golang_version of cachito/workers/pkg_managers/gomod.py.
-- The package semver, the decimal digits of Unicode, the tags that git lists and the commit's data are
-- parameters.
use cachito.Base.{
  ℕ, ◌+◌, ◌*◌, ◌&&◌, map, ◌||◌, Bool, not, Option, none, some, List, [], ◌∷◌, ◌++◌, ◌==◌, nat_eq,
  if◌then◌else◌, filter, drop, take,
}
use cachito.Base.Text.{Text, text, is_empty, starts_with, replace, rpartition, lstrip}
use cachito.Base.Partial.{◌>>=◌}

-- What the source uses of `semver.VersionInfo`; `parse` gives none for a `ValueError`.
pub record Semver : Type 1 where
  pub Version : Type 0
  pub parse : Text → Option Version
  pub major : Version → ℕ
  pub greater : Version → Version → Bool
  pub has_prerelease : Version → Bool
  pub bump_patch : Version → Version
  pub show : Version → Text

-- `if subpath`: an empty subpath counts as none.
abbrev pub given : Option Text → Option Text
given none = none
given (some s) = if is_empty s then none else some s

abbrev pub version_text : Option Text → Text → Text
version_text none tag = drop 1 tag
version_text (some subpath) tag = replace tag (subpath ++ text "/v") []

abbrev pub prefix : Option Text → Text
prefix none = text "v"
prefix (some subpath) = subpath ++ text "/v"

-- The commit: `%Y%m%d%H%M%S` of its date in UTC, and its hash.
pub record Commit : Type 0 where
  pub timestamp : Text
  pub hexsha : Text

module _ (S : Semver) where
  abbrev pub get_semantic_version_from_tag : Text → Option Text → Option S.Version
  get_semantic_version_from_tag tag subpath = S.parse (version_text (given subpath) tag)

  -- The version of a tag; none where the loop goes on to the next tag.
  unfoldable pub version_with_major : ℕ → Option Text → Text → Option S.Version
  version_with_major major subpath tag =
      get_semantic_version_from_tag tag subpath >>= λ v. if S.major v == major then some v else none

  -- The higher one of the highest tag so far and this tag.
  unfoldable pub higher :
      Option (Text × S.Version) → Text → Option S.Version → Option (Text × S.Version)
  higher highest tag none = highest
  higher none tag (some v) = some (tag, v)
  higher (some (t, w)) tag (some v) = if S.greater v w then some (tag, v) else some (t, w)

  unfoldable pub highest_from :
      ℕ → Option Text → Option (Text × S.Version) → List Text → Option (Text × S.Version)
  unfolding version_with_major higher
  highest_from major subpath highest [] = highest
  highest_from major subpath highest (tag ∷ tags) =
      highest_from major subpath (higher highest tag (version_with_major major subpath tag)) tags

  -- The tags are those that git lists.
  unfoldable pub get_highest_semver_tag : List Text → ℕ → Option Text → Option Text
  unfolding highest_from
  get_highest_semver_tag tag_names major subpath =
      highest_from major subpath none
        (filter (λ t. starts_with t (prefix (given subpath))) tag_names)
      >>= λ h. some h.0

  abbrev pub commit_suffix : Commit → Text
  commit_suffix c = c.timestamp ++ (text "-" ++ take 12 c.hexsha)

  -- `module_major_version or "0"`, as a text; the tag's version is none for a `ValueError`.
  unfoldable pub pseudo_version_of_tag : Commit → S.Version → Text
  pseudo_version_of_tag c v =
      if S.has_prerelease v
      then text "v" ++ (S.show v ++ (text "." ++ (text "0." ++ commit_suffix c)))
      else text "v" ++ (S.show (S.bump_patch v) ++ (text "-" ++ (text "0." ++ commit_suffix c)))

-- The values of a text's decimal digits: `digit` gives the value of a character that `\d` matches,
-- which is any decimal digit of Unicode.
abbrev pub digit_values : (ℕ → Option ℕ) → Text → Option (List ℕ)
digit_values digit [] = some []
digit_values digit (c ∷ s) = digit c >>= λ d. digit_values digit s >>= λ ds. some (d ∷ ds)

-- The digits after "/v" of `(?:.+/v)(?P<major_version>\d+)$`.
abbrev pub version_digits : (ℕ → Option ℕ) → Text → Option (List ℕ)
version_digits digit [] = none
version_digits digit (c ∷ ds) =
    if c == b'v' && not (is_empty ds) then digit_values digit ds else none

abbrev pub to_number : ℕ → List ℕ → ℕ
to_number n [] = n
to_number n (d ∷ ds) = to_number (10 * n + d) ds

-- `int(...)` of the major version in the module's name, with its decimal text; none for 0 as well,
-- which the source treats as if there were none.
unfoldable pub module_major_version : (ℕ → Option ℕ) → Text → Option (ℕ × Text)
module_major_version digit name = rpartition b'/' name >>= λ parts.
    version_digits digit parts.1 >>= λ ds.
    (if is_empty parts.0 || to_number 0 ds == 0
      then none
      else some (to_number 0 ds, lstrip b'0' (map (λ d. b'0' + d) ds)))

abbrev pub major_versions_to_try : Option (ℕ × Text) → List ℕ
major_versions_to_try none = 1 ∷ 0 ∷ []
major_versions_to_try (some m) = m.0 ∷ []

-- The first of the major versions that has a tag.
abbrev pub first_tag : (ℕ → Option Text) → List ℕ → Option Text
first_tag highest [] = none
first_tag highest (v ∷ vs) =
    let rest = first_tag highest vs in elim (highest v) [ none ↦ rest | some tag ↦ some tag ]

abbrev pub without_subpath : Option Text → Text → Text
without_subpath none tag = tag
without_subpath (some subpath) tag = replace tag (subpath ++ text "/") []

abbrev pub base_version : Option (ℕ × Text) → Text
base_version none = text "0"
base_version (some m) = m.1

module _ (S : Semver) (digit : ℕ → Option ℕ) where
  -- The tags on the commit, and those on it or before it; none is a `ValueError`.
  unfoldable pub get_golang_version :
      List Text → List Text → Commit → Text → Option Text → Option Text
  unfolding get_highest_semver_tag pseudo_version_of_tag module_major_version
  get_golang_version on_commit reachable c module_name subpath =
      let m = module_major_version digit module_name in
      let tries = major_versions_to_try m in
      let tagged = first_tag (λ v. get_highest_semver_tag S on_commit v subpath) tries in
      let base = first_tag (λ v. get_highest_semver_tag S reachable v subpath) tries in
      elim tagged [
        | some tag ↦ some (without_subpath (given subpath) tag)
        | none ↦ elim base [
          | some tag ↦ get_semantic_version_from_tag S tag subpath >>= λ v.
              some (pseudo_version_of_tag S c v)
          | none ↦ some (text "v" ++ (base_version m ++ (text ".0.0-" ++ commit_suffix S c)))
        ]
      ]
