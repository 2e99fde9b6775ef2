-- ===== src/Prune.antt =====
-- The listing and deletion of stale source archives: cachito/workers/prune_archives.py.
-- The API's answers and the reading of times (`strptime`, none being its `ValueError`) are functions
-- that are passed in; the files below the sources directory are a list. Times are numbers.
pub mod Stale
pub mod Tests
use cachito.Base.{
  ℕ, zero, suc, ◌≤◌, Bool, true, false, not, ◌&&◌, ◌||◌, Option, none, some, List, [], ◌∷◌, ◌==◌,
  nat_eq, list_eq, all, filter, map, if◌then◌else◌, length, take, drop, leb, ltb,
}
use cachito.Base.Text.{Text, text, is_empty, is_digit}

-- A file: its parent relative to the sources directory, its name, and `path.is_file()`.
pub record File : Type 0 where
  pub parent : Text
  pub name : Text
  pub is_file : Bool

pub record ParsedArchive : Type 0 where
  pub file : File
  pub repo_name : Text
  pub ref : Text

pub record ResolvedArchive : Type 0 where
  pub file : File
  pub created : ℕ
  pub latest_request_id : ℕ

abbrev pub from_path : File → ParsedArchive
from_path f = record { file = f; repo_name = f.parent; ref = take 40 f.name }

-- One character of `[a-f0-9]`.
abbrev pub is_hex : ℕ → Bool
is_hex c = (leb b'a' c && leb c b'f') || is_digit c

-- `^[a-f0-9]{40}(-with-submodules)?\.tar\.gz$`, for a name with no line break at its end.
unfoldable pub is_valid_archive_filename : Text → Bool
is_valid_archive_filename name =
    length (take 40 name) == 40
    && all is_hex (take 40 name)
    && (drop 40 name == text ".tar.gz" || drop 40 name == text "-with-submodules.tar.gz")

abbrev pub get_parsed_source_archives : List File → List ParsedArchive
get_parsed_source_archives files =
    map from_path (filter (λ f. f.is_file && is_valid_archive_filename f.name) files)

pub record LatestRequest : Type 0 where
  pub id : ℕ
  pub created : Option Text
  pub updated : Option Text

-- `session.get` and `raise_for_status`.
pub data Response : Type 0 where
  connection_failed : Response
  http_error : ℕ → Response
  response : LatestRequest → Response

-- A result, nothing, or an exception that ends the run.
pub data Lookup (A : Type 0) : Type 0 where
  raised : Lookup A
  missing : Lookup A
  found : A → Lookup A

abbrev pub get_latest_request : Response → Lookup LatestRequest
get_latest_request connection_failed = raised
get_latest_request (http_error status) = if status == 404 then missing else raised
get_latest_request (response r) = found r

-- `latest_request.get("created") or latest_request.get("updated")`
abbrev pub request_age : LatestRequest → Option Text
request_age r = elim r.created [
  | none ↦ r.updated
  | some created ↦ if is_empty created then r.updated else some created
]

abbrev pub resolved : File → ℕ → Option ℕ → Lookup ResolvedArchive
resolved f id none = raised
resolved f id (some created) =
    found (record { file = f; created = created; latest_request_id = id })

abbrev pub resolve_request : (Text → Option ℕ) → File → LatestRequest → Lookup ResolvedArchive
resolve_request parse f r = elim (request_age r) [
  | none ↦ missing
  | some age ↦ resolved f r.id (parse age)
]

unfoldable pub resolve_source_archive :
    (Text → Text → Response) → (Text → Option ℕ) → ParsedArchive → Lookup ResolvedArchive
resolve_source_archive api parse a = elim (get_latest_request (api a.repo_name a.ref)) [
  | raised ↦ raised
  | missing ↦ missing
  | found r ↦ resolve_request parse a.file r
]

-- What a run did: the stale archives that it listed, the files it deleted, and whether an exception
-- ended it.
pub record Pruned : Type 0 where
  pub listed : List ResolvedArchive
  pub deleted : List File
  pub failed : Bool

abbrev pub finished : Bool → Pruned
finished failed = record { listed = []; deleted = []; failed = failed }

-- One archive before the rest of the run.
abbrev pub prune_one : Bool → ResolvedArchive → Pruned → Pruned
prune_one delete r rest = record {
  listed = r ∷ rest.listed;
  deleted = if delete then r.file ∷ rest.deleted else rest.deleted;
  failed = rest.failed;
}

-- `islice`'s count of what it still takes.
abbrev pub exhausted : Option ℕ → Bool
exhausted none = false
exhausted (some zero) = true
exhausted (some (suc n)) = false

abbrev pub decrement : Option ℕ → Option ℕ
decrement none = none
decrement (some zero) = some zero
decrement (some (suc n)) = some n

-- The loop over `islice(_get_stale_archives(...), limit)`, where `resolve` looks an archive up: the
-- generator looks up no archive once the limit is reached.
unfoldable pub process_archives :
    (ParsedArchive → Lookup ResolvedArchive) → ℕ → Bool → Option ℕ → List ParsedArchive → Pruned
process_archives resolve older_than delete limit [] = finished false
process_archives resolve older_than delete limit (a ∷ as_) =
    let next = process_archives resolve older_than delete limit as_ in
    let after = process_archives resolve older_than delete (decrement limit) as_ in
    let looked_up : Pruned = elim (resolve a) [
      | raised ↦ finished true
      | missing ↦ next
      | found r ↦ if ltb r.created older_than then prune_one delete r after else next
    ] in
    if exhausted limit then finished false else looked_up

unfoldable pub process_stale_archives :
    (Text → Text → Response) → (Text → Option ℕ) → List File → ℕ → Bool → Option ℕ → Pruned
unfolding process_archives resolve_source_archive
process_stale_archives api parse files older_than delete limit =
    process_archives (resolve_source_archive api parse) older_than delete limit
      (get_parsed_source_archives files)

-- None is `BadParameter`.
abbrev pub validate_older_than : ℕ → ℕ → Option ℕ → Option ℕ
validate_older_than default_age minimum_age older_than =
    let given = elim older_than as (λ o. ℕ) [ none ↦ default_age | some t ↦ t ] in
    if ltb minimum_age given then none else some given
