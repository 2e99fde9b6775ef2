-- ===== src/Prune/Tests.antt =====
-- A run of the pruning of archives, and the theorems about it at concrete data.
use cachito.Base.{
  ℕ, ◌≡◌, refl, true, false, Option, none, some, List, [], ◌∷◌, ◌++◌, ◌==◌, nat_eq, list_eq, All,
  equalities, if◌then◌else◌, length,
}
use cachito.Base.Text.{Text, text}
use cachito.Prune.{
  File, Response, http_error, response, is_valid_archive_filename, resolve_source_archive,
  get_parsed_source_archives, process_stale_archives,
}
use cachito.Prune.Stale.{
  IsSafe, IsComplete, Answered, stale, process_stale_archives-IsSafe,
  process_stale_archives-IsComplete,
}

abbrev sha1 : Text
sha1 = text "0123456789abcdef0123456789abcdef01234567"

abbrev archive : Text → File
archive repo = record {
  parent = repo;
  name = sha1 ++ text "-with-submodules.tar.gz";
  is_file = true;
}

abbrev files : List File
files =
    archive (text "a")
    ∷ record { parent = text "a"; name = text "README.tar.gz"; is_file = true }
    ∷ archive (text "bb")
    ∷ archive (text "ccc")
    ∷ []

-- No request is known for the repository bb.
abbrev api : Text → Text → Response
api repo ref =
    if repo == text "bb"
    then http_error 404
    else response (record { id = 3; created = none; updated = some repo })

-- The longer text is the later time.
abbrev parse : Text → Option ℕ
parse s = some (length s)

valid_name : is_valid_archive_filename (sha1 ++ text ".tar.gz") ≡ true
unfolding is_valid_archive_filename equalities
valid_name = refl

deleted_one : (process_stale_archives api parse files 2 true none).deleted ≡ archive (text "a") ∷ []
unfolding process_stale_archives is_valid_archive_filename equalities
deleted_one = refl

listed_only : (process_stale_archives api parse files 9 false (some 1)).deleted ≡ []
unfolding process_stale_archives is_valid_archive_filename equalities
listed_only = refl

All-Answered :
    All (λ a. Answered (resolve_source_archive api parse a)) (get_parsed_source_archives files)
unfolding resolve_source_archive is_valid_archive_filename equalities
All-Answered = (tt, (tt, (tt, tt)))

process_stale_archives-IsSafe_example :
    IsSafe true
      (some 1)
      (stale (resolve_source_archive api parse) 9 (get_parsed_source_archives files))
      (process_stale_archives api parse files 9 true (some 1))
process_stale_archives-IsSafe_example =
    process_stale_archives-IsSafe api parse files 9 true (some 1)

process_stale_archives-IsComplete_example :
    IsComplete
      (some 1)
      (stale (resolve_source_archive api parse) 9 (get_parsed_source_archives files))
      (process_stale_archives api parse files 9 true (some 1))
process_stale_archives-IsComplete_example =
    process_stale_archives-IsComplete api parse files 9 true (some 1) All-Answered
