-- ===== src/Pip/Tests.antt =====
-- Requirements files on concrete input, and the witnesses.
use cachito.Base.{◌≡◌, refl, false, List, [], ◌∷◌, none, some, nat_eq, list_eq, if◌then◌else◌}
use cachito.Base.Text.{
  text, is_empty, starts_with, ends_with, partition, join, split, rstrip, lstrip, has_substring,
}
use cachito.Base.Dict.{lookup, insert}
use cachito.Base.Words.{strip, lstrip_space}
use cachito.Base.Result.{ok, err}
use cachito.Pip.Options.{
  requires_value, is_requirement_option, read_part, read_parts, split_options_and_requirement,
  unknown_option,
}
use cachito.Pip.Requirement.{
  Parsed, Library, Requirement, adjust_direct_access_requirement, read_sections, cut_marker,
  has_name,
}
use cachito.Pip.Items.{word, flag, joined}
use cachito.Pip.Grammar.{split_of, split_options_and_requirement_lem}
use cachito.Pip.Lines.{
  cut_comment, remove_comment, read_from, read_lines, RequirementsFile, parsed, written,
}
use cachito.Pip.Continuation.{Logical, Reads, read_lines_lem}
use cachito.Pip.Roundtrip.{written-parsed}

-- The parser of a requirement that knows one line, for the tests.
abbrev six : Requirement
six = record {
  package_name = text "six";
  raw_package = text "six";
  extras = [];
  version_specs = (text "==", text "1.16.0") ∷ [];
  environment_marker = none;
  hashes = text "sha256:ab" ∷ [];
  qualifiers = [];
  kind = text "pypi";
  download_line = text "six == 1.16.0";
  options = text "-e" ∷ [];
}

abbrev six_parsed : Parsed
six_parsed = record {
  project_name = text "six";
  name = text "six";
  specs = (text "==", text "1.16.0") ∷ [];
  extras = [];
  marker = none;
}

abbrev one_line : Library
one_line = record {
  parse_requirements = λ line. if is_empty line then some [] else some (six_parsed ∷ []);
  fragment = λ url. if has_substring url (text "#egg=spam") then text "egg=spam" else [];
  unquote = λ s. s;
  lower = λ s. s;
}

-- The last line of a file keeps its comment if it ends in a backslash.
comment_kept : read_lines (text "six # no \\" ∷ []) ≡ text "six # no " ∷ []
unfolding read_lines read_from rstrip lstrip ends_with starts_with nat_eq
comment_kept = refl

comment_cut :
    read_lines (text "six # no" ∷ text "# all" ∷ text "a \\" ∷ text " b" ∷ [])
    ≡ text "six" ∷ text "a  b" ∷ []
unfolding read_lines read_from remove_comment cut_comment strip lstrip_space rstrip lstrip ends_with
    starts_with nat_eq
comment_cut = refl

unknown :
    split_options_and_requirement (text "--magic" ∷ []) ≡ err (unknown_option (text "--magic"))
unfolding split_options_and_requirement read_parts read_part starts_with partition requires_value
    lookup list_eq nat_eq
unknown = refl

direct :
    adjust_direct_access_requirement one_line (text "https://x.y/z.zip#egg=spam; a")
    ≡ ok (text "spam @ https://x.y/z.zip#egg=spam ; a", (text "egg", text "spam") ∷ [])
unfolding adjust_direct_access_requirement read_sections cut_marker has_name has_substring
    starts_with partition split join strip lstrip_space insert list_eq nat_eq
direct = refl

-- A line of two parts with a comment, a line that is a comment, and a part at the end.
abbrev logical_file : List Logical
logical_file = ((text "a ", 0) ∷ [], text "b # no") ∷ ([], text "# all") ∷ []

read_lines_lem_example :
    Reads logical_file
      ((text "c # kept", 0) ∷ [])
      (read_lines (text "a \\" ∷ text "b # no" ∷ text "# all" ∷ text "c # kept\\" ∷ []))
unfolding starts_with ends_with nat_eq
read_lines_lem_example =
    (read_lines_lem (text "a \\" ∷ text "b # no" ∷ text "# all" ∷ text "c # kept\\" ∷ [])).0
      logical_file ((text "c # kept", 0) ∷ []) (((refl, tt), refl), ((tt, refl), tt)) (refl, tt)
      refl

split_options_and_requirement_lem_example :
    split_options_and_requirement (text "-e" ∷ text "six" ∷ text "--hash=ab" ∷ [])
    ≡ ok (
        split_of
          (flag (text "-e") false ∷ word (text "six") ∷ joined (text "--hash") (text "ab") ∷ []))
unfolding requires_value lookup starts_with list_eq nat_eq is_requirement_option
split_options_and_requirement_lem_example =
    (split_options_and_requirement_lem (text "-e" ∷ text "six" ∷ text "--hash=ab" ∷ [])).0
      (flag (text "-e") false ∷ word (text "six") ∷ joined (text "--hash") (text "ab") ∷ [])
      (refl, (refl, ((refl, refl), tt))) refl

abbrev six_file : RequirementsFile
six_file = record {
  requirements = some six ∷ [];
  options = text "-i" ∷ text "https://pypi.org" ∷ text "--pre" ∷ [];
}

written-parsed_example : parsed one_line (written six_file) ≡ ok six_file
unfolding requires_value is_requirement_option lookup partition join starts_with ends_with list_eq
    nat_eq
written-parsed_example =
    written-parsed one_line
      ((text "-i", some (text "https://pypi.org")) ∷ (text "--pre", none) ∷ []) six_file refl
      ((refl, refl), ((refl, refl), tt))
      (((refl, refl), refl, refl), (((refl, refl), refl, refl), (((refl, refl), refl, refl), tt)))
      (
        (
          text "six",
          text "==" ∷ text "1.16.0" ∷ [],
          (
            refl,
            (
              (((refl, refl), refl, refl), refl),
              ((((refl, refl), refl, refl), refl), ((((refl, refl), refl, refl), refl), tt)),
            ),
            (refl, tt),
            ((refl, ((refl, refl), refl, refl)), tt),
            refl,
            refl,
            refl,
            refl,
          ),
        ),
        tt,
      )
