-- ===== src/Pip/Lines.antt =====
-- The lines of a requirements file: PipRequirementsFile._read_lines, _parsed and write of
-- cachito/workers/pkg_managers/pip.py. A file is the list of its lines.
use cachito.Base.{◌&&◌, List, [], ◌∷◌, ◌++◌, Option, none, some, map, nat_eq, if◌then◌else◌}
use cachito.Base.Text.{Text, text, is_empty, starts_with, ends_with, rstrip, join}
use cachito.Base.Words.{is_space, words, strip}
use cachito.Base.Result.{Result, ok, err, ◌>>=◌}
use cachito.Pip.Options.{OptionError, Split, split_options_and_requirement}
use cachito.Pip.Requirement.{Library, Requirement, RequirementError, from_line, to_text}

-- What is left of a line before the first `#` that white space precedes.
unfoldable pub cut_comment : Text → Text
cut_comment [] = []
cut_comment (c ∷ s) =
    let rest = cut_comment s in if is_space c && starts_with s (text "#") then [] else c ∷ rest

-- `LINE_COMMENT.sub("", line)`
unfoldable pub remove_comment : Text → Text
unfolding cut_comment
remove_comment line = if starts_with line (text "#") then [] else cut_comment line

abbrev pub concat : List Text → Text
concat [] = []
concat (s ∷ ss) = s ++ concat ss

-- `yield new_line`, if it is not empty.
abbrev pub yielded : Text → List Text → List Text
yielded line rest = if is_empty line then rest else line ∷ rest

-- The loop, with `buffered_line`.
unfoldable pub read_from : List Text → List Text → List Text
unfolding remove_comment
read_from buffered [] = if is_empty buffered then [] else concat buffered ∷ []
read_from buffered (line ∷ lines) =
    let joined = read_from (buffered ++ rstrip b'\\' line ∷ []) lines in
    let ended =
      yielded (strip (remove_comment (concat (buffered ++ line ∷ [])))) (read_from [] lines) in
    if ends_with line (text "\\") then joined else ended

unfoldable pub read_lines : List Text → List Text
unfolding read_from
read_lines = read_from []

pub data ParseError : Type 0 where
  option_error : OptionError → ParseError
  requirement_error : RequirementError → ParseError

abbrev pub raising : {E A : Type 0} → (E → ParseError) → Result E A → Result ParseError A
raising f (ok a) = ok a
raising f (err e) = err (f e)

-- The parsed file; a line without a requirement that has words gives None.
pub record RequirementsFile : Type 0 where
  pub requirements : List (Option Requirement)
  pub options : List Text

abbrev pub add_requirement : RequirementsFile → Option Requirement → RequirementsFile
add_requirement f r = record f { requirements = f.requirements ++ r ∷ [] }

abbrev pub add_options : RequirementsFile → List Text → RequirementsFile
add_options f options = record f { options = f.options ++ options }

-- One round of the loop, after the split.
unfoldable pub parse_split : Library → RequirementsFile → Split → Result ParseError RequirementsFile
parse_split L f s =
    let line = join (text " ") s.requirement in
    if is_empty line
    then ok (add_options f s.global_options)
    else (raising requirement_error (from_line L line s.requirement_options) >>= λ r.
        ok (add_requirement (add_options f s.global_options) r))

unfoldable pub parse_lines :
    Library → RequirementsFile → List Text → Result ParseError RequirementsFile
unfolding parse_split
parse_lines L f [] = ok f
parse_lines L f (line ∷ lines) =
    raising option_error (split_options_and_requirement (words line)) >>= λ s.
    parse_split L f s >>= λ f'. parse_lines L f' lines

-- The `_parsed` property.
unfoldable pub parsed : Library → List Text → Result ParseError RequirementsFile
unfolding parse_lines read_lines
parsed L lines = parse_lines L (record { requirements = []; options = [] }) (read_lines lines)

-- `str(requirement)`, also of None.
abbrev pub line_of : Option Requirement → Text
line_of none = text "None"
line_of (some r) = to_text r

-- The lines that `write` writes.
unfoldable pub written : RequirementsFile → List Text
written f =
    (if is_empty f.options then [] else join (text " ") f.options ∷ [])
    ++ map line_of f.requirements
