-- ===== src/Gomod/Vendor.antt =====
-- The list of vendored modules: _parse_vendor of cachito/workers/pkg_managers/gomod.py, on the lines
-- of vendor/modules.txt. None is `InvalidFileFormat`.
use cachito.Base.{
  Bool, true, false, not, Option, none, some, List, [], ◌∷◌, map, reverse, nat_eq, if◌then◌else◌,
  filter, drop,
}
use cachito.Base.Text.{Text, text, starts_with}
use cachito.Base.Words.{words, words_from}
use cachito.Base.Partial.{◌>>=◌}
use cachito.Gomod.Modules.{GoModule, parse_module_line}

-- `line.removeprefix("# ").split()` and the cases on it.
abbrev pub module_of_line : Text → Option GoModule
module_of_line line = parse_module_line (words (drop 2 line))

-- The modules read so far with whether they have packages, the last one first.
abbrev pub Seen : Type 0
Seen = List (GoModule × Bool)

abbrev pub mark_last : Seen → Option Seen
mark_last [] = none
mark_last ((m, has) ∷ seen) = some ((m, true) ∷ seen)

-- The loop's body.
unfoldable pub read_line : Seen → Text → Option Seen
unfolding words_from
read_line seen line =
    if starts_with line (text "# ")
    then (module_of_line line >>= λ m. some ((m, false) ∷ seen))
    else if not (starts_with line (text "#"))
    then mark_last seen
    else if not (starts_with line (text "##"))
    then none
    else some seen

unfoldable pub read_lines : Seen → List Text → Option Seen
unfolding read_line
read_lines seen [] = some seen
read_lines seen (line ∷ lines) = read_line seen line >>= λ s. read_lines s lines

-- The argument is none where the file does not exist.
unfoldable pub parse_vendor : Option (List Text) → Option (List GoModule)
unfolding read_lines
parse_vendor none = some []
parse_vendor (some lines) =
    read_lines [] lines >>= λ seen. some (map (λ p. p.0) (filter (λ p. p.1) (reverse seen)))
