-- ===== src/Pip/Options.antt =====
-- The options of a line of a requirements file:
-- PipRequirementsFile._split_options_and_requirement and PipRequirement._split_hashes_from_options
-- of cachito/workers/pkg_managers/pip.py, on the words of the line.
use cachito.Base.{
  Bool, true, false, not, ◌&&◌, Option, none, some, List, [], ◌∷◌, ◌++◌, contains, nat_eq, list_eq,
  if◌then◌else◌, ◌==◌,
}
use cachito.Base.Text.{Text, text, is_empty, starts_with, partition}
use cachito.Base.Dict.{Dict, lookup}
use cachito.Base.Result.{Result, ok, err, ◌>>=◌}

-- OPTIONS: whether the option requires a value.
abbrev pub options : Dict Text Bool
options =
    (text "--constraint", true)
    ∷ (text "--editable", false)
    ∷ (text "--extra-index-url", true)
    ∷ (text "--find-links", true)
    ∷ (text "--index-url", true)
    ∷ (text "--no-binary", true)
    ∷ (text "--no-index", false)
    ∷ (text "--only-binary", true)
    ∷ (text "--pre", false)
    ∷ (text "--prefer-binary", false)
    ∷ (text "--require-hashes", false)
    ∷ (text "--requirement", true)
    ∷ (text "--trusted-host", true)
    ∷ (text "--use-feature", true)
    ∷ (text "-c", true)
    ∷ (text "-e", false)
    ∷ (text "-f", true)
    ∷ (text "--hash", true)
    ∷ (text "-i", true)
    ∷ (text "-r", true)
    ∷ []

-- REQUIREMENT_OPTIONS
abbrev pub requirement_options : List Text
requirement_options = text "-e" ∷ text "--editable" ∷ text "--hash" ∷ []

unfoldable pub requires_value : Text → Option Bool
requires_value option = lookup option options

unfoldable pub is_requirement_option : Text → Bool
is_requirement_option option = contains requirement_options option

pub data OptionError : Type 0 where
  unknown_option : Text → OptionError
  unexpected_value : Text → OptionError
  missing_value : OptionError
  no_requirement : List Text → OptionError

-- The lists of the loop, and where the value that must follow belongs: true for the options of the
-- requirement.
pub record Split : Type 0 where
  pub global_options : List Text
  pub requirement_options : List Text
  pub requirement : List Text
  pub value_for : Option Bool

abbrev pub start : Split
start = record { global_options = []; requirement_options = []; requirement = []; value_for = none }

-- `_context_options.append(item)` and what follows must be a value or not.
unfoldable pub add : Bool → List Text → Option Bool → Split → Split
add true items next s = record s {
  requirement_options = s.requirement_options ++ items;
  value_for = next;
}
add false items next s = record s { global_options = s.global_options ++ items; value_for = next }

-- `part.split("=", 1)`; no value where there is no `=`, or nothing after it.
abbrev pub value_of : Text → Option (Text × Text) → Text × Option Text
value_of part none = (part, none)
value_of part (some (option, value)) = (option, if is_empty value then none else some value)

abbrev pub option_and_value : Text → Text × Option Text
option_and_value part = value_of part (partition b'=' part)

-- A known option, which requires a value or not.
unfoldable pub add_option : Text → Text → Option Text → Bool → Split → Result OptionError Split
unfolding add
add_option part option none needs s =
    let context = is_requirement_option option in
    ok (add context (option ∷ []) (if needs then some context else none) s)
add_option part option (some value) needs s =
    if needs
    then ok (add (is_requirement_option option) (option ∷ value ∷ []) none s)
    else err (unexpected_value part)

abbrev pub option_part : Text → Text × Option Text → Split → Result OptionError Split
option_part part (option, value) s = elim (requires_value option) [
  | none ↦ err (unknown_option part)
  | some needs ↦ add_option part option value needs s
]

-- One round of the loop, by the value that is due.
unfoldable pub read_part : Option Bool → Text → Split → Result OptionError Split
unfolding add_option
read_part (some context) part s = ok (add context (part ∷ []) none s)
read_part none part s =
    if starts_with part (text "-")
    then option_part part (option_and_value part) s
    else ok (record s { requirement = s.requirement ++ part ∷ [] })

unfoldable pub read_parts : Split → List Text → Result OptionError Split
unfolding read_part
read_parts s [] = ok s
read_parts s (part ∷ parts) = read_part s.value_for part s >>= λ t. read_parts t parts

-- The checks after the loop.
unfoldable pub finish : Split → Result OptionError Split
finish s = elim s.value_for [
  | some context ↦ err missing_value
  | none ↦
      if not (is_empty s.requirement_options) && is_empty s.requirement
      then err (no_requirement s.requirement_options)
      else ok s
]

unfoldable pub split_options_and_requirement : List Text → Result OptionError Split
unfolding read_parts finish
split_options_and_requirement parts = read_parts start parts >>= finish

-- The loop of `_split_hashes_from_options`: whether a hash is due, the options, and the two lists.
unfoldable pub split_hashes : Bool → List Text → List Text × List Text
split_hashes is_hash [] = ([], [])
split_hashes true (item ∷ items) =
    let (hashes, reduced) = split_hashes false items in (item ∷ hashes, reduced)
split_hashes false (item ∷ items) =
    let is_hash = item == text "--hash" in
    let (hashes, reduced) = split_hashes is_hash items in
    (hashes, if is_hash then reduced else item ∷ reduced)

unfoldable pub split_hashes_from_options : List Text → List Text × List Text
unfolding split_hashes
split_hashes_from_options = split_hashes false
