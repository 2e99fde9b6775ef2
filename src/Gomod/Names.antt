-- ===== src/Gomod/Names.antt =====
-- Which Go module a package belongs to: contains_package, path_to_subpackage and
-- match_parent_module of cachito/workers/pkg_managers/gomod.py. A `ValueError` is none.
use cachito.Base.{
  Bool, true, false, not, Option, none, some, List, [], ◌∷◌, ◌==◌, nat_eq, option_eq, if◌then◌else◌,
  length, drop, ltb, filter,
}
use cachito.Base.Text.{Text, starts_with, char_at?, lstrip}

unfoldable pub contains_package : Text → Text → Bool
unfolding starts_with
contains_package parent_name package_name =
    if not (starts_with package_name parent_name)
    then false
    else if ltb (length parent_name) (length package_name)
    then char_at? package_name (length parent_name) == some b'/'
    else true

unfoldable pub path_to_subpackage : Text → Text → Option Text
unfolding contains_package lstrip
path_to_subpackage parent_name subpackage_name =
    if not (contains_package parent_name subpackage_name)
    then none
    else some (lstrip b'/' (drop (length parent_name) subpackage_name))

-- `max(names, key=len, default=None)`: the first of the longest.
unfoldable pub longest_from : Text → List Text → Text
longest_from best [] = best
longest_from best (m ∷ ms) =
    let kept = longest_from best ms in
    let taken = longest_from m ms in if ltb (length best) (length m) then taken else kept

unfoldable pub longest : List Text → Option Text
unfolding longest_from
longest [] = none
longest (m ∷ ms) = some (longest_from m ms)

unfoldable pub match_parent_module : Text → List Text → Option Text
unfolding longest contains_package
match_parent_module package_name module_names =
    longest (filter (λ m. contains_package m package_name) module_names)
