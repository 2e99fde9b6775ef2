-- ===== src/Gomod/ListFile.antt =====
-- The merging of two `list` files of versions: _merge_files of
-- cachito/workers/pkg_managers/gomod.py, on the lines of the files.
use cachito.Base.{not, List, [], ◌∷◌, ◌++◌, map, contains, nat_eq, list_eq, if◌then◌else◌, filter}
use cachito.Base.Text.{Text, is_empty}
use cachito.Base.Order.{nat_ord, list_ord}
use cachito.Base.Sort.{sort as sort_by}

-- `set(...)` as a list in which no line stands twice.
unfoldable pub distinct : List Text → List Text
distinct [] = []
distinct (l ∷ ls) = let rest = distinct ls in if contains rest l then rest else l ∷ rest

-- The lines of the file that is written; `rstrip` stands for `line.rstrip()`.
unfoldable pub merge_files : (Text → Text) → List Text → List Text → List Text
unfolding distinct
merge_files rstrip source dest =
    filter (λ l. not (is_empty l))
      (sort_by (λ l. l) (distinct (map rstrip source ++ map rstrip dest)))
