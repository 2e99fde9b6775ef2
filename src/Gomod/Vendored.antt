-- ===== src/Gomod/Vendored.antt =====
-- The modules that a vendor directory lists are those with packages.
use mathlib.Core.List.{reverse_aux, reverse-reverse}
use cachito.Base.{
  ◌≡◌, refl, ap, ◌∙◌, Bool, true, false, not, ◌||◌, Option, some, List, [], ◌∷◌, ◌++◌, map, reverse,
  nat_eq, filter, All, any, arith, Bool-cases, inl, inr,
}
use cachito.Base.Text.{Text, text, starts_with}
use cachito.Base.Partial.{◌>>=◌}
use cachito.Gomod.Modules.{GoModule}
use cachito.Gomod.Vendor.{module_of_line, Seen, read_line, read_lines, parse_vendor}

-- A module's line and the lines below it, up to the next module's.
pub record Section : Type 0 where
  pub header : Text
  pub module_ : GoModule
  pub body : List Text

abbrev pub is_package : Text → Bool
is_package line = not (starts_with line (text "#"))

abbrev pub is_marker : Text → Bool
is_marker line = starts_with line (text "##")

abbrev pub IsSection : Section → Type 0
IsSection s =
    (starts_with s.header (text "# ") ≡ true)
    × (module_of_line s.header ≡ some s.module_)
    × All (λ l. (is_package l || is_marker l) ≡ true) s.body

abbrev pub file : List Section → List Text
file [] = []
file (s ∷ ss) = s.header ∷ (s.body ++ file ss)

body_line :
    (m : GoModule) (has : Bool) (seen : Seen) (l : Text)
    → (is_package l || is_marker l) ≡ true
    → read_line ((m, has) ∷ seen) l ≡ some ((m, has || is_package l) ∷ seen)
unfolding read_line starts_with nat_eq
body_line m has seen [] h = ground arith
body_line m has seen (c ∷ []) h = ground arith
body_line m has seen (c ∷ d ∷ l) h = ground arith

or_assoc : (a b c : Bool) → ((a || b) || c) ≡ (a || (b || c))
or_assoc a b c = ground arith

read_lines-body :
    (m : GoModule) (has : Bool) (seen : Seen) (body rest : List Text)
    → All (λ l. (is_package l || is_marker l) ≡ true) body
    → read_lines ((m, has) ∷ seen) (body ++ rest)
      ≡ read_lines ((m, has || any is_package body) ∷ seen) rest
unfolding read_lines
read_lines-body m has seen [] rest a =
    ap (λ (b : Bool). read_lines ((m, b) ∷ seen) rest) (or_none has)
  where
    or_none : (b : Bool) → b ≡ (b || false)
    or_none true = refl
    or_none false = refl
read_lines-body m has seen (l ∷ body) rest (h, a) =
    ap (λ (o : Option Seen). o >>= λ s. read_lines s (body ++ rest)) (body_line m has seen l h)
    ∙ read_lines-body m (has || is_package l) seen body rest a
    ∙ ap (λ (b : Bool). read_lines ((m, b) ∷ seen) rest)
        (or_assoc has (is_package l) (any is_package body))

abbrev entry : Section → GoModule × Bool
entry s = (s.module_, any is_package s.body)

read_line-header :
    (seen : Seen) (s : Section)
    → starts_with s.header (text "# ") ≡ true
    → module_of_line s.header ≡ some s.module_
    → read_line seen s.header ≡ some ((s.module_, false) ∷ seen)
unfolding read_line
read_line-header seen s h e = rw (h, e) refl

read_lines-file :
    (seen : Seen) (ss : List Section)
    → All IsSection ss
    → read_lines seen (file ss) ≡ some (reverse_aux (map entry ss) seen)
unfolding read_lines
read_lines-file seen [] a = refl
read_lines-file seen (s ∷ ss) ((h, e, b), a) =
    ap (λ (o : Option Seen). o >>= λ t. read_lines t (s.body ++ file ss))
      (read_line-header seen s h e)
    ∙ read_lines-body s.module_ false seen s.body (file ss) b
    ∙ read_lines-file (entry s ∷ seen) ss a

listed :
    (ss : List Section)
    → map (λ (p : GoModule × Bool). p.0) (filter (λ p. p.1) (map entry ss))
      ≡ map (λ s. s.module_) (filter (λ s. any is_package s.body) ss)
listed [] = refl
listed (s ∷ ss) = elim (Bool-cases (any is_package s.body)) [
  | inl h ↦ rw h (ap (◌∷◌ s.module_) (listed ss))
  | inr h ↦ rw h (listed ss)
]

-- A file that consists of module lines, each followed by package lines and marker lines, is accepted,
-- and gives the modules that at least one package line follows, in the order of the file.
pub parse_vendor_lem :
    (ss : List Section)
    → All IsSection ss
    → parse_vendor (some (file ss))
      ≡ some (map (λ s. s.module_) (filter (λ s. any is_package s.body) ss))
unfolding parse_vendor
parse_vendor_lem ss a =
    ap (λ (o : Option Seen). o >>= λ seen. some (map (λ p. p.0) (filter (λ p. p.1) (reverse seen))))
      (read_lines-file [] ss a)
    ∙ ap (λ (es : Seen). some (map (λ p. p.0) (filter (λ p. p.1) es)))
        (reverse-reverse (map entry ss))
    ∙ ap some (listed ss)
