-- ===== src/Base/Text.antt =====
-- Python's `str` as the list of its code points, with the methods that the source calls.
use Prim.Native.Char.{code}
use Prim.Native.String.{String}
use cachito.Base.{
  ℕ, zero, suc, ◌≡◌, refl, Bool, true, false, ◌&&◌, Option, none, some, List, [], ◌∷◌, ◌++◌,
  reverse, arith, ◌==◌, nat_eq, list_eq, if◌then◌else◌, length, drop, leb,
}

abbrev pub Text : Type 0
Text = List ℕ

-- The code points of a literal.
abbrev pub text : String → Text
text String.[] = []
text (String.◌∷◌ c s) = code c ∷ text s

-- `bool(s)`
abbrev pub is_empty {ℓ} : {A : Type ℓ} → List A → Bool
is_empty [] = true
is_empty (x ∷ xs) = false

-- `s.startswith(p)`
unfoldable pub starts_with : Text → Text → Bool
starts_with s [] = true
starts_with [] (c ∷ p) = false
starts_with (d ∷ s) (c ∷ p) = d == c && starts_with s p

-- `s.endswith(p)`
unfoldable pub ends_with : Text → Text → Bool
unfolding starts_with
ends_with s p = starts_with (reverse s) (reverse p)

-- `s.split(c)` for one character: never empty.
unfoldable pub split : ℕ → Text → List Text
split c [] = [] ∷ []
split c (d ∷ s) = let parts = split c s in if d == c then [] ∷ parts else extend d parts
  where
    extend : ℕ → List Text → List Text
    extend d [] = (d ∷ []) ∷ []
    extend d (p ∷ ps) = (d ∷ p) ∷ ps

-- `s.split(c, 1)` for one character, when it occurs.
unfoldable pub partition : ℕ → Text → Option (Text × Text)
partition c [] = none
partition c (d ∷ s) =
    let rest = partition c s in
    if d == c then some ([], s) else elim rest [ none ↦ none | some (a, b) ↦ some (d ∷ a, b) ]

-- `s.rsplit(c, 1)` for one character, when it occurs.
unfoldable pub rpartition : ℕ → Text → Option (Text × Text)
unfolding partition
rpartition c s = elim (partition c (reverse s)) [
  | none ↦ none
  | some (a, b) ↦ some (reverse b, reverse a)
]

-- `sep.join(parts)`
unfoldable pub join : Text → List Text → Text
join sep [] = []
join sep (p ∷ []) = p
join sep (p ∷ q ∷ ps) = p ++ (sep ++ join sep (q ∷ ps))

-- `s.lstrip(c)` and `s.rstrip(c)` for one character.
unfoldable pub lstrip : ℕ → Text → Text
lstrip c [] = []
lstrip c (d ∷ s) = let rest = lstrip c s in if d == c then rest else d ∷ s

unfoldable pub rstrip : ℕ → Text → Text
unfolding lstrip
rstrip c s = reverse (lstrip c (reverse s))

-- `p in s`
unfoldable pub has_substring : Text → Text → Bool
unfolding starts_with
has_substring [] p = is_empty p
has_substring (c ∷ s) p =
    let rest = has_substring s p in if starts_with (c ∷ s) p then true else rest

-- `s.replace(old, new)` for an `old` that is not empty; the first number counts the characters of an
-- occurrence that are still to be passed over.
replace_from : ℕ → Text → Text → Text → Text
replace_from k [] old new = []
replace_from zero (c ∷ s) old new =
    let found = new ++ replace_from (length (drop 1 old)) s old new in
    let kept = c ∷ replace_from zero s old new in if starts_with (c ∷ s) old then found else kept
replace_from (suc k) (c ∷ s) old new = replace_from k s old new

unfoldable pub replace : Text → Text → Text → Text
unfolding replace_from starts_with
replace s old new = replace_from 0 s old new

-- `s[i]`, none where Python raises `IndexError`.
abbrev pub char_at? : Text → ℕ → Option ℕ
char_at? [] i = none
char_at? (c ∷ s) zero = some c
char_at? (c ∷ s) (suc i) = char_at? s i

-- One ASCII digit.
abbrev pub is_digit : ℕ → Bool
is_digit c = leb b'0' c && leb c b'9'

-- A text starts with a prefix exactly when the prefix and some rest make it up.
pub starts_with→append : (s p : Text) → starts_with s p ≡ true → s ≡ p ++ drop (length p) s
unfolding starts_with
starts_with→append s [] h = refl
starts_with→append [] (c ∷ p) h = cc
starts_with→append (d ∷ s) (c ∷ p) h = ground (arith, starts_with→append s p)

pub starts_with-append : (p s : Text) → starts_with (p ++ s) p ≡ true
unfolding starts_with
starts_with-append [] s = refl
starts_with-append (c ∷ p) s = ground (arith, starts_with-append p s)

pub starts_with_self : (s : Text) → starts_with s s ≡ true
unfolding starts_with
starts_with_self [] = refl
starts_with_self (c ∷ s) = ground (arith, starts_with_self s)
