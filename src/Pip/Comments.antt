-- ===== src/Pip/Comments.antt =====
-- Comments and outer white space of a line, described without the loops that remove them.
use cachito.Base.{
  ℕ, ◌≡◌, refl, sym, ap, subst, ◌∙◌, Bool, true, false, ◌&&◌, [], ◌∷◌, ◌++◌, nat_eq, arith, reverse,
  All, Bool-cases, ◌⊎◌, inl, inr, length, ◌≤◌,
}
use cachito.Base.Text.{Text, text, starts_with}
use cachito.Base.Words.{is_space, lstrip_space, strip}
use cachito.Pip.Lines.{cut_comment, remove_comment}
use mathlib.Core.List.{reverse-append, reverse-reverse}

-- `rest` begins with white space and a `#`.
abbrev pub IsSpaced : Text → Type 0
IsSpaced rest = (c : ℕ) × (r : Text) × (is_space c ≡ true) × (rest ≡ c ∷ b'#' ∷ r)

-- A match of `(^|\s)#` after `before`.
abbrev pub IsComment : Text → Text → Type 0
IsComment before rest = (before ≡ []) × ((r : Text) × (rest ≡ b'#' ∷ r)) ⊎ IsSpaced rest

-- The line up to its first comment, or the line, if it has none.
abbrev pub IsUncommented : Text → Text → Type 0
IsUncommented line u =
    ((rest : Text) × (line ≡ u ++ rest)
      × IsComment u rest
      × ((v r : Text) → line ≡ v ++ r → IsComment v r → length u ≤ length v))
    ⊎ ((line ≡ u) × ((v r : Text) → line ≡ v ++ r → IsComment v r → ⊥))

begins_hash : (s : Text) → starts_with s (text "#") ≡ true → (r : Text) × (s ≡ b'#' ∷ r)
unfolding starts_with
begins_hash [] h = cc
begins_hash (c ∷ s) h = (s, ground (arith, h))

hash_begins : (s r : Text) → s ≡ b'#' ∷ r → starts_with s (text "#") ≡ true
unfolding starts_with nat_eq
hash_begins s r e = ap (λ z. starts_with z (text "#")) e

-- The comments that white space precedes.
IsCut : Text → Text → Type 0
IsCut line u =
    ((rest : Text) × (line ≡ u ++ rest)
      × IsSpaced rest
      × ((v r : Text) → line ≡ v ++ r → IsSpaced r → length u ≤ length v))
    ⊎ ((line ≡ u) × ((v r : Text) → line ≡ v ++ r → IsSpaced r → ⊥))

abbrev head_of : Text → ℕ
head_of [] = 0
head_of (c ∷ s) = c

abbrev tail_of : Text → Text
tail_of [] = []
tail_of (c ∷ s) = s

-- No comment begins at a character that is not white space before a `#`.
not_spaced :
    (c : ℕ) (s : Text) → (is_space c && starts_with s (text "#")) ≡ false → IsSpaced (c ∷ s) → ⊥
not_spaced c s h (d, r, spaced, e) =
    clash (is_space c) (starts_with s (text "#")) h (ap (λ z. is_space (head_of z)) e ∙ spaced)
      (hash_begins s r (ap tail_of e))
  where
    clash : (a b : Bool) → (a && b) ≡ false → a ≡ true → b ≡ true → ⊥
    clash a b h p q = ground arith

cut_comment_rest :
    (c : ℕ) (s : Text)
    → (is_space c && starts_with s (text "#")) ≡ false
    → IsCut s (cut_comment s)
    → IsCut (c ∷ s) (c ∷ cut_comment s)
unfolding IsCut
cut_comment_rest c s h (inl (rest, e, spaced, first)) = inl (rest, ap (◌∷◌ c) e, spaced, later)
  where
    later : (v r : Text) → c ∷ s ≡ v ++ r → IsSpaced r → length (c ∷ cut_comment s) ≤ length v
    later [] r q k = absurd (not_spaced c s h (subst IsSpaced (sym q) k))
    later (d ∷ v) r q k = omega (arith, first v r (ap tail_of q) k)
cut_comment_rest c s h (inr (e, never)) = inr (ap (◌∷◌ c) e, none_later)
  where
    none_later : (v r : Text) → c ∷ s ≡ v ++ r → IsSpaced r → ⊥
    none_later [] r q k = not_spaced c s h (subst IsSpaced (sym q) k)
    none_later (d ∷ v) r q k = never v r (ap tail_of q) k

cut_comment_lem : (s : Text) → IsCut s (cut_comment s)
unfolding cut_comment IsCut
cut_comment_lem [] = inr (refl, λ v r q (c, r', _, e). empty v r c r' q e)
  where
    empty : (v r : Text) (c : ℕ) (r' : Text) → [] ≡ v ++ r → r ≡ c ∷ b'#' ∷ r' → ⊥
    empty [] r c r' q e = cc
    empty (d ∷ v) r c r' q e = cc
cut_comment_lem (c ∷ s) = elim (Bool-cases (is_space c && starts_with s (text "#"))) [
  | inr h ↦ rw h (cut_comment_rest c s h (cut_comment_lem s))
  | inl h ↦
      let (spaced, hash) = both (is_space c) (starts_with s (text "#")) h in
      let (r, e) = begins_hash s hash in
      rw h (inl (c ∷ s, refl, (c, r, spaced, ap (◌∷◌ c) e), λ v r' q k. omega arith))
]
  where
    both : (a b : Bool) → (a && b) ≡ true → (a ≡ true) × (b ≡ true)
    both a b h = (ground arith, ground arith)

-- What the source removes is the first comment.
pub remove_comment-IsUncommented : (line : Text) → IsUncommented line (remove_comment line)
unfolding remove_comment IsCut
remove_comment-IsUncommented line = elim (Bool-cases (starts_with line (text "#"))) [
  | inl h ↦ rw h (inl (line, refl, inl (refl, begins_hash line h), λ v r q k. omega arith))
  | inr h ↦ rw h (elim (cut_comment_lem line) [
    | inl (rest, e, spaced, first) ↦
        inl (rest, e, inr spaced, λ v r q k. first v r q (inner v r h q k))
    | inr (e, never) ↦ inr (e, λ v r q k. never v r q (inner v r h q k))
  ])
]
  where
    inner :
        (v r : Text)
        → starts_with line (text "#") ≡ false
        → line ≡ v ++ r
        → IsComment v r
        → IsSpaced r
    inner v r h q (inr spaced) = spaced
    inner v r h q (inl (start, (r', e))) =
        cc (h, hash_begins line r' (q ∙ ap (λ z. z ++ r) start ∙ e))

-- Whether a text begins with white space.
abbrev pub begins_blank : Text → Bool
begins_blank [] = false
begins_blank (c ∷ s) = is_space c

abbrev pub AreSpaces : Text → Type 0
AreSpaces = All (λ c. is_space c ≡ true)

-- The text without the white space at both ends.
abbrev pub IsStripped : Text → Text → Type 0
IsStripped s t =
    (before : Text) × (after : Text) × (s ≡ before ++ (t ++ after))
    × AreSpaces before
    × AreSpaces after
    × (begins_blank t ≡ false)
    × (begins_blank (reverse t) ≡ false)

lstrip_space_lem :
    (s : Text)
    → (before : Text) × (s ≡ before ++ lstrip_space s)
      × AreSpaces before
      × (begins_blank (lstrip_space s) ≡ false)
unfolding lstrip_space
lstrip_space_lem [] = ([], refl, tt, refl)
lstrip_space_lem (c ∷ s) = elim (Bool-cases (is_space c)) [
  | inl h ↦
      let (before, e, spaces, plain) = lstrip_space_lem s in
      rw h (c ∷ before, ap (◌∷◌ c) e, (h, spaces), plain)
  | inr h ↦ rw h ([], refl, tt, h)
]

AreSpaces-append : (s t : Text) → AreSpaces s → AreSpaces t → AreSpaces (s ++ t)
AreSpaces-append [] t a b = b
AreSpaces-append (c ∷ s) t (h, a) b = (h, AreSpaces-append s t a b)

AreSpaces-reverse : (s : Text) → AreSpaces s → AreSpaces (reverse s)
AreSpaces-reverse [] a = tt
AreSpaces-reverse (c ∷ s) (h, a) =
    subst AreSpaces (sym (reverse-append (c ∷ []) s))
      (AreSpaces-append (reverse s) (c ∷ []) (AreSpaces-reverse s a) (h, tt))

begins_blank-append : (t s : Text) → begins_blank (t ++ s) ≡ false → begins_blank t ≡ false
begins_blank-append [] s h = refl
begins_blank-append (c ∷ t) s h = h

pub strip-IsStripped : (s : Text) → IsStripped s (strip s)
unfolding strip
strip-IsStripped s =
    let (before, e, spaces, plain) = lstrip_space_lem s in
    let u = lstrip_space s in
    let (after, f, spaces', plain') = lstrip_space_lem (reverse u) in
    let v = lstrip_space (reverse u) in
    let joined : u ≡ reverse v ++ reverse after =
      sym (reverse-reverse u) ∙ ap reverse f ∙ reverse-append after v in
    (
      before,
      reverse after,
      e ∙ ap (◌++◌ before) joined,
      spaces,
      AreSpaces-reverse after spaces',
      begins_blank-append (reverse v) (reverse after) (ap begins_blank (sym joined) ∙ plain),
      ap begins_blank (reverse-reverse v) ∙ plain',
    )
