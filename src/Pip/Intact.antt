-- ===== src/Pip/Intact.antt =====
-- A line of plain words is read from a requirements file as it was written.
use cachito.Base.{
  ℕ, ◌≡◌, refl, sym, ap, ◌∙◌, Bool, false, ◌||◌, List, [], ◌∷◌, ◌++◌, nat_eq, if◌then◌else◌, ◌==◌,
  arith, append_assoc, append-nil, reverse, All, any,
}
use cachito.Base.Text.{Text, text, is_empty, starts_with, ends_with, join}
use cachito.Base.Words.{is_space, IsWord, lstrip_space, strip}
use cachito.Pip.Lines.{cut_comment, remove_comment, yielded, read_from}
use mathlib.Core.List.{reverse-append, reverse-reverse}

-- The first character passes a test.
abbrev pub first_is : (ℕ → Bool) → Text → Bool
first_is p [] = false
first_is p (c ∷ s) = p c

-- A word that starts no comment and ends in no backslash.
abbrev pub IsLineWord : Text → Type 0
IsLineWord w = IsWord w × (starts_with w (text "#") ≡ false) × (ends_with w (text "\\") ≡ false)

abbrev line : List Text → Text
line = join (text " ")

first_is-append :
    (p : ℕ → Bool) (s t : Text) → is_empty s ≡ false → first_is p (s ++ t) ≡ first_is p s
first_is-append p [] t h = cc
first_is-append p (c ∷ s) t h = refl

is_empty-reverse : (s : Text) → is_empty s ≡ false → is_empty (reverse s) ≡ false
is_empty-reverse [] h = h
is_empty-reverse (c ∷ s) h = ap is_empty (reverse-append (c ∷ []) s) ∙ last (reverse s)
  where
    last : (t : Text) → is_empty (t ++ c ∷ []) ≡ false
    last [] = refl
    last (d ∷ t) = refl

pub is_empty-line :
    (w : Text) (ws : List Text) → is_empty w ≡ false → is_empty (line (w ∷ ws)) ≡ false
unfolding join
is_empty-line w [] h = h
is_empty-line [] (v ∷ ws) h = cc
is_empty-line (c ∷ w) (v ∷ ws) h = refl

first_is-line :
    (p : ℕ → Bool) (w : Text) (ws : List Text)
    → is_empty w ≡ false
    → first_is p (line (w ∷ ws)) ≡ first_is p w
unfolding join
first_is-line p w [] h = refl
first_is-line p w (v ∷ ws) h = first_is-append p w (32 ∷ line (v ∷ ws)) h

-- The last character of a line is that of a word.
last_is-line :
    (p : ℕ → Bool) (w : Text) (ws : List Text)
    → All (λ v. (is_empty v ≡ false) × (first_is p (reverse v) ≡ false)) (w ∷ ws)
    → first_is p (reverse (line (w ∷ ws))) ≡ false
unfolding join
last_is-line p w [] ((h, k), a) = k
last_is-line p w (v ∷ ws) ((h, k), ((l, m), a)) =
    let rest = line (v ∷ ws) in
    ap (λ (t : Text). first_is p (reverse t)) (sym (append_assoc w (32 ∷ []) rest))
    ∙ ap (first_is p) (reverse-append (w ++ 32 ∷ []) rest)
    ∙ first_is-append p (reverse rest) (reverse (w ++ 32 ∷ []))
        (is_empty-reverse rest (is_empty-line v ws l))
    ∙ last_is-line p v ws ((l, m), a)

any-append : (p : ℕ → Bool) (s t : Text) → any p (s ++ t) ≡ (any p s || any p t)
any-append p [] t = refl
any-append p (c ∷ s) t = ground (arith, any-append p s t)

any-reverse : (p : ℕ → Bool) (s : Text) → any p (reverse s) ≡ any p s
any-reverse p [] = refl
any-reverse p (c ∷ s) =
    ap (any p) (reverse-append (c ∷ []) s)
    ∙ any-append p (reverse s) (c ∷ [])
    ∙ ground (arith, any-reverse p s)

first_is-any : (p : ℕ → Bool) (s : Text) → any p s ≡ false → first_is p s ≡ false
first_is-any p [] h = refl
first_is-any p (c ∷ s) h = ground arith

starts_with-first : (c : ℕ) (s : Text) → starts_with s (c ∷ []) ≡ first_is (λ d. d == c) s
unfolding starts_with
starts_with-first c [] = refl
starts_with-first c (d ∷ s) = ground arith

lstrip_space_other : (s : Text) → first_is is_space s ≡ false → lstrip_space s ≡ s
unfolding lstrip_space
lstrip_space_other [] h = refl
lstrip_space_other (c ∷ s) h = rw h refl

strip_other :
    (s : Text) → first_is is_space s ≡ false → first_is is_space (reverse s) ≡ false → strip s ≡ s
unfolding strip
strip_other s h k =
    ap (λ (t : Text). reverse (lstrip_space (reverse t))) (lstrip_space_other s h)
    ∙ ap reverse (lstrip_space_other (reverse s) k)
    ∙ reverse-reverse s

cut_comment-word : (w s : Text) → any is_space w ≡ false → cut_comment (w ++ s) ≡ w ++ cut_comment s
unfolding cut_comment
cut_comment-word [] s h = refl
cut_comment-word (c ∷ w) s h =
    rw (one (is_space c) (any is_space w) h).0
      (ap (◌∷◌ c) (cut_comment-word w s (one (is_space c) (any is_space w) h).1))
  where
    one : (a b : Bool) → (a || b) ≡ false → (a ≡ false) × (b ≡ false)
    one a b h = (ground arith, ground arith)

cut_comment-blank :
    (s : Text) → starts_with s (text "#") ≡ false → cut_comment (32 ∷ s) ≡ 32 ∷ cut_comment s
unfolding cut_comment
cut_comment-blank s h = rw h refl

starts_with-line :
    (w : Text) (ws : List Text)
    → is_empty w ≡ false
    → starts_with (line (w ∷ ws)) (text "#") ≡ starts_with w (text "#")
starts_with-line w ws h =
    starts_with-first b'#' (line (w ∷ ws))
    ∙ first_is-line (λ d. d == b'#') w ws h
    ∙ sym (starts_with-first b'#' w)

cut_comment-line : (ws : List Text) → All IsLineWord ws → cut_comment (line ws) ≡ line ws
unfolding cut_comment join
cut_comment-line [] a = refl
cut_comment-line (w ∷ []) (((full, solid), h, k), a) =
    ap cut_comment (sym (append-nil w)) ∙ cut_comment-word w [] solid ∙ append-nil w
cut_comment-line (w ∷ v ∷ ws) (((full, solid), h, k), (((full', solid'), h', k'), a)) =
    cut_comment-word w (32 ∷ line (v ∷ ws)) solid
    ∙ ap (◌++◌ w) (
        cut_comment-blank (line (v ∷ ws)) (starts_with-line v ws full' ∙ h')
        ∙ ap (◌∷◌ 32) (cut_comment-line (v ∷ ws) (((full', solid'), h', k'), a)))

remove_comment-line :
    (w : Text) (ws : List Text)
    → All IsLineWord (w ∷ ws)
    → remove_comment (line (w ∷ ws)) ≡ line (w ∷ ws)
unfolding remove_comment
remove_comment-line w ws (((full, solid), h, k), a) =
    ap (λ (b : Bool). if b then [] else cut_comment (line (w ∷ ws)))
      (starts_with-line w ws full ∙ h)
    ∙ cut_comment-line (w ∷ ws) (((full, solid), h, k), a)

strip-line :
    (w : Text) (ws : List Text) → All IsLineWord (w ∷ ws) → strip (line (w ∷ ws)) ≡ line (w ∷ ws)
strip-line w ws (((full, solid), h, k), a) =
    strip_other (line (w ∷ ws)) (first_is-line is_space w ws full ∙ first_is-any is_space w solid)
      (last_is-line is_space w ws (ends (w ∷ ws) (((full, solid), h, k), a)))
  where
    ends :
        (vs : List Text)
        → All IsLineWord vs
        → All (λ v. (is_empty v ≡ false) × (first_is is_space (reverse v) ≡ false)) vs
    ends [] a = tt
    ends (v ∷ vs) (((full, solid), h, k), a) =
        ((full, first_is-any is_space (reverse v) (any-reverse is_space v ∙ solid)), ends vs a)

ends_with-line :
    (w : Text) (ws : List Text)
    → All IsLineWord (w ∷ ws)
    → ends_with (line (w ∷ ws)) (text "\\") ≡ false
unfolding ends_with
ends_with-line w ws a =
    starts_with-first b'\\' (reverse (line (w ∷ ws)))
    ∙ last_is-line (λ d. d == b'\\') w ws (ends (w ∷ ws) a)
  where
    ends :
        (vs : List Text)
        → All IsLineWord vs
        → All (λ v. (is_empty v ≡ false) × (first_is (λ d. d == b'\\') (reverse v) ≡ false)) vs
    ends [] a = tt
    ends (v ∷ vs) (((full, solid), h, k), a) =
        ((full, sym (starts_with-first b'\\' (reverse v)) ∙ k), ends vs a)

-- The loop yields the line.
pub read_from-line :
    (w : Text) (ws : List Text) (lines : List Text)
    → All IsLineWord (w ∷ ws)
    → read_from [] (line (w ∷ ws) ∷ lines) ≡ line (w ∷ ws) ∷ read_from [] lines
unfolding read_from
read_from-line w ws lines a = rw (ends_with-line w ws a) (
    ap (λ (s : Text). yielded (strip (remove_comment s)) (read_from [] lines))
      (append-nil (line (w ∷ ws)))
    ∙ ap (λ (s : Text). yielded (strip s) (read_from [] lines)) (remove_comment-line w ws a)
    ∙ ap (λ (s : Text). yielded s (read_from [] lines)) (strip-line w ws a)
    ∙ ap (λ (b : Bool). if b then read_from [] lines else line (w ∷ ws) ∷ read_from [] lines)
        (is_empty-line w ws (full_of a)))
  where
    full_of : All IsLineWord (w ∷ ws) → is_empty w ≡ false
    full_of (((full, solid), h, k), a) = full
