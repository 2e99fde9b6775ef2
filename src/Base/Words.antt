-- ===== src/Base/Words.antt =====
-- Python's `str.split()` and `str.strip()` without arguments.
use cachito.Base.{
  ℕ, ◌≡◌, refl, sym, ap, ◌∙◌, Bool, false, ◌&&◌, ◌||◌, List, [], ◌∷◌, ◌++◌, reverse, arith,
  contains, nat_eq, if◌then◌else◌, leb, any, All, append_assoc, append-nil,
}
use cachito.Base.Text.{Text, is_empty, join}

-- `c.isspace()`
abbrev pub is_space : ℕ → Bool
is_space c =
    (leb 9 c && leb c 13)
    || (leb 28 c && leb c 32)
    || (leb 8192 c && leb c 8202)
    || contains (133 ∷ 160 ∷ 5760 ∷ 8232 ∷ 8233 ∷ 8239 ∷ 8287 ∷ 12288 ∷ []) c

-- `s.split()`, with the word read so far.
unfoldable pub words_from : Text → Text → List Text
words_from word [] = if is_empty word then [] else word ∷ []
words_from word (c ∷ s) =
    let ended = words_from [] s in
    let rest = words_from (word ++ c ∷ []) s in
    if is_space c then (if is_empty word then ended else word ∷ ended) else rest

abbrev pub words : Text → List Text
words = words_from []

-- `s.lstrip()`
unfoldable pub lstrip_space : Text → Text
lstrip_space [] = []
lstrip_space (c ∷ s) = let rest = lstrip_space s in if is_space c then rest else c ∷ s

-- `s.strip()`
unfoldable pub strip : Text → Text
unfolding lstrip_space
strip s = reverse (lstrip_space (reverse (lstrip_space s)))

-- A word: not empty, and without white space.
abbrev pub IsWord : Text → Type 0
IsWord w = (is_empty w ≡ false) × (any is_space w ≡ false)

words_from-append :
    (word w s : Text) → any is_space w ≡ false → words_from word (w ++ s) ≡ words_from (word ++ w) s
unfolding words_from
words_from-append word [] s h = ap (λ (v : Text). words_from v s) (sym (append-nil word))
words_from-append word (c ∷ w) s h = rw (parts (is_space c) (any is_space w) h).0 (
    words_from-append (word ++ c ∷ []) w s (parts (is_space c) (any is_space w) h).1
    ∙ ap (λ (v : Text). words_from v s) (append_assoc word (c ∷ []) w))
  where
    parts : (a b : Bool) → (a || b) ≡ false → (a ≡ false) × (b ≡ false)
    parts a b h = (ground arith, ground arith)

words_from_word : (w : Text) → is_empty w ≡ false → words_from w [] ≡ w ∷ []
unfolding words_from
words_from_word w h = rw h refl

words_from-space : (w s : Text) → is_empty w ≡ false → words_from w (32 ∷ s) ≡ w ∷ words_from [] s
unfolding words_from
words_from-space w s h = rw h refl

-- Words that are joined by blanks are split again.
pub words-join : (ws : List Text) → All IsWord ws → words (join (32 ∷ []) ws) ≡ ws
unfolding words_from join
words-join [] a = refl
words-join (w ∷ []) ((full, solid), a) =
    ap words (sym (append-nil w)) ∙ words_from-append [] w [] solid ∙ words_from_word w full
words-join (w ∷ v ∷ ws) ((full, solid), a) =
    words_from-append [] w (32 ∷ join (32 ∷ []) (v ∷ ws)) solid
    ∙ words_from-space w (join (32 ∷ []) (v ∷ ws)) full
    ∙ ap (◌∷◌ w) (words-join (v ∷ ws) a)
