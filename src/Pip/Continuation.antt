-- ===== src/Pip/Continuation.antt =====
-- The logical lines of a requirements file, and that reading a file gives them.
use cachito.Base.{
  ℕ, zero, suc, ◌≡◌, refl, sym, ap, ◌∙◌, true, false, List, [], ◌∷◌, ◌++◌, map, nat_eq, ◌==◌, arith,
  append_assoc, append-nil, reverse, All, Bool-cases, inl, inr, ◌⊎◌, ◌≢◌, subst,
}
use cachito.Base.Text.{Text, text, starts_with, ends_with, lstrip, rstrip}
use cachito.Base.Words.{strip}
use cachito.Pip.Comments.{IsUncommented, IsStripped, remove_comment-IsUncommented, strip-IsStripped}
use cachito.Pip.Lines.{remove_comment, concat, yielded, read_from, read_lines}
use mathlib.Core.List.{reverse-append, reverse-reverse}

-- A part of a line that goes on in the next one: its text, and how many backslashes follow the one
-- that ends it.
abbrev pub Part : Type 0
Part = Text × ℕ

abbrev pub backslashes : ℕ → Text
backslashes zero = []
backslashes (suc n) = b'\\' ∷ backslashes n

abbrev pub part_line : Part → Text
part_line (s, n) = s ++ backslashes (suc n)

abbrev pub IsOpen : Text → Type 0
IsOpen s = ends_with s (text "\\") ≡ false

-- A logical line: the parts that go on, and the last one.
abbrev pub Logical : Type 0
Logical = List Part × Text

abbrev pub IsLogical : Logical → Type 0
IsLogical (ps, s) = All (λ p. IsOpen p.0) ps × IsOpen s

abbrev pub physical : List Logical → List Part → List Text
physical [] rest = map part_line rest
physical ((ps, s) ∷ ls) rest = map part_line ps ++ (s ∷ physical ls rest)

-- The parts without their backslashes.
abbrev pub text_of : List Part → Text → Text
text_of [] s = s
text_of (p ∷ ps) s = p.0 ++ text_of ps s

-- What is left of a joined line.
abbrev pub Leaves : Text → Text → Type 0
Leaves joined t = (u : Text) × IsUncommented joined u × IsStripped u t

-- What a file's lines mean: the logical lines that leave a text, and the parts at the end as they are.
abbrev pub Reads : List Logical → List Part → List Text → Type 0
Reads [] [] out = out ≡ []
Reads [] (p ∷ rest) out = out ≡ text_of (p ∷ rest) [] ∷ []
Reads ((ps, s) ∷ ls) rest out =
    (t : Text) × (more : List Text) × Leaves (text_of ps s) t
    × Reads ls rest more
    × ((t ≡ []) × (out ≡ more) ⊎ (t ≢ []) × (out ≡ t ∷ more))

concat-text_of : (ps : List Part) (s : Text) → concat (map (λ p. p.0) ps ++ s ∷ []) ≡ text_of ps s
concat-text_of [] s = append-nil s
concat-text_of (p ∷ ps) s = ap (◌++◌ p.0) (concat-text_of ps s)

concat_parts : (ps : List Part) → concat (map (λ p. p.0) ps) ≡ text_of ps []
concat_parts [] = refl
concat_parts (p ∷ ps) = ap (◌++◌ p.0) (concat_parts ps)

yielded_or :
    (t : Text) (more : List Text)
    → (t ≡ []) × (yielded t more ≡ more) ⊎ (t ≢ []) × (yielded t more ≡ t ∷ more)
yielded_or [] more = inl (refl, refl)
yielded_or (c ∷ t) more = inr (λ e. cc, refl)

backslashes_snoc : (n : ℕ) → backslashes n ++ b'\\' ∷ [] ≡ b'\\' ∷ backslashes n
backslashes_snoc zero = refl
backslashes_snoc (suc n) = ap (◌∷◌ b'\\') (backslashes_snoc n)

reverse-backslashes : (n : ℕ) → reverse (backslashes n) ≡ backslashes n
reverse-backslashes zero = refl
reverse-backslashes (suc n) =
    reverse-append (b'\\' ∷ []) (backslashes n)
    ∙ ap (λ (s : Text). s ++ b'\\' ∷ []) (reverse-backslashes n)
    ∙ backslashes_snoc n

reverse-part : (s : Text) (n : ℕ) → reverse (s ++ backslashes n) ≡ backslashes n ++ reverse s
reverse-part s n =
    reverse-append s (backslashes n) ∙ ap (λ (t : Text). t ++ reverse s) (reverse-backslashes n)

lstrip-backslashes : (n : ℕ) (t : Text) → lstrip b'\\' (backslashes n ++ t) ≡ lstrip b'\\' t
unfolding lstrip nat_eq
lstrip-backslashes zero t = refl
lstrip-backslashes (suc n) t = lstrip-backslashes n t

lstrip_other : (t : Text) → starts_with t (text "\\") ≡ false → lstrip b'\\' t ≡ t
unfolding lstrip starts_with
lstrip_other [] h = refl
lstrip_other (c ∷ t) h = ground arith

-- The part's text is what the source strips to.
rstrip_part : (s : Text) (n : ℕ) → IsOpen s → rstrip b'\\' (s ++ backslashes n) ≡ s
unfolding rstrip ends_with
rstrip_part s n h =
    ap (λ (t : Text). reverse (lstrip b'\\' t)) (reverse-part s n)
    ∙ ap reverse (lstrip-backslashes n (reverse s) ∙ lstrip_other (reverse s) h)
    ∙ reverse-reverse s

part_goes_on : (s : Text) (n : ℕ) → ends_with (s ++ backslashes (suc n)) (text "\\") ≡ true
unfolding ends_with starts_with nat_eq
part_goes_on s n = ap (λ (t : Text). starts_with t (text "\\")) (reverse-part s (suc n))

-- The loop over the parts of a line.
read_from-parts :
    (buffered : List Text) (ps : List Part) (lines : List Text)
    → All (λ p. IsOpen p.0) ps
    → read_from buffered (map part_line ps ++ lines)
      ≡ read_from (buffered ++ map (λ p. p.0) ps) lines
unfolding read_from
read_from-parts buffered [] lines a =
    ap (λ (b : List Text). read_from b lines) (sym (append-nil buffered))
read_from-parts buffered ((s, n) ∷ ps) lines (h, a) =
    rw (part_goes_on s n, rstrip_part s (suc n) h)
      (read_from-parts (buffered ++ s ∷ []) ps lines a
        ∙ ap (λ (b : List Text). read_from b lines)
            (append_assoc buffered (s ∷ []) (map (λ p. p.0) ps)))

read_from-open :
    (buffered : List Text) (s : Text) (lines : List Text)
    → IsOpen s
    → read_from buffered (s ∷ lines)
      ≡ yielded (strip (remove_comment (concat (buffered ++ s ∷ [])))) (read_from [] lines)
unfolding read_from
read_from-open buffered s lines h = rw h refl

read_from-Reads :
    (ls : List Logical) (rest : List Part)
    → All IsLogical ls
    → All (λ p. IsOpen p.0) rest
    → Reads ls rest (read_from [] (physical ls rest))
unfolding read_from
read_from-Reads [] [] a b = refl
read_from-Reads [] (p ∷ rest) a b =
    ap (read_from []) (sym (append-nil (map part_line (p ∷ rest))))
    ∙ read_from-parts [] (p ∷ rest) [] b
    ∙ ap (λ (t : Text). t ∷ []) (concat_parts (p ∷ rest))
read_from-Reads ((ps, s) ∷ ls) rest ((h, o), a) b =
    let more = read_from [] (physical ls rest) in
    let cleaned : Text → Text = λ u. strip (remove_comment u) in
    let joined : read_from [] (physical ((ps, s) ∷ ls) rest)
        ≡ yielded (cleaned (text_of ps s)) more =
      read_from-parts [] ps (s ∷ physical ls rest) h
      ∙ read_from-open (map (λ p. p.0) ps) s (physical ls rest) o
      ∙ ap (λ u. yielded (cleaned u) more) (concat-text_of ps s) in
    (
      cleaned (text_of ps s),
      more,
      (
        remove_comment (text_of ps s),
        remove_comment-IsUncommented (text_of ps s),
        strip-IsStripped (remove_comment (text_of ps s)),
      ),
      read_from-Reads ls rest a b,
      elim (yielded_or (cleaned (text_of ps s)) more) [
        | inl (e, same) ↦ inl (e, joined ∙ same)
        | inr (e, same) ↦ inr (e, joined ∙ same)
      ],
    )

-- Every line is open or a part.
lstrip_parts :
    (t : Text)
    → (n : ℕ) × (t ≡ backslashes n ++ lstrip b'\\' t)
      × (starts_with (lstrip b'\\' t) (text "\\") ≡ false)
unfolding lstrip starts_with
lstrip_parts [] = (zero, refl, refl)
lstrip_parts (c ∷ t) = elim (Bool-cases (c == b'\\')) [
  | inl e ↦ let (n, p, q) = lstrip_parts t in rw e (suc n, ground (arith, p), q)
  | inr e ↦ rw e (zero, refl, ground arith)
]

Cut : Text → Type 0
Cut line = (s : Text) × (n : ℕ) × IsOpen s × (line ≡ s ++ backslashes n)

Cut-line : (line : Text) → Cut line
unfolding Cut ends_with
Cut-line line =
    let t = reverse line in
    let (n, p, q) = lstrip_parts t in
    let s = reverse (lstrip b'\\' t) in
    (
      s,
      n,
      ap (λ (u : Text). starts_with u (text "\\")) (reverse-reverse (lstrip b'\\' t)) ∙ q,
      sym (reverse-reverse line)
          ∙ ap reverse p
          ∙ reverse-append (backslashes n) (lstrip b'\\' t)
          ∙ ap (◌++◌ s) (reverse-backslashes n),
    )

-- The logical lines of a file, and the parts at its end.
Cuts : List Text → Type 0
Cuts lines =
    (ls : List Logical) × (rest : List Part) × All IsLogical ls
    × All (λ p. IsOpen p.0) rest
    × (physical ls rest ≡ lines)

Cuts-cons : (line : Text) (lines : List Text) → Cut line → Cuts lines → Cuts (line ∷ lines)
unfolding Cut Cuts
Cuts-cons line lines (s, zero, o, p) (ls, rest, a, b, q) =
    (([], s) ∷ ls, rest, ((tt, o), a), b, ground (arith, append-nil s))
Cuts-cons line lines (s, suc n, o, p) ([], rest, a, b, q) =
    ([], (s, n) ∷ rest, tt, (o, b), ground arith)
Cuts-cons line lines (s, suc n, o, p) ((ps, t) ∷ ls, rest, ((h, k), a), b, q) =
    (((s, n) ∷ ps, t) ∷ ls, rest, (((o, h), k), a), b, ground arith)

Cuts-lines : (lines : List Text) → Cuts lines
unfolding Cuts
Cuts-lines [] = ([], [], tt, tt, refl)
Cuts-lines (line ∷ lines) = Cuts-cons line lines (Cut-line line) (Cuts-lines lines)

-- Every file is made of logical lines, each of parts that end in backslashes and a last part that
-- does not, and perhaps of parts at its end. Reading it joins the parts of a line without those
-- backslashes, cuts the line at its first `#` that begins it or that white space precedes, with that
-- white space, takes the outer white space away, and gives in order the lines that are not empty then;
-- last the joined parts at the end, as they are, with any comment.
pub read_lines_lem :
    (lines : List Text)
    → ((ls : List Logical) (rest : List Part)
        → All IsLogical ls
        → All (λ p. IsOpen p.0) rest
        → physical ls rest ≡ lines
        → Reads ls rest (read_lines lines))
      × ((ls : List Logical) × (rest : List Part) × All IsLogical ls
          × All (λ p. IsOpen p.0) rest
          × (physical ls rest ≡ lines))
unfolding read_lines Cuts
read_lines_lem lines = (
  λ ls rest a b p. subst (λ l. Reads ls rest (read_from [] l)) p (read_from-Reads ls rest a b),
  Cuts-lines lines,
)
