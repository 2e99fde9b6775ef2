-- ===== src/Pip/Roundtrip.antt =====
-- A requirements file that is written is read back.
use cachito.Base.{
  ◌≡◌, refl, sym, ap, ◌∙◌, subst, true, false, List, [], ◌∷◌, ◌++◌, map, nat_eq, list_eq, arith,
  append-nil, append_assoc, All, Option, none, some,
}
use cachito.Base.Text.{Text, text, is_empty, join}
use cachito.Base.Dict.{is_some}
use cachito.Base.Result.{ok}
use cachito.Pip.Options.{requires_value, is_requirement_option, split_options_and_requirement}
use cachito.Pip.Requirement.{Library, Requirement, hash_option}
use cachito.Pip.Items.{Item, flag, valued, IsItem, parts, option_words, requirement_words, gather}
use cachito.Pip.Grammar.{split_options_and_requirement_lem}
use cachito.Pip.Lines.{
  read_from, read_lines, RequirementsFile, add_requirement, parse_split, parse_lines, parsed,
  line_of, written,
}
use cachito.Pip.Intact.{IsLineWord, read_from-line}
use cachito.Pip.Writing.{IsWritten}
use cachito.Pip.WrittenLine.{
  line_words, to_text-line, written-IsLineWord, parse_lines-written, words-line,
}

-- The options of the file, each with the value that it requires.
abbrev pub Global : Type 0
Global = Text × Option Text

abbrev pub IsGlobal : Global → Type 0
IsGlobal (o, v) = (requires_value o ≡ some (is_some v)) × (is_requirement_option o ≡ false)

abbrev pub global_words : List Global → List Text
global_words [] = []
global_words ((o, none) ∷ gs) = o ∷ global_words gs
global_words ((o, some v) ∷ gs) = o ∷ v ∷ global_words gs

abbrev global_items : List Global → List Item
global_items [] = []
global_items ((o, none) ∷ gs) = flag o false ∷ global_items gs
global_items ((o, some v) ∷ gs) = valued o false v ∷ global_items gs

global_items-parts : (gs : List Global) → parts (global_items gs) ≡ global_words gs
global_items-parts [] = refl
global_items-parts ((o, none) ∷ gs) = ground (arith, append-nil o, global_items-parts gs)
global_items-parts ((o, some v) ∷ gs) = ground (arith, append-nil o, global_items-parts gs)

global_items-IsItem : (gs : List Global) → All IsGlobal gs → All IsItem (global_items gs)
global_items-IsItem [] a = tt
global_items-IsItem ((o, none) ∷ gs) ((h, k), a) = (h, global_items-IsItem gs a)
global_items-IsItem ((o, some v) ∷ gs) ((h, k), a) = (h, global_items-IsItem gs a)

gather-global :
    (gs : List Global)
    → All IsGlobal gs
    → (gather (option_words true) (global_items gs) ≡ [])
      × (gather (option_words false) (global_items gs) ≡ global_words gs)
      × (gather requirement_words (global_items gs) ≡ [])
gather-global [] a = (refl, refl, refl)
gather-global ((o, none) ∷ gs) ((h, k), a) =
    let (p, q, r) = gather-global gs a in (rw k p, rw k (ap (◌∷◌ o) q), r)
gather-global ((o, some v) ∷ gs) ((h, k), a) =
    let (p, q, r) = gather-global gs a in (rw k p, rw k (ap (λ (ts : List Text). o ∷ v ∷ ts) q), r)

split-global :
    (gs : List Global)
    → All IsGlobal gs
    → split_options_and_requirement (global_words gs)
      ≡ ok (record {
        global_options = global_words gs;
        requirement_options = [];
        requirement = [];
        value_for = none;
      })
split-global gs a =
    let (p, q, r) = gather-global gs a in
    (split_options_and_requirement_lem (global_words gs)).0 (global_items gs)
      (global_items-IsItem gs a) (global_items-parts gs)
    ∙ rw (p, q, r) refl

parse_lines-global :
    (L : Library) (gs : List Global) (lines : List Text)
    → All IsGlobal gs
    → All IsLineWord (global_words gs)
    → parse_lines L
        (record { requirements = []; options = [] })
        (join (text " ") (global_words gs) ∷ lines)
      ≡ parse_lines L (record { requirements = []; options = global_words gs }) lines
unfolding parse_lines parse_split join
parse_lines-global L gs lines a b = rw (words-line (global_words gs) b, split-global gs a) refl

-- A requirement of the file, with the words of its line.
abbrev pub IsWritable : Library → Option Requirement → Type 0
IsWritable L none = ⊥
IsWritable L (some r) = (w : Text) × (ws : List Text) × IsWritten L w ws r

read_from-words :
    (ws lines : List Text)
    → is_empty ws ≡ false
    → All IsLineWord ws
    → read_from [] (join (text " ") ws ∷ lines) ≡ join (text " ") ws ∷ read_from [] lines
read_from-words [] lines h a = cc
read_from-words (w ∷ ws) lines h a = read_from-line w ws lines a

line_words_full :
    (os : List Text) (w : Text) (ws hs : List Text) → is_empty (os ++ ((w ∷ ws) ++ hs)) ≡ false
line_words_full [] w ws hs = refl
line_words_full (o ∷ os) w ws hs = refl

parse_lines-requirements :
    (L : Library) (rs : List (Option Requirement)) (f : RequirementsFile)
    → All (IsWritable L) rs
    → parse_lines L f (read_from [] (map line_of rs))
      ≡ ok (record f { requirements = f.requirements ++ rs })
unfolding parse_lines read_from
parse_lines-requirements L [] f a =
    ap (λ (rs : List (Option Requirement)). ok (record f { requirements = rs }))
      (sym (append-nil f.requirements))
parse_lines-requirements L (none ∷ rs) f (h, a) = absurd h
parse_lines-requirements L (some r ∷ rs) f ((w, ws, h), a) =
    let lines = map line_of rs in
    let full = line_words_full r.options w ws (map hash_option r.hashes) in
    ap (λ (s : Text). parse_lines L f (read_from [] (s ∷ lines))) (to_text-line L w ws r h)
    ∙ ap (parse_lines L f)
        (read_from-words (line_words w ws r) lines full (written-IsLineWord L w ws r h))
    ∙ parse_lines-written L w ws r f (read_from [] lines) h
    ∙ parse_lines-requirements L rs (add_requirement f (some r)) a
    ∙ ap (λ (rs : List (Option Requirement)). ok (record f { requirements = rs }))
        (append_assoc f.requirements (some r ∷ []) rs)

-- A file that is written and read again is the same: its options are known, not those of a
-- requirement, with a value exactly where one is required; every requirement names its package
-- without a URL, has no options but those of an editable install, hashes that are not empty, and
-- fields as pkg_resources parses them from its line; no word of a line has white space, starts a
-- comment or ends in a backslash, and none of a requirement's name starts with a dash.
pub written-parsed :
    (L : Library) (gs : List Global) (f : RequirementsFile)
    → f.options ≡ global_words gs
    → All IsGlobal gs
    → All IsLineWord (global_words gs)
    → All (IsWritable L) f.requirements
    → parsed L (written f) ≡ ok f
unfolding parsed written read_lines
written-parsed L gs f p a b c =
    ap
      (λ (os : List Text).
        parsed L (written (record { requirements = f.requirements; options = os })))
      p
    ∙ go (global_words gs) refl
    ∙ ap (λ (os : List Text). ok (record { requirements = f.requirements; options = os })) (sym p)
  where
    go :
        (os : List Text)
        → global_words gs ≡ os
        → parsed L (written (record { requirements = f.requirements; options = os }))
          ≡ ok (record { requirements = f.requirements; options = os })
    go [] e =
        parse_lines-requirements L f.requirements (record { requirements = []; options = [] }) c
    go (o ∷ os) e =
        let lines = map line_of f.requirements in
        ap (parse_lines L (record { requirements = []; options = [] }))
          (read_from-words (o ∷ os) lines refl (subst (λ ws. All IsLineWord ws) e b))
        ∙ ap
            (λ (ws : List Text).
              parse_lines L (record { requirements = []; options = [] })
                (join (text " ") ws ∷ read_from [] lines))
            (sym e)
        ∙ parse_lines-global L gs (read_from [] lines) a b
        ∙ ap
            (λ (ws : List Text).
              parse_lines L (record { requirements = []; options = ws }) (read_from [] lines))
            e
        ∙ parse_lines-requirements L f.requirements (record { requirements = []; options = o ∷ os })
            c
