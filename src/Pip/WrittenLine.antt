-- ===== src/Pip/WrittenLine.antt =====
-- A requirement's line in a requirements file is parsed to the requirement.
use cachito.Base.{
  ◌≡◌, refl, sym, ap, ◌∙◌, Bool, true, false, not, ◌&&◌, List, [], ◌∷◌, ◌++◌, map, nat_eq, list_eq,
  if◌then◌else◌, arith, append-nil, All, none, some,
}
use cachito.Base.Text.{Text, text, is_empty, partition, join}
use cachito.Base.Words.{IsWord, words, words-join}
use cachito.Base.Result.{Result, ok, err}
use cachito.Pip.Options.{
  split_hashes_from_options, split_options_and_requirement, OptionError, no_requirement, Split,
}
use cachito.Pip.Requirement.{
  Parsed, Library, Requirement, from_line, to_text, hash_option, requirement_of, one_requirement,
  line_to_parse, assess_direct_access_requirement,
}
use cachito.Pip.Items.{word, IsItem}
use cachito.Pip.Grammar.{split_options_and_requirement_lem}
use cachito.Pip.Lines.{RequirementsFile, add_requirement, parse_split, parse_lines}
use cachito.Pip.Intact.{IsLineWord, is_empty-line}
use cachito.Pip.Writing.{
  parsed_of, IsNameWord, IsHash, IsWritten, items_of, option_items, hash_items, hash_words, Holds,
  join-splice, items_of-parts, options-Holds, All-append, option_items-IsItem, word_items-IsItem,
  hash_items-IsItem, items_of-split, split_hashes-options,
}

abbrev pub line_words : Text → List Text → Requirement → List Text
line_words w ws r = r.options ++ ((w ∷ ws) ++ map hash_option r.hashes)

pub words-line : (ws : List Text) → All IsLineWord ws → words (join (text " ") ws) ≡ ws
words-line ws a = words-join ws (solid ws a)
  where
    solid : (vs : List Text) → All IsLineWord vs → All IsWord vs
    solid [] a = tt
    solid (v ∷ vs) ((h, k, l), a) = (h, solid vs a)

line_words-IsLineWord :
    (os ws hs : List Text)
    → All Holds os
    → All IsNameWord ws
    → All IsHash hs
    → All IsLineWord (os ++ (ws ++ map hash_option hs))
line_words-IsLineWord os ws hs a b c =
    All-append IsLineWord os (ws ++ map hash_option hs) (options os a)
      (All-append IsLineWord ws (map hash_option hs) (names ws b) (hashes hs c))
  where
    options : (os : List Text) → All Holds os → All IsLineWord os
    options [] a = tt
    options (o ∷ os) ((h, k, l, m), a) = (l, options os a)

    names : (ws : List Text) → All IsNameWord ws → All IsLineWord ws
    names [] a = tt
    names (w ∷ ws) ((h, k), a) = (h, names ws a)

    hashes : (hs : List Text) → All IsHash hs → All IsLineWord (map hash_option hs)
    hashes [] a = tt
    hashes (h ∷ hs) ((k, l), a) = (l, hashes hs a)

pub to_text-line :
    (L : Library) (w : Text) (ws : List Text) (r : Requirement)
    → IsWritten L w ws r
    → to_text r ≡ join (text " ") (line_words w ws r)
unfolding to_text
to_text-line L w ws r (d, names, os, hs, kind, qualifiers, access, known) =
    ap (λ (t : Text). join (text " ") (r.options ++ (t ∷ map hash_option r.hashes))) d
    ∙ join-splice r.options w ws (map hash_option r.hashes)

unchecked :
    (b : Bool) (e : OptionError) (s : Split) → (if not b && false then err e else ok s) ≡ ok s
unchecked true e s = refl
unchecked false e s = refl

-- What the split makes of the line.
pub split-line :
    (L : Library) (w : Text) (ws : List Text) (r : Requirement)
    → IsWritten L w ws r
    → split_options_and_requirement (line_words w ws r)
      ≡ ok (record {
        global_options = [];
        requirement_options = r.options ++ hash_words r.hashes;
        requirement = w ∷ ws;
        value_for = none;
      })
split-line L w ws r (d, names, os, hs, kind, qualifiers, access, known) =
    let os' = options-Holds r.options os in
    let is = items_of r.options (w ∷ ws) r.hashes in
    (split_options_and_requirement_lem (line_words w ws r)).0 is
      (All-append IsItem (option_items r.options) (map word (w ∷ ws) ++ hash_items r.hashes)
        (option_items-IsItem r.options os')
        (All-append IsItem (map word (w ∷ ws)) (hash_items r.hashes)
          (word_items-IsItem (w ∷ ws) names) (hash_items-IsItem r.hashes hs)))
      (items_of-parts r.options (w ∷ ws) r.hashes)
    ∙ ap checked (items_of-split r.options (w ∷ ws) r.hashes os')
    ∙ unchecked (is_empty (r.options ++ hash_words r.hashes))
        (no_requirement (r.options ++ hash_words r.hashes))
        (record {
          global_options = [];
          requirement_options = r.options ++ hash_words r.hashes;
          requirement = w ∷ ws;
          value_for = none;
        })
  where
    checked : Split → Result OptionError Split
    checked s =
        if not (is_empty s.requirement_options) && is_empty s.requirement
        then err (no_requirement s.requirement_options)
        else ok s

-- A line without a URL, which pkg_resources parses.
no_access :
    (L : Library) (line : Text)
    → partition b':' line ≡ none
    → assess_direct_access_requirement L line ≡ ok none
unfolding assess_direct_access_requirement
no_access L line h = rw (h, assess_direct_access_requirement) refl

from_line_plain :
    (L : Library) (line : Text) (options : List Text) (p : Parsed)
    → partition b':' line ≡ none
    → L.parse_requirements line ≡ some (p ∷ [])
    → from_line L line options ≡ ok (some (requirement_of (text "pypi") line [] options p))
unfolding from_line line_to_parse one_requirement
from_line_plain L line options p h k = rw (no_access L line h, k) refl

-- The requirement is made again from its line and its options.
from_line-written :
    (L : Library) (w : Text) (ws : List Text) (r : Requirement)
    → IsWritten L w ws r
    → from_line L (join (text " ") (w ∷ ws)) (r.options ++ hash_words r.hashes) ≡ ok (some r)
unfolding requirement_of split_hashes_from_options
from_line-written L w ws r (d, names, os, hs, kind, qualifiers, access, known) =
    ap (λ line. from_line L line (r.options ++ hash_words r.hashes)) (sym d)
    ∙ from_line_plain L r.download_line (r.options ++ hash_words r.hashes) (parsed_of r) access
        known
    ∙ rw (split_hashes-options r.options r.hashes (options-Holds r.options os))
        (ground (arith, kind, qualifiers))

pub written-IsLineWord :
    (L : Library) (w : Text) (ws : List Text) (r : Requirement)
    → IsWritten L w ws r
    → All IsLineWord (line_words w ws r)
written-IsLineWord L w ws r (d, names, os, hs, kind, qualifiers, access, known) =
    line_words-IsLineWord r.options (w ∷ ws) r.hashes (options-Holds r.options os) names hs

-- One line of the file.
pub parse_lines-written :
    (L : Library) (w : Text) (ws : List Text) (r : Requirement) (f : RequirementsFile)
    (lines : List Text)
    → IsWritten L w ws r
    → parse_lines L f (join (text " ") (line_words w ws r) ∷ lines)
      ≡ parse_lines L (add_requirement f (some r)) lines
unfolding parse_lines parse_split
parse_lines-written L w ws r f lines h =
    rw
      (
        words-line (line_words w ws r) (written-IsLineWord L w ws r h),
        split-line L w ws r h,
        full h,
        from_line-written L w ws r h,
      )
      (ap
        (λ (os : List Text).
          parse_lines L (add_requirement (record f { options = os }) (some r)) lines)
        (append-nil f.options))
  where
    full : IsWritten L w ws r → is_empty (join (text " ") (w ∷ ws)) ≡ false
    full (d, ((((h, solid), k, l), m), a), os, hs, kind, qualifiers, access, known) =
        is_empty-line w ws h
