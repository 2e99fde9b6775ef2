-- ===== src/Pip/Items.antt =====
-- The lines of a requirements file as a grammar of items, and what splitting them gives.
use cachito.Base.{
  ◌≡◌, refl, sym, ap, ◌∙◌, inl, inr, Bool, true, false, not, ◌&&◌, Option, none, some, List, [],
  ◌∷◌, ◌++◌, arith, ◌==◌, ==_iff, contains, nat_eq, list_eq, if◌then◌else◌, append-nil,
  append_assoc, Bool-cases, all, All,
}
use cachito.Base.Text.{Text, text, is_empty, starts_with, partition}
use cachito.Base.Dict.{Dict, lookup}
use cachito.Base.Result.{Result, ok, err, ◌>>=◌}
use cachito.Pip.Options.{
  options, requires_value, is_requirement_option, Split, add, value_of, option_and_value,
  add_option, option_part, OptionError, unknown_option, read_part, read_parts,
}

-- A word of the requirement; an option without a value; an option whose value is the next word; an
-- option with its value after `=`. The Boolean is whether a needless `=` ends the option's word.
pub data Item : Type 0 where
  word : Text → Item
  flag : Text → Bool → Item
  valued : Text → Bool → Text → Item
  joined : Text → Text → Item

abbrev pub equals : Bool → Text
equals true = b'=' ∷ []
equals false = []

abbrev pub parts_of : Item → List Text
parts_of (word w) = w ∷ []
parts_of (flag o e) = (o ++ equals e) ∷ []
parts_of (valued o e v) = (o ++ equals e) ∷ v ∷ []
parts_of (joined o v) = (o ++ (b'=' ∷ v)) ∷ []

abbrev pub IsItem : Item → Type 0
IsItem (word w) = starts_with w (text "-") ≡ false
IsItem (flag o e) = requires_value o ≡ some false
IsItem (valued o e v) = requires_value o ≡ some true
IsItem (joined o v) = (requires_value o ≡ some true) × (is_empty v ≡ false)

abbrev pub parts : List Item → List Text
parts [] = []
parts (i ∷ is) = parts_of i ++ parts is

-- An option's words, where it is the requirement's (true) or one of the other ones (false).
abbrev pub words_for : Bool → Text → List Text → List Text
words_for true option words = if is_requirement_option option then words else []
words_for false option words = if is_requirement_option option then [] else words

abbrev pub option_words : Bool → Item → List Text
option_words b (word w) = []
option_words b (flag o e) = words_for b o (o ∷ [])
option_words b (valued o e v) = words_for b o (o ∷ v ∷ [])
option_words b (joined o v) = words_for b o (o ∷ v ∷ [])

abbrev pub requirement_words : Item → List Text
requirement_words (word w) = w ∷ []
requirement_words i = []

abbrev pub gather : (Item → List Text) → List Item → List Text
gather f [] = []
gather f (i ∷ is) = f i ++ gather f is

-- The options are plain: they start with a dash, and no `=` is in them.
no_equals : Text → Bool
no_equals o = not (contains o b'=') && starts_with o (text "-")

lookup-plain :
    (d : Dict Text Bool) (o : Text) (b : Bool)
    → all (λ kv. no_equals kv.0) d ≡ true
    → lookup o d ≡ some b
    → no_equals o ≡ true
unfolding lookup
lookup-plain [] o b a h = cc
lookup-plain ((k, v) ∷ d) o b a h = elim (Bool-cases (o == k)) [
  | inl e ↦
      ap no_equals ((==_iff o k).0 e) ∙ (both (no_equals k) (all (λ kv. no_equals kv.0) d) a).0
  | inr e ↦
      lookup-plain d o b (both (no_equals k) (all (λ kv. no_equals kv.0) d) a).1
        (sym (ap (λ (t : Bool). if t then some v else lookup o d) e) ∙ h)
]
  where
    both : (a b : Bool) → (a && b) ≡ true → (a ≡ true) × (b ≡ true)
    both a b h = (ground arith, ground arith)

options-plain : all (λ kv. no_equals kv.0) options ≡ true
unfolding no_equals starts_with nat_eq
options-plain = refl

requires_value-plain : (o : Text) (b : Bool) → requires_value o ≡ some b → no_equals o ≡ true
unfolding requires_value
requires_value-plain o b h = lookup-plain options o b options-plain h

partition_plain :
    (o v : Text) → contains o b'=' ≡ false → partition b'=' (o ++ (b'=' ∷ v)) ≡ some (o, v)
unfolding partition nat_eq
partition_plain [] v h = refl
partition_plain (c ∷ o) v h = ground (arith, partition_plain o v)

partition_missing : (o : Text) → contains o b'=' ≡ false → partition b'=' o ≡ none
unfolding partition
partition_missing [] h = refl
partition_missing (c ∷ o) h = ground (arith, partition_missing o)

starts_with-append_left : (o s p : Text) → starts_with o p ≡ true → starts_with (o ++ s) p ≡ true
unfolding starts_with
starts_with-append_left o s [] h = refl
starts_with-append_left [] s (c ∷ p) h = cc
starts_with-append_left (d ∷ o) s (c ∷ p) h = ground (arith, starts_with-append_left o s p)

option_part-known :
    (part o : Text) (b : Bool) (value : Option Text) (s : Split)
    → requires_value o ≡ some b
    → option_part part (o, value) s ≡ add_option part o value b s
option_part-known part o b value s h =
    ap
      (λ (r : Option Bool). elim r as (λ _. Result OptionError Split) [
        | none ↦ err (unknown_option part)
        | some needs ↦ add_option part o value needs s
      ])
      h

-- What the loop makes of the word of an option.
read_part-option :
    (o : Text) (b : Bool) (tail : Text) (value : Option Text) (s : Split)
    → requires_value o ≡ some b
    → option_and_value (o ++ tail) ≡ (o, value)
    → read_part none (o ++ tail) s ≡ add_option (o ++ tail) o value b s
unfolding read_part no_equals
read_part-option o b tail value s h e =
    let plain = requires_value-plain o b h in
    let dash =
      starts_with-append_left o tail (text "-")
        (second (not (contains o b'=')) (starts_with o (text "-")) plain) in
    rw (dash, e) (option_part-known (o ++ tail) o b value s h)
  where
    second : (a b : Bool) → (a && b) ≡ true → b ≡ true
    second a b h = ground arith

-- The state after an item.
abbrev after : Item → Split → Split
after i s = record {
  global_options = s.global_options ++ option_words false i;
  requirement_options = s.requirement_options ++ option_words true i;
  requirement = s.requirement ++ requirement_words i;
  value_for = none;
}

-- The state after an option.
add-after :
    (o : Text) (ws : List Text) (s : Split)
    → add (is_requirement_option o) ws none s ≡ record {
      global_options = s.global_options ++ words_for false o ws;
      requirement_options = s.requirement_options ++ words_for true o ws;
      requirement = s.requirement ++ [];
      value_for = none;
    }
unfolding add
add-after o ws s = elim (Bool-cases (is_requirement_option o)) [
  | inl h ↦ rw h (ground (arith, append-nil s.global_options, append-nil s.requirement))
  | inr h ↦ rw h (ground (arith, append-nil s.requirement_options, append-nil s.requirement))
]

abbrev clean : Split → Split
clean s = record s { value_for = none }

option_and_value-flag :
    (o : Text) (e : Bool) → contains o b'=' ≡ false → option_and_value (o ++ equals e) ≡ (o, none)
option_and_value-flag o true h = ap (value_of (o ++ b'=' ∷ [])) (partition_plain o [] h)
option_and_value-flag o false h =
    ap option_and_value (append-nil o) ∙ ap (value_of o) (partition_missing o h)

option_and_value-joined :
    (o v : Text)
    → contains o b'=' ≡ false
    → is_empty v ≡ false
    → option_and_value (o ++ (b'=' ∷ v)) ≡ (o, some v)
option_and_value-joined o v h k =
    ap (value_of (o ++ (b'=' ∷ v))) (partition_plain o v h)
    ∙ ap (λ (t : Bool). (o, if t then none else some v)) k

requires_value-no_equals :
    (o : Text) (b : Bool) → requires_value o ≡ some b → contains o b'=' ≡ false
unfolding no_equals
requires_value-no_equals o b h =
    first (contains o b'=') (starts_with o (text "-")) (requires_value-plain o b h)
  where
    first : (a b : Bool) → (not a && b) ≡ true → a ≡ false
    first a b h = ground arith

abbrev then_read : List Text → Result OptionError Split → Result OptionError Split
then_read rest r = r >>= λ t. read_parts t rest

add-value :
    (b : Bool) (o v : Text) (s : Split)
    → read_part (add b (o ∷ []) (some b) (clean s)).value_for v (add b (o ∷ []) (some b) (clean s))
      ≡ ok (add b (o ∷ v ∷ []) none (clean s))
unfolding read_part add
add-value true o v s = ap ok (ground (arith, append_assoc s.requirement_options (o ∷ []) (v ∷ [])))
add-value false o v s = ap ok (ground (arith, append_assoc s.global_options (o ∷ []) (v ∷ [])))

-- The parts of an item take the loop from one state to the next.
read_parts-item :
    (i : Item) (s : Split) (rest : List Text)
    → IsItem i
    → read_parts (clean s) (parts_of i ++ rest) ≡ read_parts (after i s) rest
unfolding read_parts read_part add_option
read_parts-item (word w) s rest h = rw h (
    ap (λ (t : Split). read_parts t rest)
      (ground (arith, append-nil s.global_options, append-nil s.requirement_options)))
read_parts-item (flag o e) s rest h =
    let known = option_and_value-flag o e (requires_value-no_equals o false h) in
    ap (then_read rest) (read_part-option o false (equals e) none (clean s) h known)
    ∙ ap (λ (t : Split). read_parts t rest) (add-after o (o ∷ []) (clean s))
read_parts-item (valued o e v) s rest h =
    let known = option_and_value-flag o e (requires_value-no_equals o true h) in
    ap (then_read (v ∷ rest)) (read_part-option o true (equals e) none (clean s) h known)
    ∙ ap (then_read rest) (add-value (is_requirement_option o) o v s)
    ∙ ap (λ (t : Split). read_parts t rest) (add-after o (o ∷ v ∷ []) (clean s))
read_parts-item (joined o v) s rest (h, k) =
    let known = option_and_value-joined o v (requires_value-no_equals o true h) k in
    ap (then_read rest) (read_part-option o true (b'=' ∷ v) (some v) (clean s) h known)
    ∙ ap (λ (t : Split). read_parts t rest) (add-after o (o ∷ v ∷ []) (clean s))

pub read_parts-items :
    (is : List Item) (s : Split)
    → All IsItem is
    → read_parts (clean s) (parts is)
      ≡ ok (record {
        global_options = s.global_options ++ gather (option_words false) is;
        requirement_options = s.requirement_options ++ gather (option_words true) is;
        requirement = s.requirement ++ gather requirement_words is;
        value_for = none;
      })
unfolding read_parts
read_parts-items [] s a = ap ok (
    ground (
      arith,
      append-nil s.global_options,
      append-nil s.requirement_options,
      append-nil s.requirement,
    ))
read_parts-items (i ∷ is) s (h, a) =
    read_parts-item i s (parts is) h
    ∙ read_parts-items is (after i s) a
    ∙ ap ok (
        ground (
          arith,
          append_assoc s.global_options (option_words false i) (gather (option_words false) is),
          append_assoc s.requirement_options (option_words true i) (gather (option_words true) is),
          append_assoc s.requirement (requirement_words i) (gather requirement_words is),
        ))
