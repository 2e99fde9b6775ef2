-- ===== src/Pip/Writing.antt =====
-- What is written to a requirements file is read back.
use cachito.Base.{
  ◌≡◌, refl, sym, ap, ap₂, ◌∙◌, subst, Bool, true, false, ◌||◌, List, [], ◌∷◌, ◌++◌, map, nat_eq,
  list_eq, if◌then◌else◌, ◌==◌, arith, append_assoc, append-nil, All, contains, none, some,
  Bool-cases, inl, inr, ==_iff,
}
use cachito.Base.Text.{Text, text, is_empty, starts_with, ends_with, partition, join}
use cachito.Base.Dict.{lookup}
use cachito.Pip.Options.{requires_value, is_requirement_option, split_hashes}
use cachito.Pip.Requirement.{Parsed, Library, Requirement, hash_option}
use cachito.Pip.Items.{
  Item, word, flag, joined, parts_of, IsItem, parts, option_words, requirement_words, gather,
}
use cachito.Pip.Grammar.{split_of}
use cachito.Pip.Intact.{IsLineWord}

-- Joining with a blank, after the first part.
tail_of : List Text → Text
tail_of [] = []
tail_of (q ∷ qs) = 32 ∷ (q ++ tail_of qs)

join-tail : (p : Text) (qs : List Text) → join (text " ") (p ∷ qs) ≡ p ++ tail_of qs
unfolding join tail_of
join-tail p [] = sym (append-nil p)
join-tail p (q ∷ qs) = ap (λ (s : Text). p ++ (32 ∷ s)) (join-tail q qs)

tail_of-append : (ps qs : List Text) → tail_of (ps ++ qs) ≡ tail_of ps ++ tail_of qs
unfolding tail_of
tail_of-append [] qs = refl
tail_of-append (p ∷ ps) qs =
    ap (λ (s : Text). 32 ∷ (p ++ s)) (tail_of-append ps qs)
    ∙ ap (◌∷◌ 32) (sym (append_assoc p (tail_of ps) (tail_of qs)))

-- Words that are joined before the rest are joined with the rest.
join-join :
    (w : Text) (ws qs : List Text)
    → join (text " ") (join (text " ") (w ∷ ws) ∷ qs) ≡ join (text " ") ((w ∷ ws) ++ qs)
join-join w ws qs =
    join-tail (join (text " ") (w ∷ ws)) qs
    ∙ ap (λ (s : Text). s ++ tail_of qs) (join-tail w ws)
    ∙ append_assoc w (tail_of ws) (tail_of qs)
    ∙ ap (◌++◌ w) (sym (tail_of-append ws qs))
    ∙ sym (join-tail w (ws ++ qs))

pub join-splice :
    (ps : List Text) (w : Text) (ws qs : List Text)
    → join (text " ") (ps ++ (join (text " ") (w ∷ ws) ∷ qs))
      ≡ join (text " ") (ps ++ ((w ∷ ws) ++ qs))
unfolding tail_of
join-splice [] w ws qs = join-join w ws qs
join-splice (p ∷ ps) w ws qs =
    let whole = join (text " ") (w ∷ ws) in
    join-tail p (ps ++ (whole ∷ qs))
    ∙ ap (◌++◌ p) (
        tail_of-append ps (whole ∷ qs)
        ∙ ap (λ (s : Text). tail_of ps ++ (32 ∷ s))
            (sym (join-tail whole qs) ∙ join-join w ws qs ∙ join-tail w (ws ++ qs))
        ∙ sym (tail_of-append ps ((w ∷ ws) ++ qs)))
    ∙ sym (join-tail p (ps ++ ((w ∷ ws) ++ qs)))

-- A requirement that names its package without a URL: its line is made of words (the first one is
-- given apart), its options are those of an editable install, and pkg_resources parses the line to
-- the requirement's own fields.
abbrev pub editable : List Text
editable = text "-e" ∷ text "--editable" ∷ []

abbrev pub parsed_of : Requirement → Parsed
parsed_of r = record {
  project_name = r.package_name;
  name = r.raw_package;
  specs = r.version_specs;
  extras = r.extras;
  marker = r.environment_marker;
}

abbrev pub IsNameWord : Text → Type 0
IsNameWord w = IsLineWord w × (starts_with w (text "-") ≡ false)

abbrev pub IsHash : Text → Type 0
IsHash h = (is_empty h ≡ false) × IsLineWord (hash_option h)

abbrev pub IsWritten : Library → Text → List Text → Requirement → Type 0
IsWritten L w ws r =
    (r.download_line ≡ join (text " ") (w ∷ ws))
    × All IsNameWord (w ∷ ws)
    × All (λ o. contains editable o ≡ true) r.options
    × All IsHash r.hashes
    × (r.kind ≡ text "pypi")
    × (r.qualifiers ≡ [])
    × (partition b':' r.download_line ≡ none)
    × (L.parse_requirements r.download_line ≡ some (parsed_of r ∷ []))

-- The items of the requirement's line.
abbrev pub option_items : List Text → List Item
option_items = map (λ o. flag o false)

abbrev pub hash_items : List Text → List Item
hash_items = map (joined (text "--hash"))

abbrev pub items_of : List Text → List Text → List Text → List Item
items_of options ws hashes = option_items options ++ (map word ws ++ hash_items hashes)

gather-append :
    (f : Item → List Text) (is js : List Item) → gather f (is ++ js) ≡ gather f is ++ gather f js
gather-append f [] js = refl
gather-append f (i ∷ is) js =
    ap (◌++◌ (f i)) (gather-append f is js) ∙ sym (append_assoc (f i) (gather f is) (gather f js))

parts-gather : (is : List Item) → parts is ≡ gather parts_of is
parts-gather [] = refl
parts-gather (i ∷ is) = ap (◌++◌ (parts_of i)) (parts-gather is)

gather-map :
    (f : Item → List Text) (g : Text → Item) (h : Text → Text) (ts : List Text)
    → ((t : Text) → f (g t) ≡ h t ∷ [])
    → gather f (map g ts) ≡ map h ts
gather-map f g h [] e = refl
gather-map f g h (t ∷ ts) e = ap₂ ◌++◌ (e t) (gather-map f g h ts e)

gather-none :
    (f : Item → List Text) (g : Text → Item) (ts : List Text)
    → ((t : Text) → f (g t) ≡ [])
    → gather f (map g ts) ≡ []
gather-none f g [] e = refl
gather-none f g (t ∷ ts) e = ap₂ ◌++◌ (e t) (gather-none f g ts e)

map-id : (ts : List Text) → map (λ t. t) ts ≡ ts
map-id [] = refl
map-id (t ∷ ts) = ap (◌∷◌ t) (map-id ts)

-- One kind of words of the line, from the three kinds of items.
gather-items :
    (f : Item → List Text) (options ws hashes xs ys zs : List Text)
    → gather f (option_items options) ≡ xs
    → gather f (map word ws) ≡ ys
    → gather f (hash_items hashes) ≡ zs
    → gather f (items_of options ws hashes) ≡ xs ++ (ys ++ zs)
gather-items f options ws hashes xs ys zs p q r =
    gather-append f (option_items options) (map word ws ++ hash_items hashes)
    ∙ ap₂ ◌++◌ p (gather-append f (map word ws) (hash_items hashes) ∙ ap₂ ◌++◌ q r)

pub items_of-parts :
    (options ws hashes : List Text)
    → parts (items_of options ws hashes) ≡ options ++ (ws ++ map hash_option hashes)
items_of-parts options ws hashes =
    parts-gather (items_of options ws hashes)
    ∙ gather-items parts_of options ws hashes options ws (map hash_option hashes)
        (gather-map parts_of (λ o. flag o false) (λ o. o) options
            (λ o. ap (λ (s : Text). s ∷ []) (append-nil o))
          ∙ map-id options)
        (gather-map parts_of word (λ w. w) ws (λ w. refl) ∙ map-id ws)
        (gather-map parts_of (joined (text "--hash")) hash_option hashes (λ h. refl))

-- The two options of an editable install.
editable-elim :
    (P : Text → Type 0) (o : Text)
    → P (text "-e")
    → P (text "--editable")
    → contains editable o ≡ true
    → P o
editable-elim P o p q h = elim (Bool-cases (o == text "-e")) [
  | inl e ↦ subst P (sym ((==_iff o (text "-e")).0 e)) p
  | inr e ↦ elim (Bool-cases (o == text "--editable")) [
    | inl e' ↦ subst P (sym ((==_iff o (text "--editable")).0 e')) q
    | inr e' ↦ absurd (clash (o == text "-e") (o == text "--editable") e e' h)
  ]
]
  where
    clash : (a b : Bool) → a ≡ false → b ≡ false → (a || (b || false)) ≡ true → ⊥
    clash a b p q h = ground arith

abbrev pub Holds : Text → Type 0
Holds o =
    (requires_value o ≡ some false)
    × (is_requirement_option o ≡ true)
    × IsLineWord o
    × ((o == text "--hash") ≡ false)

editable-Holds : (o : Text) → contains editable o ≡ true → Holds o
unfolding requires_value is_requirement_option lookup starts_with ends_with nat_eq list_eq
editable-Holds o h =
    editable-elim Holds o (refl, refl, ((refl, refl), refl, refl), refl)
      (refl, refl, ((refl, refl), refl, refl), refl) h

-- What holds of the options of an editable install, one by one.
pub options-Holds : (os : List Text) → All (λ o. contains editable o ≡ true) os → All Holds os
options-Holds [] a = tt
options-Holds (o ∷ os) (h, a) = (editable-Holds o h, options-Holds os a)

pub All-append {ℓ} :
    {A : Type ℓ} (P : A → Type 0) (xs ys : List A) → All P xs → All P ys → All P (xs ++ ys)
All-append P [] ys a b = b
All-append P (x ∷ xs) ys (p, a) b = (p, All-append P xs ys a b)

pub option_items-IsItem : (os : List Text) → All Holds os → All IsItem (option_items os)
option_items-IsItem [] a = tt
option_items-IsItem (o ∷ os) ((h, k, l, m), a) = (h, option_items-IsItem os a)

pub word_items-IsItem : (ws : List Text) → All IsNameWord ws → All IsItem (map word ws)
word_items-IsItem [] a = tt
word_items-IsItem (w ∷ ws) ((h, k), a) = (k, word_items-IsItem ws a)

pub hash_items-IsItem : (hs : List Text) → All IsHash hs → All IsItem (hash_items hs)
unfolding requires_value lookup list_eq nat_eq
hash_items-IsItem [] a = tt
hash_items-IsItem (h ∷ hs) ((full, l), a) = ((refl, full), hash_items-IsItem hs a)

-- The words of each kind.
option_items-words :
    (b : Bool) (os : List Text)
    → All Holds os
    → gather (option_words b) (option_items os) ≡ (if b then os else [])
option_items-words true [] a = refl
option_items-words false [] a = refl
option_items-words true (o ∷ os) ((h, k, l, m), a) =
    rw k (ap (◌∷◌ o) (option_items-words true os a))
option_items-words false (o ∷ os) ((h, k, l, m), a) = rw k (option_items-words false os a)

pub hash_words : List Text → List Text
hash_words [] = []
hash_words (h ∷ hs) = text "--hash" ∷ h ∷ hash_words hs

hash_items-words :
    (b : Bool) (hs : List Text)
    → gather (option_words b) (hash_items hs) ≡ (if b then hash_words hs else [])
unfolding hash_words is_requirement_option list_eq nat_eq
hash_items-words true [] = refl
hash_items-words false [] = refl
hash_items-words true (h ∷ hs) =
    ap (λ (ts : List Text). text "--hash" ∷ h ∷ ts) (hash_items-words true hs)
hash_items-words false (h ∷ hs) = hash_items-words false hs

-- The split of a written requirement's words.
pub items_of-split :
    (os ws hs : List Text)
    → All Holds os
    → split_of (items_of os ws hs) ≡ record {
      global_options = [];
      requirement_options = os ++ hash_words hs;
      requirement = ws;
      value_for = none;
    }
items_of-split os ws hs a =
    let globals =
      gather-items (option_words false) os ws hs [] [] [] (option_items-words false os a)
        (gather-none (option_words false) word ws (λ w. refl)) (hash_items-words false hs) in
    let own =
      gather-items (option_words true) os ws hs os [] (hash_words hs) (option_items-words true os a)
        (gather-none (option_words true) word ws (λ w. refl)) (hash_items-words true hs) in
    let names =
      gather-items requirement_words os ws hs [] ws []
        (gather-none requirement_words (λ o. flag o false) os (λ o. refl))
        (gather-map requirement_words word (λ w. w) ws (λ w. refl) ∙ map-id ws)
        (gather-none requirement_words (joined (text "--hash")) hs (λ h. refl))
      ∙ append-nil ws in
    ground (arith, globals, own, names)

split_hashes-hashes : (hs : List Text) → split_hashes false (hash_words hs) ≡ (hs, [])
unfolding split_hashes hash_words list_eq nat_eq
split_hashes-hashes [] = refl
split_hashes-hashes (h ∷ hs) = rw (split_hashes-hashes hs) refl

pub split_hashes-options :
    (os hs : List Text) → All Holds os → split_hashes false (os ++ hash_words hs) ≡ (hs, os)
unfolding split_hashes
split_hashes-options [] hs a = split_hashes-hashes hs
split_hashes-options (o ∷ os) hs ((h, k, l, m), a) = rw (m, split_hashes-options os hs a) refl
