-- ===== src/Pip/Grammar.antt =====
-- The splitting of a line accepts the grammar of items and nothing else.
use cachito.Base.{
  ℕ, ◌≡◌, refl, sym, ap, ap₂, subst, ◌∙◌, ◌⊎◌, inl, inr, Bool, true, false, not, ◌&&◌, Option, none,
  some, some-injective, List, [], ◌∷◌, ◌++◌, ◌==◌, ==_iff, nat_eq, list_eq, if◌then◌else◌,
  append-nil, Bool-cases, All,
}
use cachito.Base.Text.{Text, text, is_empty, starts_with, partition}
use cachito.Base.Result.{Result, ok, err, ◌>>=◌, >>=-eq-ok}
use cachito.Pip.Options.{
  is_requirement_option, requires_value, OptionError, unknown_option, no_requirement, missing_value,
  Split, start, add, value_of, option_and_value, add_option, option_part, read_part, read_parts,
  finish, split_options_and_requirement,
}
use cachito.Pip.Items.{
  Item, word, flag, valued, joined, equals, parts_of, IsItem, parts, option_words,
  requirement_words, gather, read_parts-items,
}

-- A text is cut at the first separator.
partition-append : (c : ℕ) (s a b : Text) → partition c s ≡ some (a, b) → a ++ c ∷ b ≡ s
unfolding partition
partition-append c [] a b h = cc
partition-append c (d ∷ s) a b h =
    go (λ a' b' p. partition-append c s a' b' p) (partition c s) refl (d == c) refl h
  where
    Cut : Text × Text → Type 0
    Cut z = z.0 ++ c ∷ z.1 ≡ d ∷ s

    go :
        ((a' b' : Text) → partition c s ≡ some (a', b') → a' ++ c ∷ b' ≡ s)
        → (o : Option (Text × Text)) → partition c s ≡ o
        → (t : Bool) → (d == c) ≡ t
        → if◌then◌else◌ {A = Option (Text × Text)} t
            (some ([], s))
            (elim o [ none ↦ none | some (a', b') ↦ some (d ∷ a', b') ])
          ≡ some (a, b)
        → a ++ c ∷ b ≡ d ∷ s
    go rest o p true e h =
        subst Cut (some-injective ([], s) (a, b) h) (ap (λ (x : ℕ). x ∷ s) (sym ((==_iff d c).0 e)))
    go rest none p false e h = cc
    go rest (some (a', b')) p false e h =
        subst Cut (some-injective (d ∷ a', b') (a, b) h) (ap (◌∷◌ d) (rest a' b' p))

-- A word that completes an item, or an option's word that a value must follow.
abbrev Reads : Text → Split → Type 0
Reads part t =
    ((t.value_for ≡ none) × ((i : Item) × IsItem i × (parts_of i ≡ part ∷ [])))
    ⊎ ((b : Bool) × (t.value_for ≡ some b)
        × ((o : Text) × (e : Bool) × (requires_value o ≡ some true) × (o ++ equals e ≡ part)))

add-value_for :
    (b : Bool) (ws : List Text) (n : Option Bool) (s : Split) → (add b ws n s).value_for ≡ n
unfolding add
add-value_for true ws n s = refl
add-value_for false ws n s = refl

value_for_of : Result OptionError Split → Option Bool
value_for_of (ok x) = x.value_for
value_for_of (err x) = none

ok-value_for :
    (b : Bool) (ws : List Text) (n : Option Bool) (s t : Split)
    → ◌≡◌ {A = Result OptionError Split} (ok (add b ws n s)) (ok t)
    → t.value_for ≡ n
unfolding value_for_of
ok-value_for b ws n s t h = ap value_for_of (sym h) ∙ add-value_for b ws n s

-- An option, however it was cut from its word.
add_option-Reads :
    (part o : Text) (e needs : Bool) (s t : Split)
    → requires_value o ≡ some needs
    → o ++ equals e ≡ part
    → add_option part o none needs s ≡ ok t
    → Reads part t
unfolding add_option
add_option-Reads part o e false s t r p h =
    inl (
      ok-value_for (is_requirement_option o) (o ∷ []) none s t h,
      (flag o e, r, ap (λ w. w ∷ []) p),
    )
add_option-Reads part o e true s t r p h =
    let b = is_requirement_option o in inr (b, ok-value_for b (o ∷ []) (some b) s t h, (o, e, r, p))

add_value-Reads :
    (part o v : Text) (needs : Bool) (s t : Split)
    → requires_value o ≡ some needs
    → is_empty v ≡ false
    → o ++ (b'=' ∷ v) ≡ part
    → add_option part o (some v) needs s ≡ ok t
    → Reads part t
unfolding add_option
add_value-Reads part o v false s t r k p h = cc
add_value-Reads part o v true s t r k p h = inl (
  ok-value_for (is_requirement_option o) (o ∷ v ∷ []) none s t h,
  (joined o v, (r, k), ap (λ w. w ∷ []) p),
)

-- Of an option's word, by what `requires_value` says.
option_part-Reads :
    (part o : Text) (value : Option Text) (s t : Split)
    → ((needs : Bool)
        → requires_value o ≡ some needs
        → add_option part o value needs s ≡ ok t
        → Reads part t)
    → option_part part (o, value) s ≡ ok t
    → Reads part t
option_part-Reads part o value s t f h = go (requires_value o) refl h
  where
    go :
        (r : Option Bool)
        → requires_value o ≡ r
        → elim r as (λ _. Result OptionError Split) [
          | none ↦ err (unknown_option part)
          | some needs ↦ add_option part o value needs s
        ]
          ≡ ok t
        → Reads part t
    go none e h = cc
    go (some needs) e h = f needs e h

emptied : (w : Text) → is_empty w ≡ true → w ≡ []
emptied [] h = refl
emptied (c ∷ w) h = cc

read_part-Reads :
    (part : Text) (s t : Split) → s.value_for ≡ none → read_part none part s ≡ ok t → Reads part t
unfolding read_part value_for_of
read_part-Reads part s t idle h = elim (Bool-cases (starts_with part (text "-"))) [
  | inr w ↦
      let kept = sym (branch (starts_with part (text "-")) false w) ∙ h in
      inl (ap value_for_of (sym kept) ∙ idle, (word part, w, refl))
  | inl d ↦ cut (partition b'=' part) refl (sym (branch (starts_with part (text "-")) true d) ∙ h)
]
  where
    branch :
        (b c : Bool)
        → b ≡ c
        → (if b
            then option_part part (option_and_value part) s
            else ok (record s { requirement = s.requirement ++ part ∷ [] }))
          ≡ (if c
              then option_part part (option_and_value part) s
              else ok (record s { requirement = s.requirement ++ part ∷ [] }))
    branch b c e =
        ap
          (λ (x : Bool).
            if x
            then option_part part (option_and_value part) s
            else ok (record s { requirement = s.requirement ++ part ∷ [] }))
          e

    cut :
        (o : Option (Text × Text))
        → partition b'=' part ≡ o
        → option_part part (value_of part (partition b'=' part)) s ≡ ok t
        → Reads part t
    cut none e h =
        option_part-Reads part part none s t
          (λ needs r k. add_option-Reads part part false needs s t r (append-nil part) k)
          (sym (ap (λ z. option_part part (value_of part z) s) e) ∙ h)
    cut (some (o, v)) e h =
        let p = partition-append b'=' part o v e in
        let h' = sym (ap (λ z. option_part part (value_of part z) s) e) ∙ h in
        elim (Bool-cases (is_empty v)) [
          | inr full ↦
              option_part-Reads part o (some v) s t
                (λ needs r k. add_value-Reads part o v needs s t r full p k)
                (sym (ap (λ (x : Bool). option_part part (o, if x then none else some v) s) full)
                  ∙ h')
          | inl bare ↦
              option_part-Reads part o none s t
                (λ needs r k.
                  add_option-Reads part o true needs s t r
                    (ap (λ w. o ++ (b'=' ∷ w)) (sym (emptied v bare)) ∙ p) k)
                (sym (ap (λ (x : Bool). option_part part (o, if x then none else some v) s) bare)
                  ∙ h')
        ]

-- The words that are left, with a value due or not, are those of items.
Due : Option Bool → List Text → Type 0
Due none ps = (is : List Item) × All IsItem is × (parts is ≡ ps)
Due (some b) ps = (v : Text) × (is : List Item) × All IsItem is × (v ∷ parts is ≡ ps)

-- One more word before the words that are left.
Due-cons :
    (part : Text) (t : Split) (ps : List Text)
    → Reads part t
    → Due t.value_for ps
    → Due none (part ∷ ps)
unfolding Due
Due-cons part t ps (inl (idle, (i, k, p))) d =
    let (is, a, q) = subst (λ (n : Option Bool). Due n ps) idle d in (i ∷ is, (k, a), ap₂ ◌++◌ p q)
Due-cons part t ps (inr (b, waits, (o, e, r, p))) d =
    let (v, is, a, q) = subst (λ (n : Option Bool). Due n ps) waits d in
    (valued o e v ∷ is, (r, a), ap₂ ◌∷◌ p q)

read_parts-Due :
    (n : Option Bool) (ps : List Text) (s t : Split)
    → s.value_for ≡ n
    → read_parts s ps ≡ ok t
    → t.value_for ≡ none
    → Due n ps
unfolding read_parts Due read_part value_for_of
read_parts-Due none [] s t w h e = ([], tt, refl)
read_parts-Due (some b) [] s t w h e = absurd (clash s.value_for b w (ap value_for_of h ∙ e))
  where
    clash : (o : Option Bool) (b : Bool) → o ≡ some b → o ≡ none → ⊥
    clash o b p q = cc
read_parts-Due none (part ∷ ps) s t w h e =
    let (u, r, k) =
      >>=-eq-ok (read_part none part s) (λ u. read_parts u ps)
        (ap (λ (n : Option Bool). read_part n part s >>= λ u. read_parts u ps) (sym w) ∙ h) in
    Due-cons part u ps (read_part-Reads part s u w r) (read_parts-Due u.value_for ps u t refl k e)
read_parts-Due (some b) (part ∷ ps) s t w h e =
    let u = add b (part ∷ []) none s in
    let k = ap (λ (n : Option Bool). read_part n part s >>= λ u. read_parts u ps) (sym w) ∙ h in
    let (is, a, q) = read_parts-Due none ps u t (add-value_for b (part ∷ []) none s) k e in
    (part, is, a, ap (◌∷◌ part) q)

finish_value_for : (u t : Split) → finish u ≡ ok t → u.value_for ≡ none
unfolding finish
finish_value_for u t h = go u.value_for refl h
  where
    go :
        (n : Option Bool)
        → u.value_for ≡ n
        → elim n as (λ _. Result OptionError Split) [
          | some context ↦ err missing_value
          | none ↦
              if not (is_empty u.requirement_options) && is_empty u.requirement
              then err (no_requirement u.requirement_options)
              else ok u
        ]
          ≡ ok t
        → u.value_for ≡ none
    go none e h = e
    go (some b) e h = cc

-- The three lists of a line.
abbrev pub split_of : List Item → Split
split_of is = record {
  global_options = gather (option_words false) is;
  requirement_options = gather (option_words true) is;
  requirement = gather requirement_words is;
  value_for = none;
}

-- The split accepts exactly the lines made of items: known options without a value, known options
-- with the value that they require, as the next word or after `=`, and words without a dash; the
-- requirement's options need a word. It sorts the options by where they belong, each with its value,
-- and keeps the order; a line of items without the word that they need raises for that.
pub split_options_and_requirement_lem :
    (ps : List Text)
    → ((is : List Item)
        → All IsItem is
        → parts is ≡ ps
        → split_options_and_requirement ps ≡ (
            if not (is_empty (split_of is).requirement_options)
              && is_empty (split_of is).requirement
            then err (no_requirement (split_of is).requirement_options)
            else ok (split_of is)))
      × ((t : Split)
          → split_options_and_requirement ps ≡ ok t
          → (is : List Item) × All IsItem is × (parts is ≡ ps))
unfolding split_options_and_requirement Due
split_options_and_requirement_lem ps = (
  λ is a p.
      ap split_options_and_requirement (sym p)
      ∙ ap (λ r. r >>= finish) (read_parts-items is start a),
  λ t h.
      let (u, r, k) = >>=-eq-ok (read_parts start ps) finish h in
      read_parts-Due none ps start u refl r (finish_value_for u t k),
)
