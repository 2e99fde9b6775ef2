-- ===== src/Gomod/Matching.antt =====
-- What belongs to a module, and which of several modules is chosen.
use cachito.Base.{
  ℕ, subst, ◌≤◌, ◌≡◌, refl, sym, ap, ◌∙◌, ◌⊎◌, inl, inr, ◌↔◌, Bool, true, false, some-injective,
  none, some, List, [], ◌∷◌, ◌++◌, arith, ◌==◌, ==_iff, nat_eq, list_eq, option_eq, contains,
  filter, contains-filter, length, take, drop, ltb, ltb→lt, lt→ltb, length-append, append-nil,
  Bool-cases, Option-cases,
}
use cachito.Base.Text.{Text, char_at?, starts_with→append, starts_with-append}
use cachito.Gomod.Names.{contains_package, longest_from, longest, match_parent_module}

-- A package is its module, or a path below it.
abbrev pub Within : Text → Text → Type 0
Within parent name = (name ≡ parent) ⊎ ((rest : Text) × (name ≡ parent ++ b'/' ∷ rest))

char_at-length : (p s : Text) → char_at? (p ++ s) (length p) ≡ char_at? s 0
char_at-length [] s = refl
char_at-length (c ∷ p) s = char_at-length p s

-- What `contains_package` says of the part after the module's name.
abbrev below : Text → Bool
below [] = true
below (c ∷ s) = c == b'/'

contains_package-append : (p s : Text) → contains_package p (p ++ s) ≡ below s
unfolding contains_package
contains_package-append p [] =
    ground
      (arith, starts_with-append p [], length-append p [], ltb→lt (length p) (length (p ++ [])))
contains_package-append p (c ∷ s) = ground (
  arith,
  starts_with-append p (c ∷ s),
  char_at-length p (c ∷ s),
  length-append p (c ∷ s),
  lt→ltb (length p) (length (p ++ c ∷ s)),
)

pub contains_package→prefix :
    (p s : Text) → contains_package p s ≡ true → s ≡ p ++ drop (length p) s
unfolding contains_package
contains_package→prefix p s h = starts_with→append s p (ground arith)

below→Within : (p s : Text) → below s ≡ true → Within p (p ++ s)
below→Within p [] h = inl (append-nil p)
below→Within p (c ∷ s) h = inr (s, ap (λ (d : ℕ). p ++ d ∷ s) ((==_iff c b'/').0 h))

-- A package is contained in a module exactly when it is the module itself or a path below it:
-- `example.com/ab` is not contained in `example.com/a`.
pub contains_package_lem :
    (parent name : Text) → (contains_package parent name ≡ true) ↔ Within parent name
unfolding nat_eq
contains_package_lem p s = (λ h. to h, λ w. from w)
  where
    to : contains_package p s ≡ true → Within p s
    to h =
        let e = contains_package→prefix p s h in
        let b =
          sym (contains_package-append p (drop (length p) s))
          ∙ ap (contains_package p) (sym e)
          ∙ h in
        subst (Within p) (sym e) (below→Within p (drop (length p) s) b)

    from : Within p s → contains_package p s ≡ true
    from (inl e) = ap (contains_package p) (e ∙ sym (append-nil p)) ∙ contains_package-append p []
    from (inr (rest, e)) = ap (contains_package p) e ∙ contains_package-append p (b'/' ∷ rest)

longest_from-bounds :
    (best : Text) (ms : List Text)
    → (length best ≤ length (longest_from best ms))
      × ((m : Text) → contains ms m ≡ true → length m ≤ length (longest_from best ms))
unfolding longest_from
longest_from-bounds best [] = (omega arith, λ m h. cc)
longest_from-bounds best (n ∷ ms) = elim (Bool-cases (ltb (length best) (length n))) [
  | inl h ↦
      let t = longest_from-bounds n ms in
      rw h
        (ground (arith, t.0, ltb→lt (length best) (length n) h), λ m c. ground (arith, t.0, t.1 m))
  | inr h ↦
      let t = longest_from-bounds best ms in
      rw h (t.0, λ m c. ground (arith, t.0, t.1 m, lt→ltb (length best) (length n)))
]

longest_from-member :
    (best : Text) (ms : List Text) → contains (best ∷ ms) (longest_from best ms) ≡ true
unfolding longest_from
longest_from-member best [] = ground arith
longest_from-member best (n ∷ ms) = elim (Bool-cases (ltb (length best) (length n))) [
  | inl h ↦ rw h (ground (arith, longest_from-member n ms))
  | inr h ↦ rw h (ground (arith, longest_from-member best ms))
]

longest-none : (ms : List Text) → longest ms ≡ none → (m : Text) → contains ms m ≡ false
unfolding longest
longest-none [] h m = refl
longest-none (n ∷ ms) h m = cc

longest-some :
    (ms : List Text) (r : Text)
    → longest ms ≡ some r
    → (contains ms r ≡ true) × ((m : Text) → contains ms m ≡ true → length m ≤ length r)
unfolding longest
longest-some [] r h = cc
longest-some (n ∷ ms) r h =
    let t = longest_from-bounds n ms in
    subst
      (λ r.
        (contains (n ∷ ms) r ≡ true)
        × ((m : Text) → contains (n ∷ ms) m ≡ true → length m ≤ length r))
      (some-injective (longest_from n ms) r h)
      (longest_from-member n ms, λ m c. ground (arith, t.0, t.1 m))

take-length-append : (p s : Text) → take (length p) (p ++ s) ≡ p
take-length-append [] s = refl
take-length-append (c ∷ p) s = ap (◌∷◌ c) (take-length-append p s)

-- Two modules of one package that are equally long are the same.
contains_package-length :
    (m n p : Text)
    → contains_package m p ≡ true
    → contains_package n p ≡ true
    → length m ≡ length n
    → m ≡ n
contains_package-length m n p h k e =
    sym (take-length-append m (drop (length m) p))
    ∙ ap (take (length m)) (sym (contains_package→prefix m p h) ∙ contains_package→prefix n p k)
    ∙ ap (λ (i : ℕ). take i (n ++ drop (length n) p)) e
    ∙ take-length-append n (drop (length n) p)

-- One of the modules, around the package, and no module around the package is longer.
abbrev pub IsClosest : Text → List Text → Text → Type 0
IsClosest name modules m =
    (contains modules m ≡ true)
    × (contains_package m name ≡ true)
    × ((n : Text)
        → contains modules n ≡ true
        → contains_package n name ≡ true
        → length n ≤ length m)

match_parent_module-IsClosest :
    (name : Text) (modules : List Text) (m : Text)
    → match_parent_module name modules ≡ some m
    → IsClosest name modules m
unfolding match_parent_module
match_parent_module-IsClosest name modules m h =
    let p = λ (n : Text). contains_package n name in
    let t = longest-some (filter p modules) m h in
    (
      ground (arith, t.0, contains-filter p modules m),
      ground (arith, t.0, contains-filter p modules m),
      λ n c d. t.1 n (ground (arith, contains-filter p modules n)),
    )

module _ (name : Text) (modules : List Text) where
  match_parent_module-none :
      match_parent_module name modules ≡ none
      → (m : Text) → contains modules m ≡ true
      → contains_package m name ≡ false
  unfolding match_parent_module
  match_parent_module-none h m c =
      let p = λ (n : Text). contains_package n name in
      ground (arith, longest-none (filter p modules) h m, contains-filter p modules m)

  match_parent_module_of_far :
      ((m : Text) → contains modules m ≡ true → contains_package m name ≡ false)
      → match_parent_module name modules ≡ none
  match_parent_module_of_far h = elim (Option-cases (match_parent_module name modules)) [
    | inl e ↦ e
    | inr (r, e) ↦
        let t = match_parent_module-IsClosest name modules r e in ground (arith, h r t.0, t.1)
  ]

  match_parent_module_of_IsClosest :
      (m : Text) → IsClosest name modules m → match_parent_module name modules ≡ some m
  match_parent_module_of_IsClosest m (c, d, greatest) =
      elim (Option-cases (match_parent_module name modules)) [
        | inl e ↦ ground (arith, match_parent_module-none e m c)
        | inr (r, e) ↦
            let t = match_parent_module-IsClosest name modules r e in
            let same : length r ≡ length m = ground (arith, greatest r t.0 t.1, t.2 m c d) in
            e ∙ ap some (contains_package-length r m name t.1 d same)
      ]

-- The module that is found for a package is the one among the given names around it that no other
-- such name exceeds in length, and there is at most one; none is found exactly when no given name
-- is around it. So the order of the names plays no part.
pub match_parent_module_lem :
    (name : Text) (modules : List Text)
    → ((m : Text) → (match_parent_module name modules ≡ some m) ↔ IsClosest name modules m)
      × ((match_parent_module name modules ≡ none)
          ↔ ((m : Text) → contains modules m ≡ true → contains_package m name ≡ false))
match_parent_module_lem name modules = (
  λ m. (
    match_parent_module-IsClosest name modules m,
    match_parent_module_of_IsClosest name modules m,
  ),
  (match_parent_module-none name modules, match_parent_module_of_far name modules),
)
