-- ===== src/Exclusivity/Pairs.antt =====
-- What the check of exclusivity guarantees.
use cachito.Base.{
  ◌≡◌, refl, sym, ap, ◌∙◌, inl, inr, Bool, true, false, not, ◌&&◌, ◌||◌, Option, none, some,
  some-injective, List, [], ◌∷◌, arith, ◌==◌, ==_iff, contains, nat_eq, list_eq, pair_eq, any, all,
  if◌then◌else◌, Bool-cases, Option-cases,
}
use cachito.Base.Text.{Text}
use cachito.Base.Dict.{Dict, lookup, insert, lookup-insert}
use cachito.Base.Partial.{◌>>=◌, >>=-eq-some}
use cachito.Exclusivity.{
  ConfigPath, git_submodule, config_paths, configs_of, manager_paths, is_exclusive, meet, is_root,
  submodule_conflict, conflicts_with, path_conflict, Exclusivity, valid, type_error,
  submodule_error, path_error, check_paths, validate_package_manager_exclusivity,
}

guarded :
    (b m r : Bool)
    → (if not b then r else if m then true else r) ≡ false
    → (r ≡ false) × (b ≡ true → m ≡ false)
guarded b m r h = (ground arith, λ k. ground arith)

either : (m r : Bool) → (if m then true else r) ≡ false → (m ≡ false) × (r ≡ false)
either m r h = (ground arith, ground arith)

-- The two cases of a lookup.
lookup_here :
    (b c : Text) (rs qs : List Text) (d : Dict Text (List Text))
    → (b == c) ≡ true
    → lookup b ((c, rs) ∷ d) ≡ some qs
    → rs ≡ qs
unfolding lookup
lookup_here b c rs qs d e l =
    some-injective rs qs (sym (ap (λ (t : Bool). if t then some rs else lookup b d) e) ∙ l)

lookup_there :
    (b c : Text) (rs qs : List Text) (d : Dict Text (List Text))
    → (b == c) ≡ false
    → lookup b ((c, rs) ∷ d) ≡ some qs
    → lookup b d ≡ some qs
unfolding lookup
lookup_there b c rs qs d e l = sym (ap (λ (t : Bool). if t then some rs else lookup b d) e) ∙ l

conflicts_with-lookup :
    (pairs : List (Text × Text)) (a b : Text) (ps qs : List Text) (d : Dict Text (List Text))
    → conflicts_with pairs a ps d ≡ false
    → lookup b d ≡ some qs
    → is_exclusive pairs a b ≡ true
    → meet ps qs ≡ false
unfolding conflicts_with lookup
conflicts_with-lookup pairs a b ps qs [] h l x = cc
conflicts_with-lookup pairs a b ps qs ((c, rs) ∷ d) h l x =
    let t = guarded (is_exclusive pairs a c) (meet ps rs) (conflicts_with pairs a ps d) h in
    elim (Bool-cases (b == c)) [
      | inl e ↦
          ap (meet ps) (sym (lookup_here b c rs qs d e l))
          ∙ t.1 (sym (ap (is_exclusive pairs a) ((==_iff b c).0 e)) ∙ x)
      | inr e ↦ conflicts_with-lookup pairs a b ps qs d t.0 (lookup_there b c rs qs d e l) x
    ]

is_exclusive_comm :
    (pairs : List (Text × Text)) (a b : Text) → is_exclusive pairs a b ≡ is_exclusive pairs b a
is_exclusive_comm pairs a b = or_comm (contains pairs (a, b)) (contains pairs (b, a))
  where
    or_comm : (u v : Bool) → (u || v) ≡ (v || u)
    or_comm u v = ground arith

-- No path stands in both lists.
abbrev pub Apart : List Text → List Text → Type 0
Apart ps qs = (p : Text) → contains ps p ≡ true → contains qs p ≡ false

meet→Apart : (ps qs : List Text) → meet ps qs ≡ false → Apart ps qs
meet→Apart [] qs h p c = cc
meet→Apart (q ∷ ps) qs h p c = elim (Bool-cases (p == q)) [
  | inl e ↦ ap (contains qs) ((==_iff p q).0 e) ∙ (or_parts (contains qs q) (meet ps qs) h).0
  | inr e ↦
      meet→Apart ps qs (or_parts (contains qs q) (meet ps qs) h).1 p
        (sym (ap (λ (b : Bool). b || contains ps p) e) ∙ c)
]
  where
    or_parts : (u v : Bool) → (u || v) ≡ false → (u ≡ false) × (v ≡ false)
    or_parts u v h = (ground arith, ground arith)

Apart-comm : (ps qs : List Text) → Apart ps qs → Apart qs ps
Apart-comm ps qs f p c = elim (Bool-cases (contains ps p)) [
  | inl h ↦ absurd (clash (contains qs p) c (f p h))
  | inr h ↦ h
]
  where
    clash : (b : Bool) → b ≡ true → b ≡ false → ⊥
    clash b u v = cc

path_conflict-lookup :
    (pairs : List (Text × Text)) (a b : Text) (ps qs : List Text) (d : Dict Text (List Text))
    → path_conflict pairs d ≡ false
    → lookup a d ≡ some ps
    → lookup b d ≡ some qs
    → (a == b) ≡ false
    → is_exclusive pairs a b ≡ true
    → Apart ps qs
unfolding path_conflict lookup
path_conflict-lookup pairs a b ps qs [] h k l ne x = cc
path_conflict-lookup pairs a b ps qs ((c, rs) ∷ d) h k l ne x =
    let t = either (conflicts_with pairs c rs d) (path_conflict pairs d) h in
    elim (Bool-cases (a == c)) [
      | inl e ↦ elim (Bool-cases (b == c)) [
        | inl e' ↦ absurd (same e e')
        | inr e' ↦
            first a b ps qs e (lookup_here a c rs ps d e k) x (lookup_there b c rs qs d e' l) t.0
      ]
      | inr e ↦ elim (Bool-cases (b == c)) [
        | inl e' ↦ Apart-comm qs ps (
            first b a qs ps e' (lookup_here b c rs qs d e' l) (is_exclusive_comm pairs b a ∙ x)
              (lookup_there a c rs ps d e k) t.0)
        | inr e' ↦
            path_conflict-lookup pairs a b ps qs d t.1 (lookup_there a c rs ps d e k)
              (lookup_there b c rs qs d e' l) ne x
      ]
    ]
  where
    same : (a == c) ≡ true → (b == c) ≡ true → ⊥
    same e e' =
        let p = (==_iff a b).1 ((==_iff a c).0 e ∙ sym ((==_iff b c).0 e')) in clash (a == b) p ne
      where
        clash : (t : Bool) → t ≡ true → t ≡ false → ⊥
        clash t u v = cc

    first :
        (u v : Text) (us vs : List Text)
        → (u == c) ≡ true
        → rs ≡ us
        → is_exclusive pairs u v ≡ true
        → lookup v d ≡ some vs
        → conflicts_with pairs c rs d ≡ false
        → Apart us vs
    first u v us vs e q x l t =
        let x' = ap (λ (w : Text). is_exclusive pairs w v) (sym ((==_iff u c).0 e)) ∙ x in
        meet→Apart us vs (
          ap (λ (ws : List Text). meet ws vs) (sym q)
          ∙ conflicts_with-lookup pairs c v rs vs d t l x')

clash : (b : Bool) → b ≡ true → b ≡ false → ⊥
clash b u v = cc

all_root : (ps : List Text) → any (λ p. not (is_root p)) ps ≡ false → all is_root ps ≡ true
all_root [] h = refl
all_root (p ∷ ps) h = elim (Bool-cases (is_root p)) [
  | inl e ↦
      rw e (all_root ps (sym (ap (λ (b : Bool). not b || any (λ q. not (is_root q)) ps) e) ∙ h))
  | inr e ↦ absurd (
      clash (any (λ q. not (is_root q)) (p ∷ ps))
        (ap (λ (b : Bool). not b || any (λ q. not (is_root q)) ps) e) h)
]

module _ (normpath : Text → Text) (configs : Dict Text (List ConfigPath)) where
  -- The normalised paths that a package manager works on.
  abbrev pub paths_of : Text → Option (List Text)
  paths_of a = config_paths normpath (configs_of configs a)

  insert-lookup :
      (a n : Text) (ps qs : List Text) (d : Dict Text (List Text))
      → paths_of a ≡ some ps
      → paths_of n ≡ some qs
      → ((a == n) ≡ false → lookup a d ≡ some ps)
      → lookup a (insert n qs d) ≡ some ps
  insert-lookup a n ps qs d e k l = lookup-insert a n qs d ∙ elim (Bool-cases (a == n)) [
    | inl h ↦ rw h (sym k ∙ ap paths_of (sym ((==_iff a n).0 h)) ∙ e)
    | inr h ↦ rw h (l h)
  ]

  manager_paths-cons :
      (n : Text) (d : Dict Text (List Text)) (ns : List Text) {b : Bool}
      → (n == git_submodule) ≡ b
      → manager_paths normpath configs d (n ∷ ns) ≡ (
          if b
          then manager_paths normpath configs d ns
          else (paths_of n >>= λ qs. manager_paths normpath configs (insert n qs d) ns))
  unfolding manager_paths
  manager_paths-cons n d ns g =
      ap
        (λ (t : Bool).
          if t
          then manager_paths normpath configs d ns
          else (paths_of n >>= λ qs. manager_paths normpath configs (insert n qs d) ns))
        g

  -- A manager's paths stay where they are.
  manager_paths-keeps :
      (a : Text) (ps : List Text) (d d' : Dict Text (List Text)) (ns : List Text)
      → paths_of a ≡ some ps
      → lookup a d ≡ some ps
      → manager_paths normpath configs d ns ≡ some d'
      → lookup a d' ≡ some ps
  unfolding manager_paths
  manager_paths-keeps a ps d d' [] e l h = ap (lookup a) (sym (some-injective d d' h)) ∙ l
  manager_paths-keeps a ps d d' (n ∷ ns) e l h = elim (Bool-cases (n == git_submodule)) [
    | inl g ↦ manager_paths-keeps a ps d d' ns e l (sym (manager_paths-cons n d ns g) ∙ h)
    | inr g ↦
        let (qs, k, m) =
          >>=-eq-some (paths_of n) (λ qs. manager_paths normpath configs (insert n qs d) ns)
            (sym (manager_paths-cons n d ns g) ∙ h) in
        manager_paths-keeps a ps (insert n qs d) d' ns e (insert-lookup a n ps qs d e k (λ x. l)) m
  ]

  manager_paths-visits :
      (a : Text) (d d' : Dict Text (List Text)) (ns : List Text)
      → (a == git_submodule) ≡ false
      → contains ns a ≡ true
      → manager_paths normpath configs d ns ≡ some d'
      → (ps : List Text) × (paths_of a ≡ some ps) × (lookup a d' ≡ some ps)
  manager_paths-visits a d d' [] g c h = cc
  manager_paths-visits a d d' (n ∷ ns) g c h = elim (Bool-cases (a == n)) [
    | inl x ↦
        let same = (==_iff a n).0 x in
        let g' = ap (λ t. t == git_submodule) (sym same) ∙ g in
        let (qs, k, m) =
          >>=-eq-some (paths_of n) (λ qs. manager_paths normpath configs (insert n qs d) ns)
            (sym (manager_paths-cons n d ns g') ∙ h) in
        let e = ap paths_of same ∙ k in
        let stored = insert-lookup a n qs qs d e k (λ y. absurd (clash (a == n) x y)) in
        (qs, e, manager_paths-keeps a qs (insert n qs d) d' ns e stored m)
    | inr x ↦
        let c' = sym (ap (λ (t : Bool). t || contains ns a) x) ∙ c in
        elim (Bool-cases (n == git_submodule)) [
          | inl y ↦ manager_paths-visits a d d' ns g c' (sym (manager_paths-cons n d ns y) ∙ h)
          | inr y ↦
              let (qs, k, m) =
                >>=-eq-some (paths_of n) (λ qs. manager_paths normpath configs (insert n qs d) ns)
                  (sym (manager_paths-cons n d ns y) ∙ h) in
              manager_paths-visits a (insert n qs d) d' ns g c' m
        ]
  ]

  submodule_conflict-lookup :
      (pairs : List (Text × Text)) (a : Text) (ps : List Text) (d : Dict Text (List Text))
      → submodule_conflict pairs d ≡ false
      → lookup a d ≡ some ps
      → is_exclusive pairs a git_submodule ≡ true
      → all is_root ps ≡ true
  unfolding submodule_conflict lookup
  submodule_conflict-lookup pairs a ps [] h l x = cc
  submodule_conflict-lookup pairs a ps ((c, rs) ∷ d) h l x =
      let t =
        guarded (is_exclusive pairs c git_submodule) (any (λ p. not (is_root p)) rs)
          (submodule_conflict pairs d) h in
      elim (Bool-cases (a == c)) [
        | inl e ↦
            let x' = ap (λ w. is_exclusive pairs w git_submodule) (sym ((==_iff a c).0 e)) ∙ x in
            ap (all is_root) (sym (lookup_here a c rs ps d e l)) ∙ all_root rs (t.1 x')
        | inr e ↦ submodule_conflict-lookup pairs a ps d t.0 (lookup_there a c rs ps d e l) x
      ]

  -- What a set of paths that passed the checks satisfies.
  check_paths-valid :
      (pairs : List (Text × Text)) (b : Bool) (d : Dict Text (List Text))
      → check_paths pairs b d ≡ valid
      → (b ≡ true → submodule_conflict pairs d ≡ false) × (path_conflict pairs d ≡ false)
  unfolding check_paths
  check_paths-valid pairs b d h = go (submodule_conflict pairs d) (path_conflict pairs d) b h
    where
      go :
          (s p b : Bool)
          → (if b && s then submodule_error else if p then path_error else valid) ≡ valid
          → (b ≡ true → s ≡ false) × (p ≡ false)
      go true p true h = cc
      go false true true h = cc
      go false false true h = (λ e. refl, refl)
      go s true false h = cc
      go s false false h = (λ e. cc, refl)

  -- If the check passes, then every package manager other than git-submodule that the request names
  -- has paths, two different ones that exclude each other have no normalised path in common, and
  -- with git-submodule among the names, one that excludes it works on the root only.
  pub validate_package_manager_exclusivity_lem :
      (pairs : List (Text × Text)) (names : List Text) (a : Text)
      → validate_package_manager_exclusivity normpath pairs names configs ≡ valid
      → contains names a ≡ true
      → (a == git_submodule) ≡ false
      → (ps : List Text) × (paths_of a ≡ some ps)
        × ((b : Text) (qs : List Text)
            → contains names b ≡ true
            → (b == git_submodule) ≡ false
            → (a == b) ≡ false
            → is_exclusive pairs a b ≡ true
            → paths_of b ≡ some qs
            → Apart ps qs)
        × (contains names git_submodule ≡ true
            → is_exclusive pairs a git_submodule ≡ true
            → all is_root ps ≡ true)
  unfolding validate_package_manager_exclusivity
  validate_package_manager_exclusivity_lem pairs names a h c g =
      elim (Option-cases (manager_paths normpath configs [] names)) [
        | inl e ↦ absurd (refused (manager_paths normpath configs [] names) e h)
        | inr (d, e) ↦
            let (ps, k, l) = manager_paths-visits a [] d names g c e in
            let t =
              check_paths-valid pairs (contains names git_submodule) d
                (accepted (manager_paths normpath configs [] names) d e h) in
            (
              ps,
              k,
              λ b qs c' g' ne x k'.
                  let (qs', j, l') = manager_paths-visits b [] d names g' c' e in
                  let same = some-injective qs' qs (sym j ∙ k') in
                  path_conflict-lookup pairs a b ps qs d t.1 l (l' ∙ ap some same) ne x,
              λ s x. submodule_conflict-lookup pairs a ps d (t.0 s) l x,
            )
      ]
    where
      outcome : Option (Dict Text (List Text)) → Exclusivity
      outcome none = type_error
      outcome (some d) = check_paths pairs (contains names git_submodule) d

      refused : (o : Option (Dict Text (List Text))) → o ≡ none → outcome o ≡ valid → ⊥
      refused none e h = cc
      refused (some d) e h = cc

      accepted :
          (o : Option (Dict Text (List Text))) (d : Dict Text (List Text))
          → o ≡ some d
          → outcome o ≡ valid
          → outcome (some d) ≡ valid
      accepted o d e h = sym (ap outcome e) ∙ h
