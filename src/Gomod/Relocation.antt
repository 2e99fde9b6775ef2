-- ===== src/Gomod/Relocation.antt =====
-- Where `_set_full_local_dep_relpaths` moves a local dependency.
use cachito.Base.{
  ℕ, ◌≡◌, refl, sym, ap, subst, ◌∙◌, ◌⊎◌, inl, inr, Bool, true, false, some-injective, some, List,
  [], ◌∷◌, ◌++◌, arith, contains, nat_eq, list_eq, length, drop, drop-length-append, Bool-cases,
  Option-cases, if◌then◌else◌, All, append-nil, ◌==◌,
}
use cachito.Base.Text.{Text, text, is_empty, starts_with, ends_with, lstrip}
use cachito.Gomod.Names.{contains_package, path_to_subpackage, match_parent_module}
use cachito.Gomod.Matching.{IsClosest, match_parent_module_lem, contains_package→prefix}
use cachito.Gomod.LocalDeps.{
  Dep, Module, join_path, is_local, has_local_path, locally_replaced, set_relpath, set_dep,
  set_version, set_relpaths, set_full_local_dep_relpaths,
}

-- The path has no slash at its end, and the rest of the name is empty or one slash with more.
abbrev pub IsClean : Text → Text → Type 0
IsClean path s =
    (is_empty path ≡ false)
    × (ends_with path (text "/") ≡ false)
    × ((s ≡ []) ⊎ ((c : ℕ) × (rest : Text) × ((c == b'/') ≡ false) × (s ≡ b'/' ∷ c ∷ rest)))

abbrev pub Relocated : List Text → Dep → Dep → Type 0
Relocated names d d' =
    (d'.name ≡ d.name)
    × (has_local_path d ≡ false → d' ≡ d)
    × ((path m s : Text)
        → d.version ≡ some path
        → is_local path ≡ true
        → IsClosest d.name names m
        → d.name ≡ m ++ s
        → IsClean path s
        → d'.version ≡ some (path ++ s))

-- The dependency after the loop's body, when its module is known.
abbrev moved : Dep → Text → Text → Dep
moved d path s =
    if is_empty (lstrip b'/' s)
    then d
    else record d { version = some (join_path path (lstrip b'/' s)) }

moved-version :
    (d : Dep) (path s : Text)
    → d.version ≡ some path
    → IsClean path s
    → (moved d path s).version ≡ some (path ++ s)
unfolding lstrip starts_with nat_eq
moved-version d path s e (full, open_end, inl h) =
    subst (λ s. (moved d path s).version ≡ some (path ++ s)) (sym h)
      (e ∙ ap some (sym (append-nil path)))
moved-version d path s e (full, open_end, inr (c, rest, ne, h)) =
    subst (λ s. (moved d path s).version ≡ some (path ++ s)) (sym h) (ground arith)

path_to_subpackage-append :
    (m s : Text)
    → contains_package m (m ++ s) ≡ true
    → path_to_subpackage m (m ++ s) ≡ some (lstrip b'/' s)
unfolding path_to_subpackage
path_to_subpackage-append m s h = rw (h, drop-length-append m s) refl

set_relpath-moved :
    (names : List Text) (d : Dep) (path m s : Text)
    → IsClosest d.name names m
    → d.name ≡ m ++ s
    → set_relpath names d path ≡ some (moved d path s)
unfolding set_relpath
set_relpath-moved names d path m s closest e =
    let found = ((match_parent_module_lem d.name names).0 m).1 closest in
    let inside = sym (ap (contains_package m) e) ∙ closest.1 in
    let rest : path_to_subpackage m d.name ≡ some (lstrip b'/' s) =
      ap (path_to_subpackage m) e ∙ path_to_subpackage-append m s inside in
    rw (found, rest) refl

-- A local dependency stands below one of the modules that are replaced locally.
abbrev pub HasModule : List Text → Dep → Type 0
HasModule names d =
    has_local_path d ≡ true
    → (m : Text) × (contains names m ≡ true) × (contains_package m d.name ≡ true)

closest :
    (names : List Text) (name : Text)
    → (m : Text) × (contains names m ≡ true) × (contains_package m name ≡ true)
    → (m : Text) × IsClosest name names m
closest names name (n, c, h) = elim (Option-cases (match_parent_module name names)) [
  | inl e ↦
      let far : contains_package n name ≡ false = (match_parent_module_lem name names).1.0 e n c in
      ground (arith, far)
  | inr (m, e) ↦ (m, ((match_parent_module_lem name names).0 m).0 e)
]

Relocated-moved :
    (names : List Text) (d : Dep) (path m s : Text)
    → d.version ≡ some path
    → is_local path ≡ true
    → set_relpath names d path ≡ some (moved d path s)
    → Relocated names d (moved d path s)
Relocated-moved names d path m s v h e = (
  ground arith,
  λ n. ground arith,
  λ path' m' s' v' h' c e' clean.
      let same = some-injective path' path (sym v' ∙ v) in
      let again = set_relpath-moved names d path m' s' c e' in
      let moves = some-injective (moved d path s) (moved d path s') (sym e ∙ again) in
      ap (λ (x : Dep). x.version) moves
      ∙ moved-version d path s' v (subst (λ p. IsClean p s') same clean)
      ∙ ap (λ (p : Text). some (p ++ s')) (sym same),
)

set_dep-local :
    (names : List Text) (d : Dep) (path : Text)
    → d.version ≡ some path
    → is_local path ≡ true
    → set_dep names d ≡ set_relpath names d path
unfolding set_dep set_version
set_dep-local names d path e h =
    ap (set_version names d) e ∙ ap (λ (b : Bool). if b then set_relpath names d path else some d) h

set_dep_lem :
    (names : List Text) (d : Dep)
    → HasModule names d
    → (d' : Dep) × (set_dep names d ≡ some d') × Relocated names d d'
unfolding set_dep set_version
set_dep_lem names d has = elim (Option-cases d.version) [
  | inl e ↦ (d, ap (set_version names d) e, (refl, λ n. refl, λ path m s v. ground (arith)))
  | inr (path, e) ↦ elim (Bool-cases (is_local path)) [
    | inr h ↦ (
      d,
      ap (set_version names d) e
          ∙ ap (λ (b : Bool). if b then set_relpath names d path else some d) h,
      (refl, λ n. refl, λ path' m s v k. ground (arith, some-injective path path' (sym e ∙ v))),
    )
    | inl h ↦
        let (m, c) = closest names d.name (has (rw e h)) in
        let s = drop (length m) d.name in
        let moves = set_relpath-moved names d path m s c (contains_package→prefix m d.name c.1) in
        (
          moved d path s,
          set_dep-local names d path e h ∙ moves,
          Relocated-moved names d path m s e h moves,
        )
  ]
]

abbrev pub Pairwise : (Dep → Dep → Type 0) → List Dep → List Dep → Type 0
Pairwise R [] [] = Unit
Pairwise R [] (y ∷ ys) = ⊥
Pairwise R (x ∷ xs) [] = ⊥
Pairwise R (x ∷ xs) (y ∷ ys) = R x y × Pairwise R xs ys

set_relpaths_lem :
    (names : List Text) (deps : List Dep)
    → All (HasModule names) deps
    → (deps' : List Dep) × (set_relpaths names deps ≡ some deps')
      × Pairwise (Relocated names) deps deps'
unfolding set_relpaths
set_relpaths_lem names [] a = ([], refl, tt)
set_relpaths_lem names (d ∷ ds) (a, rest) =
    let (d', e, r) = set_dep_lem names d a in
    let (ds', es, rs) = set_relpaths_lem names ds rest in (d' ∷ ds', rw (e, es) refl, (r, rs))

-- When every dependency with a local path stands below some locally replaced module, the call does
-- not raise; it keeps the number, order and names of the dependencies, leaves those without a local
-- path alone, and appends to the path of the others the part of the name after the closest locally
-- replaced module, for a path and a name without doubled or trailing slashes.
pub set_full_local_dep_relpaths_lem :
    (ms : List Module) (deps : List Dep)
    → All (HasModule (locally_replaced ms)) deps
    → (deps' : List Dep) × (set_full_local_dep_relpaths deps ms ≡ some deps')
      × Pairwise (Relocated (locally_replaced ms)) deps deps'
unfolding set_full_local_dep_relpaths
set_full_local_dep_relpaths_lem ms deps a = set_relpaths_lem (locally_replaced ms) deps a
