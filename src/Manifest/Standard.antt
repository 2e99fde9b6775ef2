-- ===== src/Manifest/Standard.antt =====
-- What to_json collects of the packages of npm, pip and yarn.
use cachito.Base.{
  ◌≡◌, refl, sym, ap, ◌∙◌, subst, Bool, true, false, not, ◌&&◌, Option, none, some, List, [], ◌∷◌,
  ◌++◌, contains, nat_eq, bool_eq, list_eq, option_eq, pair_eq, if◌then◌else◌, ◌==◌, ==_iff, arith,
  Bool-cases, Option-cases, inl, inr, Eq,
}
use cachito.Base.Text.{Text, text}
use cachito.Base.Dict.{Dict, lookup, update?}
use cachito.Base.Result.{Result, ok, err, ◌>>=◌, >>=-eq-ok, ok-injective, if-taken}
use mathlib.Core.Option.{map as map_option}
use cachito.Manifest.Purl.{Library, Package, PurlError, Purl, given, to_purl, Origin}
use cachito.Manifest.Content.{
  PackageKey, key_of, Contents, State, icm, set_data, add_source, add_dependency, in_data,
  process_gomod, gomod_purl, record_gomod, process_go_package, go_package_purl, record_go_package,
}
use cachito.Manifest.Report.{
  listed, record_standard, process_standard_package, record_gem, gem_dependency_purl,
  process_rubygems_package, process,
}

-- `d[k] = f(d[k])` changes the value of that key alone.
lookup-update {ℓ κ} :
    {K : Type ℓ} {V : Type κ} ⦃e : Eq K⦄ (j k : K) (f : V → V) (d d' : Dict K V)
    → update? k f d ≡ some d'
    → lookup j d' ≡ (if j == k then map_option f (lookup j d) else lookup j d)
unfolding update? lookup
lookup-update j k f [] d' h = cc
lookup-update j k f ((i, w) ∷ d) d' h = elim (Option-cases (update? k f d)) [
  | inl e ↦ ground (arith, e)
  | inr (rest, e) ↦ ground (arith, e, lookup-update j k f d rest e)
]

given-ok : {A : Type 0} (o : Option A) (a : A) → given o ≡ ok a → o ≡ some a
given-ok none a h = cc
given-ok {A = A} (some b) a h = ap kept h
  where
    kept : Result PurlError A → Option A
    kept (ok x) = some x
    kept (err e) = none

-- The test of the dependency's kind against that of its package.
agree :
    {A : Type 0} ⦃q : Eq A⦄ (a b c : A) (x : Bool)
    → (c == b) ≡ true
    → (a == b && (c == a && x)) ≡ (a == b && x)
agree a b c x h = ground arith

disagree :
    {A : Type 0} ⦃q : Eq A⦄ (a b c : A) (x : Bool)
    → (c == b) ≡ false
    → (a == b && (c == a && x)) ≡ false
disagree a b c x h = ground arith

pub apart :
    {A : Type 0} ⦃q : Eq A⦄ (a b c : A) → (b == c) ≡ true → (a == c) ≡ false → (a == b) ≡ false
apart a b c h k = ground arith

-- The kinds of packages that need nothing special.
abbrev pub standard_kinds : List Text
standard_kinds = text "npm" ∷ text "pip" ∷ text "yarn" ∷ []

abbrev pub IsStandard : Text → Type 0
IsStandard kind = contains standard_kinds kind ≡ true

-- A kind that is none of them.
pub other_kind :
    (kind w : Text) → IsStandard kind → contains standard_kinds w ≡ false → (kind == w) ≡ false
other_kind kind w h k = elim (Bool-cases (kind == w)) [
  | inr e ↦ e
  | inl e ↦ absurd (clash (contains standard_kinds w) (subst IsStandard ((==_iff kind w).0 e) h) k)
]
  where
    clash : (b : Bool) → b ≡ true → b ≡ false → ⊥
    clash b p q = cc

pub others :
    (contains standard_kinds (text "go-package") ≡ false)
    × (contains standard_kinds (text "gomod") ≡ false)
    × (contains standard_kinds (text "rubygems") ≡ false)
unfolding list_eq nat_eq
others = (refl, refl, refl)

abbrev pub text_of : Purl → Text
text_of (ok purl) = purl
text_of (err e) = []

module _ (L : Library) (request : Origin) (kind : Text) (k : PackageKey) where
  -- A dependency of the same kind, of the packages with the key.
  abbrev pub belongs : Package × Package → Bool
  belongs (p, d) = kind == p.kind && (d.kind == kind && k == key_of p)

  abbrev pub sources_for : List (Package × Package) → List Text
  sources_for [] = []
  sources_for ((p, d) ∷ ps) =
      if belongs (p, d) then text_of (to_purl L d none) ∷ sources_for ps else sources_for ps

  abbrev pub dependencies_for : List (Package × Package) → List Text
  dependencies_for [] = []
  dependencies_for ((p, d) ∷ ps) =
      if belongs (p, d) && not d.dev
      then text_of (to_purl L d none) ∷ dependencies_for ps
      else dependencies_for ps

  -- A step that leaves the dictionary of the kind alone, for a package of another one.
  abbrev Same : State → State → Type 0
  Same s t = t.data_of kind ≡ s.data_of kind

  -- A step of one package and its dependency.
  abbrev pub Does : Package → Package → State → State → Type 0
  Does p d s t = lookup k (t.data_of kind) ≡ (
      if belongs (p, d)
      then map_option (listed L request d (text_of (to_purl L d none))) (lookup k (s.data_of kind))
      else lookup k (s.data_of kind))

  -- A step that binds a value, and then changes another field.
  gomod-Same : (p d : Package) (s t : State) → process_gomod L request icm p d s ≡ ok t → Same s t
  unfolding process_gomod
  gomod-Same p d s t h =
      elim (if-taken (d.kind == text "gomod")
        (gomod_purl L request s.go_modules p d >>= record_gomod L request icm p d s) (ok s) h) [
          | inr (skipped, e) ↦ ap (λ (u : State). u.data_of kind) (sym (ok-injective s t e))
          | inl (taken, e) ↦
              let (purl, b, r) =
                >>=-eq-ok (gomod_purl L request s.go_modules p d) (record_gomod L request icm p d s)
                  e in
              let (modules, c, q) =
                >>=-eq-ok
                  (given (
                    update? p.name (λ m. record m { dependencies = m.dependencies ++ purl ∷ [] })
                      s.go_modules))
                  (λ ms. ok (record s { go_modules = ms })) r in
              ap (λ (u : State). u.data_of kind)
                (sym (ok-injective (record s { go_modules = modules }) t q))
        ]

  go_package-Same :
      (versions : Dict Text (Option Text)) (p d : Package) (s t : State)
      → process_go_package L request versions icm p d s ≡ ok t
      → Same s t
  unfolding process_go_package
  go_package-Same versions p d s t h =
      elim (if-taken (d.kind == text "go-package")
        (go_package_purl L request versions s.go_modules p d
          >>= record_go_package L request icm p d s)
        (ok s) h) [
          | inr (skipped, e) ↦ ap (λ (u : State). u.data_of kind) (sym (ok-injective s t e))
          | inl (taken, e) ↦
              let ((purl, version), b, r) =
                >>=-eq-ok (go_package_purl L request versions s.go_modules p d)
                  (record_go_package L request icm p d s) e in
              let (packages, c, q) =
                >>=-eq-ok
                  (given (
                    update? (key_of p) (λ g. record g { contents = add_dependency purl g.contents })
                      s.go_packages))
                  (λ gs. ok (record s { go_packages = gs })) r in
              ap (λ (u : State). u.data_of kind)
                (sym (ok-injective (record s { go_packages = packages }) t q))
        ]

  -- A change of one dictionary.
  in_data-lookup :
      (other : Text) (p : Package) (f : Contents → Contents) (s t : State)
      → in_data other p f s ≡ ok t
      → lookup k (t.data_of kind) ≡ (
          if kind == other && k == key_of p
          then map_option f (lookup k (s.data_of kind))
          else lookup k (s.data_of kind))
  in_data-lookup other p f s t h =
      let (d, b, q) =
        >>=-eq-ok (given (update? (key_of p) f (s.data_of other)))
          (λ d. ok (set_data other (λ old. d) s)) h in
      let found =
        lookup-update k (key_of p) f (s.data_of other) d
          (given-ok (update? (key_of p) f (s.data_of other)) d b) in
      ap (λ (u : State). lookup k (u.data_of kind))
        (sym (ok-injective (set_data other (λ old. d) s) t q))
      ∙ chosen d found (kind == other) (λ e. (==_iff kind other).0 e)
    where
      chosen :
          (d : Dict PackageKey Contents)
          → lookup k d ≡ (
              if k == key_of p
              then map_option f (lookup k (s.data_of other))
              else lookup k (s.data_of other))
          → (b : Bool) → (b ≡ true → kind ≡ other)
          → lookup k (if b then d else s.data_of kind) ≡ (
              if b && k == key_of p
              then map_option f (lookup k (s.data_of kind))
              else lookup k (s.data_of kind))
      chosen d found false e = refl
      chosen d found true e =
          found
          ∙ ap
              (λ o.
                if k == key_of p
                then map_option f (lookup k (s.data_of o))
                else lookup k (s.data_of o))
              (sym (e refl))

  pub chosen :
      (b c : Bool) (x y : Option Contents) → b ≡ c → (if b then x else y) ≡ (if c then x else y)
  chosen b c x y e = ap (λ (v : Bool). if v then x else y) e

  standard-Does :
      (p d : Package) (s t : State)
      → process_standard_package L request p.kind icm p d s ≡ ok t
      → Does p d s t
  unfolding process_standard_package
  standard-Does p d s t h =
      let found = lookup k (s.data_of kind) in
      let add = map_option (listed L request d (text_of (to_purl L d none))) found in
      elim (if-taken (d.kind == p.kind)
        (to_purl L d none >>= record_standard L request icm p.kind p d s) (ok s) h) [
          | inr (skipped, e) ↦
              ap (λ (u : State). lookup k (u.data_of kind)) (sym (ok-injective s t e))
              ∙ sym (
                  chosen (belongs (p, d)) false add found
                    (disagree kind p.kind d.kind (k == key_of p) skipped))
          | inl (taken, e) ↦
              let (purl, b, r) =
                >>=-eq-ok (to_purl L d none) (record_standard L request icm p.kind p d s) e in
              in_data-lookup p.kind p (listed L request d purl) s t r
              ∙ ap
                  (λ q.
                    if kind == p.kind && k == key_of p
                    then map_option (listed L request d (text_of q)) found
                    else found)
                  (sym b)
              ∙ sym (
                  chosen (belongs (p, d)) (kind == p.kind && k == key_of p) add found
                    (agree kind p.kind d.kind (k == key_of p) taken))
        ]

  -- A package of another kind.
  skip-Does :
      (p d : Package) (s t : State)
      → (kind == p.kind) ≡ false
      → lookup k (t.data_of kind) ≡ lookup k (s.data_of kind)
      → Does p d s t
  skip-Does p d s t h e =
      e
      ∙ sym (
          chosen (belongs (p, d)) false
            (map_option (listed L request d (text_of (to_purl L d none)))
              (lookup k (s.data_of kind)))
            (lookup k (s.data_of kind)) (ap (λ b. b && (d.kind == kind && k == key_of p)) h))

  gem-Same :
      (p d : Package) (s t : State)
      → (kind == text "rubygems") ≡ false
      → process_rubygems_package L request icm p d s ≡ ok t
      → lookup k (t.data_of kind) ≡ lookup k (s.data_of kind)
  unfolding process_rubygems_package
  gem-Same p d s t n h =
      elim (if-taken (d.kind == text "rubygems")
        (gem_dependency_purl L request p d >>= record_gem L request icm p d s) (ok s) h) [
          | inr (skipped, e) ↦
              ap (λ (u : State). lookup k (u.data_of kind)) (sym (ok-injective s t e))
          | inl (taken, e) ↦
              let (purl, b, r) =
                >>=-eq-ok (gem_dependency_purl L request p d) (record_gem L request icm p d s) e in
              let f : Contents → Contents = λ c. add_dependency purl (add_source purl c) in
              let found = lookup k (s.data_of kind) in
              in_data-lookup (text "rubygems") p f s t r
              ∙ chosen (kind == text "rubygems" && k == key_of p) false (map_option f found) found
                  (ap (λ b. b && k == key_of p) n)
        ]

  pub process-Does :
      (versions : Dict Text (Option Text)) (p d : Package) (s t : State)
      → IsStandard kind
      → process L request versions icm p d s ≡ ok t
      → Does p d s t
  unfolding process
  process-Does versions p d s t standard h =
      let (go, module_kind, gem) = others in
      let same : Same s t → lookup k (t.data_of kind) ≡ lookup k (s.data_of kind) =
        λ e. ap (lookup k) e in
      let here : (w : Text)
          → contains standard_kinds w ≡ false
          → (p.kind == w) ≡ true
          → (kind == p.kind) ≡ false =
        λ w n e. apart kind p.kind w e (other_kind kind w standard n) in
      elim (if-taken (p.kind == text "go-package") (process_go_package L request versions icm p d s)
        _ h) [
          | inl (e, r) ↦
              skip-Does p d s t (here (text "go-package") go e)
                (same (go_package-Same versions p d s t r))
          | inr (e, h1) ↦
              elim (if-taken (p.kind == text "gomod") (process_gomod L request icm p d s) _ h1) [
                | inl (e1, r) ↦
                    skip-Does p d s t (here (text "gomod") module_kind e1)
                      (same (gomod-Same p d s t r))
                | inr (e1, h2) ↦
                    elim (if-taken (contains standard_kinds p.kind)
                      (process_standard_package L request p.kind icm p d s) _ h2) [
                        | inl (e2, r) ↦ standard-Does p d s t r
                        | inr (e2, h3) ↦
                            elim (if-taken (p.kind == text "rubygems")
                              (process_rubygems_package L request icm p d s) (ok s) h3) [
                                | inl (e3, r) ↦ skip-Does p d s t (here (text "rubygems") gem e3) (
                                    gem-Same p d s t
                                      (other_kind kind (text "rubygems") standard gem) r)
                                | inr (e3, h4) ↦
                                    skip-Does p d s t (other_kind kind p.kind standard e2) (
                                      ap (λ (u : State). lookup k (u.data_of kind))
                                        (sym (ok-injective s t h4)))
                              ]
                      ]
              ]
        ]
