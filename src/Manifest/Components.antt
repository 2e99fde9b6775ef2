-- ===== src/Manifest/Components.antt =====
-- The components of sbom_components_list.
use cachito.Base.{
  ◌≡◌, refl, sym, ap, ◌∙◌, ◌⊎◌, Bool, true, false, ◌&&◌, ◌||◌, Option, none, some, List, [], ◌∷◌,
  ◌++◌, map, contains, nat_eq, bool_eq, list_eq, option_eq, pair_eq, if◌then◌else◌, ◌==◌, arith,
  Bool-cases, inl, inr, append_assoc, append-nil, Eq, map-append,
}
use cachito.Base.Text.{Text, text}
use cachito.Base.Dict.{Dict}
use cachito.Base.Result.{Result, ok, ◌>>=◌, >>=-eq-ok, ok-injective, if-taken}
use cachito.Manifest.Purl.{Library, Package, PurlError, to_purl, Origin}
use cachito.Manifest.Content.{
  Entry, Component, State, initial, sbom, Step, add_component, component_version, process_gomod,
  gomod_purl, record_gomod, process_go_package, go_package_purl, record_go_package, modules_by_name,
}
use cachito.Manifest.Report.{
  record_standard, process_standard_package, record_gem, gem_dependency_purl,
  process_rubygems_package, process, all_pairs, process_all, top_level, component_kinds,
  add_go_module, add_top_level, sbom_components_list,
}

abbrev pub component_names : State → List Text
component_names s = map (λ (c : Component). c.name) s.sbom_components

-- The kinds of packages whose dependencies are looked at.
abbrev pub processed_kinds : List Text
processed_kinds =
    text "go-package" ∷ text "gomod" ∷ text "npm" ∷ text "pip" ∷ text "yarn" ∷ text "rubygems" ∷ []

abbrev pub dependency_name : Package × Package → List Text
dependency_name (p, d) =
    if contains processed_kinds p.kind && d.kind == p.kind then d.name ∷ [] else []

abbrev pub dependency_names : List (Package × Package) → List Text
dependency_names [] = []
dependency_names (pd ∷ ps) = dependency_name pd ++ dependency_names ps

abbrev pub package_names : List Entry → List Text
package_names [] = []
package_names (e ∷ es) =
    if contains component_kinds e.pkg.kind then e.pkg.name ∷ package_names es else package_names es

add_component-names :
    (name : Text) (version : Option Text) (purl : Text) (s : State)
    → component_names (add_component name version purl s) ≡ component_names s ++ name ∷ []
add_component-names name version purl s =
    map-append (λ (c : Component). c.name) s.sbom_components
      (record { name = name; version = component_version version; purl = some purl } ∷ [])

same_kind : {A : Type 0} ⦃q : Eq A⦄ (p d w : A) → (p == w) ≡ true → (d == w) ≡ (d == p)
same_kind p d w h = ground arith

module _ (L : Library) (request : Origin) (versions : Dict Text (Option Text)) where
  abbrev Names : Package → Package → State → State → Type 0
  Names p d s t = component_names t ≡ component_names s ++ dependency_name (p, d)

  -- A function that adds the dependency if its kind is the package's.
  step-Names :
      {V : Type 0} (p d : Package) (s t : State) (w : Text) (m : Result PurlError V) (f : V → Step)
      (version : V → Option Text) (purl : V → Text)
      → ((v : V) → f v ≡ ok (add_component d.name (version v) (purl v) s))
      → (p.kind == w) ≡ true
      → contains processed_kinds p.kind ≡ true
      → (if d.kind == w then m >>= f else ok s) ≡ ok t
      → Names p d s t
  step-Names p d s t w m f version purl g e known h =
      let test : (b : Bool)
          → (d.kind == w) ≡ b
          → (contains processed_kinds p.kind && d.kind == p.kind) ≡ b =
        λ b c. ap (λ k. k && d.kind == p.kind) known ∙ sym (same_kind p.kind d.kind w e) ∙ c in
      let counted : (b : Bool)
          → (d.kind == w) ≡ b
          → component_names s ++ (if b then d.name ∷ [] else [])
            ≡ component_names s ++ dependency_name (p, d) =
        λ b c.
          ap (λ (x : Bool). component_names s ++ (if x then d.name ∷ [] else []))
            (sym (test b c)) in
      elim (if-taken (d.kind == w) (m >>= f) (ok s) h) [
        | inl (c, r) ↦
            let (v, b, q) = >>=-eq-ok m f r in
            ap component_names
              (sym (ok-injective (add_component d.name (version v) (purl v) s) t (sym (g v) ∙ q)))
            ∙ add_component-names d.name (version v) (purl v) s
            ∙ counted true c
        | inr (c, r) ↦
            ap component_names (sym (ok-injective s t r))
            ∙ sym (append-nil (component_names s))
            ∙ counted false c
      ]

  process-Names :
      (p d : Package) (s t : State) → process L request versions sbom p d s ≡ ok t → Names p d s t
  unfolding process process_go_package process_gomod process_standard_package
      process_rubygems_package
  process-Names p d s t h =
      elim (if-taken (p.kind == text "go-package")
        (process_go_package L request versions sbom p d s) _ h) [
          | inl (e, r) ↦
              step-Names p d s t (text "go-package")
                (go_package_purl L request versions s.go_modules p d)
                (record_go_package L request sbom p d s) (λ v. v.1) (λ v. v.0) (λ v. refl) e
                (known (inl e)) r
          | inr (e, h1) ↦
              elim (if-taken (p.kind == text "gomod") (process_gomod L request sbom p d s) _ h1) [
                | inl (e1, r) ↦
                    step-Names p d s t (text "gomod") (gomod_purl L request s.go_modules p d)
                      (record_gomod L request sbom p d s) (λ v. d.version) (λ v. v) (λ v. refl) e1
                      (known (inr (inl e1))) r
                | inr (e1, h2) ↦
                    elim (if-taken (contains (text "npm" ∷ text "pip" ∷ text "yarn" ∷ []) p.kind)
                      (process_standard_package L request p.kind sbom p d s) _ h2) [
                        | inl (e2, r) ↦
                            step-Names p d s t p.kind (to_purl L d none)
                              (record_standard L request sbom p.kind p d s) (λ v. d.version)
                              (λ v. v) (λ v. refl) (itself p.kind) (known (inr (inr (inl e2)))) r
                        | inr (e2, h3) ↦
                            elim (if-taken (p.kind == text "rubygems")
                              (process_rubygems_package L request sbom p d s) (ok s) h3) [
                                | inl (e3, r) ↦
                                    step-Names p d s t (text "rubygems")
                                      (gem_dependency_purl L request p d)
                                      (record_gem L request sbom p d s) (λ v. d.version) (λ v. v)
                                      (λ v. refl) e3 (known (inr (inr (inr e3)))) r
                                | inr (e3, h4) ↦
                                    ap component_names (sym (ok-injective s t h4))
                                    ∙ sym (append-nil (component_names s))
                                    ∙ ap
                                        (λ (x : Bool).
                                          component_names s
                                          ++ (if x && d.kind == p.kind then d.name ∷ [] else []))
                                        (sym (
                                          unknown (p.kind == text "go-package")
                                            (p.kind == text "gomod") (p.kind == text "npm")
                                            (p.kind == text "pip") (p.kind == text "yarn")
                                            (p.kind == text "rubygems") e e1 e2 e3))
                              ]
                      ]
              ]
        ]
    where
      itself : {A : Type 0} ⦃q : Eq A⦄ (a : A) → (a == a) ≡ true
      itself a = ground arith

      six :
          (a b c d e f : Bool)
          → (a ≡ true) ⊎ ((b ≡ true) ⊎ (((c || (d || (e || false))) ≡ true) ⊎ (f ≡ true)))
          → (a || (b || (c || (d || (e || (f || false)))))) ≡ true
      six a b c d e f h = ground arith

      known :
          ((p.kind == text "go-package") ≡ true)
            ⊎ (((p.kind == text "gomod") ≡ true)
                ⊎ ((contains (text "npm" ∷ text "pip" ∷ text "yarn" ∷ []) p.kind ≡ true)
                    ⊎ ((p.kind == text "rubygems") ≡ true)))
          → contains processed_kinds p.kind ≡ true
      known =
          six (p.kind == text "go-package") (p.kind == text "gomod") (p.kind == text "npm")
            (p.kind == text "pip") (p.kind == text "yarn") (p.kind == text "rubygems")

      unknown :
          (a b c d e f : Bool)
          → a ≡ false
          → b ≡ false
          → (c || (d || (e || false))) ≡ false
          → f ≡ false
          → (a || (b || (c || (d || (e || (f || false)))))) ≡ false
      unknown a b c d e f h i j k = ground arith

  process_all-Names :
      (ps : List (Package × Package)) (s t : State)
      → process_all L request versions sbom ps s ≡ ok t
      → component_names t ≡ component_names s ++ dependency_names ps
  unfolding process_all
  process_all-Names [] s t h =
      ap component_names (sym (ok-injective s t h)) ∙ sym (append-nil (component_names s))
  process_all-Names ((p, d) ∷ ps) s t h =
      let (u, r, q) =
        >>=-eq-ok (process L request versions sbom p d s) (process_all L request versions sbom ps)
          h in
      process_all-Names ps u t q
      ∙ ap (λ names. names ++ dependency_names ps) (process-Names p d s u r)
      ∙ append_assoc (component_names s) (dependency_name (p, d)) (dependency_names ps)

add_top_level-Names :
    (L : Library) (request : Origin) (es : List Entry) (s t : State)
    → add_top_level L request es s ≡ ok t
    → component_names t ≡ component_names s ++ package_names es
unfolding add_top_level
add_top_level-Names L request [] s t h =
    ap component_names (sym (ok-injective s t h)) ∙ sym (append-nil (component_names s))
add_top_level-Names L request (e ∷ es) s t h =
    let added : Text → State =
      λ purl. add_component e.pkg.name e.pkg.version purl (add_go_module e.pkg purl s) in
    let named : (b : Bool)
        → contains component_kinds e.pkg.kind ≡ b
        → (if b then e.pkg.name ∷ package_names es else package_names es) ≡ package_names (e ∷ es) =
      λ b c.
        ap (λ (x : Bool). if x then e.pkg.name ∷ package_names es else package_names es) (sym c) in
    elim (if-taken (contains component_kinds e.pkg.kind)
      (top_level L request e.pkg >>= λ purl. add_top_level L request es (added purl))
      (add_top_level L request es s) h) [
        | inr (c, r) ↦
            add_top_level-Names L request es s t r ∙ ap (◌++◌ (component_names s)) (named false c)
        | inl (c, r) ↦
            let (purl, b, q) =
              >>=-eq-ok (top_level L request e.pkg)
                (λ purl. add_top_level L request es (added purl)) r in
            add_top_level-Names L request es (added purl) t q
            ∙ ap (λ names. names ++ package_names es)
                (add_component-names e.pkg.name e.pkg.version purl (add_go_module e.pkg purl s)
                  ∙ ap (λ names. names ++ e.pkg.name ∷ []) (unchanged e.pkg purl s))
            ∙ append_assoc (component_names s) (e.pkg.name ∷ []) (package_names es)
            ∙ ap (◌++◌ (component_names s)) (named true c)
      ]
  where
    unchanged :
        (p : Package) (purl : Text) (s : State)
        → component_names (add_go_module p purl s) ≡ component_names s
    unchanged p purl s = elim (Bool-cases (p.kind == text "gomod")) [
      | inl e ↦ rw e refl
      | inr e ↦ rw e refl
    ]

-- If the list of components is made, it names, in order, the packages of the request of the known
-- kinds, and then the dependencies of the packages other than git submodules that have the kind of
-- their package.
pub sbom_components_list-names :
    (L : Library) (request : Origin) (entries : List Entry) (cs : List Component)
    → sbom_components_list L request entries ≡ ok cs
    → map (λ (c : Component). c.name) cs
      ≡ package_names entries ++ dependency_names (all_pairs L request entries)
unfolding sbom_components_list
sbom_components_list-names L request entries cs h =
    let versions = modules_by_name L request [] entries in
    let pairs = all_pairs L request entries in
    let (s, r, q) =
      >>=-eq-ok (add_top_level L request entries initial)
        (λ s. process_all L request versions sbom pairs s >>= λ t. ok t.sbom_components) h in
    let (t, b, e) =
      >>=-eq-ok (process_all L request versions sbom pairs s) (λ t. ok t.sbom_components) q in
    ap (map (λ (c : Component). c.name)) (sym (ok-injective t.sbom_components cs e))
    ∙ process_all-Names L request versions pairs s t b
    ∙ ap (λ names. names ++ dependency_names pairs)
        (add_top_level-Names L request entries initial s r)
