-- ===== src/Manifest/Collected.antt =====
-- The purls that to_json collects for a package of npm, pip or yarn.
use cachito.Base.{
  ◌≡◌, refl, sym, ap, ◌∙◌, subst, ◌⊎◌, Bool, true, false, ◌&&◌, ◌||◌, Option, none, some, List, [],
  ◌∷◌, ◌++◌, contains, nat_eq, bool_eq, list_eq, option_eq, pair_eq, if◌then◌else◌, ◌==◌, ==_iff,
  arith, Bool-cases, inl, inr, append_assoc, append-nil, Eq,
}
use cachito.Base.Text.{Text, text}
use cachito.Base.Dict.{Dict, lookup, set_default}
use cachito.Base.Result.{ok, ◌>>=◌, >>=-eq-ok, ok-injective, if-taken}
use mathlib.Core.Option.{map as map_option}
use cachito.Manifest.Purl.{Library, Package, to_purl, Origin}
use cachito.Manifest.Content.{
  Entry, PackageKey, key_of, Contents, State, initial, icm, set_data, modules_by_name,
}
use cachito.Manifest.Report.{
  listed, process, all_pairs, process_all, empty_contents, data_kinds, top_level, register,
  register_all, collected,
}
use cachito.Manifest.Standard.{
  standard_kinds, IsStandard, text_of, belongs, sources_for, dependencies_for, other_kind, others,
  chosen, apart, process-Does,
}

abbrev pub or_else {ℓ} : {A : Type ℓ} → Option A → Option A → Option A
or_else none o = o
or_else (some a) o = some a

-- `setdefault` seen through the keys.
lookup-default {ℓ κ} :
    {K : Type ℓ} {V : Type κ} ⦃e : Eq K⦄ (j k : K) (v : V) (d : Dict K V)
    → lookup j (set_default k v d) ≡ or_else (lookup j d) (if j == k then some v else none)
unfolding set_default lookup
lookup-default j k v [] = refl
lookup-default j k v ((i, w) ∷ d) = ground (arith, lookup-default j k v d)

module _ (L : Library) (request : Origin) (kind : Text) (k : PackageKey) where
  abbrev extended : List (Package × Package) → Contents → Contents
  extended ps c = record c {
    dependencies = c.dependencies ++ dependencies_for L request kind k ps;
    sources = c.sources ++ sources_for L request kind k ps;
  }

  abbrev Extends : List (Package × Package) → State → State → Type 0
  Extends ps s t = lookup k (t.data_of kind) ≡ map_option (extended ps) (lookup k (s.data_of kind))

  extended-cons :
      (p d : Package) (ps : List (Package × Package)) (o : Option Contents)
      → map_option (extended ps) (
          if belongs L request kind k (p, d)
          then map_option (listed L request d (text_of (to_purl L d none))) o
          else o)
        ≡ map_option (extended ((p, d) ∷ ps)) o
  extended-cons p d ps none = ground arith
  extended-cons p d ps (some c) = ground (
    arith,
    append_assoc c.sources (text_of (to_purl L d none) ∷ []) (sources_for L request kind k ps),
    append_assoc c.dependencies (text_of (to_purl L d none) ∷ [])
        (dependencies_for L request kind k ps),
  )

  unextended : (o : Option Contents) → o ≡ map_option (extended []) o
  unextended none = refl
  unextended (some c) = ground (arith, append-nil c.sources, append-nil c.dependencies)

  process_all-Extends :
      (versions : Dict Text (Option Text)) (ps : List (Package × Package)) (s t : State)
      → IsStandard kind
      → process_all L request versions icm ps s ≡ ok t
      → Extends ps s t
  unfolding process_all
  process_all-Extends versions [] s t standard h =
      ap (λ (u : State). lookup k (u.data_of kind)) (sym (ok-injective s t h))
      ∙ unextended (lookup k (s.data_of kind))
  process_all-Extends versions ((p, d) ∷ ps) s t standard h =
      let (u, r, q) =
        >>=-eq-ok (process L request versions icm p d s) (process_all L request versions icm ps)
          h in
      process_all-Extends versions ps u t standard q
      ∙ ap (map_option (extended ps)) (process-Does L request kind k versions p d s u standard r)
      ∙ extended-cons p d ps (lookup k (s.data_of kind))

  -- The contents that the first package with the key starts with.
  abbrev pub first_with : List Entry → Option Contents
  first_with [] = none
  first_with (e ∷ es) =
      if kind == e.pkg.kind && k == key_of e.pkg
      then some (empty_contents L request (text_of (top_level L request e.pkg)))
      else first_with es

  abbrev Registers : Package → State → State → Type 0
  Registers p s t =
      lookup k (t.data_of kind)
      ≡ or_else (lookup k (s.data_of kind)) (
          if kind == p.kind && k == key_of p
          then some (empty_contents L request (text_of (top_level L request p)))
          else none)

  skip-Registers :
      (p : Package) (s t : State)
      → (kind == p.kind) ≡ false
      → lookup k (t.data_of kind) ≡ lookup k (s.data_of kind)
      → Registers p s t
  skip-Registers p s t h e =
      let fresh = some (empty_contents L request (text_of (top_level L request p))) in
      e
      ∙ kept (lookup k (s.data_of kind))
      ∙ ap (or_else (lookup k (s.data_of kind))) (
          sym (
            chosen L request kind k (kind == p.kind && k == key_of p) false fresh none
              (ap (λ b. b && k == key_of p) h)))
    where
      kept : (o : Option Contents) → o ≡ or_else o none
      kept none = refl
      kept (some c) = refl

  -- A new key of the dictionary gets the contents, an old one keeps its own.
  set_default-Registers :
      (d : Dict PackageKey Contents) (p : Package) (c : Contents) (b : Bool)
      → lookup k (if b then set_default (key_of p) c d else d)
        ≡ or_else (lookup k d) (if b && k == key_of p then some c else none)
  set_default-Registers d p c false = kept (lookup k d)
    where
      kept : (o : Option Contents) → o ≡ or_else o none
      kept none = refl
      kept (some c) = refl
  set_default-Registers d p c true = lookup-default k (key_of p) c d

  data_kind : (w : Text) → IsStandard w → contains (data_kinds L request) w ≡ true
  data_kind w h =
      five (w == text "npm") (w == text "pip") (w == text "yarn") (w == text "rubygems")
        (w == text "git-submodule") h
    where
      five :
          (a b c d e : Bool)
          → (a || (b || (c || false))) ≡ true
          → (a || (b || (c || (d || (e || false))))) ≡ true
      five a b c d e h = ground arith

  register-Registers :
      (p : Package) (s t : State)
      → IsStandard kind
      → register L request p s ≡ ok t
      → Registers p s t
  unfolding register
  register-Registers p s t standard h =
      let (go, module_kind, gem) = others in
      let here : (w : Text)
          → contains standard_kinds w ≡ false
          → (p.kind == w) ≡ true
          → (kind == p.kind) ≡ false =
        λ w n e. apart kind p.kind w e (other_kind kind w standard n) in
      let make_package : Text → State = λ purl. record s {
        go_packages =
            set_default (key_of p)
              (record { name = p.name; contents = empty_contents L request purl }) s.go_packages;
      } in
      let make_module : Text → State = λ purl. record s {
        go_modules = set_default p.name (record { purl = purl; dependencies = [] }) s.go_modules;
      } in
      let make_data : Text → State =
        λ purl. set_data p.kind (set_default (key_of p) (empty_contents L request purl)) s in
      let read : State → Option Contents = λ u. lookup k (u.data_of kind) in
      elim (if-taken (p.kind == text "go-package")
        (top_level L request p >>= λ purl. ok (make_package purl)) _ h) [
          | inl (e, r) ↦
              let (purl, b, q) =
                >>=-eq-ok (top_level L request p) (λ purl. ok (make_package purl)) r in
              skip-Registers p s t (here (text "go-package") go e)
                (ap read (sym (ok-injective (make_package purl) t q)))
          | inr (e, h1) ↦
              elim (if-taken (p.kind == text "gomod")
                (top_level L request p >>= λ purl. ok (make_module purl)) _ h1) [
                  | inl (e1, r) ↦
                      let (purl, b, q) =
                        >>=-eq-ok (top_level L request p) (λ purl. ok (make_module purl)) r in
                      skip-Registers p s t (here (text "gomod") module_kind e1)
                        (ap read (sym (ok-injective (make_module purl) t q)))
                  | inr (e1, h2) ↦
                      elim (if-taken (contains (data_kinds L request) p.kind)
                        (top_level L request p >>= λ purl. ok (make_data purl)) (ok s) h2) [
                          | inl (e2, r) ↦
                              let (purl, b, q) =
                                >>=-eq-ok (top_level L request p) (λ purl. ok (make_data purl)) r in
                              ap read (sym (ok-injective (make_data purl) t q))
                              ∙ set_default-Registers (s.data_of kind) p
                                  (empty_contents L request purl) (kind == p.kind)
                              ∙ ap
                                  (λ v. or_else (read s) (
                                    if kind == p.kind && k == key_of p
                                    then some (empty_contents L request (text_of v))
                                    else none))
                                  (sym b)
                          | inr (e2, h3) ↦
                              skip-Registers p s t
                                (not_data standard (Bool-cases (kind == p.kind)) e2)
                                (ap read (sym (ok-injective s t h3)))
                        ]
                ]
        ]
    where
      clash : (b : Bool) → b ≡ true → b ≡ false → ⊥
      clash b x y = cc

      not_data :
          IsStandard kind
          → ((kind == p.kind) ≡ true) ⊎ ((kind == p.kind) ≡ false)
          → contains (data_kinds L request) p.kind ≡ false
          → (kind == p.kind) ≡ false
      not_data standard (inr e) n = e
      not_data standard (inl e) n = absurd (
          clash (contains (data_kinds L request) p.kind)
            (data_kind p.kind (subst IsStandard ((==_iff kind p.kind).0 e) standard)) n)

  register_all-Registers :
      (es : List Entry) (s t : State)
      → IsStandard kind
      → register_all L request es s ≡ ok t
      → lookup k (t.data_of kind) ≡ or_else (lookup k (s.data_of kind)) (first_with es)
  unfolding register_all
  register_all-Registers [] s t standard h =
      ap (λ (u : State). lookup k (u.data_of kind)) (sym (ok-injective s t h))
      ∙ kept (lookup k (s.data_of kind))
    where
      kept : (o : Option Contents) → o ≡ or_else o none
      kept none = refl
      kept (some c) = refl
  register_all-Registers (e ∷ es) s t standard h =
      let (u, r, q) = >>=-eq-ok (register L request e.pkg s) (register_all L request es) h in
      register_all-Registers es u t standard q
      ∙ ap (λ o. or_else o (first_with es)) (register-Registers e.pkg s u standard r)
      ∙ both (lookup k (s.data_of kind)) (kind == e.pkg.kind && k == key_of e.pkg)
    where
      both :
          (o : Option Contents) (b : Bool)
          → or_else
              (or_else o (
                if b
                then some (empty_contents L request (text_of (top_level L request e.pkg)))
                else none))
              (first_with es)
            ≡ or_else o (
                if b
                then some (empty_contents L request (text_of (top_level L request e.pkg)))
                else first_with es)
      both none true = refl
      both none false = refl
      both (some c) b = refl

  -- What to_json collects for a package of npm, pip or yarn, by its key: nothing, if no package of the
  -- request has the key; or the purl of the first one that has, and from all the dependencies of the
  -- same kind of all packages that have it, in order, every purl as a source and those that are not
  -- for development as dependencies.
  pub collected-lookup :
      (entries : List Entry) (t : State)
      → IsStandard kind
      → collected L request entries ≡ ok t
      → lookup k (t.data_of kind)
        ≡ map_option
            (λ c. record {
              purl = c.purl;
              dependencies = dependencies_for L request kind k (all_pairs L request entries);
              sources = sources_for L request kind k (all_pairs L request entries);
            })
            (first_with entries)
  unfolding collected lookup
  collected-lookup entries t standard h =
      let versions = modules_by_name L request [] entries in
      let pairs = all_pairs L request entries in
      let (u, r, q) =
        >>=-eq-ok (register_all L request entries initial)
          (process_all L request versions icm pairs) h in
      process_all-Extends versions pairs u t standard q
      ∙ ap (map_option (extended pairs)) (register_all-Registers entries initial u standard r)
      ∙ fresh entries
    where
      filled : Contents → Contents
      filled c = record {
        purl = c.purl;
        dependencies = dependencies_for L request kind k (all_pairs L request entries);
        sources = sources_for L request kind k (all_pairs L request entries);
      }

      filled_if :
          (b : Bool) (purl : Text) (o : Option Contents)
          → map_option (extended (all_pairs L request entries)) o ≡ map_option filled o
          → map_option
              (extended (all_pairs L request entries))
              (if b then some (empty_contents L request purl) else o)
            ≡ map_option filled (if b then some (empty_contents L request purl) else o)
      filled_if true purl o h = refl
      filled_if false purl o h = h

      fresh :
          (es : List Entry)
          → map_option (extended (all_pairs L request entries)) (first_with es)
            ≡ map_option filled (first_with es)
      fresh [] = refl
      fresh (e ∷ es) =
          filled_if (kind == e.pkg.kind && k == key_of e.pkg) (text_of (top_level L request e.pkg))
            (first_with es) (fresh es)
