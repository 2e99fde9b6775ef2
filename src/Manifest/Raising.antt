-- ===== src/Manifest/Raising.antt =====
-- Which packages have no purl.
use cachito.Base.{
  ◌≡◌, refl, subst, ◌⊎◌, inl, inr, Bool, true, false, not, ◌||◌, Option, none, some, List, [], ◌∷◌,
  ◌++◌, contains, nat_eq, list_eq, if◌then◌else◌, ◌==◌, arith,
}
use cachito.Base.Text.{Text, text, is_empty, starts_with, rpartition, lstrip, rstrip}
use cachito.Base.Dict.{lookup}
use cachito.Base.Result.{Result, ok, err, ◌>>=◌}
use cachito.Manifest.Purl.{
  Url, Library, Package, PurlError, not_defined, not_converted, unknown_protocol, python_error,
  Purl, given, to_purl_go, match_protocol, match_forge, forge_purl, git_protocols, generic,
  npm_purl, to_purl_npm, type_of_hostname, namespace_purl, vcs_purl, to_vcs_purl, to_git_purl,
  first_of, pip_purl, to_purl_pip, gem_purl, gem_placeholder, to_purl_rubygems, to_purl_git,
  to_purl,
}

-- What is raised, if anything is.
abbrev Raises : {A : Type 0} → (PurlError → Type 0) → Result PurlError A → Type 0
Raises P (ok a) = Unit
Raises P (err e) = P e

module _ (P : PurlError → Type 0) where
  Raises-bind :
      {A B : Type 0} (m : Result PurlError A) (f : A → Result PurlError B)
      → Raises P m
      → ((a : A) → m ≡ ok a → Raises P (f a))
      → Raises P (m >>= f)
  Raises-bind (ok a) f h g = g a refl
  Raises-bind (err e) f h g = h

  Raises-if :
      {A : Type 0} (b : Bool) (x y : Result PurlError A)
      → (b ≡ true → Raises P x)
      → (b ≡ false → Raises P y)
      → Raises P (if b then x else y)
  Raises-if true x y f g = f refl
  Raises-if false x y f g = g refl

  module _ (python : P python_error) where
    Raises-given : {A : Type 0} (o : Option A) → Raises P (given o)
    Raises-given none = python
    Raises-given (some a) = tt

    to_vcs_purl-Raises :
        (L : Library) (name repo ref : Text) → Raises P (to_vcs_purl L name repo ref)
    unfolding to_vcs_purl
    to_vcs_purl-Raises L name repo ref =
        let stripped = rstrip b'/' repo in
        Raises-bind (given (L.urlparse stripped)) (vcs_purl L name stripped ref)
          (Raises-given (L.urlparse stripped))
          (λ url e.
            let kind = type_of_hostname url.hostname in
            Raises-if (kind == text "generic") _
              (namespace_purl L kind ref (rpartition b'/' (lstrip b'/' url.path))) (λ h. tt)
              (λ h. forge kind (rpartition b'/' (lstrip b'/' url.path))))
      where
        forge : (kind : Text) (o : Option (Text × Text)) → Raises P (namespace_purl L kind ref o)
        forge kind none = python
        forge kind (some a) = tt

    to_git_purl-Raises : (L : Library) (name : Text) (url : Url) → Raises P (to_git_purl L name url)
    unfolding to_git_purl
    to_git_purl-Raises L name url =
        Raises-bind (given (rpartition b'@' _)) (λ (repo, ref). to_vcs_purl L name repo ref)
          (Raises-given (rpartition b'@' _)) (λ (repo, ref) e. to_vcs_purl-Raises L name repo ref)

-- The versions that an npm or Yarn package must not have: those with a protocol but no authority that
-- name no repository, and those with an authority and a protocol that is not known.
abbrev pub IsBadVersion : Text → PurlError → Type 0
IsBadVersion v e =
    (protocol : Text) × (has_authority : Bool) × (suffix : Text) × (match_protocol v
      ≡ some (protocol, has_authority, suffix))
    × ((protocol == text "file") ≡ false)
    × (((has_authority ≡ false) × (match_forge suffix ≡ none) × (e ≡ not_converted v))
        ⊎ ((has_authority ≡ true)
            × (contains git_protocols protocol ≡ false)
            × (contains (text "http" ∷ text "https" ∷ []) protocol ≡ false)
            × (e ≡ unknown_protocol v)))

abbrev pub purl_kinds : List Text
purl_kinds =
    text "go-package"
    ∷ text "gomod"
    ∷ text "npm"
    ∷ text "yarn"
    ∷ text "pip"
    ∷ text "rubygems"
    ∷ text "git-submodule"
    ∷ []

abbrev pub IsRaised : Package → PurlError → Type 0
IsRaised p e =
    (e ≡ python_error)
    ⊎ (((contains purl_kinds p.kind ≡ false) × (e ≡ not_defined p.kind))
        ⊎ ((contains (text "npm" ∷ text "yarn" ∷ []) p.kind ≡ true)
            × ((v : Text) × (p.version ≡ some v) × IsBadVersion v e)))

module _ (L : Library) (p : Package) where
  python : IsRaised p python_error
  python = inl refl

  npm_purl-Raises :
      (v : Text) (o : Option (Text × Bool × Text))
      → match_protocol v ≡ o
      → Raises (λ e. (e ≡ python_error) ⊎ IsBadVersion v e) (npm_purl L (L.quote p.name) v o)
  unfolding npm_purl
  npm_purl-Raises v none m = tt
  npm_purl-Raises v (some (protocol, has_authority, suffix)) m =
      let P : PurlError → Type 0 = λ e. (e ≡ python_error) ⊎ IsBadVersion v e in
      let name = L.quote p.name in
      Raises-if P (protocol == text "file")
        (given (L.urlparse v) >>= λ url. ok (generic name (text "file") (L.quote_all url.path))) _
        (λ h.
          Raises-bind P (given (L.urlparse v))
            (λ url. ok (generic name (text "file") (L.quote_all url.path)))
            (Raises-given P (inl refl) (L.urlparse v)) (λ url e. tt))
        (λ h.
          Raises-if P (not has_authority) (forge_purl v protocol (match_forge suffix)) _
            (λ a. forge h (flipped has_authority a) (match_forge suffix) refl)
            (λ a.
              Raises-if P (contains git_protocols protocol) (ok _) _ (λ g. tt)
                (λ g.
                  Raises-if P (contains (text "http" ∷ text "https" ∷ []) protocol) (ok _)
                    (err (unknown_protocol v)) (λ k. tt)
                    (λ k. inr (
                      protocol,
                      has_authority,
                      suffix,
                      m,
                      h,
                      inr (unflipped has_authority a, g, k, refl),
                    )))))
    where
      flipped : (b : Bool) → not b ≡ true → b ≡ false
      flipped b h = ground arith

      unflipped : (b : Bool) → not b ≡ false → b ≡ true
      unflipped b h = ground arith

      forge :
          (protocol == text "file") ≡ false
          → has_authority ≡ false
          → (f : Option (Text × Text × Text)) → match_forge suffix ≡ f
          → Raises (λ e. (e ≡ python_error) ⊎ IsBadVersion v e) (forge_purl v protocol f)
      forge h a none q = inr (protocol, has_authority, suffix, m, h, inl (a, q, refl))
      forge h a (some (x, y, z)) q = tt

  to_purl_npm-Raises :
      contains (text "npm" ∷ text "yarn" ∷ []) p.kind ≡ true → Raises (IsRaised p) (to_purl_npm L p)
  unfolding to_purl_npm
  to_purl_npm-Raises k = versioned p.version refl
    where
      widen :
          (v : Text)
          → p.version ≡ some v
          → (r : Purl) → Raises (λ e. (e ≡ python_error) ⊎ IsBadVersion v e) r
          → Raises (IsRaised p) r
      widen v w (ok a) h = tt
      widen v w (err e) (inl h) = inl h
      widen v w (err e) (inr h) = inr (inr (k, (v, w, h)))

      versioned :
          (o : Option Text)
          → p.version ≡ o
          → Raises (IsRaised p) (given o >>= λ v. npm_purl L (L.quote p.name) v (match_protocol v))
      versioned none w = python
      versioned (some v) w =
          widen v w (npm_purl L (L.quote p.name) v (match_protocol v))
            (npm_purl-Raises v (match_protocol v) refl)

  to_purl_pip-Raises : Raises (IsRaised p) (to_purl_pip L p)
  unfolding to_purl_pip
  to_purl_pip-Raises = versioned p.version
    where
      versioned :
          (o : Option Text)
          → Raises (IsRaised p) (elim o as (λ _. Purl) [
            | none ↦ ok (text "pkg:pypi/" ++ (L.safe_name (L.lower p.name) ++ text "@None"))
            | some version ↦ given (L.urlparse version) >>= pip_purl L p version
          ])
      versioned none = tt
      versioned (some v) =
          let P = IsRaised p in
          Raises-bind P (given (L.urlparse v)) (pip_purl L p v)
            (Raises-given P python (L.urlparse v))
            (λ url e.
              let sum = first_of (lookup (text "cachito_hash") (L.parse_qs url.fragment)) in
              Raises-if P (is_empty url.scheme) (ok _) _ (λ h. tt)
                (λ h.
                  Raises-if P (starts_with url.scheme (text "git+")) (to_git_purl L p.name url) _
                    (λ g. to_git_purl-Raises P python L p.name url)
                    (λ g. Raises-bind P (given sum) _ (Raises-given P python sum) (λ c k. tt))))

  to_purl_rubygems-Raises :
      (parent : Option Text) → Raises (IsRaised p) (to_purl_rubygems L p parent)
  unfolding to_purl_rubygems
  to_purl_rubygems-Raises parent =
      let P = IsRaised p in
      Raises-bind P (given p.version) _ (Raises-given P python p.version) (λ v e.
        Raises-if P (starts_with v (text "./")) (ok (gem_placeholder (L.normpath v) parent))
          (given (L.urlparse v) >>= gem_purl L p v) (λ h. tt)
          (λ h.
            Raises-bind P (given (L.urlparse v)) (gem_purl L p v)
              (Raises-given P python (L.urlparse v))
              (λ url k.
                Raises-if P (starts_with url.scheme (text "git+")) (to_git_purl L p.name url) (ok _)
                  (λ g. to_git_purl-Raises P python L p.name url) (λ g. tt))))

  to_purl_git-Raises : Raises (IsRaised p) (to_purl_git L p)
  unfolding to_purl_git
  to_purl_git-Raises =
      let P = IsRaised p in
      Raises-bind P (given p.version) _ (Raises-given P python p.version) (λ v e.
        Raises-bind P (given (rpartition b'#' v)) (λ (repo, ref). to_vcs_purl L p.name repo ref)
          (Raises-given P python (rpartition b'#' v))
          (λ (repo, ref) k. to_vcs_purl-Raises P python L p.name repo ref))

  to_purl-Raises : (parent : Option Text) → Raises (IsRaised p) (to_purl L p parent)
  unfolding to_purl
  to_purl-Raises parent =
      let P = IsRaised p in
      Raises-if P (contains (text "go-package" ∷ text "gomod" ∷ []) p.kind)
        (ok (to_purl_go L p parent)) _ (λ h. tt)
        (λ a.
          Raises-if P (contains (text "npm" ∷ text "yarn" ∷ []) p.kind) (to_purl_npm L p) _
            to_purl_npm-Raises
            (λ b.
              Raises-if P (p.kind == text "pip") (to_purl_pip L p) _ (λ h. to_purl_pip-Raises)
                (λ c.
                  Raises-if P (p.kind == text "rubygems") (to_purl_rubygems L p parent) _
                    (λ h. to_purl_rubygems-Raises parent)
                    (λ d.
                      Raises-if P (p.kind == text "git-submodule") (to_purl_git L p)
                        (err (not_defined p.kind)) (λ h. to_purl_git-Raises)
                        (λ e. inr (
                          inl (
                            unknown (p.kind == text "go-package") (p.kind == text "gomod")
                                (p.kind == text "npm") (p.kind == text "yarn")
                                (p.kind == text "pip") (p.kind == text "rubygems")
                                (p.kind == text "git-submodule") a b c d e,
                            refl,
                          )))))))
    where
      unknown :
          (a b c d e f g : Bool)
          → (a || (b || false)) ≡ false
          → (c || (d || false)) ≡ false
          → e ≡ false
          → f ≡ false
          → g ≡ false
          → (a || (b || (c || (d || (e || (f || (g || false))))))) ≡ false
      unknown a b c d e f g h i j k l = ground arith

-- Where to_purl raises, it is an exception of Python itself, or the package's type is none of the
-- seven, or it is npm's or Yarn's and the version has a protocol, not `file:`, and either no authority
-- and no namespace, name and version after it, or an authority and a protocol that is neither Git's
-- nor HTTP's; the three ContentManifestErrors differ. Every type but the seven raises the first one.
pub to_purl-err :
    (L : Library) (p : Package) (parent : Option Text)
    → ((e : PurlError) → to_purl L p parent ≡ err e → IsRaised p e)
      × (contains purl_kinds p.kind ≡ false → to_purl L p parent ≡ err (not_defined p.kind))
unfolding to_purl
to_purl-err L p parent = (
  λ e h. subst (Raises (IsRaised p)) h (to_purl-Raises L p parent),
  λ h.
      let (a, b, c, d, e) =
        each (p.kind == text "go-package") (p.kind == text "gomod") (p.kind == text "npm")
          (p.kind == text "yarn") (p.kind == text "pip") (p.kind == text "rubygems")
          (p.kind == text "git-submodule") h in
      rw (a, b, c, d, e) refl,
)
  where
    each :
        (a b c d e f g : Bool)
        → (a || (b || (c || (d || (e || (f || (g || false))))))) ≡ false
        → ((a || (b || false)) ≡ false)
          × ((c || (d || false)) ≡ false)
          × (e ≡ false)
          × (f ≡ false)
          × (g ≡ false)
    each a b c d e f g h = (ground arith, ground arith, ground arith, ground arith, ground arith)
