-- ===== src/Packages/Index.antt =====
-- The index of added packages: what `add_package` accepts, and what it keeps.
use cachito.Base.{
  ◌≡◌, ◌≢◌, ◌↔◌, refl, sym, ◌∙◌, true, false, Option, none, some, List, [], ◌∷◌, ◌++◌, map,
  map-append, arith, ◌==◌, contains, nat_eq, bool_eq, list_eq, option_eq, pair_eq, if◌then◌else◌,
  All, IsNodup, IsNodup-append_one, Bool-cases, inl, inr, contains-append,
}
use cachito.Base.Text.{Text}
use cachito.Packages.{
  Dependency, Package, IndexKey, PackagesData, ok, duplicate_package, curdir, index_key,
  add_package, path_of, Stored, missing, without_packages, stored, load_packages, load, empty,
}

-- The index holds the keys of the packages, no two packages have one key, and none has the path ".".
pub record IsIndexed (pd : PackagesData) : Type 0 where
  pub keys : (k : IndexKey) → contains pd.index k ≡ contains (map index_key pd.packages) k
  pub nodup : IsNodup (map index_key pd.packages)
  pub paths : All (λ (p : Package). p.path ≢ some curdir) pd.packages

pub empty-IsIndexed : IsIndexed empty
empty-IsIndexed = record { keys = λ k. refl; nodup = tt; paths = tt }

pub All-append_one {ℓ κ} :
    {A : Type ℓ} (P : A → Type κ) (xs : List A) (x : A) → All P xs → P x → All P (xs ++ x ∷ [])
All-append_one P [] x a h = (h, tt)
All-append_one P (y ∷ ys) x (b, a) h = (b, All-append_one P ys x a h)

path_ne : (path : Text) → (if path == curdir then none else some path) ≢ some curdir
path_ne path = ground arith

module _ (pd : PackagesData) (name kind : Text) (version : Option Text) (path : Text)
    (deps : List Dependency) where
  abbrev key : IndexKey
  key = (name, (kind, version))

  abbrev pub added : Package
  added = record {
    name = name;
    kind = kind;
    version = version;
    dependencies = deps;
    path = if path == curdir then none else some path;
  }

  -- `add_package` on an index that is in order: it raises exactly when a package of that name, type
  -- and version was added before, and otherwise appends the package and leaves the index in order.
  pub add_package_lem :
      IsIndexed pd
      → ((add_package pd name kind version path deps ≡ duplicate_package)
          ↔ (contains (map index_key pd.packages) (name, (kind, version)) ≡ true))
        × ((contains (map index_key pd.packages) (name, (kind, version)) ≡ false)
            → (pd' : PackagesData) × (add_package pd name kind version path deps ≡ ok pd')
              × (pd'.packages ≡ pd.packages ++ added ∷ [])
              × IsIndexed pd')
  unfolding add_package
  add_package_lem v = elim (Bool-cases (contains pd.index key)) [
    | inl old ↦ ((λ h. sym (v.keys key) ∙ old, λ h. rw old), λ fresh. cc (old, v.keys key, fresh))
    | inr new ↦ (
      rw new ((λ h. cc), (λ h. cc (new, v.keys key, h))),
      λ fresh. (
        record { index = key ∷ pd.index; packages = pd.packages ++ added ∷ [] },
        rw new,
        refl,
        record {
          keys = λ k.
              rw map-append (
                ground (arith, v.keys k, contains-append (map index_key pd.packages) (key ∷ []) k));
          nodup = rw map-append (IsNodup-append_one (map index_key pd.packages) key v.nodup fresh);
          paths =
              All-append_one (λ (p : Package). p.path ≢ some curdir) pd.packages added v.paths
                (path_ne path);
        },
      ),
    )
  ]

-- `load` keeps the index in order, whatever the file holds, also when it raises.
load_packages-IsIndexed :
    (pd : PackagesData) (ps : List Package) → IsIndexed pd → IsIndexed (load_packages pd ps).0
unfolding load_packages
load_packages-IsIndexed pd [] v = v
load_packages-IsIndexed pd (p ∷ ps) v =
    let t = add_package_lem pd p.name p.kind p.version (path_of p) p.dependencies v in
    elim (Bool-cases (contains (map index_key pd.packages) (index_key p))) [
      | inl old ↦ rw (t.0.1 old, load_packages) v
      | inr new ↦
          let (pd', added_ok, appended, v') = t.1 new in
          rw (added_ok, load_packages) (load_packages-IsIndexed pd' ps v')
    ]

pub load-IsIndexed : (pd : PackagesData) (file : Stored) → IsIndexed pd → IsIndexed (load pd file).0
unfolding load
load-IsIndexed pd missing v = v
load-IsIndexed pd without_packages v = v
load-IsIndexed pd (stored ps) v = load_packages-IsIndexed pd ps v
