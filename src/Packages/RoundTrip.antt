-- ===== src/Packages/RoundTrip.antt =====
-- `load` after `write_to_file`.
use cachito.Base.{
  ◌≡◌, ◌≢◌, refl, sym, ap, subst, ◌∙◌, false, Option, none, some, List, [], ◌∷◌, ◌++◌, map,
  map-append, append-nil, some-injective, append_assoc, arith, ◌==◌, nat_eq, bool_eq, list_eq,
  option_eq, pair_eq, if◌then◌else◌, All, IsNodup, IsNodup-append_fresh,
}
use cachito.Base.Text.{Text}
use cachito.Base.Partial.{◌>>=◌, >>=-eq-some}
use cachito.Base.Order.{nat_ord, bool_ord, list_ord, option_ord, pair_ord}
use cachito.Base.Sort.{sort as sort_by, IsNodup-map-sort, All-sort}
use cachito.Packages.{
  Package, PackagesData, curdir, index_key, package_key, path_of, Stored, stored, sorted,
  sort_package, sort_packages, sort, write_to_file, load_packages, load, empty,
}
use cachito.Packages.Index.{IsIndexed, empty-IsIndexed, add_package_lem, added}

stored_path :
    (o : Option Text)
    → o ≢ some curdir
    → (let s : Text = elim o [ none ↦ curdir | some path ↦ path ] in
        if s == curdir then none else some s)
      ≡ o
stored_path none h = ground arith
stored_path (some s) h = ground arith

added_again :
    (pd : PackagesData) (p : Package)
    → p.path ≢ some curdir
    → added pd p.name p.kind p.version (path_of p) p.dependencies ≡ p
added_again pd p h = λ i. record p { path = stored_path p.path h i }

abbrev PathsOk : List Package → Type 0
PathsOk = All (λ (p : Package). p.path ≢ some curdir)

-- Packages that are new are all added, in their order.
load_packages_fresh :
    (pd : PackagesData) (ps : List Package)
    → IsIndexed pd
    → IsNodup (map index_key (pd.packages ++ ps))
    → PathsOk ps
    → ((load_packages pd ps).0.packages ≡ pd.packages ++ ps) × ((load_packages pd ps).1 ≡ false)
unfolding load_packages
load_packages_fresh pd [] v u a = (sym (append-nil pd.packages), refl)
load_packages_fresh pd (p ∷ ps) v u (a, rest) =
    let new =
      IsNodup-append_fresh (map index_key pd.packages) (map index_key ps) (index_key p)
        (subst IsNodup (map-append index_key pd.packages (p ∷ ps)) u) in
    let (pd', added_ok, appended, v') =
      (add_package_lem pd p.name p.kind p.version (path_of p) p.dependencies v).1 new in
    let e : pd'.packages ++ ps ≡ pd.packages ++ p ∷ ps =
      ap (λ (t : List Package). t ++ ps)
        (appended ∙ ap (λ (t : Package). pd.packages ++ t ∷ []) (added_again pd p a))
      ∙ append_assoc pd.packages (p ∷ []) ps in
    let (packages, done) = load_packages_fresh pd' ps v' (rw e u) rest in
    rw (added_ok, load_packages) (packages ∙ e, done)

sort_package_keeps :
    (p : Package) {q : Package}
    → sort_package p ≡ some q
    → (index_key q ≡ index_key p) × (q.path ≡ p.path)
unfolding sort_package
sort_package_keeps p h = ground arith

sort_packages_keeps :
    (ps : List Package) {qs : List Package}
    → sort_packages ps ≡ some qs
    → PathsOk ps
    → (map index_key qs ≡ map index_key ps) × PathsOk qs
unfolding sort_packages
sort_packages_keeps [] {qs} h a =
    subst (λ (t : List Package). (map index_key t ≡ []) × PathsOk t) (some-injective [] qs h)
      (refl, tt)
sort_packages_keeps (p ∷ ps) {qs} h (a, rest) =
    let (q, e, h') =
      >>=-eq-some (sort_package p) (λ q. sort_packages ps >>= λ qs. some (q ∷ qs)) h in
    let (qs', e', h'') = >>=-eq-some (sort_packages ps) (λ qs. some (q ∷ qs)) h' in
    let (same_keys, same_paths) = sort_packages_keeps ps e' rest in
    let (same_key, same_path) = sort_package_keeps p e in
    subst (λ (t : List Package). (map index_key t ≡ index_key p ∷ map index_key ps) × PathsOk t)
      (some-injective (q ∷ qs') qs h'') (cc (same_key, same_keys), (rw same_path a, same_paths))

sorted-eq-some :
    (xs ys : List Package) → sorted package_key xs ≡ some ys → sort_by package_key xs ≡ ys
unfolding sorted
sorted-eq-some xs ys h = ground arith

-- What `sort` leaves is in order too.
sort_keeps :
    (pd : PackagesData) {pd' : PackagesData}
    → IsIndexed pd
    → sort pd ≡ some pd'
    → IsNodup (map index_key pd'.packages) × PathsOk pd'.packages
unfolding sort
sort_keeps pd {pd'} v h =
    let (ps, e, h₁) =
      >>=-eq-some (sorted package_key pd.packages)
        (λ ps. sort_packages ps >>= λ qs. some (record pd { packages = qs })) h in
    let (qs, f, h₂) =
      >>=-eq-some (sort_packages ps) (λ qs. some (record pd { packages = qs })) h₁ in
    let g = sorted-eq-some pd.packages ps e in
    let u : IsNodup (map index_key ps) =
      rw (← g) (IsNodup-map-sort package_key index_key pd.packages v.nodup) in
    let a : PathsOk ps =
      rw (← g) (All-sort package_key (λ (p : Package). p.path ≢ some curdir) pd.packages v.paths) in
    let (same_keys, paths) = sort_packages_keeps ps f a in
    subst (λ (t : PackagesData). IsNodup (map index_key t.packages) × PathsOk t.packages)
      (some-injective (record pd { packages = qs }) pd' h₂) (rw same_keys u, paths)

-- Where the index is in order and `write_to_file` returns, an object that loads the file anew has the
-- packages that were written, in the order of the file, and no exception is raised.
pub load-write_to_file :
    (pd : PackagesData) {pd' : PackagesData} {file : Stored}
    → IsIndexed pd
    → write_to_file pd ≡ some (pd', file)
    → ((load empty file).0.packages ≡ pd'.packages) × ((load empty file).1 ≡ false)
unfolding write_to_file load
load-write_to_file pd {pd'} {file} v h =
    let (s, e, h') = >>=-eq-some (sort pd) (λ s. some (s, stored s.packages)) h in
    let (u, a) = sort_keeps pd v e in
    subst
      (λ (t : PackagesData × Stored).
        ((load empty t.1).0.packages ≡ t.0.packages) × ((load empty t.1).1 ≡ false))
      (some-injective (s, stored s.packages) (pd', file) h')
      (load_packages_fresh empty s.packages empty-IsIndexed u a)
