-- ===== src/Packages/Unique.antt =====
-- What `all_dependencies` returns: sorted, without duplicates, and nothing lost.
use cachito.Base.{
  ◌≡◌, refl, sym, ap, ==_iff, ◌∙◌, Bool, true, ◌||◌, Option, none, some, List, [], ◌∷◌, map, arith,
  ◌==◌, contains, nat_eq, bool_eq, list_eq, option_eq, pair_eq, All, Bool-cases, inl, inr,
}
use cachito.Base.Order.{
  le, less, less_of_le, less_trans, nat_ord, bool_ord, list_ord, option_ord, pair_ord,
}
use cachito.Base.Sort.{
  sort as sort_by, IsSorted as Ascending, sort-IsSorted, contains-map-sort, All-sort,
}
use cachito.Packages.{
  Dependency, SortKey, PackagesData, dep_key, all_comparable, package_equal, unique_from,
  unique_packages, gathered, all_dependencies, sorted,
}

-- Two packages are equal to the loop exactly when they have one sort key.
package_equal-eq_key : (a b : Dependency) → package_equal (some a) b ≡ (dep_key a == dep_key b)
unfolding package_equal
package_equal-eq_key a b = ground arith

-- Each dependency is followed only by greater ones.
abbrev pub IsStrict : List Dependency → Type 0
IsStrict [] = Unit
IsStrict (x ∷ xs) = All (λ y. less (dep_key x) (dep_key y) ≡ true) xs × IsStrict xs

All-less :
    (w x : Dependency) (xs : List Dependency)
    → less (dep_key w) (dep_key x) ≡ true
    → All (λ y. less (dep_key x) (dep_key y) ≡ true) xs
    → All (λ y. less (dep_key w) (dep_key y) ≡ true) xs
All-less w x [] h a = tt
All-less w x (y ∷ ys) h (a, rest) =
    (less_trans (dep_key w) (dep_key x) (dep_key y) h a, All-less w x ys h rest)

unique_from-IsStrict :
    (left : Dependency) (xs : List Dependency)
    → All (λ y. le (dep_key left) (dep_key y) ≡ true) xs
    → Ascending dep_key xs
    → All (λ y. less (dep_key left) (dep_key y) ≡ true) (unique_from (some left) xs)
      × IsStrict (unique_from (some left) xs)
unfolding unique_from
unique_from-IsStrict left [] a s = (tt, tt)
unique_from-IsStrict left (x ∷ xs) (a, rest) (b, s) =
    elim (Bool-cases (package_equal (some left) x)) [
      | inl same ↦ rw same (unique_from-IsStrict left xs rest s)
      | inr differ ↦
          let t = unique_from-IsStrict x xs b s in
          let h =
            less_of_le (dep_key left) (dep_key x) a (sym (package_equal-eq_key left x) ∙ differ) in
          rw differ ((h, All-less left x (unique_from (some x) xs) h t.0), (t.0, t.1))
    ]

-- Whatever holds of every package holds of those that are yielded.
All-unique_from {κ} :
    (P : Dependency → Type κ) (left : Option Dependency) (xs : List Dependency)
    → All P xs
    → All P (unique_from left xs)
unfolding unique_from
All-unique_from P left [] a = tt
All-unique_from P left (x ∷ xs) (a, rest) = elim (Bool-cases (package_equal left x)) [
  | inl same ↦ rw same (All-unique_from P left xs rest)
  | inr differ ↦ rw differ (a, All-unique_from P (some x) xs rest)
]

or_absorb : (a b u v : Bool) → a ≡ b → (a || u) ≡ (a || v) → (a || u) ≡ (a || (b || v))
or_absorb a b u v h k = ground arith

contains-unique_from :
    (left : Dependency) (xs : List Dependency) (k : SortKey)
    → (k == dep_key left || contains (map dep_key (unique_from (some left) xs)) k)
      ≡ (k == dep_key left || contains (map dep_key xs) k)
unfolding unique_from
contains-unique_from left [] k = refl
contains-unique_from left (x ∷ xs) k = elim (Bool-cases (package_equal (some left) x)) [
  | inl same ↦
      let e = (==_iff (dep_key left) (dep_key x)).0 (sym (package_equal-eq_key left x) ∙ same) in
      rw same (
        or_absorb (k == dep_key left) (k == dep_key x)
          (contains (map dep_key (unique_from (some left) xs)) k) (contains (map dep_key xs) k)
          (ap (λ (t : SortKey). k == t) e) (contains-unique_from left xs k))
  | inr differ ↦ rw differ (ap (λ (b : Bool). k == dep_key left || b) (contains-unique_from x xs k))
]

pub unique_packages-IsStrict :
    (xs : List Dependency) → Ascending dep_key xs → IsStrict (unique_packages xs)
unfolding unique_packages
unique_packages-IsStrict [] s = tt
unique_packages-IsStrict (x ∷ xs) (a, s) = let t = unique_from-IsStrict x xs a s in (t.0, t.1)

pub contains-unique_packages :
    (xs : List Dependency) (k : SortKey)
    → contains (map dep_key (unique_packages xs)) k ≡ contains (map dep_key xs) k
unfolding unique_packages
contains-unique_packages [] k = refl
contains-unique_packages (x ∷ xs) k = contains-unique_from x xs k

-- When Python can order the gathered dependencies, `all_dependencies` returns a list in which each
-- dependency has a smaller sort key than all that follow it, whose sort keys are exactly those of
-- the dependencies of the added packages, and every element of which is one of those.
pub all_dependencies_lem :
    (pd : PackagesData)
    → all_comparable (map dep_key (gathered pd)) ≡ true
    → (deps : List Dependency) × (all_dependencies pd ≡ some deps)
      × IsStrict deps
      × ((k : SortKey) → contains (map dep_key deps) k ≡ contains (map dep_key (gathered pd)) k)
      × ((P : Dependency → Type 0) → All P (gathered pd) → All P deps)
unfolding all_dependencies gathered sorted unique_packages
all_dependencies_lem pd h =
    let found : List Dependency = gathered pd in
    let deps = sort_by dep_key found in
    (
      unique_packages deps,
      rw (h, all_dependencies),
      unique_packages-IsStrict deps (sort-IsSorted dep_key found),
      λ k. contains-unique_packages deps k ∙ contains-map-sort dep_key dep_key found k,
      λ P a. All-unique_from P none deps (All-sort dep_key P found a),
    )
