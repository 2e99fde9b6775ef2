-- ===== src/Base/Sort.antt =====
-- `sorted(xs, key=...)`: a stable sort, with what the callers use of it.
use mathlib.Core.List.{Perm}
use mathlib.Core.List.Perm
use cachito.Base.{
  ◌≡◌, refl, ap, true, List, [], ◌∷◌, arith, Eq, contains, map, IsNodup, ◌∙◌, if◌then◌else◌, All,
  Bool-cases, inl, inr,
}
use cachito.Base.Order.{Ord, le, le_total, le_trans}

module _ {A K : Type 0} ⦃o : Ord K⦄ (key : A → K) where
  -- An element goes before those that follow it and are not less: equal keys keep their order.
  insert : A → List A → List A
  insert x [] = x ∷ []
  insert x (y ∷ ys) = if le (key x) (key y) then x ∷ y ∷ ys else y ∷ insert x ys

  unfoldable pub sort : List A → List A
  unfolding insert
  sort [] = []
  sort (x ∷ xs) = insert x (sort xs)

  -- Every element is followed only by elements that are not less.
  abbrev pub IsSorted : List A → Type 0
  IsSorted [] = Unit
  IsSorted (x ∷ xs) = All (λ y. le (key x) (key y) ≡ true) xs × IsSorted xs

  All-weaken :
      (x y : A) (xs : List A)
      → le (key x) (key y) ≡ true
      → All (λ z. le (key y) (key z) ≡ true) xs
      → All (λ z. le (key x) (key z) ≡ true) xs
  All-weaken x y [] h a = tt
  All-weaken x y (z ∷ xs) h (a, rest) =
      (le_trans (key x) (key y) (key z) h a, All-weaken x y xs h rest)

  All-insert :
      (w x : A) (xs : List A)
      → le (key w) (key x) ≡ true
      → All (λ z. le (key w) (key z) ≡ true) xs
      → All (λ z. le (key w) (key z) ≡ true) (insert x xs)
  unfolding insert
  All-insert w x [] h a = (h, tt)
  All-insert w x (y ∷ ys) h (a, rest) = elim (Bool-cases (le (key x) (key y))) [
    | inl p ↦ rw p (h, (a, rest))
    | inr p ↦ rw p (a, All-insert w x ys h rest)
  ]

  insert-IsSorted : (x : A) (xs : List A) → IsSorted xs → IsSorted (insert x xs)
  unfolding insert
  insert-IsSorted x [] s = (tt, tt)
  insert-IsSorted x (y ∷ ys) (a, s) = elim (Bool-cases (le (key x) (key y))) [
    | inl p ↦ rw p ((p, All-weaken x y ys p a), (a, s))
    | inr p ↦ rw p (All-insert y x ys (le_total (key x) (key y) p) a, insert-IsSorted x ys s)
  ]

  pub sort-IsSorted : (xs : List A) → IsSorted (sort xs)
  unfolding sort
  sort-IsSorted [] = tt
  sort-IsSorted (x ∷ xs) = insert-IsSorted x (sort xs) (sort-IsSorted xs)

  insert-perm : (x : A) (xs : List A) → Perm (insert x xs) (x ∷ xs)
  unfolding insert
  insert-perm x [] = Perm.refl (x ∷ [])
  insert-perm x (y ∷ ys) = elim (Bool-cases (le (key x) (key y))) [
    | inl p ↦ rw p (Perm.refl (x ∷ y ∷ ys))
    | inr p ↦ rw p (Perm.trans (Perm.cons y (insert-perm x ys)) (Perm.swap x y ys))
  ]

  pub sort-perm : (xs : List A) → Perm (sort xs) xs
  unfolding sort
  sort-perm [] = Perm.refl []
  sort-perm (x ∷ xs) = Perm.trans (insert-perm x (sort xs)) (Perm.cons x (sort-perm xs))

  -- A sorted list is left alone.
  insert_least :
      (x : A) (xs : List A) → All (λ z. le (key x) (key z) ≡ true) xs → insert x xs ≡ x ∷ xs
  unfolding insert
  insert_least x [] a = refl
  insert_least x (y ∷ ys) (a, rest) = rw a

  pub sort_of_IsSorted : (xs : List A) → IsSorted xs → sort xs ≡ xs
  unfolding sort
  sort_of_IsSorted [] s = refl
  sort_of_IsSorted (x ∷ xs) (a, s) = rw (sort_of_IsSorted xs s) (insert_least x xs a)

  pub sort-sort : (xs : List A) → sort (sort xs) ≡ sort xs
  sort-sort xs = sort_of_IsSorted (sort xs) (sort-IsSorted xs)

  module _ {B : Type 0} ⦃e : Eq B⦄ (f : A → B) where
    contains-map-insert :
        (x : A) (xs : List A) (b : B)
        → contains (map f (insert x xs)) b ≡ contains (f x ∷ map f xs) b
    unfolding insert
    contains-map-insert x [] b = refl
    contains-map-insert x (z ∷ zs) b = ground (arith, contains-map-insert x zs b)

    pub contains-map-sort :
        (xs : List A) (b : B) → contains (map f (sort xs)) b ≡ contains (map f xs) b
    unfolding sort
    contains-map-sort [] b = refl
    contains-map-sort (x ∷ xs) b =
        ground (arith, contains-map-insert x (sort xs) b, contains-map-sort xs b)

    IsNodup-map-insert :
        (x : A) (xs : List A) → IsNodup (f x ∷ map f xs) → IsNodup (map f (insert x xs))
    unfolding insert
    IsNodup-map-insert x [] u = u
    IsNodup-map-insert x (y ∷ ys) u = elim (Bool-cases (le (key x) (key y))) [
      | inl p ↦ rw p u
      | inr p ↦ rw p (
          (
            ground (arith, contains-map-insert x ys (f y)),
            IsNodup-map-insert x ys (ground arith, u.1.1),
          ))
    ]

    pub IsNodup-map-sort : (xs : List A) → IsNodup (map f xs) → IsNodup (map f (sort xs))
    unfolding sort
    IsNodup-map-sort [] u = u
    IsNodup-map-sort (x ∷ xs) (fresh, u) =
        IsNodup-map-insert x (sort xs) (contains-map-sort xs (f x) ∙ fresh, IsNodup-map-sort xs u)

  module _ {κ} (P : A → Type κ) where
    All-insert_any : (x : A) (xs : List A) → P x → All P xs → All P (insert x xs)
    unfolding insert
    All-insert_any x [] h a = (h, tt)
    All-insert_any x (y ∷ ys) h (a, rest) = elim (Bool-cases (le (key x) (key y))) [
      | inl p ↦ rw p (h, (a, rest))
      | inr p ↦ rw p (a, All-insert_any x ys h rest)
    ]

    pub All-sort : (xs : List A) → All P xs → All P (sort xs)
    unfolding sort
    All-sort [] a = tt
    All-sort (x ∷ xs) (a, rest) = All-insert_any x (sort xs) a (All-sort xs rest)

-- Sorting by a key of what a function gives.
module _ {A B K : Type 0} ⦃o : Ord K⦄ (f : A → B) (key : B → K) where
  insert-map :
      (x : A) (xs : List A) → insert key (f x) (map f xs) ≡ map f (insert (λ a. key (f a)) x xs)
  unfolding insert
  insert-map x [] = refl
  insert-map x (y ∷ ys) = elim (Bool-cases (le (key (f x)) (key (f y)))) [
    | inl p ↦ rw p refl
    | inr p ↦ rw p (ap (◌∷◌ (f y)) (insert-map x ys))
  ]

  pub sort-map : (xs : List A) → sort key (map f xs) ≡ map f (sort (λ a. key (f a)) xs)
  unfolding sort
  sort-map [] = refl
  sort-map (x ∷ xs) = ap (insert key (f x)) (sort-map xs) ∙ insert-map x (sort (λ a. key (f a)) xs)
