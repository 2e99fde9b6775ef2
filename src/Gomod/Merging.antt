-- ===== src/Gomod/Merging.antt =====
-- The merged file has the lines of both, once each and in order.
use cachito.Base.{
  ◌≡◌, refl, sym, ap, subst, ◌∙◌, Bool, true, not, ◌&&◌, ◌||◌, List, [], ◌∷◌, ◌++◌, map, arith,
  contains, contains-append, contains-filter, nat_eq, list_eq, ◌==◌, ==_iff, filter, IsNodup, All,
  Bool-cases, inl, inr,
}
use cachito.Base.Text.{Text, is_empty}
use cachito.Base.Order.{le, nat_ord, list_ord}
use cachito.Base.Sort.{
  sort as sort_by, IsSorted as Ascending, sort-IsSorted, contains-map-sort, IsNodup-map-sort,
}
use cachito.Gomod.ListFile.{distinct, merge_files}

absorb : (e c r : Bool) → r ≡ c → (e ≡ true → r ≡ true) → r ≡ (e || c)
absorb e c r h k = ground arith

contains-distinct : (ls : List Text) (x : Text) → contains (distinct ls) x ≡ contains ls x
unfolding distinct
contains-distinct [] x = refl
contains-distinct (l ∷ ls) x = elim (Bool-cases (contains (distinct ls) l)) [
  | inl h ↦ rw h (
      absorb (x == l) (contains ls x) (contains (distinct ls) x) (contains-distinct ls x)
        (λ e. ap (contains (distinct ls)) ((==_iff x l).0 e) ∙ h))
  | inr h ↦ rw h (ap (λ (b : Bool). x == l || b) (contains-distinct ls x))
]

distinct-IsNodup : (ls : List Text) → IsNodup (distinct ls)
unfolding distinct
distinct-IsNodup [] = tt
distinct-IsNodup (l ∷ ls) = elim (Bool-cases (contains (distinct ls) l)) [
  | inl h ↦ rw h (distinct-IsNodup ls)
  | inr h ↦ rw h (h, distinct-IsNodup ls)
]

-- What holds of a list's order and difference holds of what a filter leaves.
All-filter {κ} :
    (P : Text → Type κ) (p : Text → Bool) (ls : List Text) → All P ls → All P (filter p ls)
All-filter P p [] a = tt
All-filter P p (l ∷ ls) (h, a) = elim (Bool-cases (p l)) [
  | inl e ↦ rw e (h, All-filter P p ls a)
  | inr e ↦ rw e (All-filter P p ls a)
]

filter-IsSorted :
    (p : Text → Bool) (ls : List Text)
    → Ascending (λ (l : Text). l) ls
    → Ascending (λ (l : Text). l) (filter p ls)
filter-IsSorted p [] s = tt
filter-IsSorted p (l ∷ ls) (h, s) = elim (Bool-cases (p l)) [
  | inl e ↦ rw e (All-filter (λ m. le l m ≡ true) p ls h, filter-IsSorted p ls s)
  | inr e ↦ rw e (filter-IsSorted p ls s)
]

filter-IsNodup : (p : Text → Bool) (ls : List Text) → IsNodup ls → IsNodup (filter p ls)
filter-IsNodup p [] u = tt
filter-IsNodup p (l ∷ ls) (fresh, u) = elim (Bool-cases (p l)) [
  | inl e ↦ rw e (contains-filter p ls l ∙ ap (λ (b : Bool). b && p l) fresh, filter-IsNodup p ls u)
  | inr e ↦ rw e (filter-IsNodup p ls u)
]

map_id : (ls : List Text) → map (λ (l : Text). l) ls ≡ ls
map_id [] = refl
map_id (l ∷ ls) = ap (◌∷◌ l) (map_id ls)

-- The library's lemmas on sorting by a key, for texts sorted by themselves.
sort-IsNodup : (ls : List Text) → IsNodup ls → IsNodup (sort_by (λ (l : Text). l) ls)
sort-IsNodup ls u =
    subst IsNodup (map_id (sort_by (λ (l : Text). l) ls))
      (IsNodup-map-sort (λ (l : Text). l) (λ (l : Text). l) ls (subst IsNodup (sym (map_id ls)) u))

contains-sort :
    (ls : List Text) (x : Text) → contains (sort_by (λ (l : Text). l) ls) x ≡ contains ls x
contains-sort ls x =
    ap (λ (ms : List Text). contains ms x) (sym (map_id (sort_by (λ (l : Text). l) ls)))
    ∙ contains-map-sort (λ (l : Text). l) (λ (l : Text). l) ls x
    ∙ ap (λ (ms : List Text). contains ms x) (map_id ls)

-- The merged file has exactly the lines of the two files, stripped on the right, that are not empty,
-- each of them once and in ascending order.
pub merge_files_lem :
    (rstrip : Text → Text) (source dest : List Text)
    → Ascending (λ (l : Text). l) (merge_files rstrip source dest)
      × IsNodup (merge_files rstrip source dest)
      × ((x : Text)
          → contains (merge_files rstrip source dest) x ≡ (
              (contains (map rstrip source) x || contains (map rstrip dest) x) && not (is_empty x)))
unfolding merge_files
merge_files_lem rstrip source dest =
    let ls = map rstrip source ++ map rstrip dest in
    let full = λ (l : Text). not (is_empty l) in
    let sorted = sort_by (λ (l : Text). l) (distinct ls) in
    (
      filter-IsSorted full sorted (sort-IsSorted (λ (l : Text). l) (distinct ls)),
      filter-IsNodup full sorted (sort-IsNodup (distinct ls) (distinct-IsNodup ls)),
      λ x.
          contains-filter full sorted x
          ∙ ap (λ (b : Bool). b && full x)
              (contains-sort (distinct ls) x
                ∙ contains-distinct ls x
                ∙ contains-append (map rstrip source) (map rstrip dest) x),
    )
