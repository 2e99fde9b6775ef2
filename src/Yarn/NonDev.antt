-- ===== src/Yarn/NonDev.antt =====
-- The non-dev dependencies are those that can be reached.
use cachito.Base.{
  ℕ, ◌≤◌, ◌≡◌, sym, ap, ◌∙◌, inl, inr, ◌↔◌, Bool, true, false, ◌||◌, Option, some, List, [], ◌∷◌,
  ◌++◌, contains, contains-append, nat_eq, list_eq, if◌then◌else◌, ◌==◌, ==_iff, arith, Bool-cases,
}
use cachito.Base.Text.{Text}
use cachito.Base.Dict.{Dict, lookup}
use cachito.Yarn.Reachable.{
  PackageJson, root_dep_ids, ids_of_info, next_deps, expand_yarn_lock_keys, find_non_dev_deps,
}
use cachito.Yarn.Search.{Within}
use cachito.Yarn.Found.{Reach, root, step, IsClosed, search_all_mono, search_all-Found}

bare : (b : Bool) → (b || false) ≡ true → b ≡ true
bare b h = ground arith

right : (a b u : Bool) → u ≡ (a || b) → b ≡ true → u ≡ true
right a b u e h = ground arith

left : (a b u : Bool) → u ≡ (a || b) → a ≡ true → u ≡ true
left a b u e h = ground arith

module _ {Info : Type 0} (not_empty : Info → Bool)
    (dependencies : Text → Info → Dict Text Text) where
  -- Every dependency that a lock file names.
  all_ids : Dict Text Info → List Text
  all_ids [] = []
  all_ids ((key, info) ∷ d) = ids_of_info not_empty dependencies key (some info) ++ all_ids d

  next_deps-Within :
      (d : Dict Text Info) (x : Text) → Within (all_ids d) (next_deps not_empty dependencies d x)
  unfolding all_ids lookup
  next_deps-Within [] x y c = c
  next_deps-Within ((key, info) ∷ d) x y c =
      let ids : Text → Option Info → List Text = ids_of_info not_empty dependencies in
      let here = ids key (some info) in
      elim (Bool-cases (x == key)) [
        | inl e ↦
            left (contains here y) (contains (all_ids d) y) _ (contains-append here (all_ids d) y) (
              sym (
                ap (λ (t : Bool). contains (ids x (if t then some info else lookup x d)) y) e
                ∙ ap (λ (z : Text). contains (ids z (some info)) y) ((==_iff x key).0 e))
              ∙ c)
        | inr e ↦
            right (contains here y) (contains (all_ids d) y) _ (contains-append here (all_ids d) y)
              (next_deps-Within d x y (
                sym (ap (λ (t : Bool). contains (ids x (if t then some info else lookup x d)) y) e)
                ∙ c))
      ]

  -- Enough fuel is given for some number of rounds and from there on, and then a dependency is found
  -- exactly if it is one of package.json or of a workspace, other than for development, or yarn.lock
  -- lists it for one that is found.
  pub find_non_dev_deps_lem :
      (main : PackageJson) (workspaces : List PackageJson) (lock : Dict Text Info)
      → (n : ℕ) × (r : List Text) × ((m : ℕ)
          → n ≤ m
          → find_non_dev_deps not_empty dependencies m main workspaces lock ≡ some r)
        × ((x : Text)
            → (contains r x ≡ true)
              ↔ Reach
                  (next_deps not_empty dependencies (expand_yarn_lock_keys lock))
                  (root_dep_ids (main ∷ workspaces))
                  x)
  unfolding find_non_dev_deps
  find_non_dev_deps_lem main workspaces lock =
      let d = expand_yarn_lock_keys lock in
      let next = next_deps not_empty dependencies d in
      let roots = root_dep_ids (main ∷ workspaces) in
      let us = roots ++ all_ids d in
      let closed : (x : Text) → Within us (next x) = λ x y c.
        right (contains roots y) (contains (all_ids d) y) _ (contains-append roots (all_ids d) y)
          (next_deps-Within d x y c) in
      let (n, r, e, (f, g), kept) =
        search_all-Found next us closed roots roots []
          (λ x c.
            left (contains roots x) (contains (all_ids d) x) _ (contains-append roots (all_ids d) x)
              c)
          (λ x c. c) ((λ x y a b. cc), λ x a. cc) in
      (
        n,
        r,
        λ m h. search_all_mono next n m roots [] r h e,
        λ x. (g x, complete next roots r f kept x),
      )
    where
      complete :
          (next : Text → List Text) (roots r : List Text)
          → IsClosed next r []
          → ((x : Text) → contains roots x ≡ true → contains r x ≡ true)
          → (x : Text) → Reach next roots x
          → contains r x ≡ true
      complete next roots r f kept x (root c) = kept x c
      complete next roots r f kept y (step {x = x} h c) =
          bare (contains r y) (f x y (complete next roots r f kept x h) c)
