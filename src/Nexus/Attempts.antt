-- ===== src/Nexus/Attempts.antt =====
-- What the attempts to find a component come to.
use cachito.Base.{
  ℕ, zero, suc, ◌+◌, ◌*◌, ◌⊎◌, inl, inr, ◌≤◌, ◌≡◌, refl, ap, subst, Bool, true, not, ◌==◌, ltb,
  bool_eq, ◌-◌, Option, none, some, some-injective, List, [], ◌∷◌, ◌++◌, arith,
}
use cachito.Base.Result.{ok, err, ok-injective, if-taken}
use cachito.Base.Text.{Text}
use cachito.Nexus.{
  Component, Answer, no_attempts, version_mismatch, search_components,
  get_component_info_from_nexus, Outcome, then_do, pow2, wait, matching, Found, waited, attempted,
  attempt,
}

abbrev pub sum : List ℕ → ℕ
sum [] = 0
sum (n ∷ ns) = n + sum ns

-- The components of an attempt.
abbrev Gives : (ℕ → Outcome (List Component)) → Bool → ℕ → List Component → Type 0
Gives search null_group n cs =
    (all : List Component) × (search n ≡ some (ok all)) × (matching null_group all ≡ cs)

-- No attempt finds a component; or one does, and none before it.
abbrev pub AllEmpty : (ℕ → Outcome (List Component)) → Bool → ℕ → ℕ → Type 0
AllEmpty search null_group zero n = Unit
AllEmpty search null_group (suc left) n =
    Gives search null_group n [] × AllEmpty search null_group left (suc n)

abbrev pub FindsFirst : (ℕ → Outcome (List Component)) → Bool → Component → ℕ → ℕ → Type 0
FindsFirst search null_group c zero n = ⊥
FindsFirst search null_group c (suc left) n =
    Gives search null_group n (c ∷ [])
    ⊎ (Gives search null_group n [] × FindsFirst search null_group c left (suc n))

abbrev Ends : (ℕ → Outcome (List Component)) → Bool → ℕ → ℕ → Option Component → Type 0
Ends search null_group left n none = AllEmpty search null_group left n
Ends search null_group left n (some c) = FindsFirst search null_group c left n

-- How long the attempts wait at most.
total : ℕ → ℕ → ℕ
total zero n = 0
total (suc left) n = sum (wait n) + total left (suc n)

sum-append : (xs ys : List ℕ) → sum (xs ++ ys) ≡ sum xs + sum ys
sum-append [] ys = ground arith
sum-append (x ∷ xs) ys = ground (arith, sum-append xs ys)

total-closed : (left n : ℕ) → total left (suc n) + pow2 n ≡ 2 * left + pow2 (n + left)
unfolding total
total-closed zero n = zeroed (pow2 n) (pow2 (n + 0)) (ap pow2 (add_zero n))
  where
    zeroed : (p q : ℕ) → q ≡ p → 0 + p ≡ 2 * 0 + q
    zeroed p q h = omega arith

    add_zero : (n : ℕ) → n + 0 ≡ n
    add_zero n = omega arith
total-closed (suc left) n =
    doubled (pow2 n) (total left (suc (suc n))) (pow2 (suc n + left)) (pow2 (n + suc left)) left
      (total-closed left (suc n)) (ap pow2 (add_suc n left))
  where
    add_suc : (n left : ℕ) → n + suc left ≡ suc n + left
    add_suc n left = omega arith

    doubled :
        (p t q q' left : ℕ)
        → t + (p + p) ≡ 2 * left + q
        → q' ≡ q
        → 2 + p + 0 + t + p ≡ 2 * suc left + q'
    doubled p t q q' left h e = omega arith

module _ (search : ℕ → Outcome (List Component)) (null_group : Bool) where
  Counts : ℕ → ℕ → Option Component → List ℕ → Type 0
  Counts left n r ws = Ends search null_group left n r × (sum ws ≤ total left n)

  attempted-Counts :
      (left n : ℕ) (all cs : List Component) (r : Option Component) (ws : List ℕ)
      → search n ≡ some (ok all)
      → matching null_group all ≡ cs
      → ((s : Option Component) (vs : List ℕ)
          → attempt search null_group left (suc n) ≡ some (ok (s, vs))
          → Counts left (suc n) s vs)
      → attempted n cs (attempt search null_group left (suc n)) ≡ some (ok (r, ws))
      → Counts (suc left) n r ws
  unfolding Counts total
  attempted-Counts left n all [] r ws e m rec h = go (attempt search null_group left (suc n)) refl h
    where
      counted :
          (s : Option Component) (vs : List ℕ)
          → Counts left (suc n) s vs
          → Counts (suc left) n s (wait n ++ vs)
      counted none vs (a, b) = (((all, e, m), a), ground (arith, sum-append (wait n) vs, b))
      counted (some c) vs (a, b) = (inr ((all, e, m), a), ground (arith, sum-append (wait n) vs, b))

      go :
          (o : Outcome Found)
          → attempt search null_group left (suc n) ≡ o
          → then_do (waited (wait n)) o ≡ some (ok (r, ws))
          → Counts (suc left) n r ws
      go none p h = cc
      go (some (err x)) p h = cc
      go (some (ok (s, vs))) p h =
          subst (λ z. Counts (suc left) n z.0 z.1)
            (ok-injective (s, wait n ++ vs) (r, ws)
              (some-injective (ok (s, wait n ++ vs)) (ok (r, ws)) h))
            (counted s vs (rec s vs p))
  attempted-Counts left n all (c ∷ []) r ws e m rec h =
      subst (λ z. Counts (suc left) n z.0 z.1)
        (ok-injective (some c, wait n) (r, ws)
          (some-injective (ok (some c, wait n)) (ok (r, ws)) h))
        (inl (all, e, m), omega arith)
  attempted-Counts left n all (c ∷ d ∷ cs) r ws e m rec h = cc

  attempt-Counts :
      (left n : ℕ) (r : Option Component) (ws : List ℕ)
      → attempt search null_group left n ≡ some (ok (r, ws))
      → Counts left n r ws
  unfolding attempt Counts total
  attempt-Counts zero n r ws h =
      subst (λ z. Counts zero n z.0 z.1)
        (ok-injective (none, []) (r, ws) (some-injective (ok (none, [])) (ok (r, ws)) h))
        (tt, omega arith)
  attempt-Counts (suc left) n r ws h =
      go (λ s vs q. attempt-Counts left (suc n) s vs q) (search n) refl h
    where
      go :
          ((s : Option Component) (vs : List ℕ)
            → attempt search null_group left (suc n) ≡ some (ok (s, vs))
            → Counts left (suc n) s vs)
          → (o : Outcome (List Component)) → search n ≡ o
          → then_do
              (λ cs. attempted n (matching null_group cs) (attempt search null_group left (suc n)))
              o
            ≡ some (ok (r, ws))
          → Counts (suc left) n r ws
      go rec none p h = cc
      go rec (some (err x)) p h = cc
      go rec (some (ok all)) p h =
          attempted-Counts left n all (matching null_group all) r ws p refl rec h

-- If the component's information is asked for and no exception is raised, there was at least one
-- attempt to make, and the format is raw exactly without a version; the component is the only one of
-- the first attempt that gives any, and none is returned only if no attempt gives any; and all the
-- waits together, with three seconds, are at most two seconds for each attempt and two to the power of
-- the attempts less one.
pub get_component_info_lem :
    (fuel : ℕ) (get : ℕ → Text → Answer) (is_raw has_version null_group : Bool) (max_attempts : ℕ)
    (r : Option Component) (ws : List ℕ)
    → get_component_info_from_nexus fuel get is_raw has_version null_group max_attempts
      ≡ some (ok (r, ws))
    → (1 ≤ max_attempts)
      × ((not has_version == is_raw) ≡ true)
      × (r ≡ none → AllEmpty (λ n. search_components fuel (get n)) null_group max_attempts 0)
      × ((c : Component)
          → r ≡ some c
          → FindsFirst (λ n. search_components fuel (get n)) null_group c max_attempts 0)
      × (sum ws + 3 ≤ 2 * max_attempts + pow2 (max_attempts - 1))
unfolding get_component_info_from_nexus Counts total
get_component_info_lem fuel get is_raw has_version null_group zero r ws h = cc
get_component_info_lem fuel get is_raw has_version null_group (suc left) r ws h =
    elim (if-taken (ltb (suc left) 1) (some (err no_attempts)) _ h) [
      | inl (e, p) ↦ cc
      | inr (few, h1) ↦
          elim (if-taken (not has_version == is_raw)
            (attempt (λ n. search_components fuel (get n)) null_group (suc left) 0)
            (some (err version_mismatch)) h1) [
              | inr (e, p) ↦ cc
              | inl (e, p) ↦
                  let search : ℕ → Outcome (List Component) = λ n. search_components fuel (get n) in
                  let (ends, most) = attempt-Counts search null_group (suc left) 0 r ws p in
                  (
                    omega arith,
                    e,
                    λ q. subst (Ends search null_group (suc left) 0) q ends,
                    λ c q. subst (Ends search null_group (suc left) 0) q ends,
                    bounded (sum ws) (total left 1) (pow2 (0 + left)) (pow2 (suc left - 1)) left
                        most (total-closed left 0) (ap pow2 (less left)),
                  )
            ]
    ]
  where
    less : (left : ℕ) → suc left - 1 ≡ 0 + left
    less left = omega arith

    bounded :
        (s t p q left : ℕ) → s ≤ 0 + t → t + 1 ≡ 2 * left + p → q ≡ p → s + 3 ≤ 2 * suc left + q
    bounded s t p q left h e f = omega arith
