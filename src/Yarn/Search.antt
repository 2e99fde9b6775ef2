-- ===== src/Yarn/Search.antt =====
-- The search ends.
use cachito.Base.{
  ℕ, zero, suc, ◌≤◌, ◌<◌, ◌≡◌, refl, sym, ap, subst, inl, inr, Bool, true, false, not, ◌||◌, some,
  List, [], ◌∷◌, ◌++◌, contains, contains-append, contains-filter, nat_eq, list_eq, if◌then◌else◌,
  ◌==◌, filter, arith, Bool-cases,
}
use cachito.Base.Text.{Text}
use cachito.Yarn.Reachable.{set_add, search}

pub contains-set_add :
    (x y : Text) (v : List Text) → contains (set_add x v) y ≡ (y == x || contains v y)
contains-set_add x y v = ground arith

-- How many of the dependencies have not been visited, and how many of the queue have.
pub unvisited : List Text → List Text → ℕ
unvisited [] v = 0
unvisited (u ∷ us) v = let rest = unvisited us v in if contains v u then rest else suc rest

revisited : List Text → List Text → ℕ
revisited [] v = 0
revisited (q ∷ qs) v = let rest = revisited qs v in if contains v q then suc rest else rest

unvisited-le :
    (us : List Text) (x : Text) (v : List Text) → unvisited us (set_add x v) ≤ unvisited us v
unfolding unvisited
unvisited-le [] x v = ground arith
unvisited-le (u ∷ us) x v = ground (arith, unvisited-le us x v, contains-set_add x u v)

unvisited-lt :
    (us : List Text) (x : Text) (v : List Text)
    → contains us x ≡ true
    → contains v x ≡ false
    → unvisited us (set_add x v) < unvisited us v
unfolding unvisited
unvisited-lt [] x v h k = cc
unvisited-lt (u ∷ us) x v h k =
    ground (arith, unvisited-le us x v, unvisited-lt us x v, contains-set_add x u v)

revisited-fresh :
    (qs new : List Text) (v : List Text)
    → revisited (qs ++ filter (λ d. not (contains v d)) new) v ≡ revisited qs v
unfolding revisited
revisited-fresh [] [] v = refl
revisited-fresh [] (d ∷ new) v = ground (arith, revisited-fresh [] new v)
revisited-fresh (q ∷ qs) new v = ground (arith, revisited-fresh qs new v)

-- Every element of a list is in another one.
abbrev pub Within : List Text → List Text → Type 0
Within us xs = (x : Text) → contains xs x ≡ true → contains us x ≡ true

module _ (next : Text → List Text) where
  abbrev pub Ends : List Text → List Text → Type 0
  Ends queue v = (n : ℕ) × (r : List Text) × (search next n queue v ≡ some r)

  Ends-step :
      (x : Text) (queue v : List Text)
      → Ends (queue ++ filter (λ d. not (contains (set_add x v) d)) (next x)) (set_add x v)
      → Ends (x ∷ queue) v
  unfolding search
  Ends-step x queue v (n, r, e) = (suc n, r, e)

  module _ (us : List Text) (closed : (x : Text) → Within us (next x)) where
    Within-step :
        (x : Text) (queue v : List Text)
        → Within us (x ∷ queue)
        → Within us (queue ++ filter (λ d. not (contains (set_add x v) d)) (next x))
    Within-step x queue v h y c = ground (
      arith,
      h y,
      closed x y,
      c,
      contains-append queue (filter (λ d. not (contains (set_add x v) d)) (next x)) y,
      contains-filter (λ d. not (contains (set_add x v) d)) (next x) y,
    )

    Ends-fresh :
        (u : ℕ)
        → ((queue v : List Text) → Within us queue → unvisited us v < u → Ends queue v)
        → (x : Text) (queue v : List Text) → Within us (x ∷ queue)
        → unvisited us v ≤ u
        → contains v x ≡ false
        → Ends (x ∷ queue) v
    Ends-fresh u rec x queue v h a fresh =
        let fewer = unvisited-lt us x v (h x (first x queue)) fresh in
        Ends-step x queue v (
          rec (queue ++ filter (λ d. not (contains (set_add x v) d)) (next x)) (set_add x v)
            (Within-step x queue v h) (ground (arith, fewer, a)))
      where
        first : (x : Text) (queue : List Text) → contains (x ∷ queue) x ≡ true
        first x queue = ground arith

    -- A dependency that was visited before makes the queue shorter; another one leaves fewer that
    -- were not.
    inner :
        (u : ℕ)
        → ((queue v : List Text) → Within us queue → unvisited us v < u → Ends queue v)
        → (w : ℕ) (queue v : List Text) → Within us queue
        → unvisited us v ≤ u
        → revisited queue v ≤ w
        → Ends queue v
    unfolding search revisited
    inner u rec w [] v h a b = (0, v, refl)
    inner u rec zero (x ∷ queue) v h a b = elim (Bool-cases (contains v x)) [
      | inr fresh ↦ Ends-fresh u rec x queue v h a fresh
      | inl seen ↦ absurd (ground (arith, b, seen))
    ]
    inner u rec (suc w) (x ∷ queue) v h a b = elim (Bool-cases (contains v x)) [
      | inr fresh ↦ Ends-fresh u rec x queue v h a fresh
      | inl seen ↦
          let same : set_add x v ≡ v = ap (λ (t : Bool). if t then v else x ∷ v) seen in
          let new : List Text → List Text =
            λ s. queue ++ filter (λ d. not (contains s d)) (next x) in
          let fewer = revisited-fresh queue (next x) v in
          Ends-step x queue v (
            subst (λ s. Ends (new s) s) (sym same)
              (inner u rec w (new v) v
                (subst (λ s. Within us (new s)) same (Within-step x queue v h)) a
                (ground (arith, b, seen, fewer))))
    ]

    pub search-Ends :
        (u : ℕ) (queue v : List Text) → Within us queue → unvisited us v < u → Ends queue v
    search-Ends zero queue v h a = absurd (ground (arith, a))
    search-Ends (suc u) queue v h a =
        inner u (search-Ends u) (revisited queue v) queue v h (ground (arith, a)) (ground arith)
