-- ===== src/Yarn/Found.antt =====
-- What the search finds.
use cachito.Base.{
  ℕ, zero, suc, ◌+◌, ◌≤◌, ◌≡◌, refl, sym, ap, subst, ◌∙◌, ◌⊎◌, inl, inr, Bool, true, false, not,
  ◌&&◌, ◌||◌, Option, some, some-injective, List, [], ◌∷◌, ◌++◌, contains, contains-append,
  contains-filter, nat_eq, list_eq, if◌then◌else◌, ◌==◌, ==_iff, filter, arith, Bool-cases,
}
use cachito.Base.Text.{Text}
use cachito.Base.Partial.{◌>>=◌, >>=-eq-some}
use cachito.Base.Result.{if-taken}
use cachito.Yarn.Reachable.{set_add, search, search_all}
use cachito.Yarn.Search.{contains-set_add, Within, unvisited, search-Ends}

-- What can be reached from the first dependencies.
pub data Reach (next : Text → List Text) (roots : List Text) : Text → Type 0 where
  root : {x : Text} → contains roots x ≡ true → Reach next roots x
  step : {x y : Text} → Reach next roots x → contains (next x) y ≡ true → Reach next roots y

module _ (next : Text → List Text) where
  -- More fuel changes nothing.
  search_mono :
      (n m : ℕ) (queue v : List Text) (r : List Text)
      → n ≤ m
      → search next n queue v ≡ some r
      → search next m queue v ≡ some r
  unfolding search
  search_mono zero zero queue v r h e = e
  search_mono zero (suc m) [] v r h e = e
  search_mono zero (suc m) (x ∷ queue) v r h e = cc
  search_mono (suc n) zero queue v r h e = absurd (ground (arith, h))
  search_mono (suc n) (suc m) [] v r h e = e
  search_mono (suc n) (suc m) (x ∷ queue) v r h e =
      search_mono n m (queue ++ filter (λ d. not (contains (set_add x v) d)) (next x)) (set_add x v)
        r (ground (arith, h)) e

  -- The dependencies of what was visited are visited or in the queue.
  abbrev pub IsClosed : List Text → List Text → Type 0
  IsClosed v queue =
      (x y : Text)
      → contains v x ≡ true
      → contains (next x) y ≡ true
      → (contains v y || contains queue y) ≡ true

  IsClosed-step :
      (d : Text) (queue v : List Text)
      → IsClosed v (d ∷ queue)
      → IsClosed (set_add d v) (queue ++ filter (λ z. not (contains (set_add d v) z)) (next d))
  IsClosed-step d queue v h x y c k =
      let seen = set_add d v in
      let queued =
        contains-append queue (filter (λ z. not (contains seen z)) (next d)) y
        ∙ ap (λ b. contains queue y || b)
            (contains-filter (λ z. not (contains seen z)) (next d) y) in
      elim (Bool-cases (x == d)) [
        | inl e ↦
            final (contains seen y) (contains queue y) (contains (next d) y) _ queued
              (inl (subst (λ z. contains (next z) y ≡ true) ((==_iff x d).0 e) k))
        | inr e ↦ final (contains seen y) (contains queue y) (contains (next d) y) _ queued (
            inr (
              older (contains seen y) (y == d) (contains v y) (contains queue y)
                (contains-set_add d y v)
                (h x y
                  (before (contains seen x) (x == d) (contains v x) (contains-set_add d x v) c e)
                  k)))
      ]
    where
      final :
          (s q n b : Bool)
          → b ≡ (q || (n && not s))
          → (n ≡ true) ⊎ ((s || q) ≡ true)
          → (s || b) ≡ true
      final s q n b e h = ground arith

      older : (s d v q : Bool) → s ≡ (d || v) → (v || (d || q)) ≡ true → (s || q) ≡ true
      older s d v q e h = ground arith

      before : (s d v : Bool) → s ≡ (d || v) → s ≡ true → d ≡ false → v ≡ true
      before s d v e h k = ground arith

  -- What was visited or in the queue is kept in the next state.
  kept :
      (d : Text) (queue v : List Text) (x : Text)
      → (contains v x || contains (d ∷ queue) x) ≡ true
      → (contains (set_add d v) x
          || contains (queue ++ filter (λ z. not (contains (set_add d v) z)) (next d)) x)
        ≡ true
  kept d queue v x h =
      let seen = set_add d v in
      let queued = contains-append queue (filter (λ z. not (contains seen z)) (next d)) x in
      all_kept (contains seen x) (x == d) (contains v x) (contains queue x)
        (contains (filter (λ z. not (contains seen z)) (next d)) x) _ (contains-set_add d x v)
        queued h
    where
      all_kept :
          (s d v q n b : Bool)
          → s ≡ (d || v)
          → b ≡ (q || n)
          → (v || (d || q)) ≡ true
          → (s || b) ≡ true
      all_kept s d v q n b e f h = ground arith

  ended :
      (v r : List Text)
      → IsClosed v []
      → v ≡ r
      → IsClosed r [] × ((x : Text) → (contains v x || false) ≡ true → contains r x ≡ true)
  ended v r h e = (
    subst (λ s. IsClosed s []) e h,
    λ x c. sym (ap (λ s. contains s x) e) ∙ bare (contains v x) c,
  )
    where
      bare : (b : Bool) → (b || false) ≡ true → b ≡ true
      bare b h = ground arith

  search-IsClosed :
      (n : ℕ) (queue v r : List Text)
      → IsClosed v queue
      → search next n queue v ≡ some r
      → IsClosed r []
        × ((x : Text) → (contains v x || contains queue x) ≡ true → contains r x ≡ true)
  unfolding search
  search-IsClosed zero [] v r h e = ended v r h (some-injective v r e)
  search-IsClosed (suc n) [] v r h e = ended v r h (some-injective v r e)
  search-IsClosed zero (d ∷ queue) v r h e = cc
  search-IsClosed (suc n) (d ∷ queue) v r h e =
      let (closed, found) =
        search-IsClosed n (queue ++ filter (λ z. not (contains (set_add d v) z)) (next d))
          (set_add d v) r (IsClosed-step d queue v h) e in
      (closed, λ x c. found x (kept d queue v x c))

  search-Sound :
      (P : Text → Type 0)
      → ((x y : Text) → P x → contains (next x) y ≡ true → P y)
      → (n : ℕ) (queue v r : List Text)
      → ((x : Text) → (contains v x || contains queue x) ≡ true → P x)
      → search next n queue v ≡ some r
      → (x : Text) → contains r x ≡ true
      → P x
  unfolding search
  search-Sound P closed zero [] v r h e x c =
      h x (ap (λ b. b || false) (ap (λ s. contains s x) (some-injective v r e) ∙ c))
  search-Sound P closed (suc n) [] v r h e x c =
      h x (ap (λ b. b || false) (ap (λ s. contains s x) (some-injective v r e) ∙ c))
  search-Sound P closed zero (d ∷ queue) v r h e x c = cc
  search-Sound P closed (suc n) (d ∷ queue) v r h e x c =
      search-Sound P closed n (queue ++ filter (λ z. not (contains (set_add d v) z)) (next d))
        (set_add d v) r (known d queue v h) e x c
    where
      here : (d : Text) (queue v : List Text) → (contains v d || contains (d ∷ queue) d) ≡ true
      here d queue v = ground arith

      old :
          (s d v q n b : Bool)
          → s ≡ (d || v)
          → b ≡ (q || (n && not s))
          → n ≡ false
          → (s || b) ≡ true
          → (v || (d || q)) ≡ true
      old s d v q n b e f g h = ground arith

      known :
          (d : Text) (queue v : List Text)
          → ((x : Text) → (contains v x || contains (d ∷ queue) x) ≡ true → P x)
          → (x : Text)
          → (contains (set_add d v) x
              || contains (queue ++ filter (λ z. not (contains (set_add d v) z)) (next d)) x)
            ≡ true
          → P x
      known d queue v h x c = elim (Bool-cases (contains (next d) x)) [
        | inl e ↦ closed d x (h d (here d queue v)) e
        | inr e ↦
            let seen = set_add d v in
            h x (
              old (contains seen x) (x == d) (contains v x) (contains queue x) (contains (next d) x)
                _ (contains-set_add d x v)
                (contains-append queue (filter (λ z. not (contains seen z)) (next d)) x
                  ∙ ap (λ b. contains queue x || b)
                      (contains-filter (λ z. not (contains seen z)) (next d) x))
                e c)
      ]

  pub search_all_mono :
      (n m : ℕ) (roots v : List Text) (r : List Text)
      → n ≤ m
      → search_all next n roots v ≡ some r
      → search_all next m roots v ≡ some r
  unfolding search_all
  search_all_mono n m [] v r h e = e
  search_all_mono n m (x ∷ roots) v r h e =
      let (s, a, b) =
        >>=-eq-some (if contains v x then some v else search next n (x ∷ []) v)
          (search_all next n roots) e in
      let c : (if contains v x then some v else search next m (x ∷ []) v) ≡ some s =
        elim (if-taken (contains v x) (some v) (search next n (x ∷ []) v) a) [
          | inl (p, q) ↦ ap (λ (t : Bool). if t then some v else search next m (x ∷ []) v) p ∙ q
          | inr (p, q) ↦
              ap (λ (t : Bool). if t then some v else search next m (x ∷ []) v) p
              ∙ search_mono n m (x ∷ []) v s h q
        ] in
      ap (λ (o : Option (List Text)). o >>= search_all next m roots) c
      ∙ search_all_mono n m roots s r h b

  -- What the loop over the first dependencies has found.
  abbrev pub Found : List Text → List Text → Type 0
  Found roots v = IsClosed v [] × ((x : Text) → contains v x ≡ true → Reach next roots x)

  one : List Text → Text → List Text → ℕ → Option (List Text)
  one all d v n = if contains v d then some v else search next n (d ∷ []) v

  bare : (b : Bool) → (b || false) ≡ true → b ≡ true
  bare b h = ground arith

  -- One of the first dependencies.
  one-Found :
      (us : List Text)
      → ((x : Text) → Within us (next x))
      → (all : List Text) (d : Text) (v : List Text) → contains us d ≡ true
      → contains all d ≡ true
      → Found all v
      → (n : ℕ) × (r : List Text) × (one all d v n ≡ some r)
        × Found all r
        × ((x : Text) → (contains v x || (x == d || false)) ≡ true → contains r x ≡ true)
  unfolding one
  one-Found us closed all d v h k (f, g) = elim (Bool-cases (contains v d)) [
    | inl e ↦ (
      0,
      v,
      ap (λ (t : Bool). if t then some v else search next 0 (d ∷ []) v) e,
      (f, g),
      λ x c. again x (Bool-cases (x == d)) e c,
    )
    | inr e ↦
        let (n, r, q) =
          search-Ends next us closed (suc (unvisited us v)) (d ∷ []) v (lone us d h)
            (ground arith) in
        let (c, kept) =
          search-IsClosed n (d ∷ []) v r (λ x y a b. longer (contains v y) (y == d) (f x y a b))
            q in
        (
          n,
          r,
          ap (λ (t : Bool). if t then some v else search next n (d ∷ []) v) e ∙ q,
          (
            c,
            search-Sound (Reach next all) (λ x y a b. step a b) n (d ∷ []) v r
                (λ x a. start x (Bool-cases (x == d)) a) q,
          ),
          kept,
        )
  ]
    where
      again :
          (x : Text)
          → ((x == d) ≡ true) ⊎ ((x == d) ≡ false)
          → contains v d ≡ true
          → (contains v x || (x == d || false)) ≡ true
          → contains v x ≡ true
      again x (inl p) e c = subst (λ y. contains v y ≡ true) (sym ((==_iff x d).0 p)) e
      again x (inr p) e c = ground (arith, p, c)

      lone : (us : List Text) (d : Text) → contains us d ≡ true → Within us (d ∷ [])
      lone us d h x c = subst (λ y. contains us y ≡ true) (sym ((==_iff x d).0 (bare (x == d) c))) h

      longer : (a b : Bool) → (a || false) ≡ true → (a || (b || false)) ≡ true
      longer a b h = ground arith

      start :
          (x : Text)
          → ((x == d) ≡ true) ⊎ ((x == d) ≡ false)
          → (contains v x || (x == d || false)) ≡ true
          → Reach next all x
      start x (inl p) a = root (subst (λ y. contains all y ≡ true) (sym ((==_iff x d).0 p)) k)
      start x (inr p) a = g x (ground (arith, p, a))

  -- There is enough fuel for all of them.
  pub search_all-Found :
      (us : List Text)
      → ((x : Text) → Within us (next x))
      → (all rest v : List Text) → Within us rest
      → Within all rest
      → Found all v
      → (n : ℕ) × (r : List Text) × (search_all next n rest v ≡ some r)
        × Found all r
        × ((x : Text) → (contains v x || contains rest x) ≡ true → contains r x ≡ true)
  unfolding search_all one
  search_all-Found us closed all [] v h k found = (0, v, refl, found, λ x c. bare (contains v x) c)
  search_all-Found us closed all (d ∷ rest) v h k found =
      let (n, s, e, f, kept) =
        one-Found us closed all d v (h d (here d rest)) (k d (here d rest)) found in
      let (m, r, q, g, rest_kept) =
        search_all-Found us closed all rest s (λ x c. h x (there x d rest c))
          (λ x c. k x (there x d rest c)) f in
      (
        n + m,
        r,
        ap (λ (o : Option (List Text)). o >>= search_all next (n + m) rest) (more n m d v s e)
            ∙ search_all_mono m (n + m) rest s r (ground arith) q,
        g,
        λ x c.
            rest_kept x (split (contains v x) (x == d) (contains rest x) (contains s x) (kept x) c),
      )
    where
      here : (d : Text) (rest : List Text) → contains (d ∷ rest) d ≡ true
      here d rest = ground arith

      there :
          (x d : Text) (rest : List Text) → contains rest x ≡ true → contains (d ∷ rest) x ≡ true
      there x d rest c = ground (arith, c)

      split :
          (v d q s : Bool)
          → ((v || (d || false)) ≡ true → s ≡ true)
          → (v || (d || q)) ≡ true
          → (s || q) ≡ true
      split v d q s f h = ground (arith, f)

      more :
          (n m : ℕ) (d : Text) (v s : List Text)
          → (if contains v d then some v else search next n (d ∷ []) v) ≡ some s
          → (if contains v d then some v else search next (n + m) (d ∷ []) v) ≡ some s
      more n m d v s e = elim (if-taken (contains v d) (some v) (search next n (d ∷ []) v) e) [
        | inl (p, q) ↦ ap (λ (t : Bool). if t then some v else search next (n + m) (d ∷ []) v) p ∙ q
        | inr (p, q) ↦
            ap (λ (t : Bool). if t then some v else search next (n + m) (d ∷ []) v) p
            ∙ search_mono n (n + m) (d ∷ []) v s (ground arith) q
      ]
