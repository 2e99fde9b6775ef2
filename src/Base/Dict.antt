-- ===== src/Base/Dict.antt =====
-- A `dict` in insertion order, as an association list.
use cachito.Base.{
  ◌≡◌, refl, Bool, true, false, ◌||◌, Option, none, some, List, [], ◌∷◌, arith, Eq, ◌==◌, contains,
  if◌then◌else◌, All, not, ◌&&◌, Bool-cases, inl, inr,
}
use mathlib.Core.Option.{map as map_option}

abbrev pub Dict {ℓ κ} : Type ℓ → Type κ → Type (ℓ ⊔ κ)
Dict K V = List (K × V)

abbrev pub is_some {μ} : {A : Type μ} → Option A → Bool
is_some none = false
is_some (some a) = true

module _ {ℓ κ} {K : Type ℓ} {V : Type κ} where
  abbrev pub keys : Dict K V → List K
  keys [] = []
  keys ((k, v) ∷ d) = k ∷ keys d

  abbrev pub values : Dict K V → List V
  values [] = []
  values ((k, v) ∷ d) = v ∷ values d

module _ {ℓ κ} {K : Type ℓ} {V : Type κ} ⦃e : Eq K⦄ where
  -- `d.get(k)`
  unfoldable pub lookup : K → Dict K V → Option V
  lookup k [] = none
  lookup k ((j, v) ∷ d) = if k == j then some v else lookup k d

  -- `d[k] = v` keeps the place of a key that is there.
  unfoldable pub insert : K → V → Dict K V → Dict K V
  insert k v [] = (k, v) ∷ []
  insert k v ((j, w) ∷ d) = if k == j then (j, v) ∷ d else (j, w) ∷ insert k v d

  -- `d.setdefault(k, v)` as a statement.
  unfoldable pub set_default : K → V → Dict K V → Dict K V
  set_default k v [] = (k, v) ∷ []
  set_default k v ((j, w) ∷ d) = if k == j then (j, w) ∷ d else (j, w) ∷ set_default k v d

  -- `d[k] = f(d[k])`, which raises `KeyError` where the key is missing.
  unfoldable pub update? : K → (V → V) → Dict K V → Option (Dict K V)
  update? k f [] = none
  update? k f ((j, w) ∷ d) =
      let rest = update? k f d in
      if k == j
      then some ((j, f w) ∷ d)
      else elim rest [ none ↦ none | some d' ↦ some ((j, w) ∷ d') ]

  pub lookup-insert :
      (j k : K) (v : V) (d : Dict K V)
      → lookup j (insert k v d) ≡ (if j == k then some v else lookup j d)
  unfolding insert lookup
  lookup-insert j k v [] = refl
  lookup-insert j k v ((i, w) ∷ d) = ground (arith, lookup-insert j k v d)

  pub keys-insert :
      (j k : K) (v : V) (d : Dict K V)
      → contains (keys (insert k v d)) j ≡ (j == k || contains (keys d) j)
  unfolding insert
  keys-insert j k v [] = refl
  keys-insert j k v ((i, w) ∷ d) = ground (arith, keys-insert j k v d)

  pub contains-keys : (d : Dict K V) (k : K) → contains (keys d) k ≡ is_some (lookup k d)
  unfolding lookup
  contains-keys [] k = refl
  contains-keys ((j, w) ∷ d) k = ground (arith, contains-keys d k)

  -- No key stands twice.
  abbrev pub NodupKeys : Dict K V → Type 0
  NodupKeys [] = Unit
  NodupKeys ((k, v) ∷ d) = (contains (keys d) k ≡ false) × NodupKeys d

  pub insert-NodupKeys : (k : K) (v : V) (d : Dict K V) → NodupKeys d → NodupKeys (insert k v d)
  unfolding insert
  insert-NodupKeys k v [] u = (refl, tt)
  insert-NodupKeys k v ((j, w) ∷ d) (fresh, u) =
      ground (arith, insert-NodupKeys k v d u, keys-insert j k v d)

  pub keys-set_default :
      (j k : K) (v : V) (d : Dict K V)
      → contains (keys (set_default k v d)) j ≡ (j == k || contains (keys d) j)
  unfolding set_default
  keys-set_default j k v [] = refl
  keys-set_default j k v ((i, w) ∷ d) = ground (arith, keys-set_default j k v d)

  -- `d[k]` changed in place, where it is there.
  unfoldable pub modify : K → (V → V) → Dict K V → Dict K V
  modify k f [] = []
  modify k f ((j, w) ∷ d) =
      let rest = modify k f d in if k == j then (j, f w) ∷ d else (j, w) ∷ rest

  pub keys-modify : (k : K) (f : V → V) (d : Dict K V) → keys (modify k f d) ≡ keys d
  unfolding modify
  keys-modify k f [] = refl
  keys-modify k f ((j, w) ∷ d) = ground (arith, keys-modify k f d)

  pub modify-NodupKeys : (k : K) (f : V → V) (d : Dict K V) → NodupKeys d → NodupKeys (modify k f d)
  unfolding modify
  modify-NodupKeys k f [] u = u
  modify-NodupKeys k f ((j, w) ∷ d) (fresh, u) =
      ground (arith, modify-NodupKeys k f d u, keys-modify k f d)

  -- What holds of every entry goes on to hold.
  pub All-modify {μ} :
      (P : K × V → Type μ) (k : K) (f : V → V) (d : Dict K V)
      → ((j : K) (w : V) → P (j, w) → P (j, f w))
      → All P d
      → All P (modify k f d)
  unfolding modify
  All-modify P k f [] h a = tt
  All-modify P k f ((j, w) ∷ d) h (p, a) = elim (Bool-cases (k == j)) [
    | inl e ↦ rw e (h j w p, a)
    | inr e ↦ rw e (p, All-modify P k f d h a)
  ]

  pub All-set_default {μ} :
      (P : K × V → Type μ) (k : K) (v : V) (d : Dict K V)
      → P (k, v)
      → All P d
      → All P (set_default k v d)
  unfolding set_default
  All-set_default P k v [] h a = (h, tt)
  All-set_default P k v ((j, w) ∷ d) h (p, a) = elim (Bool-cases (k == j)) [
    | inl e ↦ rw e (p, a)
    | inr e ↦ rw e (p, All-set_default P k v d h a)
  ]

  pub lookup-modify :
      (j k : K) (f : V → V) (d : Dict K V)
      → lookup j (modify k f d) ≡ (if j == k then map_option f (lookup j d) else lookup j d)
  unfolding modify lookup
  lookup-modify j k f [] = ground arith
  lookup-modify j k f ((i, w) ∷ d) = ground (arith, lookup-modify j k f d)

  pub lookup-set_default :
      (j k : K) (v : V) (d : Dict K V)
      → lookup j (set_default k v d)
        ≡ (if j == k && not (is_some (lookup k d)) then some v else lookup j d)
  unfolding set_default lookup
  lookup-set_default j k v [] = ground arith
  lookup-set_default j k v ((i, w) ∷ d) = ground (arith, lookup-set_default j k v d)

  pub set_default-NodupKeys :
      (k : K) (v : V) (d : Dict K V) → NodupKeys d → NodupKeys (set_default k v d)
  unfolding set_default
  set_default-NodupKeys k v [] u = (refl, tt)
  set_default-NodupKeys k v ((j, w) ∷ d) (fresh, u) =
      ground (arith, set_default-NodupKeys k v d u, keys-set_default j k v d)

  -- Every entry of a dictionary is found under its key.
  pub All-lookup : (d : Dict K V) → NodupKeys d → All (λ kv. lookup kv.0 d ≡ some kv.1) d
  unfolding lookup
  All-lookup [] u = tt
  All-lookup ((j, w) ∷ d) (fresh, u) = (ground arith, weaken d (All-lookup d u))
    where
      older : (kv : K × V) → lookup kv.0 d ≡ some kv.1 → lookup kv.0 ((j, w) ∷ d) ≡ some kv.1
      older kv h = ground (arith, contains-keys d kv.0)

      weaken :
          (xs : List (K × V))
          → All (λ kv. lookup kv.0 d ≡ some kv.1) xs
          → All (λ kv. lookup kv.0 ((j, w) ∷ d) ≡ some kv.1) xs
      weaken [] a = tt
      weaken (kv ∷ xs) (h, a) = (older kv h, weaken xs a)
