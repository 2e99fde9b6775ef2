-- ===== src/Gomod/Deduplication.antt =====
-- The list of modules without duplicates.
use mathlib.Core.Option.{map as map_option}
use cachito.Base.{
  ◌≡◌, refl, sym, ap, ◌∙◌, inl, inr, Bool, true, false, not, ◌&&◌, ◌||◌, Option, none, some, List,
  [], ◌∷◌, map, arith, ◌==◌, ==_iff, contains, nat_eq, list_eq, pair_eq, if◌then◌else◌, All, any,
  IsNodup, Bool-cases,
}
use cachito.Base.Text.{Text}
use cachito.Base.Dict.{
  Dict, is_some, keys, values, lookup, set_default, keys-modify, modify-NodupKeys, lookup-modify,
  lookup-set_default, set_default-NodupKeys, keys-set_default, NodupKeys, All-lookup, All-modify,
  All-set_default,
}
use cachito.Base.Order.{nat_ord, list_ord, pair_ord}
use cachito.Base.Sort.{
  sort as sort_by, IsSorted as Ascending, sort-IsSorted, All-sort, contains-map-sort,
  IsNodup-map-sort,
}
use cachito.Gomod.Modules.{
  GoModule, NameVersion, Gomodule, get_name_and_version, is_user_specified, fresh_gomodule,
  add_module, collect, deduplicate_to_gomod_dicts,
}

-- What the dictionary of a module says it replaces.
abbrev pub replaces_of : Option Gomodule → Option (Text × Option Text)
replaces_of none = none
replaces_of (some g) = g.replaces

abbrev replacing : GoModule → Gomodule → Gomodule
replacing m g = record g { replaces = some (m.path, m.version) }

replaces-modify :
    (o : Option Gomodule) (m : GoModule)
    → is_some o ≡ true
    → replaces_of (map_option (replacing m) o) ≡ some (m.path, m.version)
replaces-modify none m h = cc
replaces-modify (some g) m h = refl

-- An entry is there after `setdefault`.
is_some-set_default :
    (k : NameVersion) (d : Dict NameVersion Gomodule)
    → is_some (lookup k (set_default k (fresh_gomodule k) d)) ≡ true
is_some-set_default k d =
    ap is_some (lookup-set_default k k (fresh_gomodule k) d)
    ∙ go (lookup k d) (k == k) ((==_iff k k).1 refl)
  where
    go :
        (o : Option Gomodule) (b : Bool)
        → b ≡ true
        → is_some (if b && not (is_some o) then some (fresh_gomodule k) else o) ≡ true
    go none true h = refl
    go (some g) true h = refl
    go o false h = cc

replaces-set_default :
    (j k : NameVersion) (d : Dict NameVersion Gomodule)
    → replaces_of (lookup j (set_default k (fresh_gomodule k) d)) ≡ replaces_of (lookup j d)
replaces-set_default j k d =
    ap replaces_of (lookup-set_default j k (fresh_gomodule k) d) ∙ elim (Bool-cases (j == k)) [
      | inr h ↦ rw h refl
      | inl h ↦
          let same = (==_iff j k).0 h in
          rw h (go (lookup k d) (lookup j d) (ap (λ (i : NameVersion). lookup i d) (sym same)))
    ]
  where
    go :
        (o p : Option Gomodule)
        → o ≡ p
        → replaces_of (if not (is_some o) then some (fresh_gomodule k) else p) ≡ replaces_of p
    go none none h = refl
    go none (some g) h = cc
    go (some g) p h = refl

replaces-add_module :
    (user : List Text) (m : GoModule) (j k : NameVersion) (d : Dict NameVersion Gomodule)
    → replaces_of (lookup j (add_module user m k d)) ≡ (
        if j == k && is_user_specified user m
        then some (m.path, m.version)
        else replaces_of (lookup j d))
unfolding add_module
replaces-add_module user m j k d =
    let d' = set_default k (fresh_gomodule k) d in
    elim (Bool-cases (is_user_specified user m)) [
      | inr u ↦ elim (Bool-cases (j == k)) [
        | inl h ↦ rw (u, h) (replaces-set_default j k d)
        | inr h ↦ rw (u, h) (replaces-set_default j k d)
      ]
      | inl u ↦ rw u (
          ap replaces_of (lookup-modify j k (replacing m) d') ∙ elim (Bool-cases (j == k)) [
            | inr h ↦ rw h (replaces-set_default j k d)
            | inl h ↦ rw h (
                replaces-modify (lookup j d') m (
                  ap (λ (i : NameVersion). is_some (lookup i d')) ((==_iff j k).0 h)
                  ∙ is_some-set_default k d))
          ])
    ]

-- The last user-specified replacement of the modules with a name and version.
abbrev pub names_module : NameVersion → GoModule → Bool
names_module k m = elim (get_name_and_version m) [ none ↦ false | some j ↦ k == j ]

abbrev pub last_replacement :
    Option (Text × Option Text)
    → List Text
    → NameVersion
    → List GoModule
    → Option (Text × Option Text)
last_replacement seen user k [] = seen
last_replacement seen user k (m ∷ ms) =
    last_replacement
      (if names_module k m && is_user_specified user m then some (m.path, m.version) else seen) user
      k ms

abbrev pub HasVersion : GoModule → Type 0
HasVersion m = (k : NameVersion) × (get_name_and_version m ≡ some k)

-- An entry carries the name and the version that it stands under.
abbrev pub IsNamed : NameVersion × Gomodule → Type 0
IsNamed kv = (kv.1.name ≡ kv.0.0) × (kv.1.version ≡ kv.0.1)

-- What is known of the dictionary when the loop has passed over the modules.
record Collected (user : List Text) (d d' : Dict NameVersion Gomodule) (ms : List GoModule)
    : Type 0 where
  nodup : NodupKeys d → NodupKeys d'
  named : All IsNamed d → All IsNamed d'
  members :
      (k : NameVersion) → contains (keys d') k ≡ (contains (keys d) k || any (names_module k) ms)
  replaced :
      (k : NameVersion)
      → replaces_of (lookup k d') ≡ last_replacement (replaces_of (lookup k d)) user k ms

add_module-NodupKeys :
    (user : List Text) (m : GoModule) (k : NameVersion) (d : Dict NameVersion Gomodule)
    → NodupKeys d
    → NodupKeys (add_module user m k d)
unfolding add_module
add_module-NodupKeys user m k d u =
    let fresh = set_default-NodupKeys k (fresh_gomodule k) d u in
    elim (Bool-cases (is_user_specified user m)) [
      | inr h ↦ rw h fresh
      | inl h ↦ rw h (modify-NodupKeys k (replacing m) (set_default k (fresh_gomodule k) d) fresh)
    ]

add_module-IsNamed :
    (user : List Text) (m : GoModule) (k : NameVersion) (d : Dict NameVersion Gomodule)
    → All IsNamed d
    → All IsNamed (add_module user m k d)
unfolding add_module
add_module-IsNamed user m k d a =
    let fresh = All-set_default IsNamed k (fresh_gomodule k) d (refl, refl) a in
    elim (Bool-cases (is_user_specified user m)) [
      | inr h ↦ rw h fresh
      | inl h ↦ rw h (
          All-modify IsNamed k (replacing m) (set_default k (fresh_gomodule k) d) (λ j w p. p)
            fresh)
    ]

add_module-keys :
    (user : List Text) (m : GoModule) (j k : NameVersion) (d : Dict NameVersion Gomodule)
    → contains (keys (add_module user m k d)) j ≡ (j == k || contains (keys d) j)
unfolding add_module
add_module-keys user m j k d = elim (Bool-cases (is_user_specified user m)) [
  | inr u ↦ rw u (keys-set_default j k (fresh_gomodule k) d)
  | inl u ↦ rw u (
      ap (λ (ks : List NameVersion). contains ks j)
        (keys-modify k (replacing m) (set_default k (fresh_gomodule k) d))
      ∙ keys-set_default j k (fresh_gomodule k) d)
]

names_module-eq :
    (j k : NameVersion) (m : GoModule)
    → get_name_and_version m ≡ some k
    → names_module j m ≡ (j == k)
names_module-eq j k m e =
    ap (λ (o : Option NameVersion). elim o [ none ↦ false | some i ↦ j == i ]) e

or_false : (b : Bool) → b ≡ (b || false)
or_false true = refl
or_false false = refl

or_swap : (a b c n : Bool) → n ≡ a → (a || b || c) ≡ (b || (n || c))
or_swap a b c n h = ground arith

collect_lem :
    (user : List Text) (d : Dict NameVersion Gomodule) (ms : List GoModule)
    → All HasVersion ms
    → (d' : Dict NameVersion Gomodule) × (collect user d ms ≡ some d') × Collected user d d' ms
unfolding collect
collect_lem user d [] a = (
  d,
  refl,
  record {
    nodup = λ u. u;
    named = λ n. n;
    members = λ k. or_false (contains (keys d) k);
    replaced = λ k. refl;
  },
)
collect_lem user d (m ∷ ms) ((k, e), a) =
    let (d', es, c) = collect_lem user (add_module user m k d) ms a in
    (
      d',
      rw e es,
      record {
        nodup = λ u. c.nodup (add_module-NodupKeys user m k d u);
        named = λ n. c.named (add_module-IsNamed user m k d n);
        members = λ j.
            c.members j
            ∙ ap (λ (b : Bool). b || any (names_module j) ms) (add_module-keys user m j k d)
            ∙ or_swap (j == k) (contains (keys d) j) (any (names_module j) ms) (names_module j m)
                (names_module-eq j k m e);
        replaced = λ j.
            c.replaced j
            ∙ ap (λ (o : Option (Text × Option Text)). last_replacement o user j ms)
                (replaces-add_module user m j k d
                  ∙ ap
                      (λ (b : Bool).
                        if b && is_user_specified user m
                        then some (m.path, m.version)
                        else replaces_of (lookup j d))
                      (sym (names_module-eq j k m e)));
      },
    )

keys-eq : (d : Dict NameVersion Gomodule) → keys d ≡ map (λ kv. kv.0) d
keys-eq [] = refl
keys-eq ((k, g) ∷ d) = ap (◌∷◌ k) (keys-eq d)

NodupKeys→IsNodup : (d : Dict NameVersion Gomodule) → NodupKeys d → IsNodup (map (λ kv. kv.0) d)
NodupKeys→IsNodup [] u = tt
NodupKeys→IsNodup ((k, g) ∷ d) (fresh, u) =
    (ap (λ (ks : List NameVersion). contains ks k) (sym (keys-eq d)) ∙ fresh, NodupKeys→IsNodup d u)

All-replaced :
    (user : List Text) (ms : List GoModule) (d xs : Dict NameVersion Gomodule)
    → ((k : NameVersion) → replaces_of (lookup k d) ≡ last_replacement none user k ms)
    → All (λ kv. lookup kv.0 d ≡ some kv.1) xs
    → All (λ kv. kv.1.replaces ≡ last_replacement none user kv.0 ms) xs
All-replaced user ms d [] r a = tt
All-replaced user ms d (kv ∷ xs) r (h, a) =
    (sym (ap replaces_of h) ∙ r kv.0, All-replaced user ms d xs r a)

-- When every module has a version, the result lists each reported name and version once, in
-- ascending order, and no other; each carries the last replacement that the user asked for among
-- the modules of that name and version, if there is one.
pub deduplicate_to_gomod_dicts_lem :
    (ms : List GoModule) (user : List Text)
    → All HasVersion ms
    → (d : Dict NameVersion Gomodule) × (deduplicate_to_gomod_dicts ms user ≡ some (values d))
      × Ascending (λ (kv : NameVersion × Gomodule). kv.0) d
      × IsNodup (map (λ kv. kv.0) d)
      × ((k : NameVersion) → contains (map (λ kv. kv.0) d) k ≡ any (names_module k) ms)
      × All IsNamed d
      × All (λ kv. kv.1.replaces ≡ last_replacement none user kv.0 ms) d
unfolding deduplicate_to_gomod_dicts lookup
deduplicate_to_gomod_dicts_lem ms user a =
    let (d, e, c) = collect_lem user [] ms a in
    let u = c.nodup tt in
    (
      sort_by (λ kv. kv.0) d,
      rw e refl,
      sort-IsSorted (λ kv. kv.0) d,
      IsNodup-map-sort (λ kv. kv.0) (λ kv. kv.0) d (NodupKeys→IsNodup d u),
      λ k.
          contains-map-sort (λ kv. kv.0) (λ kv. kv.0) d k
          ∙ ap (λ (ks : List NameVersion). contains ks k) (sym (keys-eq d))
          ∙ c.members k,
      All-sort (λ kv. kv.0) IsNamed d (c.named tt),
      All-sort (λ kv. kv.0) (λ kv. kv.1.replaces ≡ last_replacement none user kv.0 ms) d
          (All-replaced user ms d d c.replaced (All-lookup d u)),
    )
