-- ===== src/Gomod/HighestTag.antt =====
-- The tag that is chosen is a highest one.
use cachito.Base.{
  ℕ, ◌≡◌, refl, sym, ap, subst, ◌∙◌, ◌⊎◌, inl, inr, Bool, true, false, Option, none, some,
  some-injective, List, [], ◌∷◌, arith, ◌==◌, ==_iff, nat_eq, list_eq, contains, filter,
  if◌then◌else◌, Bool-cases,
}
use cachito.Base.Text.{Text, starts_with}
use cachito.Base.Partial.{◌>>=◌}
use cachito.Gomod.Tags.{
  Semver, given, prefix, version_with_major, higher, highest_from, get_highest_semver_tag,
}

-- The order on versions that semver documents: what is greater is not smaller, and what is not
-- greater is at most as high.
pub record IsOrder (S : Semver) : Type 0 where
  pub asym : (v w : S.Version) → S.greater v w ≡ true → S.greater w v ≡ false
  pub trans :
      (u v w : S.Version) → S.greater u v ≡ false → S.greater v w ≡ false → S.greater u w ≡ false

module _ (S : Semver) (order : IsOrder S) (major : ℕ) (subpath : Option Text) where
  abbrev pub version_of : Text → Option S.Version
  version_of = version_with_major S major subpath

  not_greater_refl : (v : S.Version) → S.greater v v ≡ false
  not_greater_refl v = elim (Bool-cases (S.greater v v)) [ inl h ↦ order.asym v v h | inr h ↦ h ]

  -- The result r of the loop, from the highest tag h so far, is at least as high as h and all tags.
  record Bounds (h : Option (Text × S.Version)) (tags : List Text) (t : Text) (v : S.Version)
      : Type 0 where
    origin : (h ≡ some (t, v)) ⊎ ((contains tags t ≡ true) × (version_of t ≡ some v))
    start : (u : Text) (w : S.Version) → h ≡ some (u, w) → S.greater w v ≡ false
    others :
        (u : Text) (w : S.Version)
        → contains tags u ≡ true
        → version_of u ≡ some w
        → S.greater w v ≡ false

  -- What the loop's result r says of the tags that it passed.
  Result : Option (Text × S.Version) → List Text → Option (Text × S.Version) → Type 0
  Result h tags r =
      ((h ≡ none) × ((u : Text) → contains tags u ≡ true → version_of u ≡ none) × (r ≡ none))
      ⊎ ((t : Text) × (v : S.Version) × (r ≡ some (t, v)) × Bounds h tags t v)

  -- To know all tags it is enough to know the first and the others.
  all_tags {κ} :
      (P : Text → Type κ) (tag : Text) (tags : List Text)
      → P tag
      → ((u : Text) → contains tags u ≡ true → P u)
      → (u : Text) → contains (tag ∷ tags) u ≡ true
      → P u
  all_tags P tag tags p f u c = elim (Bool-cases (u == tag)) [
    | inl h ↦ subst P (sym ((==_iff u tag).0 h)) p
    | inr h ↦ f u (ground arith)
  ]

  later :
      (tag t : Text) (tags : List Text) → contains tags t ≡ true → contains (tag ∷ tags) t ≡ true
  later tag t tags c = ground arith

  first_tag : (tag : Text) (tags : List Text) → contains (tag ∷ tags) tag ≡ true
  first_tag tag tags = ground (arith, ==_iff tag tag)

  -- The origin of a result that the tag itself may be.
  origin_step :
      (h : Option (Text × S.Version)) (tag t : Text) (v x : S.Version) (tags : List Text)
      → version_of tag ≡ some v
      → (◌≡◌ {A = Option (Text × S.Version)} (some (tag, v)) (some (t, x)))
        ⊎ ((contains tags t ≡ true) × (version_of t ≡ some x))
      → (h ≡ some (t, x)) ⊎ ((contains (tag ∷ tags) t ≡ true) × (version_of t ≡ some x))
  origin_step h tag t v x tags e (inl same) =
      let p = some-injective (tag, v) (t, x) same in
      inr (
        subst
          (λ (q : Text × S.Version).
            (contains (tag ∷ tags) q.0 ≡ true) × (version_of q.0 ≡ some q.1))
          p (first_tag tag tags, e))
  origin_step h tag t v x tags e (inr (c, k)) = inr (later tag t tags c, k)

  -- The first tag is not above the result, given that its version is not.
  below_step :
      (tag : Text) (v x : S.Version)
      → version_of tag ≡ some v
      → S.greater v x ≡ false
      → (w : S.Version) → version_of tag ≡ some w
      → S.greater w x ≡ false
  below_step tag v x e h w k = subst (λ w. S.greater w x ≡ false) (some-injective v w (sym e ∙ k)) h

  -- The first tag and the others are not above the result.
  NotAbove : S.Version → Text → Type 0
  NotAbove x u = (w : S.Version) → version_of u ≡ some w → S.greater w x ≡ false

  others_step :
      (tag : Text) (x : S.Version) (tags : List Text)
      → ((w : S.Version) → version_of tag ≡ some w → S.greater w x ≡ false)
      → ((u : Text) (w : S.Version)
          → contains tags u ≡ true
          → version_of u ≡ some w
          → S.greater w x ≡ false)
      → (u : Text) (w : S.Version) → contains (tag ∷ tags) u ≡ true
      → version_of u ≡ some w
      → S.greater w x ≡ false
  unfolding NotAbove
  others_step tag x tags first rest u w c k =
      all_tags (NotAbove x) tag tags first (λ u c w k. rest u w c k) u c w k

  none-some : (o : Option S.Version) (w : S.Version) → o ≡ none → o ≡ some w → ⊥
  none-some o w p q = cc

  pair_some :
      (q t : Text) (y x : S.Version)
      → ◌≡◌ {A = Option (Text × S.Version)} (some (q, y)) (some (t, x))
      → y ≡ x
  pair_some q t y x p = ap (λ (z : Text × S.Version). z.1) (some-injective (q, y) (t, x) p)

  module _ (tag : Text) (tags : List Text) (t : Text) (x : S.Version) where
    skip-Bounds :
        (h : Option (Text × S.Version))
        → version_of tag ≡ none
        → Bounds h tags t x
        → Bounds h (tag ∷ tags) t x
    skip-Bounds h e b = record {
      origin = elim b.origin [ inl p ↦ inl p | inr (c, k) ↦ inr (later tag t tags c, k) ];
      start = b.start;
      others = others_step tag x tags (λ w k. absurd (none-some (version_of tag) w e k)) b.others;
    }

    take-Bounds :
        (h : Option (Text × S.Version)) (v : S.Version)
        → version_of tag ≡ some v
        → ((u : Text) (w : S.Version) → h ≡ some (u, w) → S.greater w v ≡ false)
        → Bounds (some (tag, v)) tags t x
        → Bounds h (tag ∷ tags) t x
    take-Bounds h v e above b =
        let first = b.start tag v refl in
        record {
          origin = origin_step h tag t v x tags e b.origin;
          start = λ u w p. order.trans w v x (above u w p) first;
          others = others_step tag x tags (below_step tag v x e first) b.others;
        }

    keep-Bounds :
        (q : Text) (y v : S.Version)
        → version_of tag ≡ some v
        → S.greater v y ≡ false
        → Bounds (some (q, y)) tags t x
        → Bounds (some (q, y)) (tag ∷ tags) t x
    keep-Bounds q y v e lower b =
        let first = order.trans v y x lower (b.start q y refl) in
        record {
          origin = elim b.origin [ inl p ↦ inl p | inr (c, k) ↦ inr (later tag t tags c, k) ];
          start = b.start;
          others = others_step tag x tags (below_step tag v x e first) b.others;
        }

  step :
      (h : Option (Text × S.Version)) (tag : Text) (tags : List Text) (o : Option S.Version)
      (r : Option (Text × S.Version))
      → version_of tag ≡ o
      → Result (higher S h tag o) tags r
      → Result h (tag ∷ tags) r
  unfolding Result higher
  step h tag tags none r e (inl (a, f, b)) =
      inl (a, all_tags (λ u. version_of u ≡ none) tag tags e f, b)
  step h tag tags none r e (inr (t, x, b, bounds)) =
      inr (t, x, b, skip-Bounds tag tags t x h e bounds)
  step none tag tags (some v) r e (inl (a, f, b)) = cc
  step none tag tags (some v) r e (inr (t, x, b, bounds)) =
      inr (t, x, b, take-Bounds tag tags t x none v e (λ u w p. cc) bounds)
  step (some (q, y)) tag tags (some v) r e result = go (S.greater v y) refl result
    where
      go :
          (b : Bool)
          → S.greater v y ≡ b
          → Result (if b then some (tag, v) else some (q, y)) tags r
          → Result (some (q, y)) (tag ∷ tags) r
      go true g (inl (a, f, b)) = cc
      go true g (inr (t, x, b, bounds)) = inr (
        t,
        x,
        b,
        take-Bounds tag tags t x (some (q, y)) v e
            (λ u w p. subst (λ w. S.greater w v ≡ false) (pair_some q u y w p) (order.asym v y g))
            bounds,
      )
      go false g (inl (a, f, b)) = cc
      go false g (inr (t, x, b, bounds)) = inr (t, x, b, keep-Bounds tag tags t x q y v e g bounds)

  highest_from-Result :
      (h : Option (Text × S.Version)) (tags : List Text)
      → Result h tags (highest_from S major subpath h tags)
  unfolding Result highest_from
  highest_from-Result none [] = inl (refl, (λ u c. cc), refl)
  highest_from-Result (some (t, v)) [] = inr (
    t,
    v,
    refl,
    record {
      origin = inl refl;
      start =
          λ u w p. subst (λ w. S.greater w v ≡ false) (pair_some t u v w p) (not_greater_refl v);
      others = λ u w c. cc;
    },
  )
  highest_from-Result h (tag ∷ tags) =
      step h tag tags (version_of tag) (highest_from S major subpath h (tag ∷ tags)) refl
        (highest_from-Result (higher S h tag (version_of tag)) tags)

  -- The tags that the search looks at: those below the subpath.
  abbrev pub related : List Text → List Text
  related = filter (λ t. starts_with t (prefix (given subpath)))

  -- A tag below the subpath with a version of the major version, that no other such tag exceeds.
  abbrev pub IsHighest : List Text → Text → Type 0
  IsHighest tags t =
      (contains (related tags) t ≡ true)
      × ((v : S.Version) × (version_of t ≡ some v)
          × ((u : Text) (w : S.Version)
              → contains (related tags) u ≡ true
              → version_of u ≡ some w
              → S.greater w v ≡ false))

  -- For an order on the versions: either no tag below the subpath has a version of the major version
  -- that is asked for, and none is returned; or a tag is returned that is listed, lies below the
  -- subpath, has such a version, and whose version no other such tag exceeds.
  pub get_highest_semver_tag_lem :
      (tags : List Text)
      → ((get_highest_semver_tag S tags major subpath ≡ none)
          × ((u : Text) → contains (related tags) u ≡ true → version_of u ≡ none))
        ⊎ ((t : Text) × (get_highest_semver_tag S tags major subpath ≡ some t) × IsHighest tags t)
  unfolding get_highest_semver_tag Result
  get_highest_semver_tag_lem tags =
      let found = λ (h : Option (Text × S.Version)). h >>= λ z. some z.0 in
      elim (highest_from-Result none (related tags)) [
        | inl (a, f, b) ↦ inl (ap found b, f)
        | inr (t, v, b, bounds) ↦ elim bounds.origin [
          | inl p ↦ cc
          | inr (c, k) ↦ inr (t, ap found b, (c, (v, k, bounds.others)))
        ]
      ]
