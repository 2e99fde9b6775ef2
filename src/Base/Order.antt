-- ===== src/Base/Order.antt =====
-- Python's order on the keys that it sorts by: numbers, texts, booleans and tuples of such.
use Prim.Native.Nat.{compare, Ordering, lt, eq, gt}
use cachito.Base.{
  ℕ, ◌≡◌, refl, Bool, true, false, Option, none, some, List, [], ◌∷◌, arith, ap, Eq, ◌==◌,
}

abbrev pub flip : Ordering → Ordering
flip lt = gt
flip eq = eq
flip gt = lt

-- The order decided first, then the next one.
abbrev pub and_then : Ordering → Ordering → Ordering
and_then lt o = lt
and_then eq o = o
and_then gt o = gt

pub record Ord (A : Type 0) : Type 0 where
  pub cmp : A → A → Ordering
  pub cmp_refl : (a : A) → cmp a a ≡ eq
  pub cmp_eq : (a b : A) → cmp a b ≡ eq → a ≡ b
  pub cmp_flip : (a b : A) → cmp b a ≡ flip (cmp a b)
  pub cmp_trans : (a b c : A) → cmp a b ≡ lt → cmp b c ≡ lt → cmp a c ≡ lt

nat_cmp_refl : (a : ℕ) → compare a a ≡ eq
nat_cmp_refl a = ground arith

nat_cmp_eq : (a b : ℕ) → compare a b ≡ eq → a ≡ b
nat_cmp_eq a b h = ground arith

nat_cmp_flip : (a b : ℕ) → compare b a ≡ flip (compare a b)
nat_cmp_flip a b = ground arith

nat_cmp_trans : (a b c : ℕ) → compare a b ≡ lt → compare b c ≡ lt → compare a c ≡ lt
nat_cmp_trans a b c h k = ground arith

instance unfoldable pub nat_ord : Ord ℕ
unfolding nat_cmp_refl nat_cmp_eq nat_cmp_flip nat_cmp_trans
nat_ord = record {
  cmp = compare;
  cmp_refl = nat_cmp_refl;
  cmp_eq = nat_cmp_eq;
  cmp_flip = nat_cmp_flip;
  cmp_trans = nat_cmp_trans;
}

-- `False < True`
abbrev bool_cmp : Bool → Bool → Ordering
bool_cmp false false = eq
bool_cmp false true = lt
bool_cmp true false = gt
bool_cmp true true = eq

bool_cmp_refl : (a : Bool) → bool_cmp a a ≡ eq
bool_cmp_refl a = ground arith

bool_cmp_eq : (a b : Bool) → bool_cmp a b ≡ eq → a ≡ b
bool_cmp_eq a b h = ground arith

bool_cmp_flip : (a b : Bool) → bool_cmp b a ≡ flip (bool_cmp a b)
bool_cmp_flip a b = ground arith

bool_cmp_trans : (a b c : Bool) → bool_cmp a b ≡ lt → bool_cmp b c ≡ lt → bool_cmp a c ≡ lt
bool_cmp_trans a b c h k = ground arith

instance unfoldable pub bool_ord : Ord Bool
unfolding bool_cmp_refl bool_cmp_eq bool_cmp_flip bool_cmp_trans
bool_ord = record {
  cmp = bool_cmp;
  cmp_refl = bool_cmp_refl;
  cmp_eq = bool_cmp_eq;
  cmp_flip = bool_cmp_flip;
  cmp_trans = bool_cmp_trans;
}

module _ {A : Type 0} ⦃o : Ord A⦄ where
  list_cmp : List A → List A → Ordering
  list_cmp [] [] = eq
  list_cmp [] (y ∷ ys) = lt
  list_cmp (x ∷ xs) [] = gt
  list_cmp (x ∷ xs) (y ∷ ys) = and_then (o.cmp x y) (list_cmp xs ys)

  list_cmp_refl : (a : List A) → list_cmp a a ≡ eq
  unfolding list_cmp
  list_cmp_refl [] = refl
  list_cmp_refl (x ∷ xs) = ground (arith, o.cmp_refl x, list_cmp_refl xs)

  list_cmp_eq : (a b : List A) → list_cmp a b ≡ eq → a ≡ b
  unfolding list_cmp
  list_cmp_eq [] [] h = refl
  list_cmp_eq [] (y ∷ ys) h = cc
  list_cmp_eq (x ∷ xs) [] h = cc
  list_cmp_eq (x ∷ xs) (y ∷ ys) h = ground (arith, o.cmp_eq x y, list_cmp_eq xs ys)

  list_cmp_flip : (a b : List A) → list_cmp b a ≡ flip (list_cmp a b)
  unfolding list_cmp
  list_cmp_flip [] [] = refl
  list_cmp_flip [] (y ∷ ys) = refl
  list_cmp_flip (x ∷ xs) [] = refl
  list_cmp_flip (x ∷ xs) (y ∷ ys) = ground (arith, o.cmp_flip x y, list_cmp_flip xs ys)

  list_cmp_trans : (a b c : List A) → list_cmp a b ≡ lt → list_cmp b c ≡ lt → list_cmp a c ≡ lt
  unfolding list_cmp
  list_cmp_trans [] [] c h k = cc
  list_cmp_trans [] (y ∷ b) [] h k = cc
  list_cmp_trans [] (y ∷ b) (z ∷ c) h k = refl
  list_cmp_trans (x ∷ a) [] c h k = cc
  list_cmp_trans (x ∷ a) (y ∷ b) [] h k = cc
  list_cmp_trans (x ∷ a) (y ∷ b) (z ∷ c) h k =
      ground
        (arith, o.cmp_trans x y z, o.cmp_eq x y, o.cmp_eq y z, o.cmp_refl x, list_cmp_trans a b c)

  instance unfoldable pub list_ord : Ord (List A)
  unfolding list_cmp list_cmp_refl list_cmp_eq list_cmp_flip list_cmp_trans
  list_ord = record {
    cmp = list_cmp;
    cmp_refl = list_cmp_refl;
    cmp_eq = list_cmp_eq;
    cmp_flip = list_cmp_flip;
    cmp_trans = list_cmp_trans;
  }

  -- `None` first. Python orders `None` against no text, and the callers below see to that.
  abbrev option_cmp : Option A → Option A → Ordering
  option_cmp none none = eq
  option_cmp none (some b) = lt
  option_cmp (some a) none = gt
  option_cmp (some a) (some b) = o.cmp a b

  option_cmp_refl : (a : Option A) → option_cmp a a ≡ eq
  option_cmp_refl none = refl
  option_cmp_refl (some a) = o.cmp_refl a

  option_cmp_eq : (a b : Option A) → option_cmp a b ≡ eq → a ≡ b
  option_cmp_eq none none h = refl
  option_cmp_eq none (some b) h = cc
  option_cmp_eq (some a) none h = cc
  option_cmp_eq (some a) (some b) h = ap some (o.cmp_eq a b h)

  option_cmp_flip : (a b : Option A) → option_cmp b a ≡ flip (option_cmp a b)
  option_cmp_flip none none = refl
  option_cmp_flip none (some b) = refl
  option_cmp_flip (some a) none = refl
  option_cmp_flip (some a) (some b) = o.cmp_flip a b

  option_cmp_trans :
      (a b c : Option A) → option_cmp a b ≡ lt → option_cmp b c ≡ lt → option_cmp a c ≡ lt
  option_cmp_trans none none c h k = cc
  option_cmp_trans none (some b) none h k = cc
  option_cmp_trans none (some b) (some c) h k = refl
  option_cmp_trans (some a) none c h k = cc
  option_cmp_trans (some a) (some b) none h k = cc
  option_cmp_trans (some a) (some b) (some c) h k = o.cmp_trans a b c h k

  instance unfoldable pub option_ord : Ord (Option A)
  unfolding option_cmp_refl option_cmp_eq option_cmp_flip option_cmp_trans
  option_ord = record {
    cmp = option_cmp;
    cmp_refl = option_cmp_refl;
    cmp_eq = option_cmp_eq;
    cmp_flip = option_cmp_flip;
    cmp_trans = option_cmp_trans;
  }

module _ {A B : Type 0} ⦃o : Ord A⦄ ⦃p : Ord B⦄ where
  abbrev pair_cmp : A × B → A × B → Ordering
  pair_cmp (a, b) (c, d) = and_then (o.cmp a c) (p.cmp b d)

  pair_cmp_refl : (s : A × B) → pair_cmp s s ≡ eq
  pair_cmp_refl (a, b) = ground (arith, o.cmp_refl a, p.cmp_refl b)

  pair_cmp_eq : (s t : A × B) → pair_cmp s t ≡ eq → s ≡ t
  pair_cmp_eq (a, b) (c, d) h = ground (arith, o.cmp_eq a c, p.cmp_eq b d)

  pair_cmp_flip : (s t : A × B) → pair_cmp t s ≡ flip (pair_cmp s t)
  pair_cmp_flip (a, b) (c, d) = ground (arith, o.cmp_flip a c, p.cmp_flip b d)

  pair_cmp_trans : (s t u : A × B) → pair_cmp s t ≡ lt → pair_cmp t u ≡ lt → pair_cmp s u ≡ lt
  pair_cmp_trans (a, b) (c, d) (e, f) h k =
      ground (arith, o.cmp_trans a c e, o.cmp_eq a c, o.cmp_eq c e, o.cmp_refl a, p.cmp_trans b d f)

  -- Tuples are compared from the left.
  instance unfoldable pub pair_ord : Ord (A × B)
  unfolding pair_cmp_refl pair_cmp_eq pair_cmp_flip pair_cmp_trans
  pair_ord = record {
    cmp = pair_cmp;
    cmp_refl = pair_cmp_refl;
    cmp_eq = pair_cmp_eq;
    cmp_flip = pair_cmp_flip;
    cmp_trans = pair_cmp_trans;
  }

module _ {A : Type 0} ⦃o : Ord A⦄ where
  -- `a <= b` and `a < b`
  abbrev pub le : A → A → Bool
  le a b = elim (o.cmp a b) [ gt ↦ false | _ ↦ true ]

  abbrev pub less : A → A → Bool
  less a b = elim (o.cmp a b) [ lt ↦ true | _ ↦ false ]

  pub le_total : (a b : A) → le a b ≡ false → le b a ≡ true
  le_total a b h = ground (arith, o.cmp_flip a b)

  pub le_trans : (a b c : A) → le a b ≡ true → le b c ≡ true → le a c ≡ true
  le_trans a b c h k = ground (arith, o.cmp_trans a b c, o.cmp_eq a b, o.cmp_eq b c, o.cmp_refl a)

  pub le_antisym : (a b : A) → le a b ≡ true → le b a ≡ true → a ≡ b
  le_antisym a b h k = ground (arith, o.cmp_flip a b, o.cmp_eq a b)

  pub le_refl : (a : A) → le a a ≡ true
  le_refl a = ground (arith, o.cmp_refl a)

  pub less_trans : (a b c : A) → less a b ≡ true → less b c ≡ true → less a c ≡ true
  less_trans a b c h k = ground (arith, o.cmp_trans a b c)

  pub le_of_less : (a b : A) → less a b ≡ true → le a b ≡ true
  le_of_less a b h = ground arith

module _ {A : Type 0} ⦃o : Ord A⦄ ⦃e : Eq A⦄ where
  pub less_of_le : (a b : A) → le a b ≡ true → (a == b) ≡ false → less a b ≡ true
  less_of_le a b h k = ground (arith, o.cmp_eq a b)

  pub less-ne : (a b : A) → less a b ≡ true → (a == b) ≡ false
  less-ne a b h = ground (arith, o.cmp_refl a)

-- Opens every order of this file, for a test by evaluation.
unfoldable pub orders : Unit {0}
unfolding nat_ord bool_ord list_ord option_ord pair_ord
orders = tt
