-- ===== src/Gomod/TagTests.antt =====
-- Runs of the search for a version, with one-digit versions in the place of semantic ones.
use cachito.Base.{
  ℕ, ◌≡◌, refl, ◌⊎◌, true, false, Option, none, some, List, [], ◌∷◌, ◌-◌, contains, nat_eq, list_eq,
  ltb, arith, if◌then◌else◌, equalities,
}
use cachito.Base.Text.{Text, text, is_digit, rpartition, lstrip, starts_with}
use cachito.Gomod.Tags.{
  Semver, Commit, get_highest_semver_tag, version_with_major, get_golang_version,
}
use cachito.Gomod.HighestTag.{IsOrder, related, IsHighest, get_highest_semver_tag_lem}

abbrev one_digit : Text → Option ℕ
one_digit [] = none
one_digit (c ∷ []) = if is_digit c then some (c - b'0') else none
one_digit (c ∷ d ∷ s) = none

abbrev digit : ℕ → Option ℕ
digit c = if is_digit c then some (c - b'0') else none

abbrev digits : Semver
digits = record {
  Version = ℕ;
  parse = one_digit;
  major = λ v. 1;
  greater = λ v w. ltb w v;
  has_prerelease = λ v. false;
  bump_patch = λ v. v;
  show = λ v. text "1.0.0";
}

digits-IsOrder : IsOrder digits
digits-IsOrder = record { asym = λ v w h. ground arith; trans = λ u v w h k. ground arith }

abbrev tags : List Text
tags = text "v1" ∷ text "x9" ∷ text "v3" ∷ text "vv" ∷ text "v2" ∷ []

third : get_highest_semver_tag digits tags 1 none ≡ some (text "v3")
unfolding get_highest_semver_tag starts_with equalities
third = refl

abbrev commit : Commit
commit = record { timestamp = text "20240102030405"; hexsha = text "0123456789abcdef" }

tagged : get_golang_version digits digit tags [] commit (text "a/b") none ≡ some (text "v3")
unfolding get_golang_version rpartition starts_with equalities
tagged = refl

based :
    get_golang_version digits digit [] tags commit (text "a/b") none
    ≡ some (text "v1.0.0-0.20240102030405-0123456789ab")
unfolding get_golang_version rpartition starts_with equalities
based = refl

untagged :
    get_golang_version digits digit [] tags commit (text "a/b/v02") none
    ≡ some (text "v2.0.0-20240102030405-0123456789ab")
unfolding get_golang_version rpartition lstrip starts_with equalities
untagged = refl

get_highest_semver_tag_lem_example :
    ((get_highest_semver_tag digits tags 1 none ≡ none)
      × ((u : Text)
          → contains (related digits digits-IsOrder 1 none tags) u ≡ true
          → version_with_major digits 1 none u ≡ none))
    ⊎ ((t : Text) × (get_highest_semver_tag digits tags 1 none ≡ some t)
        × IsHighest digits digits-IsOrder 1 none tags t)
get_highest_semver_tag_lem_example = get_highest_semver_tag_lem digits digits-IsOrder 1 none tags
