-- ===== src/Nexus.antt =====
-- The search for a component in Nexus: search_components, get_component_info_from_nexus and
-- _treat_raw_component_name of cachito/workers/nexus.py. The answers of Nexus are a parameter, by the
-- number of the attempt and the continuation token. The pages of one search run on fuel, one unit for
-- each page, since Nexus may answer with pages for ever.
pub mod Paging
pub mod Attempts
pub mod Tests
use cachito.Base.{
  ℕ, zero, suc, ◌+◌, Bool, true, false, not, ◌&&◌, Option, none, some, List, [], ◌∷◌, ◌++◌, filter,
  if◌then◌else◌, ltb, drop, ◌==◌, bool_eq,
}
use cachito.Base.Text.{Text, text, is_empty}
use cachito.Base.Result.{Result, ok, err}

-- A component by its group and the rest of its JSON.
pub record Component : Type 0 where
  pub group : Text
  pub rest : Text

-- The answer to a request for a page; the token is empty where the source reads None.
pub data Answer : Type 0 where
  no_connection not_ok : Answer
  page : List Component → Text → Answer

pub data NexusError : Type 0 where
  network_error search_failed more_than_one no_attempts version_mismatch : NexusError

-- None is a search that ran out of fuel.
abbrev pub Outcome : Type 0 → Type 0
Outcome A = Option (Result NexusError A)

abbrev pub then_do {κ} :
    {A : Type 0} {B : Type κ}
    → (A → Option (Result NexusError B))
    → Outcome A
    → Option (Result NexusError B)
then_do f none = none
then_do f (some (err e)) = some (err e)
then_do f (some (ok a)) = f a

unfoldable pub search_pages : ℕ → (Text → Answer) → Text → List Component → Outcome (List Component)
search_pages zero get token items = none
search_pages (suc fuel) get token items = elim (get token) [
  | no_connection ↦ some (err network_error)
  | not_ok ↦ some (err search_failed)
  | page more next ↦
      let rest = search_pages fuel get next (items ++ more) in
      if is_empty next then some (ok (items ++ more)) else rest
]

unfoldable pub search_components : ℕ → (Text → Answer) → Outcome (List Component)
unfolding search_pages
search_components fuel get = search_pages fuel get [] []

abbrev pub pow2 : ℕ → ℕ
pow2 zero = 1
pow2 (suc n) = pow2 n + pow2 n

-- `2 + (2 ** (attempts - 1))`, from the second attempt on.
abbrev pub wait : ℕ → List ℕ
wait zero = []
wait (suc n) = (2 + pow2 n) ∷ []

-- The components without a group, where only those are asked for.
abbrev pub matching : Bool → List Component → List Component
matching null_group components =
    if null_group then filter (λ c. is_empty c.group) components else components

-- The component that is found, and how long each attempt waits.
abbrev pub Found : Type 0
Found = Option Component × List ℕ

abbrev pub waited : List ℕ → Found → Outcome Found
waited ws (found, waits) = some (ok (found, ws ++ waits))

-- What an attempt makes of the components, with what the next one gives.
abbrev pub attempted : ℕ → List Component → Outcome Found → Outcome Found
attempted n [] again = then_do (waited (wait n)) again
attempted n (c ∷ []) again = some (ok (some c, wait n))
attempted n (c ∷ d ∷ cs) again = some (err more_than_one)

-- The loop over the attempts: those that are left, and the number of the next one.
unfoldable pub attempt : (ℕ → Outcome (List Component)) → Bool → ℕ → ℕ → Outcome Found
attempt search null_group zero n = some (ok (none, []))
attempt search null_group (suc left) n =
    let again = attempt search null_group left (suc n) in
    then_do (λ components. attempted n (matching null_group components) again) (search n)

-- The format is raw or not, and the version is given or not.
unfoldable pub get_component_info_from_nexus :
    ℕ → (ℕ → Text → Answer) → Bool → Bool → Bool → ℕ → Outcome Found
unfolding search_components attempt
get_component_info_from_nexus fuel get is_raw has_version null_group max_attempts =
    if ltb max_attempts 1
    then some (err no_attempts)
    else if not has_version == is_raw
    then attempt (λ n. search_components fuel (get n)) null_group max_attempts 0
    else some (err version_mismatch)

-- _treat_raw_component_name
unfoldable pub treat_raw_component_name : Bool → Bool → Text → Bool → Text
treat_raw_component_name hoster_is_orient_db proxy_is_orient_db name is_nexus_hoster =
    if is_nexus_hoster && hoster_is_orient_db
    then drop 1 name
    else if not is_nexus_hoster && proxy_is_orient_db
    then drop 1 name
    else name
