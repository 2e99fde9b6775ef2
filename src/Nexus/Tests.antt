-- ===== src/Nexus/Tests.antt =====
-- The search on concrete input, and the witnesses.
use cachito.Base.{
  ℕ, zero, suc, arith, ◌+◌, ◌*◌, ◌-◌, ◌≤◌, ◌≡◌, refl, true, false, not, none, some, [], ◌∷◌, ◌==◌,
  bool_eq,
}
use cachito.Base.Text.{Text, text}
use cachito.Base.Result.{ok, err}
use cachito.Nexus.{
  Component, Answer, page, no_connection, network_error, search_pages, search_components, pow2,
  attempt, get_component_info_from_nexus,
}
use cachito.Nexus.Paging.{search_components_lem}
use cachito.Nexus.Attempts.{sum, AllEmpty, FindsFirst, get_component_info_lem}

abbrev lib : Component
lib = record { group = []; rest = text "lib" }

-- The component is there at the third attempt, on the second page.
abbrev late : ℕ → Text → Answer
late (suc (suc zero)) [] = page [] (text "next")
late (suc (suc zero)) token = page (lib ∷ []) []
late n token = page [] []

found_late :
    get_component_info_from_nexus 5 late false true true 5 ≡ some (ok (some lib, 3 ∷ 4 ∷ []))
unfolding get_component_info_from_nexus attempt search_components search_pages bool_eq
found_late = refl

unreachable :
    get_component_info_from_nexus 5 (λ n token. no_connection) true false true 5
    ≡ some (err network_error)
unfolding get_component_info_from_nexus attempt search_components search_pages bool_eq
unreachable = refl

get_component_info_lem_example :
    (1 ≤ 5)
    × ((not true == false) ≡ true)
    × (some lib ≡ none → AllEmpty (λ n. search_components 5 (late n)) true 5 0)
    × ((c : Component)
        → some lib ≡ some c
        → FindsFirst (λ n. search_components 5 (late n)) true c 5 0)
    × (sum (3 ∷ 4 ∷ []) + 3 ≤ 2 * 5 + pow2 (5 - 1))
unfolding get_component_info_from_nexus attempt search_components search_pages bool_eq
get_component_info_lem_example =
    get_component_info_lem 5 late false true true 5 (some lib) (3 ∷ 4 ∷ []) refl

search_components_lem_example : search_components 5 (late 2) ≡ some (ok (lib ∷ []))
search_components_lem_example =
    search_components_lem 5 (late 2) [] ((lib ∷ []) ∷ []) (omega arith)
      (text "next", refl, refl, ([], refl, refl))
