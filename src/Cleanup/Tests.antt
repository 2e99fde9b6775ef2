-- ===== src/Cleanup/Tests.antt =====
-- A run of the clean-up job, and the theorems about it at concrete data.
use cachito.Base.{
  ℕ, ◌*◌, ◌≡◌, refl, ◌==◌, Bool, true, false, Option, none, some, List, [], ◌∷◌, ◌++◌, nat_eq,
  list_eq, map, equalities, IsNodup, All, if◌then◌else◌, arith,
}
use cachito.Base.Text.{Text, text}
use cachito.Base.Dict.{insert}
use cachito.Cleanup.{
  Request, Page, page, Reply, answered, Settings, find_all_requests_in_state, found,
  identify_and_mark_stale_requests, main, day,
}
use cachito.Cleanup.Paging.{next, last, find, last_with, concat, find_all_requests_in_state_lem}
use cachito.Cleanup.Expiry.{
  Readable, stale_ids, IsFound, identify_and_mark_stale_requests_lem, main_lem,
}

-- A request in a state, updated at a time that its text spells by its length.
abbrev request : ℕ → Text → Request
request i s = record { id = i; state = s; updated = [] }

abbrev complete : Text
complete = text "complete"

abbrev old : Request
old = request 7 complete

abbrev first_page : List Request
first_page = request 7 (text "failed") ∷ request 8 complete ∷ []

abbrev get : Text → Page
get url = if is_first url then page first_page (some (text "2")) else page (old ∷ []) none
  where
    is_first : Text → Bool
    is_first [] = true
    is_first (c ∷ cs) = false

abbrev pages : List (List Request)
pages = first_page ∷ (old ∷ []) ∷ []

searched : find_all_requests_in_state get 2 [] ≡ found (old ∷ request 8 complete ∷ [])
unfolding find_all_requests_in_state insert nat_eq
searched = refl

find_all_requests_in_state_lem_example :
    (rs : List Request) × (find_all_requests_in_state get 2 [] ≡ found rs)
    × IsNodup (map (λ r. r.id) rs)
    × ((i : ℕ) → find i rs ≡ last_with none i (concat pages))
find_all_requests_in_state_lem_example =
    find_all_requests_in_state_lem get 2 [] pages (next refl (last refl)) (omega arith)

abbrev config : Settings
config = record { request_lifetime = 1; request_lifetime_failed = 7 }

abbrev patch : ℕ → Reply
patch i = answered (i == 8)

abbrev parse : Text → Option ℕ
parse s = some 0

abbrev candidates : List Request
candidates = old ∷ request 9 (text "failed") ∷ request 10 (text "stale") ∷ []

candidates-Readable : Readable patch parse config candidates
candidates-Readable = ((λ h. (0, refl)), ((λ h. (0, refl)), ((λ h. (0, refl)), tt)))

stale_found : stale_ids patch parse config (2 * day) candidates ≡ 7 ∷ []
unfolding equalities
stale_found = refl

identify_and_mark_stale_requests_lem_example :
    identify_and_mark_stale_requests patch parse config (2 * day) [] candidates
    ≡ record { patched = [] ++ stale_ids patch parse config (2 * day) candidates; raised = false }
identify_and_mark_stale_requests_lem_example =
    identify_and_mark_stale_requests_lem patch parse config (2 * day) [] candidates
      (λ i. (i == 8, refl)) candidates-Readable

-- Each search finds one request, with the state that was asked for.
abbrev one : Text → Text → Page
one s url = page (request 5 s ∷ []) none

twice_stale :
    main one patch parse config (λ s. 2 * day) 1 []
    ≡ some (record { patched = 5 ∷ 5 ∷ []; raised = false })
unfolding main insert equalities
twice_stale = refl

main_lem_example : All (IsFound patch parse config one (λ s. 2 * day) 1 []) (5 ∷ 5 ∷ [])
main_lem_example =
    main_lem patch parse config one (λ s. 2 * day) 1 []
      (record { patched = 5 ∷ 5 ∷ []; raised = false }) twice_stale
