-- ===== src/Cleanup.antt =====
-- The job that marks expired requests as stale: cachito/workers/cleanup_job.py.
-- The API's answers are a function of the URL and of the request's id; the time of `updated` is
-- read by a function `parse` in microseconds, none being the `ValueError` of `strptime`.
pub mod Paging
pub mod Expiry
pub mod Tests
use cachito.Base.{
  ℕ, zero, suc, ◌+◌, ◌*◌, Bool, true, false, Option, none, some, List, [], ◌∷◌, ◌++◌, ◌==◌,
  contains, nat_eq, list_eq, if◌then◌else◌, ltb,
}
use cachito.Base.Text.{Text, text}
use cachito.Base.Dict.{Dict, values, insert}

pub record Request : Type 0 where
  pub id : ℕ
  pub state : Text
  pub updated : Text

-- `session.get`: the connection fails, the status is not ok, or a page with the next URL.
pub data Page : Type 0 where
  connection_failed : Page
  not_ok : Page
  page : List Request → Option Text → Page

-- How a search for requests ends; `pending` is a search that needs more fuel.
pub data Search : Type 0 where
  found : List Request → Search
  network_error : Search
  pending : Search

-- The body of the comprehension that removes duplicates: the last one of an id stays.
unfoldable pub index_by_id : Dict ℕ Request → List Request → Dict ℕ Request
index_by_id d [] = d
index_by_id d (r ∷ rs) = index_by_id (insert r.id r d) rs

unfoldable pub deduplicated : List Request → List Request
unfolding index_by_id
deduplicated rs = values (index_by_id [] rs)

-- What one round of the loop does with the answer, given the rounds after it.
unfoldable pub on_page : (Option Text → List Request → Search) → List Request → Page → Search
on_page next_rounds requests connection_failed = network_error
on_page next_rounds requests not_ok = network_error
on_page next_rounds requests (page items next) = next_rounds next (requests ++ items)

-- The loop over the pages; each page takes one unit of fuel. The state's name is part of `get`.
unfoldable pub find_pages : (Text → Page) → ℕ → Option Text → List Request → Search
unfolding deduplicated on_page
find_pages get fuel none requests = found (deduplicated requests)
find_pages get zero (some url) requests = pending
find_pages get (suc fuel) (some url) requests = on_page (find_pages get fuel) requests (get url)

unfoldable pub find_all_requests_in_state : (Text → Page) → ℕ → Text → Search
unfolding find_pages
find_all_requests_in_state get fuel url = find_pages get fuel (some url) []

-- `auth_session.patch`: a response that is not ok is only logged.
pub data Reply : Type 0 where
  unreachable : Reply
  answered : Bool → Reply

pub record Settings : Type 0 where
  pub request_lifetime : ℕ
  pub request_lifetime_failed : ℕ

-- One day in microseconds.
abbrev pub day : ℕ
day = 24 * 60 * 60 * 1000000

abbrev pub lifetime : Settings → Text → ℕ
lifetime config state =
    if state == text "failed" then config.request_lifetime_failed else config.request_lifetime

-- `current_time - date_time_obj > timedelta(lifetime)`
abbrev pub is_expired : Settings → ℕ → Text → ℕ → Bool
is_expired config current_time state updated =
    ltb (updated + lifetime config state * day) current_time

abbrev pub states : List Text
states = text "complete" ∷ text "in_progress" ∷ text "failed" ∷ []

-- What the loop did: the ids it sent the state `stale` for, and whether an exception ended it.
pub record Marked : Type 0 where
  pub patched : List ℕ
  pub raised : Bool

-- The loop of `identify_and_mark_stale_requests`, with what was marked so far.
unfoldable pub identify_and_mark_stale_requests :
    (ℕ → Reply) → (Text → Option ℕ) → Settings → ℕ → List ℕ → List Request → Marked
identify_and_mark_stale_requests patch parse config current_time done [] = record {
  patched = done;
  raised = false;
}
identify_and_mark_stale_requests patch parse config current_time done (r ∷ rs) =
    let skipped = identify_and_mark_stale_requests patch parse config current_time done rs in
    let going_on =
      identify_and_mark_stale_requests patch parse config current_time (done ++ r.id ∷ []) rs in
    let stopped : Marked = record { patched = done ++ r.id ∷ []; raised = true } in
    let marked : Marked = elim (patch r.id) [ unreachable ↦ stopped | answered ok ↦ going_on ] in
    let checked : Marked = elim (parse r.updated) [
      | none ↦ record { patched = done; raised = true }
      | some updated ↦ if is_expired config current_time r.state updated then marked else skipped
    ] in
    if contains states r.state then checked else skipped

-- The loop of `main`: the answers and the time are those at each state. None is a search that needs
-- more fuel.
unfoldable pub mark_states :
    (Text → Text → Page)
    → (ℕ → Reply)
    → (Text → Option ℕ)
    → Settings
    → (Text → ℕ)
    → ℕ
    → Text
    → List ℕ
    → List Text
    → Option Marked
unfolding find_all_requests_in_state identify_and_mark_stale_requests
mark_states get patch parse config now fuel url done [] =
    some (record { patched = done; raised = false })
mark_states get patch parse config now fuel url done (s ∷ ss) =
    elim (find_all_requests_in_state (get s) fuel url) [
      | pending ↦ none
      | network_error ↦ some (record { patched = done; raised = true })
      | found rs ↦
          let m = identify_and_mark_stale_requests patch parse config (now s) done rs in
          let rest = mark_states get patch parse config now fuel url m.patched ss in
          if m.raised then some m else rest
    ]

unfoldable pub main :
    (Text → Text → Page)
    → (ℕ → Reply)
    → (Text → Option ℕ)
    → Settings
    → (Text → ℕ)
    → ℕ
    → Text
    → Option Marked
unfolding mark_states
main get patch parse config now fuel url = mark_states get patch parse config now fuel url [] states
