-- ===== src/Requests/Tests.antt =====
-- Runs of the states and of `patch_request`, and the theorems about them at concrete data.
use cachito.Base.{
  ◌≡◌, ◌≢◌, refl, true, false, none, some, [], ◌∷◌, ◌++◌, any, equalities, ◌==◌, nat_eq, inl, inr,
  some-injective, subst, Bool-cases,
}
use cachito.Base.Text.{Text, text}
use cachito.Base.Dict.{lookup}
use cachito.Base.Json.{Fields, end, field, str, obj, get}
use cachito.Requests.{
  RequestState, State, in_progress, complete, failed, stale, States, state_name, state_of_name, ok,
  add_state,
}
use cachito.Requests.History.{
  Step, finish, IsHistory, created, entered, add_state_lem, add_states,
  add_states-created-IsHistory,
}
use cachito.Requests.Patch.{
  Request, Volume, Table, gauge_inc, gauge_dec, commit, unlink_bundle, remove_logs,
  schedule_cleanup, sets_state, patch, patch_request, client, fails, set_error, update_row,
  origin_of_name, unknown_origin, error_exists, add_env_vars,
}
use cachito.Requests.Patch.Twice.{patch_twice}
use cachito.Requests.Patch.Cleanup.{removes, is_unlink, patch-removes}
use cachito.Requests.Patch.Rows.{InOrder, OthersKept, patch_request-InOrder}

abbrev done : RequestState
done = record { state = complete; state_reason = text "Completed successfully" }

abbrev done_states : States
done_states = record { state = some done; states = created.states ++ done ∷ [] }

abbrev done_request : Request
done_request = record {
  history = done_states;
  pkg_managers = text "npm" ∷ text "gomod" ∷ [];
  environment_variables = [];
  error = none;
  packages_count = none;
  dependencies_count = none;
}

-- The payload of the clean-up job.
abbrev expired : Fields
expired =
    field (text "state") (str (text "stale"))
      (field (text "state_reason") (str (text "The request has expired")) end)

abbrev volume : Volume
volume = record { archive = true; temp = false }

expired_effects :
    (patch volume expired done_request).effects
    ≡ gauge_inc (text "stale")
      ∷ gauge_dec (text "complete")
      ∷ commit
      ∷ unlink_bundle
      ∷ remove_logs
      ∷ schedule_cleanup (text "npm")
      ∷ []
unfolding patch add_state state_name get set_error update_row add_env_vars equalities
expired_effects = refl

expired_raised : (patch volume expired done_request).raised ≡ none
unfolding patch add_state state_name get set_error update_row add_env_vars equalities
expired_raised = refl

expired-removes : any removes (patch volume expired done_request).effects ≡ true
unfolding patch add_state state_name get set_error update_row add_env_vars equalities
expired-removes = refl

add_state_lem_example :
    ((t : State)
      → Step complete t
      → add_state done_states (state_name t) (text "old") ≡ ok (entered done_states t (text "old")))
    × ((name : Text) (r' : States)
        → add_state done_states name (text "old") ≡ ok r'
        → (t : State) × (state_of_name name ≡ some t)
          × Step complete t
          × (r' ≡ entered done_states t (text "old")))
add_state_lem_example = add_state_lem done_states done (text "old") refl

add_states-created-IsHistory_example :
    IsHistory (add_states created ((text "complete", text "") ∷ (text "failed", text "") ∷ []))
add_states-created-IsHistory_example =
    add_states-created-IsHistory ((text "complete", text "") ∷ (text "failed", text "") ∷ [])

-- A request that fails, with its error.
abbrev running : Request
running = record done_request { history = created }

abbrev fetch_failed : Fields
fetch_failed = field (text "state") (str (text "failed")) (
    field (text "state_reason") (str (text "Cloning failed")) (
      field (text "error_origin") (str (text "client"))
        (field (text "error_type") (str (text "GitError")) end)))

abbrev failed_request : Request
failed_request = record running {
  history = entered created failed (text "Cloning failed");
  error =
      some
        (record { origin = client; error_type = text "GitError"; message = text "Cloning failed" });
}

fetch_failed_request : (patch volume fetch_failed running).request ≡ failed_request
unfolding patch add_state state_name get update_row set_error origin_of_name add_env_vars equalities
fetch_failed_request = refl

fetch_failed_raised : (patch volume fetch_failed running).raised ≡ none
unfolding patch add_state state_name get set_error origin_of_name equalities
fetch_failed_raised = refl

-- An origin that the enumeration does not have.
odd_origin :
    (set_error
      (field (text "state") (str (text "failed")) (
        field
          (text "error_origin")
          (str (text "nobody"))
          (field (text "error_type") (str (text "GitError")) end)))
      running).1
    ≡ some unknown_origin
unfolding set_error origin_of_name get equalities
odd_origin = refl

patch_twice_example :
    let once = (patch volume fetch_failed running).request in
    ((patch volume fetch_failed once).request ≡ once)
    × (fails fetch_failed ≡ false → (patch volume fetch_failed once).raised ≡ none)
    × (fails fetch_failed ≡ true → (patch volume fetch_failed once).raised ≡ some error_exists)
patch_twice_example = patch_twice volume fetch_failed running fetch_failed_raised

patch-removes_example :
    (sets_state expired ≡ true)
    × ((patch volume expired done_request).raised ≡ none)
    × ((old : RequestState) × (s : RequestState) × (done_request.history.state ≡ some old)
        × ((patch volume expired done_request).request.history.state ≡ some s)
        × (s.state ≢ in_progress)
        × (any is_unlink (patch volume expired done_request).effects ≡ true
            → (s.state ≡ stale) × (volume.archive ≡ true) × (old.state ≢ failed)))
patch-removes_example = patch-removes volume expired done_request expired-removes

done-IsHistory : IsHistory done_states
done-IsHistory = (refl, (finish, tt), refl)

abbrev rows : Table
rows = (7, done_request) ∷ []

rows-InOrder : InOrder rows
unfolding lookup
rows-InOrder k r e = elim (Bool-cases (k == 7)) [
  | inl here ↦
      subst (λ (x : Request). IsHistory x.history)
        (some-injective done_request r (rw (here, lookup) at e)) done-IsHistory
  | inr there ↦ cc (rw (there, lookup) at e)
]

patch_request-InOrder_example :
    InOrder (patch_request volume rows 7 (obj expired)).0
    × OthersKept volume rows 7 (patch_request volume rows 7 (obj expired)).0
patch_request-InOrder_example = patch_request-InOrder volume rows 7 (obj expired) rows-InOrder
