-- ===== src/Requests.antt =====
-- The requests and their states: cachito/web/models.py (RequestStateMapping, Request.add_state).
pub mod History
pub mod Patch
pub mod Tests
use cachito.Base.{
  ℕ, ◌≡◌, Bool, true, false, Option, none, some, List, [], ◌∷◌, ◌++◌, Eq, ◌==◌, contains, nat_eq,
  list_eq, if◌then◌else◌,
}
use cachito.Base.Text.{Text, text}

pub data State : Type 0 where
  in_progress complete failed stale : State

pub State-discrete : Discrete State
State-discrete = hlevel

instance unfoldable pub state_eq : Eq State
unfolding State-discrete
state_eq = record { dec = State-discrete }

unfoldable pub state_name : State → Text
state_name in_progress = text "in_progress"
state_name complete = text "complete"
state_name failed = text "failed"
state_name stale = text "stale"

-- `RequestStateMapping[name]`, none for a `KeyError`.
unfoldable pub state_of_name : Text → Option State
state_of_name name =
    if name == text "in_progress"
    then some in_progress
    else if name == text "complete"
    then some complete
    else if name == text "failed"
    then some failed
    else if name == text "stale"
    then some stale
    else none

-- The states from which each state may be entered.
unfoldable pub allowed_from_states : State → List State
allowed_from_states in_progress = in_progress ∷ []
allowed_from_states complete = in_progress ∷ []
allowed_from_states failed = in_progress ∷ []
allowed_from_states stale = complete ∷ failed ∷ in_progress ∷ []

unfoldable pub allow_transition : State → State → Bool
unfolding allowed_from_states state_eq
allow_transition from_state to_state = contains (allowed_from_states to_state) from_state

pub record RequestState : Type 0 where
  pub state : State
  pub state_reason : Text

-- The part of a `Request` row that its states are kept in: the column `state` and the relationship
-- `states`, oldest first.
pub record States : Type 0 where
  pub state : Option RequestState
  pub states : List RequestState

abbrev pub no_states : States
no_states = record { state = none; states = [] }

-- The two `ValidationError`s of `add_state`.
pub data Added : Type 0 where
  ok : States → Added
  invalid_state : Added
  transition_not_allowed : State → State → Added

enter : State → Text → States → Added
enter new_state reason r =
    let request_state : RequestState = record { state = new_state; state_reason = reason } in
    ok (record { state = some request_state; states = r.states ++ request_state ∷ [] })

add_known : State → Text → Option RequestState → States → Added
unfolding enter allow_transition
add_known new_state reason none r = enter new_state reason r
add_known new_state reason (some s) r =
    if allow_transition s.state new_state
    then enter new_state reason r
    else transition_not_allowed s.state new_state

unfoldable pub add_state : States → Text → Text → Added
unfolding add_known state_of_name
add_state r name reason = elim (state_of_name name) [
  | none ↦ invalid_state
  | some new_state ↦ add_known new_state reason r.state r
]
