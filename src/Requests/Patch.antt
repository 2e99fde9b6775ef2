-- ===== src/Requests/Patch.antt =====
-- `patch_request` of cachito/web/api_v1.py: the one way in which the workers change a request.
-- What it does outside the database is a list of effects, in order.
pub mod Atomic
pub mod Cleanup
pub mod Rows
pub mod Twice
use native.Mathlib.Decide.{ℕ_discrete}
use cachito.Base.{
  ℕ, ◌≡◌, Bool, true, false, not, ◌&&◌, ◌||◌, Option, none, some, List, [], ◌∷◌, ◌++◌, map, Eq,
  ◌==◌, contains, nat_eq, list_eq, option_eq, if◌then◌else◌, filter, all,
}
use cachito.Base.Text.{Text, text, is_empty}
use cachito.Base.Dict.{Dict, lookup, insert, is_some}
use cachito.Base.Json.{Json, obj, str, is_str, is_int, Fields, end, field, get, keys, has}
use cachito.Requests.{
  RequestState, State, States, state_name, add_state, ok, invalid_state, transition_not_allowed,
}

pub record EnvVar : Type 0 where
  pub name : Text
  pub value : Text
  pub kind : Text

pub EnvVar-discrete : Discrete EnvVar
EnvVar-discrete = hlevel ℕ_discrete

instance unfoldable pub env_var_eq : Eq EnvVar
unfolding EnvVar-discrete
env_var_eq = record { dec = EnvVar-discrete }

pub data RequestErrorOrigin : Type 0 where
  client server : RequestErrorOrigin

-- The member of the enumeration that a text names, which the column of `origin` asks for.
unfoldable pub origin_of_name : Text → Option RequestErrorOrigin
origin_of_name name =
    if name == text "client"
    then some client
    else if name == text "server"
    then some server
    else none

-- The row of a request's error, of which the table has at most one for each request.
pub record RequestError : Type 0 where
  pub origin : RequestErrorOrigin
  pub error_type : Text
  pub message : Text

pub record Request : Type 0 where
  pub history : States
  pub open history use *
  pub pkg_managers : List Text
  pub environment_variables : List EnvVar
  pub error : Option RequestError
  pub packages_count : Option Json
  pub dependencies_count : Option Json

pub data PatchError : Type 0 where
  not_an_object no_keys invalid_keys : PatchError
  env_vars_not_an_object env_info_not_an_object env_missing_keys env_invalid_keys : PatchError
  env_value_not_a_string env_kind_not_a_string env_kind_unsupported : PatchError
  count_not_an_integer not_a_string state_reason_required state_required : PatchError
  not_found state_invalid transition_refused : PatchError
  -- `request.state` is `None` where its name is read.
  attribute_error : PatchError
  -- The database refuses the error's origin, or a second error of the request.
  unknown_origin error_exists : PatchError

-- The exception of a check, none where it passes.
abbrev pub Check : Type 0
Check = Option PatchError

abbrev pub raises_if : Bool → PatchError → Check
raises_if b e = if b then some e else none

infixr 20 ◌then_check◌
abbrev pub ◌then_check◌ : Check → Check → Check
◌then_check◌ none c = c
◌then_check◌ (some e) c = some e

abbrev pub text_at : Text → Fields → Text
text_at k fs = elim (get k fs) [ some v ↦ text_of v | none ↦ [] ]
  where
    text_of : Json → Text
    text_of (str s) = s
    text_of _ = []

abbrev is_str_at : Text → Fields → Bool
is_str_at k fs = elim (get k fs) [ none ↦ false | some v ↦ is_str v ]

abbrev env_keys : List Text
env_keys = text "value" ∷ text "kind" ∷ []

-- `EnvironmentVariable.validate_json`; the name is the key of a JSON object, so it is a string.
validate_env_info : Fields → Check
validate_env_info info =
    raises_if (not (all (λ k. has k info) env_keys)) env_missing_keys
    then_check raises_if (not (all (contains env_keys) (keys info))) env_invalid_keys
    then_check raises_if (not (is_str_at (text "value") info)) env_value_not_a_string
    then_check raises_if (not (is_str_at (text "kind") info)) env_kind_not_a_string
    then_check raises_if
        (not (contains (text "path" ∷ text "literal" ∷ []) (text_at (text "kind") info)))
        env_kind_unsupported

unfoldable pub validate_json : Json → Check
unfolding validate_env_info
validate_json (obj info) = validate_env_info info
validate_json _ = some env_info_not_an_object

validate_env_vars : Fields → Check
unfolding validate_json
validate_env_vars end = none
validate_env_vars (field name info fs) = validate_json info then_check validate_env_vars fs

validate_env : Json → Check
unfolding validate_env_vars
validate_env (obj fs) = validate_env_vars fs
validate_env _ = some env_vars_not_an_object

-- The loop over `payload.items()`.
validate_value : Text → Json → Check
unfolding validate_env
validate_value key value =
    if key == text "environment_variables"
    then validate_env value
    else if contains (text "packages_count" ∷ text "dependencies_count" ∷ []) key
    then raises_if (not (is_int value)) count_not_an_integer
    else raises_if (not (is_str value)) not_a_string

validate_values : Fields → Check
unfolding validate_value
validate_values end = none
validate_values (field key value fs) = validate_value key value then_check validate_values fs

abbrev pub valid_keys : List Text
valid_keys =
    text "environment_variables"
    ∷ text "state"
    ∷ text "state_reason"
    ∷ text "packages_count"
    ∷ text "dependencies_count"
    ∷ text "error_origin"
    ∷ text "error_type"
    ∷ []

unfoldable pub validate_payload : Fields → Check
unfolding validate_values
validate_payload payload =
    raises_if (is_empty (keys payload)) no_keys
    then_check raises_if (not (all (contains valid_keys) (keys payload))) invalid_keys
    then_check validate_values payload
    then_check raises_if (has (text "state") payload && not (has (text "state_reason") payload))
        state_reason_required
    then_check raises_if (has (text "state_reason") payload && not (has (text "state") payload))
        state_required

pub data Effect : Type 0 where
  gauge_inc gauge_dec : Text → Effect
  observe_duration commit : Effect
  -- the archive, its checksum and the packages data
  unlink_bundle : Effect
  remove_temp remove_logs : Effect
  schedule_cleanup : Text → Effect

-- What exists on the shared volume when the effects take place.
pub record Volume : Type 0 where
  pub archive : Bool
  pub temp : Bool

pub record Patched : Type 0 where
  pub request : Request
  pub effects : List Effect
  pub raised : Check

-- Whether the payload sets a state.
abbrev pub sets_state : Fields → Bool
sets_state payload = has (text "state") payload && has (text "state_reason") payload

abbrev pub new_state : Fields → Text
new_state = text_at (text "state")

abbrev pub new_reason : Fields → Text
new_reason = text_at (text "state_reason")

state_added : Request → States → Request
state_added request states = record request { history = states }

-- The part of the handler that sets the state, `old` being the current one.
pub change_state : Request → RequestState → Fields → Patched
unfolding state_added
change_state request old payload =
    let gauges = gauge_inc (new_state payload) ∷ gauge_dec (state_name old.state) ∷ [] in
    let observed = if new_state payload == text "complete" then observe_duration ∷ [] else [] in
    if state_name old.state == new_state payload && old.state_reason == new_reason payload
    then record { request = request; effects = gauges; raised = none }
    else elim (add_state request.history (new_state payload) (new_reason payload)) [
      | ok states ↦ record {
        request = state_added request states;
        effects = gauges ++ observed;
        raised = none;
      }
      | invalid_state ↦ record {
        request = request;
        effects = gauges ++ observed;
        raised = some state_invalid;
      }
      | transition_not_allowed s t ↦ record {
        request = request;
        effects = gauges ++ observed;
        raised = some transition_refused;
      }
    ]

-- Whether a `RequestError` is added.
abbrev pub fails : Fields → Bool
fails payload =
    has (text "state") payload
    && new_state payload == text "failed"
    && has (text "error_origin") payload
    && has (text "error_type") payload

abbrev pub error_data : RequestErrorOrigin → Fields → RequestError
error_data origin payload = record {
  origin = origin;
  error_type = text_at (text "error_type") payload;
  message = new_reason payload;
}

-- The error that is there is deleted and the new one added in one flush, which inserts before it
-- deletes, so that the unique `request_id` refuses the new one; what the flush raises stands second.
-- The origin is checked before the statement is sent.
unfoldable pub set_error : Fields → Request → Request × Check
unfolding origin_of_name
set_error payload request =
    if fails payload
    then elim (origin_of_name (text_at (text "error_origin") payload)) [
      | none ↦ (request, some unknown_origin)
      | some origin ↦ elim request.error [
        | some old ↦ (request, some error_exists)
        | none ↦ (record request { error = some (error_data origin payload) }, none)
      ]
    ]
    else (request, none)

-- `environment_variables` rows are unique, so that a row is in the relationship exactly when one of its
-- name, value and kind is.
abbrev env_var : Text → Json → EnvVar
env_var name (obj info) = record {
  name = name;
  value = text_at (text "value") info;
  kind = text_at (text "kind") info;
}
env_var name _ = record { name = name; value = []; kind = [] }

unfoldable pub add_env_vars : Fields → List EnvVar → List EnvVar
add_env_vars end vars = vars
add_env_vars (field name info fs) vars =
    add_env_vars fs
      (if contains vars (env_var name info) then vars else vars ++ env_var name info ∷ [])

abbrev fields_at : Text → Fields → Fields
fields_at k fs = elim (get k fs) [ some v ↦ fields_of v | none ↦ end ]
  where
    fields_of : Json → Fields
    fields_of (obj gs) = gs
    fields_of _ = end

pub set_env_vars : Fields → Request → Request
unfolding add_env_vars
set_env_vars payload request = record request {
  environment_variables =
      add_env_vars (fields_at (text "environment_variables") payload) request.environment_variables;
}

abbrev given : Option Json → Option Json → Option Json
given none old = old
given (some value) old = some value

pub set_counts : Fields → Request → Request
set_counts payload request = record request {
  packages_count = given (get (text "packages_count") payload) request.packages_count;
  dependencies_count = given (get (text "dependencies_count") payload) request.dependencies_count;
}

-- What follows the state, up to the commit.
unfoldable pub update_row : Fields → Request → Request
unfolding set_error set_env_vars set_counts
update_row payload request = set_counts payload (set_env_vars payload (set_error payload request).0)

-- The end of the transaction, after the effects `before`: an exception of a flush leaves the row of
-- the request as it was, and nothing follows it.
unfoldable pub commit_row : Fields → List Effect → List Effect → Request → Request → Patched
unfolding update_row set_error
commit_row payload before after request changed = elim (set_error payload changed).1 [
  | some e ↦ record { request = request; effects = before; raised = some e }
  | none ↦ record {
    request = update_row payload changed;
    effects = before ++ commit ∷ after;
    raised = none;
  }
]

-- The flags that are set before the state is, and what they lead to after the commit.
cleanup_managers : Request → Fields → List Text
cleanup_managers request payload =
    if contains (text "stale" ∷ text "failed" ∷ []) (new_state payload)
    then filter (contains request.pkg_managers)
        (text "npm" ∷ text "pip" ∷ text "rubygems" ∷ text "yarn" ∷ [])
    else []

abbrev effect_if : Bool → Effect → List Effect
effect_if b e = if b then e ∷ [] else []

unfoldable pub cleanup : Volume → Request → RequestState → Fields → List Effect
unfolding cleanup_managers
cleanup v request old payload =
    let s = new_state payload in
    effect_if (s == text "stale" && not (state_name old.state == text "failed") && v.archive)
      unlink_bundle
    ++ (effect_if (contains (text "complete" ∷ text "failed" ∷ text "stale" ∷ []) s && v.temp)
          remove_temp
        ++ (effect_if (s == text "stale") remove_logs
            ++ map schedule_cleanup (cleanup_managers request payload)))

pub patch_state : Volume → Fields → Request → RequestState → Patched
unfolding change_state commit_row cleanup
patch_state v payload request old =
    let changed = change_state request old payload in
    elim changed.raised [
      | some e ↦ record { request = request; effects = changed.effects; raised = some e }
      | none ↦
          commit_row payload changed.effects (cleanup v request old payload) request changed.request
    ]

-- A validated payload on a request that was found. An exception leaves the row as it was, since nothing
-- is committed.
unfoldable pub patch : Volume → Fields → Request → Patched
unfolding patch_state commit_row
patch v payload request =
    if sets_state payload
    then elim request.history.state [
      | none ↦ record {
        request = request;
        effects = gauge_inc (new_state payload) ∷ [];
        raised = some attribute_error;
      }
      | some old ↦ patch_state v payload request old
    ]
    else commit_row payload [] [] request request

abbrev pub Table : Type 0
Table = Dict ℕ Request

-- The handler, on the table of requests.
unfoldable pub patch_request : Volume → Table → ℕ → Json → Table × List Effect × Check
unfolding validate_payload patch
patch_request v rows request_id (obj payload) = elim (validate_payload payload) [
  | some e ↦ (rows, [], some e)
  | none ↦ elim (lookup request_id rows) [
    | none ↦ (rows, [], some not_found)
    | some request ↦
        let p = patch v payload request in (insert request_id p.request rows, p.effects, p.raised)
  ]
]
patch_request v rows request_id _ = (rows, [], some not_an_object)
